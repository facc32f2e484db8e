-- ===== src/Inode/Keys.antt =====
-- The order of keys, and nodes whose keys ascend.
use boltdb_rs.Base.{ℕ, zero, suc, ◌<◌, ◌≡◌, ◌↔◌, refl, true, List, [], ◌∷◌, arith, some, get_elem?}
use boltdb_rs.Inode.{Inode, less, equal, greater, compare_bytes, bytes_eq}

pub compare_bytes_refl : (a : List ℕ) → compare_bytes a a ≡ equal
unfolding compare_bytes
compare_bytes_refl [] = refl
compare_bytes_refl (a ∷ as') = ground (arith, compare_bytes_refl as')

pub compare_bytes-equal : (a b : List ℕ) → compare_bytes a b ≡ equal → a ≡ b
unfolding compare_bytes
compare_bytes-equal [] [] h = refl
compare_bytes-equal [] (b ∷ bs) h = cc
compare_bytes-equal (a ∷ as') [] h = cc
compare_bytes-equal (a ∷ as') (b ∷ bs) h = ground (arith, compare_bytes-equal as' bs)

pub compare_bytes-less_flip :
    (a b : List ℕ) → compare_bytes a b ≡ less → compare_bytes b a ≡ greater
unfolding compare_bytes
compare_bytes-less_flip [] [] h = cc
compare_bytes-less_flip [] (b ∷ bs) h = refl
compare_bytes-less_flip (a ∷ as') [] h = cc
compare_bytes-less_flip (a ∷ as') (b ∷ bs) h = ground (arith, compare_bytes-less_flip as' bs)

pub compare_bytes-greater_flip :
    (a b : List ℕ) → compare_bytes a b ≡ greater → compare_bytes b a ≡ less
unfolding compare_bytes
compare_bytes-greater_flip [] [] h = cc
compare_bytes-greater_flip [] (b ∷ bs) h = cc
compare_bytes-greater_flip (a ∷ as') [] h = refl
compare_bytes-greater_flip (a ∷ as') (b ∷ bs) h = ground (arith, compare_bytes-greater_flip as' bs)

pub compare_bytes-less_trans :
    (a b c : List ℕ)
    → compare_bytes a b ≡ less
    → compare_bytes b c ≡ less
    → compare_bytes a c ≡ less
unfolding compare_bytes
compare_bytes-less_trans [] [] c h k = cc
compare_bytes-less_trans [] (b ∷ bs) [] h k = cc
compare_bytes-less_trans [] (b ∷ bs) (c ∷ cs) h k = refl
compare_bytes-less_trans (a ∷ as') [] c h k = cc
compare_bytes-less_trans (a ∷ as') (b ∷ bs) [] h k = cc
compare_bytes-less_trans (a ∷ as') (b ∷ bs) (c ∷ cs) h k =
    ground (arith, compare_bytes-less_trans as' bs cs)

pub bytes_eq-compare : (a b : List ℕ) → (bytes_eq a b ≡ true) ↔ (compare_bytes a b ≡ equal)
unfolding bytes_eq compare_bytes
bytes_eq-compare [] [] = ground arith
bytes_eq-compare [] (b ∷ bs) = ground arith
bytes_eq-compare (a ∷ as') [] = ground arith
bytes_eq-compare (a ∷ as') (b ∷ bs) = ground (arith, bytes_eq-compare as' bs)

-- Every key lies above the given one.
abbrev pub KeysAbove : List ℕ → List Inode → Type 0
KeysAbove k [] = Unit
KeysAbove k (n ∷ ns) = (compare_bytes k n.key ≡ less) × KeysAbove k ns

-- The keys of a node ascend, with none twice.
abbrev pub IsSorted : List Inode → Type 0
IsSorted [] = Unit
IsSorted (n ∷ ns) = KeysAbove n.key ns × IsSorted ns

pub KeysAbove-weaken :
    (j k : List ℕ) (ns : List Inode) → compare_bytes j k ≡ less → KeysAbove k ns → KeysAbove j ns
KeysAbove-weaken j k [] h w = tt
KeysAbove-weaken j k (n ∷ ns) h w =
    (compare_bytes-less_trans j k n.key h w.0, KeysAbove-weaken j k ns h w.1)

KeysAbove-get_elem? :
    (k : List ℕ) (ns : List Inode) (j : ℕ) (b : Inode)
    → KeysAbove k ns
    → get_elem? ns j ≡ some b
    → compare_bytes k b.key ≡ less
KeysAbove-get_elem? k [] j b w e = cc
KeysAbove-get_elem? k (n ∷ ns) zero b w e = ground arith
KeysAbove-get_elem? k (n ∷ ns) (suc j) b w e = KeysAbove-get_elem? k ns j b w.1 e

pub IsSorted-get_elem? :
    (ns : List Inode) (i j : ℕ) (a b : Inode)
    → IsSorted ns
    → i < j
    → get_elem? ns i ≡ some a
    → get_elem? ns j ≡ some b
    → compare_bytes a.key b.key ≡ less
IsSorted-get_elem? [] i j a b w h e f = cc
IsSorted-get_elem? (n ∷ ns) i zero a b w h e f = absurd (omega arith)
IsSorted-get_elem? (n ∷ ns) zero (suc j) a b w h e f =
    ground (arith, KeysAbove-get_elem? n.key ns j b)
IsSorted-get_elem? (n ∷ ns) (suc i) (suc j) a b w h e f =
    IsSorted-get_elem? ns i j a b w.1 (omega arith) e f
