-- ===== src/Node/Upsert.antt =====
-- The reference for `put` of node.rs: insertion or replacement in a list with ascending keys.
use boltdb_rs.Base.{
  ℕ, ◌≡◌, ◌↔◌, ◌⊎◌, inl, inr, List, [], ◌∷◌, arith, Option, none, some, if◌then◌else◌, Option-cases,
}
use mathlib.Core.Option
use boltdb_rs.Inode.{Inode, less, equal, greater, compare_bytes, bytes_eq}
use boltdb_rs.Inode.Keys.{
  IsSorted, KeysAbove, KeysAbove-weaken, bytes_eq-compare, compare_bytes_refl, compare_bytes-equal,
  compare_bytes-greater_flip, compare_bytes-less_trans,
}
use boltdb_rs.Inode.Search.{Cmp-cases}

-- The reference: from the front, the place of the first key that is not less. Behind all keys
-- there is none.
unfoldable pub upsert : List ℕ → Inode → List Inode → Option (List Inode)
upsert key new [] = none
upsert key new (n ∷ ns) = elim (compare_bytes n.key key) [
  | less ↦ Option.map (λ ys. n ∷ ys) (upsert key new ns)
  | equal ↦ some (new ∷ ns)
  | greater ↦ some (new ∷ n ∷ ns)
]

-- The inode of a key, by a scan.
unfoldable pub lookup : List ℕ → List Inode → Option Inode
lookup k [] = none
lookup k (n ∷ ns) = if bytes_eq n.key k then some n else lookup k ns

pub lookup-upsert :
    (j : List ℕ) (new : Inode) (xs ys : List Inode)
    → upsert new.key new xs ≡ some ys
    → lookup j ys ≡ (if bytes_eq new.key j then some new else lookup j xs)
unfolding upsert lookup
lookup-upsert j new [] ys h = cc
lookup-upsert j new (n ∷ ns) ys h = elim (Option-cases (upsert new.key new ns)) [
  | inl e ↦ ground (
    arith,
    bytes_eq-compare n.key j,
    bytes_eq-compare new.key j,
    compare_bytes-equal n.key j,
    compare_bytes-equal new.key j,
    compare_bytes-equal n.key new.key,
    compare_bytes_refl j,
  )
  | inr (zs, e) ↦ ground (
    arith,
    lookup-upsert j new ns zs e,
    bytes_eq-compare n.key j,
    bytes_eq-compare new.key j,
    compare_bytes-equal n.key j,
    compare_bytes-equal new.key j,
    compare_bytes-equal n.key new.key,
    compare_bytes_refl j,
  )
]

KeysAbove-upsert :
    (k : List ℕ) (key : List ℕ) (new : Inode) (xs ys : List Inode)
    → compare_bytes k new.key ≡ less
    → KeysAbove k xs
    → upsert key new xs ≡ some ys
    → KeysAbove k ys
unfolding upsert
KeysAbove-upsert k key new [] ys c w h = cc
KeysAbove-upsert k key new (n ∷ ns) ys c w h = elim (Option-cases (upsert key new ns)) [
  | inl e ↦ ground arith
  | inr (zs, e) ↦ ground (arith, KeysAbove-upsert k key new ns zs c w.1 e)
]

pub IsSorted-upsert :
    (new : Inode) (xs ys : List Inode) → IsSorted xs → upsert new.key new xs ≡ some ys → IsSorted ys
unfolding upsert
IsSorted-upsert new [] ys w h = cc
IsSorted-upsert new (n ∷ ns) ys w h = elim (Cmp-cases (compare_bytes n.key new.key)) [
  | inl c ↦ elim (Option-cases (upsert new.key new ns)) [
    | inl e ↦ ground arith
    | inr (zs, e) ↦
        ground
          (arith, IsSorted-upsert new ns zs w.1 e, KeysAbove-upsert n.key new.key new ns zs c w.0 e)
  ]
  | inr (inl c) ↦ ground (arith, compare_bytes-equal n.key new.key c)
  | inr (inr c) ↦ ground (
    arith,
    compare_bytes-greater_flip n.key new.key c,
    KeysAbove-weaken new.key n.key ns (compare_bytes-greater_flip n.key new.key c) w.0,
  )
]

-- Every key lies below the given one.
abbrev pub KeysBelow : List ℕ → List Inode → Type 0
KeysBelow k [] = Unit
KeysBelow k (n ∷ ns) = (compare_bytes n.key k ≡ less) × KeysBelow k ns

pub upsert-none_iff :
    (key : List ℕ) (new : Inode) (xs : List Inode) → (upsert key new xs ≡ none) ↔ KeysBelow key xs
unfolding upsert
upsert-none_iff key new [] = ground arith
upsert-none_iff key new (n ∷ ns) = ground (arith, upsert-none_iff key new ns)

-- An insertion or replacement that has a place leaves the same keys above all others.
pub KeysBelow-upsert :
    (k : List ℕ) (new : Inode) (xs ys : List Inode)
    → upsert new.key new xs ≡ some ys
    → KeysBelow k ys ↔ KeysBelow k xs
unfolding upsert
KeysBelow-upsert k new [] ys h = cc
KeysBelow-upsert k new (n ∷ ns) ys h = elim (Cmp-cases (compare_bytes n.key new.key)) [
  | inl c ↦ elim (Option-cases (upsert new.key new ns)) [
    | inl e ↦ ground arith
    | inr (zs, e) ↦ ground (arith, KeysBelow-upsert k new ns zs e)
  ]
  | inr (inl c) ↦ ground (arith, compare_bytes-equal n.key new.key c)
  | inr (inr c) ↦
      ground (
        arith,
        compare_bytes-greater_flip n.key new.key c,
        compare_bytes-less_trans new.key n.key k,
      )
]

pub KeysBelow-cases : (k : List ℕ) (xs : List Inode) → KeysBelow k xs ⊎ ¬ KeysBelow k xs
KeysBelow-cases k [] = inl tt
KeysBelow-cases k (n ∷ ns) = elim (Cmp-cases (compare_bytes n.key k)) [
  | inl c ↦ elim (KeysBelow-cases k ns) [
    | inl below ↦ inl (c, below)
    | inr within ↦ inr (λ b. within b.1)
  ]
  | inr (inl c) ↦ inr (λ b. cc)
  | inr (inr c) ↦ inr (λ b. cc)
]
