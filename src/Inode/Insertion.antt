-- ===== src/Inode/Insertion.antt =====
-- A search of the inode list in common/inode.rs, followed by an insertion at the index that the
-- search names, as `put` of node.rs is written to do, and by a removal.
use boltdb_rs.Base.{
  ℕ, zero, suc, ◌≤◌, ◌≡◌, refl, ap, ◌∙◌, List, [], ◌∷◌, ◌++◌, arith, ok, length, take, drop, ◌≢◌,
  inl, inr,
}
use boltdb_rs.Inode
use boltdb_rs.Inode.{
  Inode, Found, less, equal, greater, compare_bytes, at, insert_at, binary_search_by,
}
use boltdb_rs.Inode.Keys.{
  IsSorted, KeysAbove, KeysAbove-weaken, compare_bytes_refl, compare_bytes-greater_flip,
}
use boltdb_rs.Inode.Search.{Cmp-cases}
use boltdb_rs.Inode.Scan.{
  shift, linear_search, head_less, head_equal, binary_search_by-linear_search,
}

abbrev inserted : ℕ → Inode → List Inode → List Inode
inserted i x xs = take i xs ++ x ∷ drop i xs

KeysAbove-inserted :
    (k : List ℕ) (i : ℕ) (x : Inode) (xs : List Inode)
    → compare_bytes k x.key ≡ less
    → KeysAbove k xs
    → KeysAbove k (inserted i x xs)
KeysAbove-inserted k zero x xs c w = (c, w)
KeysAbove-inserted k (suc i) x [] c w = (c, tt)
KeysAbove-inserted k (suc i) x (n ∷ ns) c w = (w.0, KeysAbove-inserted k i x ns c w.1)

shift-insert_at : (r : Found) (i : ℕ) → shift r ≡ insert_at (suc i) → r ≡ insert_at i
shift-insert_at (at j) i h = cc
shift-insert_at (insert_at j) i h = ground arith

shift-ne-first : (r : Found) → shift r ≢ insert_at 0
shift-ne-first (at j) = λ h. cc
shift-ne-first (insert_at j) = λ h. ground arith

-- After an insertion where a scan said that the key belongs, the scan finds it there.
abbrev Placed : ℕ → Inode → List Inode → Type 0
Placed i x xs =
    (i ≤ length xs) × IsSorted (inserted i x xs) × (linear_search x.key (inserted i x xs) ≡ at i)

Placed-first : (x : Inode) (xs : List Inode) → KeysAbove x.key xs → IsSorted xs → Placed 0 x xs
Placed-first x xs above w =
    (omega arith, (above, w), head_equal x.key x xs (compare_bytes_refl x.key))

Placed-behind :
    (i : ℕ) (x n : Inode) (ns : List Inode)
    → compare_bytes n.key x.key ≡ less
    → KeysAbove n.key ns
    → Placed i x ns
    → Placed (suc i) x (n ∷ ns)
Placed-behind i x n ns c above (le, sorted, found) = (
  omega arith,
  (KeysAbove-inserted n.key i x ns c above, sorted),
  head_less x.key n (inserted i x ns) c ∙ ap shift found,
)

linear_search-Placed :
    (i : ℕ) (x : Inode) (xs : List Inode)
    → IsSorted xs
    → linear_search x.key xs ≡ insert_at i
    → Placed i x xs
unfolding linear_search
linear_search-Placed zero x [] w h = Placed-first x [] tt tt
linear_search-Placed (suc i) x [] w h = absurd (ground arith)
linear_search-Placed zero x (n ∷ ns) w h = elim (Cmp-cases (compare_bytes n.key x.key)) [
  | inl c ↦ absurd (ground (arith, shift-ne-first (linear_search x.key ns)))
  | inr (inl c) ↦ absurd (ground arith)
  | inr (inr c) ↦
      let less_than = compare_bytes-greater_flip n.key x.key c in
      Placed-first x (n ∷ ns) (less_than, KeysAbove-weaken x.key n.key ns less_than w.0) w
]
linear_search-Placed (suc i) x (n ∷ ns) w h = elim (Cmp-cases (compare_bytes n.key x.key)) [
  | inl c ↦
      Placed-behind i x n ns c w.0 (
        linear_search-Placed i x ns w.1
          (ground (arith, shift-insert_at (linear_search x.key ns) i)))
  | inr (inl c) ↦ absurd (ground arith)
  | inr (inr c) ↦ absurd (ground arith)
]

length-inserted :
    (i : ℕ) (x : Inode) (xs : List Inode)
    → i ≤ length xs
    → length (inserted i x xs) ≡ suc (length xs)
length-inserted zero x xs h = refl
length-inserted (suc i) x [] h = absurd (omega arith)
length-inserted (suc i) x (n ∷ ns) h = ap suc (length-inserted i x ns (omega arith))

cut_inserted :
    (i : ℕ) (x : Inode) (xs : List Inode)
    → i ≤ length xs
    → take i (inserted i x xs) ++ drop (suc i) (inserted i x xs) ≡ xs
cut_inserted zero x xs h = refl
cut_inserted (suc i) x [] h = absurd (omega arith)
cut_inserted (suc i) x (n ∷ ns) h = ap (◌∷◌ n) (cut_inserted i x ns (omega arith))

remove-inserted :
    (i : ℕ) (x : Inode) (xs : List Inode) → i ≤ length xs → Inode.remove i (inserted i x xs) ≡ ok xs
unfolding Inode.remove
remove-inserted i x xs h = ground (arith, length-inserted i x xs h, cut_inserted i x xs h)

-- In a list of ascending keys that does not have the key of an inode, the inode can be inserted
-- at the index that the search reports: the keys still ascend, the search then finds the key at
-- that index, and a removal at that index restores the list.
pub binary_search_by-insert :
    (i : ℕ) (x : Inode) (xs : List Inode)
    → IsSorted xs
    → binary_search_by x.key xs ≡ ok (insert_at i)
    → (ys : List Inode) × (Inode.insert i x xs ≡ ok ys)
      × IsSorted ys
      × (binary_search_by x.key ys ≡ ok (at i))
      × (Inode.remove i ys ≡ ok xs)
unfolding Inode.insert
binary_search_by-insert i x xs w run =
    let (le, sorted, found) =
      linear_search-Placed i x xs w (ground (arith, binary_search_by-linear_search x.key xs w)) in
    (
      inserted i x xs,
      ground arith,
      sorted,
      binary_search_by-linear_search x.key (inserted i x xs) sorted ∙ ap ok found,
      remove-inserted i x xs le,
    )
