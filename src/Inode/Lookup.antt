-- ===== src/Inode/Lookup.antt =====
-- A search among the inodes that `read_inode_from_page` of common/inode.rs makes of a page.
use boltdb_rs.Base.{
  ℕ, zero, suc, ◌%◌, ◌<◌, ◌≡◌, ◌↔◌, refl, ap, ◌∙◌, List, [], ◌∷◌, arith, some, ok, ◌>>=◌, length,
  get_elem?, subst,
}
use boltdb_rs.Flags.{Bitflags}
use boltdb_rs.Page.{Page, is_leaf_page}
use boltdb_rs.Page.Load.{HasElements}
use boltdb_rs.Inode.{Inode, less, compare_bytes, at, binary_search_by}
use boltdb_rs.Inode.Codec.{read_inode_from_page}
use boltdb_rs.Inode.Keys.{IsSorted, KeysAbove, compare_bytes_refl, IsSorted-get_elem?}
use boltdb_rs.Inode.Search.{Answers, get_elem?-lt, binary_search_by-Answers}
use boltdb_rs.Inode.Scan.{
  linear_search, head_less, head_equal, shift, binary_search_by-linear_search,
}
use boltdb_rs.Inode.Reading.{Readable, inode_at, read_inode_from_page-inode_at}

KeysAbove-of_indices :
    (k : List ℕ) (xs : List Inode)
    → ((j : ℕ) (b : Inode) → get_elem? xs j ≡ some b → compare_bytes k b.key ≡ less)
    → KeysAbove k xs
KeysAbove-of_indices k [] f = tt
KeysAbove-of_indices k (x ∷ xs) f = (f 0 x refl, KeysAbove-of_indices k xs (λ j b e. f (suc j) b e))

IsSorted-of_indices :
    (xs : List Inode)
    → ((i j : ℕ) (a b : Inode)
        → i < j
        → get_elem? xs i ≡ some a
        → get_elem? xs j ≡ some b
        → compare_bytes a.key b.key ≡ less)
    → IsSorted xs
IsSorted-of_indices [] f = tt
IsSorted-of_indices (x ∷ xs) f = (
  KeysAbove-of_indices x.key xs (λ j b e. f 0 (suc j) x b (omega arith) refl e),
  IsSorted-of_indices xs (λ i j a b h. f (suc i) (suc j) a b (omega arith)),
)

-- On a sorted list the scan finds the key of each inode at its index.
linear_search-get_elem? :
    (xs : List Inode) (i : ℕ) (a : Inode)
    → IsSorted xs
    → get_elem? xs i ≡ some a
    → linear_search a.key xs ≡ at i
linear_search-get_elem? [] i a w e = cc
linear_search-get_elem? (x ∷ xs) zero a w e = cc (head_equal x.key x xs (compare_bytes_refl x.key))
linear_search-get_elem? (x ∷ xs) (suc i) a w e =
    head_less a.key x xs (IsSorted-get_elem? (x ∷ xs) 0 (suc i) x a w (omega arith) refl e)
    ∙ ap shift (linear_search-get_elem? xs i a w.1 e)

found_key :
    (key : List ℕ) (xs : List Inode) (i : ℕ)
    → binary_search_by key xs ≡ ok (at i)
    → Answers key xs (at i)
found_key key xs i h =
    let (r, run, answer) = binary_search_by-Answers key xs in
    let same : r ≡ at i = ground arith in subst (Answers key xs) same answer

module _ ⦃b : Bitflags⦄ (p : Page) where
  -- The key that is read for an element.
  abbrev pub key_at : ℕ → List ℕ
  key_at j = (inode_at (is_leaf_page p) j p).key

  -- The keys that are read ascend.
  abbrev pub KeysAscend : Type 0
  KeysAscend = (i j : ℕ) → i < j → j < p.count → compare_bytes (key_at i) (key_at j) ≡ less

  AreRead : List Inode → Type 0
  AreRead xs = (j : ℕ) → j < p.count → get_elem? xs j ≡ some (inode_at (is_leaf_page p) j p)

  AreRead-IsSorted : (xs : List Inode) → length xs ≡ p.count → AreRead xs → KeysAscend → IsSorted xs
  unfolding AreRead
  AreRead-IsSorted xs l f ascend = IsSorted-of_indices xs λ i j x y h e g.
      let below : j < p.count = omega (arith, get_elem?-lt xs j y g, l) in
      cc (f i (omega arith), f j below, ascend i j h below, e, g)

  -- From an aligned page that holds the elements it counts, where all have keys, whose keys and
  -- values lie in the buffer where the code looks for them, and where the keys at those places
  -- ascend, a search among the inodes that are read finds a key at an index if and only if the
  -- element of that index exists and has that key.
  pub binary_search_by-read_inode_from_page :
      p.addr % 8 ≡ 0
      → HasElements p
      → ((j : ℕ) → j < p.count → Readable (is_leaf_page p) j p)
      → KeysAscend
      → (key : List ℕ) (j : ℕ)
      → ((read_inode_from_page p >>= binary_search_by key) ≡ ok (at j))
        ↔ ((j < p.count) × (key ≡ key_at j))
  unfolding AreRead
  binary_search_by-read_inode_from_page aligned room w ascend key j =
      let (xs, run, l, f) = read_inode_from_page-inode_at p aligned room w in
      let sorted : IsSorted xs = AreRead-IsSorted xs l f ascend in
      rw run (
        λ h.
            let (a, e, k) = found_key key xs j h in
            let below : j < p.count = omega (arith, get_elem?-lt xs j a e, l) in
            (below, cc (e, f j below, k)),
        λ (below, same).
            binary_search_by-linear_search key xs sorted
            ∙ ap ok (
                ap (λ k. linear_search k xs) same
                ∙ linear_search-get_elem? xs j (inode_at (is_leaf_page p) j p) sorted (f j below)),
      )
