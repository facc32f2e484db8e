-- ===== src/Inode.antt =====
-- common/inode.rs: inodes and the list of the inodes of a node. The children hold the order of
-- keys, the binary search, and the transfer from and to pages.
pub mod Keys
pub mod Search
pub mod Scan
pub mod Codec
pub mod Reading
pub mod Fields
pub mod Insertion
pub mod Lookup
use boltdb_rs.Base.{
  ℕ, zero, suc, ◌+◌, ◌-◌, ◌/◌, ◌==◌, ◌&&◌, Bool, true, false, List, [], ◌∷◌, ◌++◌, Option, none,
  some, Res, ok, fault, out_of_bounds, out_of_fuel, expect, check, ltb, leb, if◌then◌else◌, length,
  take, drop, get_elem?, set, ◌>>=◌, ◌>>◌,
}

-- `flags` marks a bucket, `pgid` is the child page of a branch element.
pub record Inode : Type 0 where
  pub flags : ℕ
  pub pgid : ℕ
  pub key : List ℕ
  pub value : List ℕ

unfoldable pub default_inode : Inode
default_inode = record { flags = 0; pgid = 0; key = []; value = [] }

-- `std::cmp::Ordering`, and the lexicographic order of byte slices.
pub data Cmp : Type 0 where
  less equal greater : Cmp

unfoldable pub compare_bytes : List ℕ → List ℕ → Cmp
compare_bytes [] [] = equal
compare_bytes [] (b ∷ bs) = less
compare_bytes (a ∷ as') [] = greater
compare_bytes (a ∷ as') (b ∷ bs) =
    let rest = compare_bytes as' bs in if ltb a b then less else if ltb b a then greater else rest

unfoldable pub bytes_eq : List ℕ → List ℕ → Bool
bytes_eq [] [] = true
bytes_eq [] (b ∷ bs) = false
bytes_eq (a ∷ as') [] = false
bytes_eq (a ∷ as') (b ∷ bs) = a == b && bytes_eq as' bs

unfoldable pub inodes_len : List Inode → ℕ
inodes_len inodes = length inodes

unfoldable pub get : ℕ → List Inode → Res Inode
get index inodes = expect out_of_bounds (get_elem? inodes index)

unfoldable pub first : List Inode → Option Inode
first inodes = get_elem? inodes 0

-- A store through `get_mut`.
unfoldable pub put_at : ℕ → Inode → List Inode → Res (List Inode)
put_at index inode inodes = do
  old ← expect out_of_bounds (get_elem? inodes index)
  ok (set inodes index inode)

unfoldable pub insert : ℕ → Inode → List Inode → Res (List Inode)
insert index inode inodes =
    if leb index (length inodes)
    then ok (take index inodes ++ inode ∷ drop index inodes)
    else fault out_of_bounds

unfoldable pub push : Inode → List Inode → List Inode
push inode inodes = inodes ++ inode ∷ []

unfoldable pub iter : List Inode → List Inode
iter inodes = inodes

unfoldable pub as_slice : List Inode → List Inode
as_slice inodes = inodes

unfoldable pub is_empty : List Inode → Bool
is_empty inodes = length inodes == 0

unfoldable pub remove : ℕ → List Inode → Res (List Inode)
remove index inodes =
    if ltb index (length inodes)
    then ok (take index inodes ++ drop (index + 1) inodes)
    else fault out_of_bounds

-- `Result<usize, usize>`: the index of the key, or where it would have to be inserted.
pub data Found : Type 0 where
  at : ℕ → Found
  insert_at : ℕ → Found

-- The loop of `slice::binary_search_by` on the range from `left` to `right`.
unfoldable pub search_loop : List Inode → List ℕ → ℕ → ℕ → ℕ → Res Found
search_loop inodes key zero left right = fault out_of_fuel
search_loop inodes key (suc fuel) left right = elim (ltb left right) [
  | false ↦ ok (insert_at left)
  | true ↦ elim (get_elem? inodes (left + (right - left) / 2)) [
    | none ↦ fault out_of_bounds
    | some node ↦ elim (compare_bytes node.key key) [
      | less ↦ search_loop inodes key fuel (left + (right - left) / 2 + 1) right
      | greater ↦ search_loop inodes key fuel left (left + (right - left) / 2)
      | equal ↦ ok (at (left + (right - left) / 2))
    ]
  ]
]

-- One round more than there are inodes is enough.
unfoldable pub binary_search_by : List ℕ → List Inode → Res Found
unfolding search_loop
binary_search_by key inodes = search_loop inodes key (suc (length inodes)) 0 (length inodes)
