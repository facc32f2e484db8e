-- ===== src/Tests/Inodes.antt =====
-- Page ids, keys and the search in a node, at concrete inputs.
use boltdb_rs.Base.{
  ℕ, ◌≡◌, true, refl, List, [], ◌∷◌, ok, arith, length, zero, suc, ◌<◌, get_elem?, some, from_le,
}
use boltdb_rs.PgIds.{PgIds, insert, sort, dedup, dedup_from, extend_from_slice, drain}
use boltdb_rs.PgIds.Sorting.{IsAscending}
use boltdb_rs.PgIds.Sets.{ids, union, ids-extend_from_slice}
use boltdb_rs.Inode.{Inode, Found, at, insert_at, binary_search_by, compare_bytes}
use boltdb_rs.Inode.Keys.{IsSorted}
use boltdb_rs.Inode.Search.{Answers, binary_search_by-Answers}
use boltdb_rs.Inode.Scan.{linear_search, binary_search_by-linear_search}
use boltdb_rs.Inode.Insertion.{binary_search_by-insert}
use boltdb_rs.Inode
use boltdb_rs.Inode.Fields
use boltdb_rs.Inode.Codec.{read_inode_from_page}
use boltdb_rs.Inode.Reading.{Readable, inode_at, read_inode_from_page-inode_at}
use boltdb_rs.Page.{is_leaf_page}
use boltdb_rs.Page.Elements.{decode_leaf}
use boltdb_rs.Tests.Pages.{data_page}
use boltdb_rs.Tests.Params.{bitflags}

-- The lists of the source's test `test_pgids_merge`.
abbrev pgids_a : PgIds
pgids_a = record { pgids = 12323 ∷ 334 ∷ 3445 ∷ 4456 ∷ 333 ∷ [] }

abbrev pgids_b : PgIds
pgids_b = record { pgids = 12323 ∷ 4567 ∷ 3445 ∷ 3489 ∷ 33356 ∷ [] }

merged :
    (extend_from_slice pgids_b pgids_a).pgids
    ≡ 333 ∷ 334 ∷ 3445 ∷ 3489 ∷ 4456 ∷ 4567 ∷ 12323 ∷ 33356 ∷ []
unfolding extend_from_slice dedup dedup_from sort insert
merged = refl

ids-extend_from_slice_example :
    (ids (extend_from_slice pgids_b pgids_a) ≡ union (ids pgids_a) (ids pgids_b))
    × IsAscending (extend_from_slice pgids_b pgids_a).pgids
    × ((s : PgIds)
        → IsAscending s.pgids
        → ids s ≡ union (ids pgids_a) (ids pgids_b)
        → s ≡ extend_from_slice pgids_b pgids_a)
ids-extend_from_slice_example = ids-extend_from_slice pgids_a pgids_b

drained : drain 1 3 pgids_a ≡ ok (record { pgids = 12323 ∷ 4456 ∷ 333 ∷ [] }, 334 ∷ 3445 ∷ [])
unfolding drain
drained = refl

abbrev pub entry : ℕ → Inode
entry k = record { flags = 0; pgid = 0; key = k ∷ []; value = k ∷ k ∷ [] }

abbrev pub three : List Inode
three = entry 2 ∷ entry 4 ∷ entry 8 ∷ []

search_hit : binary_search_by (4 ∷ []) three ≡ ok (at 1)
unfolding binary_search_by compare_bytes
search_hit = refl

search_miss : binary_search_by (5 ∷ 1 ∷ []) three ≡ ok (insert_at 2)
unfolding binary_search_by compare_bytes
search_miss = refl

binary_search_by-Answers_example :
    (r : Found) × (binary_search_by (5 ∷ []) three ≡ ok r) × Answers (5 ∷ []) three r
binary_search_by-Answers_example = binary_search_by-Answers (5 ∷ []) three

pub three-IsSorted : IsSorted three
unfolding compare_bytes
three-IsSorted = ((refl, (refl, tt)), ((refl, tt), (tt, tt)))

binary_search_by-linear_search_example :
    binary_search_by (5 ∷ []) three ≡ ok (linear_search (5 ∷ []) three)
binary_search_by-linear_search_example =
    binary_search_by-linear_search (5 ∷ []) three three-IsSorted

inode_fields :
    Fields.set_value
      (5 ∷ 5 ∷ [])
      (Fields.set_key (5 ∷ []) (Fields.set_pgid 0 (Fields.set_flags 0 Inode.default_inode)))
    ≡ entry 5
unfolding Fields.set_value Fields.set_key Fields.set_pgid Fields.set_flags Inode.default_inode
inode_fields = refl

search_gap : binary_search_by (5 ∷ []) three ≡ ok (insert_at 2)
unfolding binary_search_by compare_bytes
search_gap = refl

binary_search_by-insert_example :
    (ys : List Inode) × (Inode.insert 2 (entry 5) three ≡ ok ys)
    × IsSorted ys
    × (binary_search_by (5 ∷ []) ys ≡ ok (at 2))
    × (Inode.remove 2 ys ≡ ok three)
binary_search_by-insert_example =
    binary_search_by-insert 2 (entry 5) three three-IsSorted search_gap

data_page-Readable : (j : ℕ) → j < 2 → Readable (is_leaf_page data_page) j data_page
unfolding decode_leaf from_le is_leaf_page
data_page-Readable zero h = record {
  keyed = omega arith;
  key_inside = omega arith;
  value_inside = omega arith;
}
data_page-Readable (suc zero) h = record {
  keyed = omega arith;
  key_inside = omega arith;
  value_inside = omega arith;
}
data_page-Readable (suc (suc j)) h = absurd (omega arith)

read_inode_from_page-inode_at_example :
    (xs : List Inode) × (read_inode_from_page data_page ≡ ok xs)
    × (length xs ≡ 2)
    × ((j : ℕ) → j < 2 → get_elem? xs j ≡ some (inode_at true j data_page))
unfolding is_leaf_page
read_inode_from_page-inode_at_example =
    read_inode_from_page-inode_at data_page (omega arith) (omega arith) data_page-Readable
