-- ===== src/PgIds.antt =====
-- common/page.rs: lists of page ids and their merge.
pub mod Sorting
pub mod Merge
pub mod Draining
pub mod Sets
use boltdb_rs.Base.{
  ℕ, ◌-◌, ◌==◌, Bool, true, false, List, [], ◌∷◌, ◌++◌, Res, ok, fault, out_of_bounds, leb, ◌&&◌,
  if◌then◌else◌, length, take, drop,
}

-- `Vec::sort` on u64: the ascending order of the elements, which is unique.
unfoldable pub insert : ℕ → List ℕ → List ℕ
insert x [] = x ∷ []
insert x (y ∷ ys) = if leb x y then x ∷ y ∷ ys else y ∷ insert x ys

unfoldable pub sort : List ℕ → List ℕ
sort [] = []
sort (x ∷ xs) = insert x (sort xs)

-- `Vec::dedup` behind an element that was kept: only the first of equal neighbours stays.
unfoldable pub dedup_from : ℕ → List ℕ → List ℕ
dedup_from kept [] = []
dedup_from kept (y ∷ ys) = elim (y == kept) [
  | true ↦ dedup_from kept ys
  | false ↦ y ∷ dedup_from y ys
]

unfoldable pub dedup : List ℕ → List ℕ
dedup [] = []
dedup (x ∷ xs) = x ∷ dedup_from x xs

pub record PgIds : Type 0 where
  pub pgids : List ℕ

unfoldable pub from : List ℕ → PgIds
from v = record { pgids = v }

unfoldable pub len : PgIds → ℕ
len s = length s.pgids

unfoldable pub is_empty : PgIds → Bool
is_empty s = length s.pgids == 0

unfoldable pub sort_ids : PgIds → PgIds
sort_ids s = record s { pgids = sort s.pgids }

unfoldable pub push : ℕ → PgIds → PgIds
push pgid s = record s { pgids = s.pgids ++ pgid ∷ [] }

unfoldable pub iter : PgIds → List ℕ
iter s = s.pgids

unfoldable pub as_slice : PgIds → List ℕ
as_slice s = s.pgids

unfoldable pub to_vec : PgIds → List ℕ
to_vec s = s.pgids

-- `Vec::drain` of `start..end`: what is left, and what was taken out.
unfoldable pub drain : ℕ → ℕ → PgIds → Res (PgIds × List ℕ)
drain start end s =
    if leb start end && leb end (length s.pgids)
    then ok (
      record s { pgids = take start s.pgids ++ drop end s.pgids },
      take (end - start) (drop start s.pgids),
    )
    else fault out_of_bounds

unfoldable pub extend_from_slice : PgIds → PgIds → PgIds
extend_from_slice slice s =
    let extended : List ℕ = s.pgids ++ slice.pgids in record s { pgids = dedup (sort extended) }
