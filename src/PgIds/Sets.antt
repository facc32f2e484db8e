-- ===== src/PgIds/Sets.antt =====
-- The abstract view of a list of page ids: the set of its ids, without their order and number.
-- `PgIds::extend_from_slice` of common/page.rs implements the union of sets.
use mathlib.Core.Quot.{Setoid, Quotient, Quotient-set}
use mathlib.Core.Quot.Quotient
use boltdb_rs.Base.{ℕ, ◌≡◌, refl, sym, ap, ap₂, ◌∙◌, ◌||◌, ◌++◌}
use boltdb_rs.PgIds.{PgIds, extend_from_slice}
use boltdb_rs.PgIds.Sorting.{contains, contains-append, IsAscending}
use boltdb_rs.PgIds.Merge.{extend_from_slice-union, IsAscending-unique}

-- Two lists with the same ids.
abbrev pub SameIds : PgIds → PgIds → Type 0
SameIds a b = (k : ℕ) → contains k a.pgids ≡ contains k b.pgids

abbrev pub same_ids : Setoid {0, 0} PgIds
same_ids = record {
  r = SameIds;
  iseqv = record {
    refl = λ a k. refl;
    symm = λ a b h k. sym (h k);
    trans = λ a b c h g k. h k ∙ g k;
  };
}

abbrev pub IdSet : Type 0
IdSet = Quotient same_ids

abbrev pub ids : PgIds → IdSet
ids a = Quotient.mk same_ids a

IdSet_set : IsSet IdSet
IdSet_set = Quotient-set same_ids

abbrev joined : PgIds → PgIds → PgIds
joined a b = record { pgids = a.pgids ++ b.pgids }

joined_congr :
    (a b a' b' : PgIds) → SameIds a a' → SameIds b b' → SameIds (joined a b) (joined a' b')
joined_congr a b a' b' h g k =
    contains-append k a.pgids b.pgids
    ∙ (ap₂ ◌||◌ (h k) (g k) ∙ sym (contains-append k a'.pgids b'.pgids))

-- The union of sets: any list that has the ids of both.
pub union : IdSet → IdSet → IdSet
union =
    Quotient.lift₂ same_ids same_ids IdSet_set (λ a b. ids (joined a b))
      λ a b a' b' h g. Quotient.sound same_ids (joined_congr a b a' b' h g)

union-ids : (a b : PgIds) → union (ids a) (ids b) ≡ ids (joined a b)
unfolding union IdSet_set
union-ids a b = Quotient.lift₂-mk same_ids same_ids IdSet_set _ _ a b

exact : (a b : PgIds) → ids a ≡ ids b → SameIds a b
exact a b = Quotient.exact same_ids (λ x y. hlevel)

extend_from_slice-SameIds : (a b : PgIds) → SameIds (extend_from_slice b a) (joined a b)
extend_from_slice-SameIds a b k =
    let u = extend_from_slice-union a b in u.1 k ∙ sym (contains-append k a.pgids b.pgids)

-- The merge of two lists stands for the union of their sets. It is strictly ascending, and it is
-- the only strictly ascending list that stands for the union.
pub ids-extend_from_slice :
    (a b : PgIds)
    → (ids (extend_from_slice b a) ≡ union (ids a) (ids b))
      × IsAscending (extend_from_slice b a).pgids
      × ((s : PgIds)
          → IsAscending s.pgids
          → ids s ≡ union (ids a) (ids b)
          → s ≡ extend_from_slice b a)
ids-extend_from_slice a b =
    let merged : PgIds = extend_from_slice b a in
    let same : ids merged ≡ union (ids a) (ids b) =
      Quotient.sound same_ids (extend_from_slice-SameIds a b) ∙ sym (union-ids a b) in
    let u = extend_from_slice-union a b in
    (
      same,
      u.0,
      λ s w e.
          ap (λ v. record { pgids = v })
            (IsAscending-unique s.pgids merged.pgids w u.0 (exact s merged (e ∙ sym same))),
    )
