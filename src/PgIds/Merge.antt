-- ===== src/PgIds/Merge.antt =====
-- `PgIds::extend_from_slice`, the merge of two lists of page ids.
use boltdb_rs.Base.{
  ℕ, ◌≤◌, ◌≡◌, refl, sym, ap, ap₂, ◌∙◌, Bool, true, false, ◌||◌, List, [], ◌∷◌, ◌++◌, arith,
}
use boltdb_rs.PgIds.{PgIds, sort, extend_from_slice}
use boltdb_rs.PgIds.Sorting.{
  contains, IsAscending, AllAbove, sort-IsSorted, dedup-IsAscending, contains-sort, contains-dedup,
  contains-append,
}

-- After a merge the ids are strictly ascending, and they are those of the two lists.
pub extend_from_slice-union :
    (a b : PgIds)
    → IsAscending (extend_from_slice b a).pgids
      × ((k : ℕ)
          → contains k (extend_from_slice b a).pgids ≡ (contains k a.pgids || contains k b.pgids))
unfolding extend_from_slice
extend_from_slice-union a b = (
  dedup-IsAscending (sort (a.pgids ++ b.pgids)) (sort-IsSorted (a.pgids ++ b.pgids)),
  λ k.
      contains-dedup k (sort (a.pgids ++ b.pgids))
      ∙ (contains-sort k (a.pgids ++ b.pgids) ∙ contains-append k a.pgids b.pgids),
)

not_contains : (k x : ℕ) (xs : List ℕ) → k ≤ x → AllAbove x xs → contains k xs ≡ false
unfolding contains
not_contains k x [] h w = refl
not_contains k x (y ∷ ys) h w = ground (arith, not_contains k x ys)

contains_head : (x : ℕ) (xs : List ℕ) → contains x (x ∷ xs) ≡ true
unfolding contains
contains_head x xs = ground arith

contains_nil : (x : ℕ) → contains x [] ≡ false
unfolding contains
contains_nil x = refl

heads_equal :
    (x y : ℕ) (xs ys : List ℕ)
    → IsAscending (x ∷ xs)
    → IsAscending (y ∷ ys)
    → contains x (x ∷ xs) ≡ contains x (y ∷ ys)
    → contains y (x ∷ xs) ≡ contains y (y ∷ ys)
    → x ≡ y
unfolding contains
heads_equal x y xs ys v w p q = ground (arith, not_contains x y ys, not_contains y x xs)

tails_equal :
    (k x y : ℕ) (xs ys : List ℕ)
    → x ≡ y
    → IsAscending (x ∷ xs)
    → IsAscending (y ∷ ys)
    → contains k (x ∷ xs) ≡ contains k (y ∷ ys)
    → contains k xs ≡ contains k ys
unfolding contains
tails_equal k x y xs ys e v w p = ground (arith, not_contains k x xs, not_contains k y ys)

or_comm : (a b : Bool) → (a || b) ≡ (b || a)
or_comm a b = ground arith

-- A strictly ascending list is determined by its members.
pub IsAscending-unique :
    (xs ys : List ℕ)
    → IsAscending xs
    → IsAscending ys
    → ((k : ℕ) → contains k xs ≡ contains k ys)
    → xs ≡ ys
IsAscending-unique [] [] v w same = refl
IsAscending-unique [] (y ∷ ys) v w same = cc (same y, contains_head y ys, contains_nil y)
IsAscending-unique (x ∷ xs) [] v w same = cc (same x, contains_head x xs, contains_nil x)
IsAscending-unique (x ∷ xs) (y ∷ ys) v w same =
    let e : x ≡ y = heads_equal x y xs ys v w (same x) (same y) in
    ap₂ ◌∷◌ e (IsAscending-unique xs ys v.1 w.1 (λ k. tails_equal k x y xs ys e v w (same k)))

-- A merge does not depend on the order in which the lists are given.
pub extend_from_slice_comm : (a b : PgIds) → extend_from_slice b a ≡ extend_from_slice a b
extend_from_slice_comm a b =
    let ab = extend_from_slice-union a b in
    let ba = extend_from_slice-union b a in
    ap (λ v. record { pgids = v })
      (IsAscending-unique (extend_from_slice b a).pgids (extend_from_slice a b).pgids ab.0 ba.0
        (λ k. ab.1 k ∙ (or_comm (contains k a.pgids) (contains k b.pgids) ∙ sym (ba.1 k))))
