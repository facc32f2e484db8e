-- ===== src/PgIds/Sorting.antt =====
-- Order and membership under the sort and the removal of repeated ids.
use boltdb_rs.Base.{
  ℕ, ◌≤◌, ◌<◌, ◌==◌, ◌≡◌, refl, Bool, false, ◌||◌, List, [], ◌∷◌, ◌++◌, arith, leb, Bool-cases, inl,
  inr,
}
use boltdb_rs.PgIds.{insert, sort, dedup, dedup_from}

unfoldable pub contains : ℕ → List ℕ → Bool
contains k [] = false
contains k (x ∷ xs) = k == x || contains k xs

-- Every element is at least, or above, a bound.
abbrev pub AllAtLeast : ℕ → List ℕ → Type 0
AllAtLeast b [] = Unit
AllAtLeast b (x ∷ xs) = (b ≤ x) × AllAtLeast b xs

abbrev pub AllAbove : ℕ → List ℕ → Type 0
AllAbove b [] = Unit
AllAbove b (x ∷ xs) = (b < x) × AllAbove b xs

abbrev pub IsSorted : List ℕ → Type 0
IsSorted [] = Unit
IsSorted (x ∷ xs) = AllAtLeast x xs × IsSorted xs

-- Sorted with no id twice.
abbrev pub IsAscending : List ℕ → Type 0
IsAscending [] = Unit
IsAscending (x ∷ xs) = AllAbove x xs × IsAscending xs

AllAtLeast-weaken : (a b : ℕ) (xs : List ℕ) → a ≤ b → AllAtLeast b xs → AllAtLeast a xs
AllAtLeast-weaken a b [] h w = tt
AllAtLeast-weaken a b (x ∷ xs) h w = (omega arith, AllAtLeast-weaken a b xs h w.1)

AllAtLeast-insert : (b x : ℕ) (xs : List ℕ) → b ≤ x → AllAtLeast b xs → AllAtLeast b (insert x xs)
unfolding insert
AllAtLeast-insert b x [] h w = (h, tt)
AllAtLeast-insert b x (y ∷ ys) h w = ground (arith, AllAtLeast-insert b x ys)

insert-IsSorted : (x : ℕ) (xs : List ℕ) → IsSorted xs → IsSorted (insert x xs)
unfolding insert
insert-IsSorted x [] w = (tt, tt)
insert-IsSorted x (y ∷ ys) w = elim (Bool-cases (leb x y)) [
  | inl le ↦ rw le ((ground arith, AllAtLeast-weaken x y ys (ground arith) w.0), w)
  | inr gt ↦ rw gt (AllAtLeast-insert y x ys (ground arith) w.0, insert-IsSorted x ys w.1)
]

pub sort-IsSorted : (xs : List ℕ) → IsSorted (sort xs)
unfolding sort
sort-IsSorted [] = tt
sort-IsSorted (x ∷ xs) = insert-IsSorted x (sort xs) (sort-IsSorted xs)

AllAbove-weaken : (a b : ℕ) (xs : List ℕ) → a ≤ b → AllAbove b xs → AllAbove a xs
AllAbove-weaken a b [] h w = tt
AllAbove-weaken a b (x ∷ xs) h w = (omega arith, AllAbove-weaken a b xs h w.1)

dedup_from-IsAscending :
    (x : ℕ) (xs : List ℕ)
    → AllAtLeast x xs
    → IsSorted xs
    → AllAbove x (dedup_from x xs) × IsAscending (dedup_from x xs)
unfolding dedup_from
dedup_from-IsAscending x [] h w = (tt, tt)
dedup_from-IsAscending x (y ∷ ys) h w = ground (
  arith,
  dedup_from-IsAscending x ys,
  dedup_from-IsAscending y ys,
  AllAbove-weaken x y (dedup_from y ys),
)

pub dedup-IsAscending : (xs : List ℕ) → IsSorted xs → IsAscending (dedup xs)
unfolding dedup
dedup-IsAscending [] w = tt
dedup-IsAscending (x ∷ xs) w = dedup_from-IsAscending x xs w.0 w.1

contains-insert : (k x : ℕ) (xs : List ℕ) → contains k (insert x xs) ≡ (k == x || contains k xs)
unfolding insert contains
contains-insert k x [] = refl
contains-insert k x (y ∷ ys) = ground (arith, contains-insert k x ys)

pub contains-sort : (k : ℕ) (xs : List ℕ) → contains k (sort xs) ≡ contains k xs
unfolding sort contains
contains-sort k [] = refl
contains-sort k (x ∷ xs) = rw contains-insert (rw (contains-sort k xs))

contains-dedup_from :
    (k x : ℕ) (xs : List ℕ) → (k == x || contains k (dedup_from x xs)) ≡ (k == x || contains k xs)
unfolding dedup_from contains
contains-dedup_from k x [] = refl
contains-dedup_from k x (y ∷ ys) =
    ground (arith, contains-dedup_from k x ys, contains-dedup_from k y ys)

pub contains-dedup : (k : ℕ) (xs : List ℕ) → contains k (dedup xs) ≡ contains k xs
unfolding dedup contains
contains-dedup k [] = refl
contains-dedup k (x ∷ xs) = contains-dedup_from k x xs

pub contains-append :
    (k : ℕ) (xs ys : List ℕ) → contains k (xs ++ ys) ≡ (contains k xs || contains k ys)
unfolding contains
contains-append k [] ys = refl
contains-append k (x ∷ xs) ys = ground (arith, contains-append k xs ys)
