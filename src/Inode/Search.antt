-- ===== src/Inode/Search.antt =====
-- `Inodes::binary_search_by` of common/inode.rs and what its answers tell of the list.
use boltdb_rs.Base.{
  ℕ, zero, suc, ◌+◌, ◌-◌, ◌/◌, ◌≤◌, ◌<◌, ◌≡◌, ◌⊎◌, inl, inr, refl, ap, ◌∙◌, List, [], ◌∷◌, arith,
  some, ok, ltb, true, false, Bool-cases, ltb→lt, subst, length, get_elem?,
}
use boltdb_rs.Inode.{
  Inode, Cmp, less, equal, greater, compare_bytes, Found, at, insert_at, search_loop,
  binary_search_by,
}
use boltdb_rs.Inode.Keys.{
  IsSorted, IsSorted-get_elem?, compare_bytes-equal, compare_bytes-less_flip,
  compare_bytes-greater_flip, compare_bytes-less_trans,
}

-- All keys before an index are less than `key`; all from an index on are greater.
abbrev pub Below : List ℕ → List Inode → ℕ → Type 0
Below key xs i =
    (j : ℕ) (a : Inode) → j < i → get_elem? xs j ≡ some a → compare_bytes a.key key ≡ less

abbrev pub Above : List ℕ → List Inode → ℕ → Type 0
Above key xs i =
    (j : ℕ) (a : Inode) → i ≤ j → get_elem? xs j ≡ some a → compare_bytes a.key key ≡ greater

-- What an answer tells of the list.
abbrev pub Answers : List ℕ → List Inode → Found → Type 0
Answers key xs (at i) = (a : Inode) × (get_elem? xs i ≡ some a) × (a.key ≡ key)
Answers key xs (insert_at i) =
    (i ≤ length xs) × (IsSorted xs → Below key xs i) × (IsSorted xs → Above key xs i)

pub Cmp-cases : (c : Cmp) → (c ≡ less) ⊎ (c ≡ equal) ⊎ (c ≡ greater)
Cmp-cases less = inl refl
Cmp-cases equal = inr (inl refl)
Cmp-cases greater = inr (inr refl)

pub get_elem?-lt {ℓ} :
    {A : Type ℓ} (xs : List A) (i : ℕ) (a : A) → get_elem? xs i ≡ some a → i < length xs
get_elem?-lt [] i a e = cc
get_elem?-lt (x ∷ xs) zero a e = omega arith
get_elem?-lt (x ∷ xs) (suc i) a e = omega (arith, get_elem?-lt xs i a e)

get_elem?-total {ℓ} :
    {A : Type ℓ} (xs : List A) (i : ℕ) → i < length xs → (a : A) × (get_elem? xs i ≡ some a)
get_elem?-total [] i h = absurd (omega arith)
get_elem?-total (x ∷ xs) zero h = (x, refl)
get_elem?-total (x ∷ xs) (suc i) h = get_elem?-total xs i (omega arith)

module _ (key : List ℕ) (xs : List Inode) where
  at_mid :
      (a n : Inode) (j mid : ℕ) {c : Cmp}
      → mid ≡ j
      → get_elem? xs j ≡ some a
      → get_elem? xs mid ≡ some n
      → compare_bytes n.key key ≡ c
      → compare_bytes a.key key ≡ c
  at_mid a n j mid eq f e c = cc (ap (get_elem? xs) eq)

  -- The key at `mid` decides for all on one side of it.
  Below-mid :
      (mid : ℕ) (n : Inode)
      → get_elem? xs mid ≡ some n
      → compare_bytes n.key key ≡ less
      → IsSorted xs
      → Below key xs (mid + 1)
  Below-mid mid n e c sorted j a h f = elim (Bool-cases (ltb j mid)) [
    | inl lt ↦
        compare_bytes-less_trans a.key n.key key
          (IsSorted-get_elem? xs j mid a n sorted (ltb→lt j mid lt) f e) c
    | inr ge ↦ let eq : mid ≡ j = ground arith in at_mid a n j mid eq f e c
  ]

  Above-mid :
      (mid : ℕ) (n : Inode)
      → get_elem? xs mid ≡ some n
      → compare_bytes n.key key ≡ greater
      → IsSorted xs
      → Above key xs mid
  Above-mid mid n e c sorted j a h f = elim (Bool-cases (ltb mid j)) [
    | inl lt ↦ compare_bytes-less_flip key a.key (
        compare_bytes-less_trans key n.key a.key (compare_bytes-greater_flip n.key key c)
          (IsSorted-get_elem? xs mid j n a sorted (ltb→lt mid j lt) e f))
    | inr ge ↦ let eq : mid ≡ j = ground arith in at_mid a n j mid eq f e c
  ]

  -- One round of the loop, by the order of the key in the middle.
  module _ (fuel left right : ℕ) (n : Inode) (more : ltb left right ≡ true)
      (e : get_elem? xs (left + (right - left) / 2) ≡ some n) where
    search_loop-less :
        compare_bytes n.key key ≡ less
        → search_loop xs key (suc fuel) left right
          ≡ search_loop xs key fuel (left + (right - left) / 2 + 1) right
    unfolding search_loop
    search_loop-less c = ground arith

    search_loop-greater :
        compare_bytes n.key key ≡ greater
        → search_loop xs key (suc fuel) left right
          ≡ search_loop xs key fuel left (left + (right - left) / 2)
    unfolding search_loop
    search_loop-greater c = ground arith

    search_loop-equal :
        compare_bytes n.key key ≡ equal
        → search_loop xs key (suc fuel) left right ≡ ok (at (left + (right - left) / 2))
    unfolding search_loop
    search_loop-equal c = ground arith

  search_loop-done :
      (fuel left right : ℕ)
      → ltb left right ≡ false
      → search_loop xs key (suc fuel) left right ≡ ok (insert_at left)
  unfolding search_loop
  search_loop-done fuel left right done = ground arith

  search_loop-Answers :
      (fuel left right : ℕ)
      → right - left < fuel
      → left ≤ right
      → right ≤ length xs
      → (IsSorted xs → Below key xs left)
      → (IsSorted xs → Above key xs right)
      → (r : Found) × (search_loop xs key fuel left right ≡ ok r) × Answers key xs r
  search_loop-Answers zero left right m o b below above = absurd (omega arith)
  search_loop-Answers (suc fuel) left right m o b below above = elim (Bool-cases (ltb left right)) [
    | inr done ↦
        let same : right ≡ left = ground arith in
        (
          insert_at left,
          search_loop-done fuel left right done,
          (omega arith, below, λ w. subst (Above key xs) same (above w)),
        )
    | inl more ↦
        let mid : ℕ = left + (right - left) / 2 in
        let lt : left < right = ltb→lt left right more in
        let (n, e) = get_elem?-total xs mid (omega arith) in
        elim (Cmp-cases (compare_bytes n.key key)) [
          | inl c ↦
              let (r, run, answers) =
                search_loop-Answers fuel (mid + 1) right (omega arith) (omega arith) b
                  (Below-mid mid n e c) above in
              (r, search_loop-less fuel left right n more e c ∙ run, answers)
          | inr (inl c) ↦ (
            at mid,
            search_loop-equal fuel left right n more e c,
            (n, e, compare_bytes-equal n.key key c),
          )
          | inr (inr c) ↦
              let (r, run, answers) =
                search_loop-Answers fuel left mid (omega arith) (omega arith) (omega arith) below
                  (Above-mid mid n e c) in
              (r, search_loop-greater fuel left right n more e c ∙ run, answers)
        ]
  ]

  -- The search returns on every list, without leaving it. A key that it reports is there; on a
  -- sorted list an index that it reports as free separates the smaller from the greater keys.
  pub binary_search_by-Answers : (r : Found) × (binary_search_by key xs ≡ ok r) × Answers key xs r
  unfolding binary_search_by
  binary_search_by-Answers =
      search_loop-Answers (suc (length xs)) 0 (length xs) (omega arith) (omega arith) (omega arith)
        (λ w j a h f. absurd (omega arith))
        (λ w j a h f. absurd (omega (arith, get_elem?-lt xs j a f)))
