-- ===== src/Page/Arrays/Orders.antt =====
-- The order of stores into a page of common/page.rs.
use mathlib.Core.List.{Permᴰ}
use boltdb_rs.Base.{
  ℕ, ◌<◌, ◌≡◌, ◌≢◌, ◌⊎◌, inl, inr, refl, sym, ap, ◌∙◌, List, [], ◌∷◌, arith, ok, ◌>>=◌, Res-cases,
  subst, ap₂,
}
use boltdb_rs.Flags.{Bitflags}
use boltdb_rs.Page.{Page}
use boltdb_rs.Page.Arrays.{PageArray, IsLawful, store_all, bind_assoc}
use boltdb_rs.Page.Arrays.Kinds.{Kind, Element, array, array-IsLawful}

module _ {E : Type 0} where
  -- No two of the stores have one index.
  abbrev pub Misses : ℕ → List (ℕ × E) → Type 0
  Misses i [] = Unit
  Misses i (e ∷ es) = (i ≢ e.0) × Misses i es

  abbrev pub AreApart : List (ℕ × E) → Type 0
  AreApart [] = Unit
  AreApart (e ∷ es) = Misses e.0 es × AreApart es

  Misses-Perm : {es fs : List (ℕ × E)} (i : ℕ) → Permᴰ es fs → Misses i es → Misses i fs
  Misses-Perm i Permᴰ.nil w = w
  Misses-Perm i (Permᴰ.cons same p) w =
      (λ e. w.0 (e ∙ ap (λ (x : ℕ × E). x.0) (sym same)), Misses-Perm i p w.1)
  Misses-Perm i (Permᴰ.swap first second) w = (
    λ e. w.1.0 (e ∙ ap (λ (x : ℕ × E). x.0) (sym second)),
    (λ e. w.0 (e ∙ ap (λ (x : ℕ × E). x.0) (sym first)), w.1.1),
  )
  Misses-Perm i (Permᴰ.trans p q) w = Misses-Perm i q (Misses-Perm i p w)

  AreApart-Perm : {es fs : List (ℕ × E)} → Permᴰ es fs → AreApart es → AreApart fs
  AreApart-Perm Permᴰ.nil w = w
  AreApart-Perm (Permᴰ.cons {l₂ = l} same p) w =
      (subst (λ (x : ℕ × E). Misses x.0 l) same (Misses-Perm _ p w.0), AreApart-Perm p w.1)
  AreApart-Perm (Permᴰ.swap {l = l} first second) w = (
    (
      λ e. w.0.0 (ap (λ (x : ℕ × E). x.0) first ∙ (sym e ∙ ap (λ (x : ℕ × E). x.0) (sym second))),
      subst (λ (x : ℕ × E). Misses x.0 l) second w.1.0,
    ),
    (subst (λ (x : ℕ × E). Misses x.0 l) first w.0.1, w.1.1),
  )
  AreApart-Perm (Permᴰ.trans p q) w = AreApart-Perm q (AreApart-Perm p w)

module _ {E : Type 0} (a : PageArray E) (law : IsLawful a) where
  store_comm_apart :
      (x y : ℕ × E) (p : Page)
      → a.Holds p
      → x.0 ≢ y.0
      → (a.store x.0 x.1 p >>= a.store y.0 y.1) ≡ (a.store y.0 y.1 p >>= a.store x.0 x.1)
  store_comm_apart x y p h apart =
      let order : (x.0 < y.0) ⊎ (y.0 < x.0) = ground arith in
      elim order [
        | inl less ↦ law.store_comm x.0 y.0 x.1 y.1 p h less
        | inr more ↦ sym (law.store_comm y.0 x.0 y.1 x.1 p h more)
      ]

  after_same :
      (x : ℕ × E) (es fs : List (ℕ × E)) (p : Page)
      → ((q : Page) → a.store x.0 x.1 p ≡ ok q → store_all a es q ≡ store_all a fs q)
      → store_all a (x ∷ es) p ≡ store_all a (x ∷ fs) p
  after_same x es fs p rest = elim (Res-cases (a.store x.0 x.1 p)) [
    | inl (q, run) ↦ rw run (rest q run)
    | inr (f, run) ↦ rw run refl
  ]

  store_all-Perm :
      {es fs : List (ℕ × E)} (p : Page)
      → Permᴰ es fs
      → a.Holds p
      → AreApart es
      → store_all a es p ≡ store_all a fs p
  store_all-Perm p Permᴰ.nil h w = refl
  store_all-Perm p (Permᴰ.cons {a = x} {l₁ = l₁} {l₂ = l₂} same d) h w =
      after_same x l₁ l₂ p (λ q run. store_all-Perm q d (law.Holds-store x.0 x.1 p q h run) w.1)
      ∙ ap (λ y. store_all a (y ∷ l₂) p) same
  store_all-Perm p (Permᴰ.swap {a = x} {b = y} {l = l} first second) h w =
      sym (bind_assoc (a.store x.0 x.1 p) (a.store y.0 y.1) (store_all a l))
      ∙ (ap (λ r. r >>= store_all a l) (store_comm_apart x y p h w.0.0)
          ∙ (bind_assoc (a.store y.0 y.1 p) (a.store x.0 x.1) (store_all a l)
              ∙ ap₂ (λ u v. store_all a (u ∷ v ∷ l) p) second first))
  store_all-Perm p (Permᴰ.trans d d') h w =
      store_all-Perm p d h w ∙ store_all-Perm p d' h (AreApart-Perm d w)

module _ ⦃b : Bitflags⦄ where
  -- On a page that holds the elements or page ids it counts, and that has the free list's flag
  -- where ids are stored through it: stores at different indices come to the same page, or to the
  -- same panic, in whichever order they are made.
  pub store_all_rearranged :
      (k : Kind) {es fs : List (ℕ × Element k)} (p : Page)
      → Permᴰ es fs
      → (array k).Holds p
      → AreApart es
      → store_all (array k) es p ≡ store_all (array k) fs p
  store_all_rearranged k = store_all-Perm (array k) (array-IsLawful k)
