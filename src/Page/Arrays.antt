-- ===== src/Page/Arrays.antt =====
-- The arrays in the data of a page of common/page.rs: branch elements, leaf elements, page ids and
-- the free list. What a kind of array offers, and what follows for any sequence of stores; Records
-- and Kinds are about the arrays of the code.
pub mod Records
pub mod Kinds
pub mod Copies
pub mod Orders
use boltdb_rs.Base.{
  ℕ, ◌≡◌, refl, sym, ap, ◌∙◌, List, [], ◌∷◌, Res, ok, fault, out_of_bounds, ◌>>=◌, ltb,
  if◌then◌else◌, length, set, take, ◌*◌, ◌≤◌, ◌<◌, Res-cases, inl, inr,
}
use boltdb_rs.Page.{Page}

-- A list with the panic of an index beyond it.
abbrev pub set_at {ℓ} : {A : Type ℓ} → ℕ → A → List A → Res (List A)
set_at i x xs = if ltb i (length xs) then ok (set xs i x) else fault out_of_bounds

abbrev pub set_all {ℓ} : {A : Type ℓ} → List (ℕ × A) → List A → Res (List A)
set_all [] xs = ok xs
set_all (e ∷ es) xs = set_at e.0 e.1 xs >>= set_all es

-- The operations on an array of a page, the values that its elements may have, and the pages that
-- hold it.
pub record PageArray (E : Type 0) : Type 1 where
  pub load : Page → Res (List E)
  pub store : ℕ → E → Page → Res Page
  pub IsElement : E → Type 0
  pub Holds : Page → Type 0
  -- The size of an element in bytes.
  pub width : ℕ

pub record IsLawful {E : Type 0} (a : PageArray E) : Type 0 where
  pub store-load :
      (i : ℕ) (e : E) (p : Page)
      → a.Holds p
      → a.IsElement e
      → (a.store i e p >>= a.load) ≡ (a.load p >>= set_at i e)
  pub Holds-store : (i : ℕ) (e : E) (p q : Page) → a.Holds p → a.store i e p ≡ ok q → a.Holds q
  pub same_header :
      (i : ℕ) (e : E) (p q : Page)
      → a.Holds p
      → a.store i e p ≡ ok q
      → record p { body = q.body } ≡ q
  pub store_comm :
      (i j : ℕ) (e f : E) (p : Page)
      → a.Holds p
      → i < j
      → (a.store i e p >>= a.store j f) ≡ (a.store j f p >>= a.store i e)
  pub load-copied :
      (p : Page) (addr n : ℕ)
      → a.Holds p
      → p.count * a.width ≤ n
      → n ≤ length p.body
      → let q : Page = record p { addr = addr; body = take n p.body } in
        a.Holds q × (a.load q ≡ a.load p)

module _ {E : Type 0} (a : PageArray E) where
  abbrev pub store_all : List (ℕ × E) → Page → Res Page
  store_all [] p = ok p
  store_all (e ∷ es) p = a.store e.0 e.1 p >>= store_all es

  abbrev pub AreElements : List (ℕ × E) → Type 0
  AreElements [] = Unit
  AreElements (e ∷ es) = a.IsElement e.1 × AreElements es

bind_ok {ℓ} : {A : Type ℓ} (r : Res A) → (r >>= λ x. ok x) ≡ r
bind_ok (ok x) = refl
bind_ok (fault e) = refl

pub bind_assoc {ℓ} :
    {A B C : Type ℓ} (r : Res A) (f : A → Res B) (g : B → Res C)
    → (r >>= f >>= g) ≡ (r >>= λ x. f x >>= g)
bind_assoc (ok x) f g = refl
bind_assoc (fault e) f g = refl

module _ {E : Type 0} (a : PageArray E) (law : IsLawful a) where
  -- Any sequence of stores changes the array as a list, and panics where the list has no such
  -- index.
  pub store_all-load :
      (es : List (ℕ × E)) (p : Page)
      → a.Holds p
      → AreElements a es
      → (store_all a es p >>= a.load) ≡ (a.load p >>= set_all es)
  store_all-load [] p h w = sym (bind_ok (a.load p))
  store_all-load (e ∷ es) p h w =
      let step = law.store-load e.0 e.1 p h w.0 in
      let split = bind_assoc (a.load p) (set_at e.0 e.1) (set_all es) in
      elim (Res-cases (a.store e.0 e.1 p)) [
        | inl (q, run) ↦ rw run (
            store_all-load es q (law.Holds-store e.0 e.1 p q h run) w.1
            ∙ (ap (λ r. r >>= set_all es) (ap (λ r. r >>= a.load) (sym run) ∙ step) ∙ split))
        | inr (f, run) ↦
            rw run (ap (λ r. r >>= set_all es) (ap (λ r. r >>= a.load) (sym run) ∙ step) ∙ split)
      ]
