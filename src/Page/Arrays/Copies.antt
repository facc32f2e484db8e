-- ===== src/Page/Arrays/Copies.antt =====
-- Stores into an owned copy of a page of common/page.rs.
use boltdb_rs.Base.{
  ℕ, ◌+◌, ◌-◌, ◌*◌, ◌%◌, ◌≤◌, ◌≡◌, refl, ap, ◌∙◌, List, [], ◌∷◌, arith, Res, ok, ◌>>=◌, length,
  subst, Build, Res-cases, bind-eq-ok, inl, inr,
}
use boltdb_rs.Flags.{Bitflags}
use boltdb_rs.Page.{Page, IsPage, bytes, from_slice}
use boltdb_rs.Page.Layout.{from_slice-bytes}
use boltdb_rs.Page.Size.{byte_size, to_owned, from_vec, borrow, borrow_mut}
use boltdb_rs.Page.Owned.{copied, to_owned_lem}
use boltdb_rs.Page.Arrays.{PageArray, IsLawful, store_all, set_all, AreElements, store_all-load}
use boltdb_rs.Page.Arrays.Kinds.{Kind, Element, array, array-IsLawful}

module _ {E : Type 0} (a : PageArray E) (law : IsLawful a) where
  store_all-same_header :
      (es : List (ℕ × E)) (p q : Page)
      → a.Holds p
      → store_all a es p ≡ ok q
      → record p { body = q.body } ≡ q
  store_all-same_header [] p q h run =
      let same : p ≡ q = cc in subst (λ (r : Page). record p { body = r.body } ≡ r) same refl
  store_all-same_header (e ∷ es) p q h run =
      let (r, first, rest) = bind-eq-ok (store_all a es) (a.store e.0 e.1 p) run in
      ap (λ (s : Page). record s { body = q.body }) (law.same_header e.0 e.1 p r h first)
      ∙ store_all-same_header es r q (law.Holds-store e.0 e.1 p r h first) rest

IsPage-moved :
    (p : Page) (addr : ℕ) (body : List ℕ)
    → IsPage p
    → addr % 8 ≡ 0
    → IsPage (record p { addr = addr; body = body })
IsPage-moved p addr body w aligned = record {
  aligned = aligned;
  id_fits = w.id_fits;
  flags_fit = w.flags_fit;
  count_fits = w.count_fits;
  overflow_fits = w.overflow_fits;
}

-- The page that is seen in an owned page after stores is the one that they leave.
borrow_mut-borrow :
    (f : Page → Res Page) (p : Page)
    → IsPage p
    → ((q : Page) → f p ≡ ok q → record p { body = q.body } ≡ q)
    → (borrow_mut f (from_vec p.addr (bytes p)) >>= borrow) ≡ f p
unfolding borrow_mut borrow from_vec
borrow_mut-borrow f p w header = rw (from_slice-bytes p w) (elim (Res-cases (f p)) [
  | inl (q, run) ↦ rw run (
      subst (λ (r : Page). from_slice p.addr (bytes r) ≡ ok r) (header q run)
        (from_slice-bytes (record p { body = q.body }) (IsPage-moved p p.addr q.body w w.aligned)))
  | inr (e, run) ↦ rw run refl
])

module _ ⦃b : Bitflags⦄ where
  -- An owned copy of a well-formed page at an aligned address is changed by any sequence of stores
  -- of values in the range of their types as a list would be that starts with what the original
  -- page has, and panics exactly where the list has no such index. The size that is computed for
  -- the page is to cover its elements or page ids and to lie within its buffer.
  pub to_owned-stores :
      (k : Kind) (es : List (ℕ × Element k)) (build : Build) (addr : ℕ) (p : Page) (n : ℕ)
      → IsPage p
      → addr % 8 ≡ 0
      → (array k).Holds p
      → byte_size build p ≡ ok n
      → 16 + p.count * (array k).width ≤ n
      → n ≤ 16 + length p.body
      → AreElements (array k) es
      → (to_owned build addr p
          >>= borrow_mut (store_all (array k) es)
          >>= borrow
          >>= (array k).load)
        ≡ ((array k).load p >>= set_all es)
  to_owned-stores k es build addr p n w aligned h size covers inside typed =
      let a : PageArray (Element k) = array k in
      let law = array-IsLawful k in
      let c : Page = copied addr n p in
      let (held, kept) = law.load-copied p addr (n - 16) h (omega arith) (omega arith) in
      rw
        (
          to_owned_lem build addr p n size inside,
          borrow_mut-borrow (store_all a es) c (IsPage-moved p addr c.body w aligned)
              (λ q run. store_all-same_header a law es c q held run),
        )
        (store_all-load a law es c held typed ∙ ap (λ r. r >>= set_all es) kept)
