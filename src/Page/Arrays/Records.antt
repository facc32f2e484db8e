-- ===== src/Page/Arrays/Records.antt =====
-- Arrays of records of one size at the data pointer of a page of common/page.rs.
use boltdb_rs.Base.{
  ℕ, zero, suc, ◌+◌, ◌*◌, ◌≤◌, ◌<◌, ◌≡◌, refl, sym, ap, ap₂, ◌∙◌, List, ◌∷◌, arith, ok, fault,
  out_of_bounds, ◌>>=◌, ltb, ltb→lt, lt→ltb, if◌then◌else◌, length, drop, set, take-append,
  drop-append, length-drop, length-take, take, Bool-cases, inl, inr, true, false, subst,
}
use boltdb_rs.Memory.{
  splice, decode_array, length-decode_array, decode_array-take, length-splice,
  take-drop-splice_below, write, write-eq-ok,
}
use boltdb_rs.Memory.Apart.{drop-splice, splice_comm}
use boltdb_rs.Page.{Page}
use boltdb_rs.Page.Arrays.{PageArray, IsLawful}

module _ {E : Type 0} (decode : List ℕ → E) (size : ℕ) (e : E) (bs : List ℕ)
    (long : length bs ≡ size) (back : decode bs ≡ e) where
  -- Bytes of a record put in place of record `i` change the array at that index.
  decode_array-splice :
      (n i at : ℕ) (mem : List ℕ)
      → at ≡ i * size
      → i < n
      → n * size ≤ length mem
      → decode_array decode size n (splice mem at bs) ≡ set (decode_array decode size n mem) i e
  unfolding decode_array splice
  decode_array-splice zero i at mem o h k = absurd (omega arith)
  decode_array-splice (suc n) zero (suc at) mem o h k = absurd (omega arith)
  decode_array-splice (suc n) zero zero mem o h k =
      ap₂ ◌∷◌ (ap decode (take-append size bs _ (sym long)) ∙ back) (
        ap (decode_array decode size n)
          (drop-append size bs _ (sym long) ∙ ap (λ k. drop k mem) long))
  decode_array-splice (suc n) (suc i) at mem o h k =
      ap₂ ◌∷◌ (ap decode (take-drop-splice_below mem at bs 0 size (omega arith))) (
        ap (decode_array decode size n)
          (drop-splice size (i * size) at mem bs (omega arith) (omega arith))
        ∙ decode_array-splice n i (i * size) (drop size mem) refl (omega arith)
            (omega (arith, length-drop size mem)))

-- An array of records of `size` bytes: its load decodes them, its store replaces one of them.
module _ {E : Type 0} (a : PageArray E) (decode : List ℕ → E) (encode : E → List ℕ) (size : ℕ)
    (long : (e : E) → length (encode e) ≡ size)
    (back : (e : E) → a.IsElement e → decode (encode e) ≡ e)
    (fits : (p : Page) → a.Holds p → p.count * size ≤ length p.body)
    (keeps : (p : Page) (addr : ℕ) (body : List ℕ)
      → p.count * size ≤ length body
      → a.Holds p
      → a.Holds (record p { addr = addr; body = body }))
    (wide : a.width ≡ size)
    (loads : (p : Page) → a.Holds p → a.load p ≡ ok (decode_array decode size p.count p.body))
    (stores : (i : ℕ) (e : E) (p : Page)
      → a.Holds p
      → a.store i e p ≡ (
          if ltb i p.count
          then (do body ← write p.body (i * size) (encode e); ok (record p { body = body }))
          else fault out_of_bounds)) where
  abbrev stored : ℕ → E → Page → Page
  stored i e p = record p { body = splice p.body (i * size) (encode e) }

  room :
      (i : ℕ) (e : E) (p : Page)
      → a.Holds p
      → i < p.count
      → i * size + length (encode e) ≤ length p.body
  room i e p h inside = grind (arith, long e, fits p h)

  store_inside :
      (i : ℕ) (e : E) (p : Page)
      → a.Holds p
      → ltb i p.count ≡ true
      → a.store i e p ≡ ok (stored i e p)
  store_inside i e p h inside =
      stores i e p h
      ∙ rw
          (
            inside,
            write-eq-ok p.body (i * size) (encode e) (room i e p h (ltb→lt i p.count inside)),
          )
          refl

  Holds-stored : (i : ℕ) (e : E) (p : Page) → a.Holds p → i < p.count → a.Holds (stored i e p)
  Holds-stored i e p h inside =
      keeps p p.addr _
        (omega (arith, fits p h, length-splice p.body (i * size) (encode e) (room i e p h inside)))
        h

  stored-eq :
      (i : ℕ) (e : E) (p q : Page)
      → a.Holds p
      → a.store i e p ≡ ok q
      → (i < p.count) × (stored i e p ≡ q)
  stored-eq i e p q h run = elim (Bool-cases (ltb i p.count)) [
    | inl inside ↦ (ltb→lt i p.count inside, cc (store_inside i e p h inside))
    | inr outside ↦
        let bad : fault out_of_bounds ≡ ok q = sym (stores i e p h ∙ rw outside refl) ∙ run in
        absurd (cc)
  ]

  store_outside :
      (i : ℕ) (e : E) (p : Page)
      → a.Holds p
      → ltb i p.count ≡ false
      → a.store i e p ≡ fault out_of_bounds
  store_outside i e p h outside = stores i e p h ∙ rw outside refl

  below : (i j : ℕ) (e : E) → i < j → i * size + length (encode e) ≤ j * size
  below i j e h = grind (arith, long e)

  stored_comm :
      (i j : ℕ) (e f : E) (p : Page)
      → a.Holds p
      → i < j
      → j < p.count
      → stored j f (stored i e p) ≡ stored i e (stored j f p)
  stored_comm i j e f p h order inside =
      ap (λ body. record p { body = body })
        (splice_comm p.body (i * size) (j * size) (encode e) (encode f) (below i j e order)
          (room j f p h inside))

  stores_comm :
      (i j : ℕ) (e f : E) (p : Page)
      → a.Holds p
      → i < j
      → (a.store i e p >>= a.store j f) ≡ (a.store j f p >>= a.store i e)
  stores_comm i j e f p h order = elim (Bool-cases (ltb j p.count)) [
    | inl inside ↦
        let far : j < p.count = ltb→lt j p.count inside in
        let near : i < p.count = omega arith in
        let near' : ltb i p.count ≡ true = lt→ltb i p.count near in
        rw
          (
            store_inside i e p h near',
            store_inside j f p h inside,
            store_inside j f (stored i e p) (Holds-stored i e p h near) inside,
            store_inside i e (stored j f p) (Holds-stored j f p h far) near',
          )
          (ap ok (stored_comm i j e f p h order far))
    | inr outside ↦ elim (Bool-cases (ltb i p.count)) [
      | inl near ↦
          rw
            (
              store_inside i e p h near,
              store_outside j f p h outside,
              store_outside j f (stored i e p) (Holds-stored i e p h (ltb→lt i p.count near))
                  outside,
            )
            refl
      | inr far ↦ rw (store_outside i e p h far, store_outside j f p h outside) refl
    ]
  ]

  copied_load :
      (p : Page) (addr n : ℕ)
      → a.Holds p
      → p.count * size ≤ n
      → n ≤ length p.body
      → let q : Page = record p { addr = addr; body = take n p.body } in
        a.Holds q × (a.load q ≡ a.load p)
  copied_load p addr n h covers inside =
      let q : Page = record p { addr = addr; body = take n p.body } in
      let held = keeps p addr (take n p.body) (omega (arith, length-take n p.body)) h in
      (
        held,
        loads q held
            ∙ (ap ok (decode_array-take decode size p.count n p.body covers) ∙ sym (loads p h)),
      )

  load-stored :
      (i : ℕ) (e : E) (p : Page)
      → a.Holds p
      → a.IsElement e
      → i < p.count
      → a.load (stored i e p) ≡ ok (set (decode_array decode size p.count p.body) i e)
  load-stored i e p h w inside =
      loads (stored i e p) (Holds-stored i e p h inside)
      ∙ ap ok (
          decode_array-splice decode size e (encode e) (long e) (back e w) p.count i (i * size)
            p.body refl inside (fits p h))

  pub records-IsLawful : IsLawful a
  records-IsLawful = record {
    store-load = λ i e p h w. elim (Bool-cases (ltb i p.count)) [
      | inl inside ↦
          rw
            (
              store_inside i e p h inside,
              loads p h,
              length-decode_array decode size p.count p.body,
              inside,
            )
            (load-stored i e p h w (ltb→lt i p.count inside))
      | inr outside ↦
          rw (stores i e p h, loads p h, length-decode_array decode size p.count p.body, outside)
            refl
    ];
    Holds-store = λ i e p q h run.
        let (inside, same) = stored-eq i e p q h run in
        subst a.Holds same (Holds-stored i e p h inside);
    same_header = λ i e p q h run.
        let (inside, same) = stored-eq i e p q h run in
        subst (λ (r : Page). record p { body = r.body } ≡ r) same refl;
    store_comm = stores_comm;
    load-copied = λ p addr n h covers inside.
        copied_load p addr n h (subst (λ w. p.count * w ≤ n) wide covers) inside;
  }
