-- ===== src/Page/Owned.antt =====
-- `to_owned` of common/page.rs and the view of the copy as a page.
use boltdb_rs.Base.{
  ℕ, zero, suc, ◌+◌, ◌-◌, ◌*◌, ◌%◌, ◌^◌, ◌≤◌, ◌<◌, ◌≡◌, refl, ap, ◌∙◌, List, [], ◌∷◌, ◌++◌, arith,
  ok, ◌>>=◌, length, take, get_elem?, length-take, le_bytes, length-le_bytes, Build, add_word,
}
use boltdb_rs.Memory.{
  read_inside, decode_array, decode_array-take, length-decode_array, get_elem?-decode_array,
}
use boltdb_rs.Page.{Page, IsPage, bytes}
use boltdb_rs.Page.Layout.{from_slice-bytes, length-bytes}
use boltdb_rs.Page.Elements.{decode_leaf, leaf_page_elements}
use boltdb_rs.Page.Load.{HasElements}
use boltdb_rs.Page.Access.{leaf_at, leaf_page_elements_lem}
use boltdb_rs.Page.Size.{last, leaf_size, byte_size, as_slice, from_vec, borrow, to_owned}

-- Every size that is computed covers the header.
pub byte_size-ge-header : (build : Build) (p : Page) (n : ℕ) → byte_size build p ≡ ok n → 16 ≤ n
unfolding byte_size
byte_size-ge-header build p n h = ground arith

take-append_add {ℓ} :
    {A : Type ℓ} (n m : ℕ) (xs ys : List A)
    → n ≡ length xs + m
    → take n (xs ++ ys) ≡ xs ++ take m ys
take-append_add n m [] ys e = let e' : n ≡ m = omega arith in ap (λ k. take k ys) e'
take-append_add zero m (x ∷ xs) ys e = absurd (omega arith)
take-append_add (suc n) m (x ∷ xs) ys e = ap (◌∷◌ x) (take-append_add n m xs ys (omega arith))

take-bytes :
    (p : Page) (n m : ℕ) → n ≡ 16 + m → take n (bytes p) ≡ bytes (record p { body = take m p.body })
unfolding bytes
take-bytes p n m e =
    take-append_add n (8 + m) (le_bytes 8 p.id) _ (omega (arith, length-le_bytes 8 p.id))
    ∙ ap (◌++◌ (le_bytes 8 p.id)) (
        take-append_add (8 + m) (6 + m) (le_bytes 2 p.flags) _
          (omega (arith, length-le_bytes 2 p.flags))
        ∙ ap (◌++◌ (le_bytes 2 p.flags)) (
            take-append_add (6 + m) (4 + m) (le_bytes 2 p.count) _
              (omega (arith, length-le_bytes 2 p.count))
            ∙ ap (◌++◌ (le_bytes 2 p.count)) (
                take-append_add (4 + m) m (le_bytes 4 p.overflow) p.body
                  (omega (arith, length-le_bytes 4 p.overflow)))))

-- The copy at `addr` of the first `n` bytes of the page.
abbrev pub copied : ℕ → ℕ → Page → Page
copied addr n p = record p { addr = addr; body = take (n - 16) p.body }

-- Where the computed size lies within the buffer, the vector has the bytes of the page up to it.
pub to_owned_lem :
    (build : Build) (addr : ℕ) (p : Page) (n : ℕ)
    → byte_size build p ≡ ok n
    → n ≤ 16 + length p.body
    → to_owned build addr p ≡ ok (from_vec addr (bytes (copied addr n p)))
unfolding to_owned as_slice bytes
to_owned_lem build addr p n size fits =
    let covers : 16 ≤ n = byte_size-ge-header build p n size in
    rw (size, read_inside (bytes p) 0 n (omega (arith, length-bytes p)))
      (ap (λ bs. ok (from_vec addr bs)) (take-bytes p n (n - 16) (omega arith)))

-- The owned copy of a well-formed page at an aligned address, seen as a page again, has the header
-- of the original and its data up to the computed size.
pub borrow-to_owned :
    (build : Build) (addr : ℕ) (p : Page) (n : ℕ)
    → IsPage p
    → addr % 8 ≡ 0
    → byte_size build p ≡ ok n
    → n ≤ 16 + length p.body
    → (to_owned build addr p >>= borrow) ≡ ok (copied addr n p)
unfolding borrow from_vec
borrow-to_owned build addr p n w aligned size fits = rw (to_owned_lem build addr p n size fits) (
    from_slice-bytes (copied addr n p) (record {
      aligned = aligned;
      id_fits = w.id_fits;
      flags_fit = w.flags_fit;
      count_fits = w.count_fits;
      overflow_fits = w.overflow_fits;
    }))

pub last-eq-get_elem? {ℓ} :
    {A : Type ℓ} (xs : List A) (n : ℕ) → length xs ≡ suc n → last xs ≡ get_elem? xs n
last-eq-get_elem? [] n e = absurd (omega arith)
last-eq-get_elem? (x ∷ []) zero e = refl
last-eq-get_elem? (x ∷ []) (suc n) e = absurd (omega arith)
last-eq-get_elem? (x ∷ y ∷ ys) zero e = absurd (omega arith)
last-eq-get_elem? (x ∷ y ∷ ys) (suc n) e = last-eq-get_elem? (y ∷ ys) n (omega arith)

-- Where the value of element `i` ends, counted from the start of the element.
abbrev pub element_end : ℕ → Page → ℕ
element_end i p = (leaf_at i p).pos + (leaf_at i p).ksize + (leaf_at i p).vsize

-- The size of a leaf page: up to the end of the last element's value.
pub byte_size-leaf :
    (build : Build) (p : Page) (n : ℕ)
    → p.flags ≡ 2
    → HasElements p
    → p.count ≡ suc n
    → element_end n p < 2 ^ 32
    → byte_size build p ≡ ok (16 + (n * 16 + element_end n p))
unfolding byte_size leaf_size add_word
byte_size-leaf build p n leaf h count small =
    let len : length (decode_array decode_leaf 16 p.count p.body) ≡ suc n =
      length-decode_array decode_leaf 16 p.count p.body ∙ count in
    ground (
      arith,
      leaf_page_elements_lem p h,
      len,
      last-eq-get_elem? (decode_array decode_leaf 16 p.count p.body) n len,
      get_elem?-decode_array decode_leaf 16 p.count n p.body (omega arith),
    )

-- An owned copy of a leaf page at an aligned address keeps every element, where the page has all
-- the elements that it counts, and the data of the last one, counted from its record by its
-- fields, ends at or behind that record, within the buffer, and without overflow.
pub leaf_page_elements-to_owned :
    (build : Build) (addr : ℕ) (p : Page) (n : ℕ)
    → IsPage p
    → addr % 8 ≡ 0
    → p.flags ≡ 2
    → HasElements p
    → p.count ≡ suc n
    → element_end n p < 2 ^ 32
    → 16 ≤ element_end n p
    → n * 16 + element_end n p ≤ length p.body
    → (to_owned build addr p >>= borrow >>= leaf_page_elements) ≡ leaf_page_elements p
leaf_page_elements-to_owned build addr p n w aligned leaf h count small behind fits =
    let end : ℕ = element_end n p in
    let q : Page = copied addr (16 + (n * 16 + end)) p in
    rw
      (
        borrow-to_owned build addr p (16 + (n * 16 + end)) w aligned
            (byte_size-leaf build p n leaf h count small) (omega arith),
        leaf_page_elements_lem q (omega (arith, length-take (16 + (n * 16 + end) - 16) p.body)),
        leaf_page_elements_lem p h,
      )
      (ap ok
        (decode_array-take decode_leaf 16 p.count (16 + (n * 16 + end) - 16) p.body (omega arith)))
