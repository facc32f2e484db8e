-- ===== src/Page/Load.antt =====
-- The slices of elements in common/page.rs: what they hold, and what an index into them gives.
use boltdb_rs.Base.{
  ℕ, ◌*◌, ◌≤◌, ◌==◌, ◌≡◌, inl, inr, refl, sym, ap, List, [], arith, ok, fault, out_of_bounds,
  expect, ◌>>=◌, ltb, ltb→lt, if◌then◌else◌, length, take, drop, get_elem?, get_elem?-beyond,
  Bool-cases, true, false,
}
use boltdb_rs.Memory.{
  read, read_inside, decode_array, get_elem?-decode_array, decode_array-take, length-decode_array,
}
use boltdb_rs.Page.{Page}
use boltdb_rs.Page.Elements.{
  BranchPageElement, decode_branch, branch_page_elements, branch_page_element,
}

-- The page's buffer holds all the elements that the header counts.
abbrev pub HasElements : Page → Type 0
HasElements p = p.count * 16 ≤ length p.body

zero_of : (p : Page) → (p.count == 0) ≡ true → p.count ≡ 0
zero_of p h = ground arith

not_below : (i : ℕ) (p : Page) → ltb i p.count ≡ false → p.count ≤ i
not_below i p h = ground arith

module _ {E : Type 0} (decode : List ℕ → E) (p : Page) (h : HasElements p) where
  pub elements_lem :
      (if p.count == 0
        then ok []
        else do bs ← read p.body 0 (p.count * 16); ok (decode_array decode 16 p.count bs))
      ≡ ok (decode_array decode 16 p.count p.body)
  unfolding decode_array
  elements_lem = elim (Bool-cases (p.count == 0)) [
    | inl none_left ↦
        rw none_left (ap (λ n. ok (decode_array decode 16 n p.body)) (sym (zero_of p none_left)))
    | inr more ↦
        rw (more, read_inside p.body 0 (p.count * 16) (omega arith))
          (ap ok (decode_array-take decode 16 p.count (p.count * 16) p.body (omega arith)))
  ]

-- An index into an array of records of `size` bytes.
pub element_lem :
    {E : Type 0} (decode : List ℕ → E) (size : ℕ) (p : Page) (i : ℕ)
    → expect out_of_bounds (get_elem? (decode_array decode size p.count p.body) i) ≡ (
        if ltb i p.count
        then ok (decode (take size (drop (i * size) p.body)))
        else fault out_of_bounds)
element_lem decode size p i = elim (Bool-cases (ltb i p.count)) [
  | inl inside ↦
      rw (inside, get_elem?-decode_array decode size p.count i p.body (ltb→lt i p.count inside))
        refl
  | inr outside ↦
      rw
        (
          outside,
          get_elem?-beyond (decode_array decode size p.count p.body) i (
              omega (arith, length-decode_array decode size p.count p.body, not_below i p outside)),
        )
        refl
]

abbrev pub branch_at : ℕ → Page → BranchPageElement
branch_at i p = decode_branch (take 16 (drop (i * 16) p.body))

pub branch_page_element_lem :
    (i : ℕ) (p : Page)
    → HasElements p
    → branch_page_element i p ≡ (if ltb i p.count then ok (branch_at i p) else fault out_of_bounds)
unfolding branch_page_element branch_page_elements
branch_page_element_lem i p h =
    rw (elements_lem decode_branch p h) (element_lem decode_branch 16 p i)
