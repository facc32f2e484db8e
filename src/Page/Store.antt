-- ===== src/Page/Store.antt =====
-- A record of 16 bytes stored over element `i` of a page that holds the elements it counts, for
-- the branch and leaf elements of common/page.rs.
use boltdb_rs.Base.{
  ℕ, ◌+◌, ◌*◌, ◌^◌, ◌≤◌, ◌<◌, ◌==◌, ◌≡◌, ◌⊎◌, inl, inr, refl, sym, ap, ◌∙◌, List, ◌++◌, arith, ok,
  ◌>>=◌, lt→ltb, if◌then◌else◌, length, take, drop, le_bytes, from_le, length-append,
  length-le_bytes,
}
use boltdb_rs.Memory.{
  splice, write-eq-ok, length-splice, take-drop-splice, take-drop-splice_below, drop-splice_above,
}
use boltdb_rs.Page.{Page}
use boltdb_rs.Page.Elements.{
  BranchPageElement, encode_branch, decode_branch, branch_page_element, set_branch_page_element,
}
use boltdb_rs.Page.Load.{HasElements, branch_at, branch_page_element_lem}

module _ {E : Type 0} (decode : List ℕ → E) (bs : List ℕ) (size : length bs ≡ 16) (i : ℕ) (p : Page)
    (h : HasElements p) (inside : i < p.count) where
  abbrev pub stored : Page
  stored = record p { body = splice p.body (i * 16) bs }

  pub stored_fits : i * 16 + length bs ≤ length p.body
  stored_fits = omega arith

  pub HasElements-stored : HasElements stored
  HasElements-stored = omega (arith, length-splice p.body (i * 16) bs stored_fits)

  pub stored_self : take 16 (drop (i * 16) stored.body) ≡ bs
  stored_self = take-drop-splice p.body (i * 16) bs 16 (sym size) stored_fits

  pub stored_other :
      (j : ℕ)
      → (j < i) ⊎ (i < j)
      → decode (take 16 (drop (j * 16) stored.body)) ≡ decode (take 16 (drop (j * 16) p.body))
  stored_other j (inl below) =
      ap decode (take-drop-splice_below p.body (i * 16) bs (j * 16) 16 (omega arith))
  stored_other j (inr above) =
      ap (λ cs. decode (take 16 cs))
        (drop-splice_above p.body (i * 16) bs (j * 16) (omega arith) stored_fits)

-- The fields are u32, u32 and u64.
pub record IsBranchPageElement (e : BranchPageElement) : Type 0 where
  pub pos_fits : e.pos < 2 ^ 32
  pub ksize_fits : e.ksize < 2 ^ 32
  pub pgid_fits : e.pgid < 2 ^ 64

pub length-encode_branch : (e : BranchPageElement) → length (encode_branch e) ≡ 16
unfolding encode_branch
length-encode_branch e = omega (
  arith,
  length-append (le_bytes 4 e.pos) (le_bytes 4 e.ksize ++ le_bytes 8 e.pgid),
  length-append (le_bytes 4 e.ksize) (le_bytes 8 e.pgid),
  length-le_bytes 4 e.pos,
  length-le_bytes 4 e.ksize,
  length-le_bytes 8 e.pgid,
)

pub decode_branch-encode_branch :
    (e : BranchPageElement) → IsBranchPageElement e → decode_branch (encode_branch e) ≡ e
unfolding encode_branch decode_branch le_bytes from_le
decode_branch-encode_branch e h = ground arith

module _ (i : ℕ) (e : BranchPageElement) (p : Page) (h : HasElements p) (inside : i < p.count) where
  abbrev branch_page : Page
  branch_page = stored decode_branch (encode_branch e) (length-encode_branch e) i p h inside

  set_branch_page_element-eq-ok : set_branch_page_element i e p ≡ ok branch_page
  unfolding set_branch_page_element
  set_branch_page_element-eq-ok =
      rw
        (
          branch_page_element_lem i p h,
          lt→ltb i p.count inside,
          write-eq-ok p.body (i * 16) (encode_branch e)
              (stored_fits decode_branch (encode_branch e) (length-encode_branch e) i p h inside),
        )
        refl

  -- On a page that holds the elements it counts, a branch element of two u32 fields and a u64 field
  -- that is stored at the index of one of them is loaded again, and the other elements keep their
  -- values.
  branch_page_element-set :
      IsBranchPageElement e
      → (j : ℕ)
      → (set_branch_page_element i e p >>= branch_page_element j)
        ≡ (if j == i then ok e else branch_page_element j p)
  branch_page_element-set w j =
      let q : Page = branch_page in
      let size = length-encode_branch e in
      rw
        (
          set_branch_page_element-eq-ok,
          branch_page_element_lem j q
              (HasElements-stored decode_branch (encode_branch e) size i p h inside),
        )
        (ground (
          arith,
          ap decode_branch (stored_self decode_branch (encode_branch e) size i p h inside)
              ∙ decode_branch-encode_branch e w,
          ap (λ k. branch_at k q) {x = j} {y = i},
          stored_other decode_branch (encode_branch e) size i p h inside j,
          branch_page_element_lem j p h,
        ))
