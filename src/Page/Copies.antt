-- ===== src/Page/Copies.antt =====
-- What an owned page keeps of a free list and of the elements of a branch page.
use boltdb_rs.Base.{
  ℕ, suc, ◌+◌, ◌-◌, ◌*◌, ◌%◌, ◌^◌, ◌≤◌, ◌<◌, ◌≡◌, sym, ap, ◌∙◌, List, [], arith, ok, ◌>>=◌, length,
  length-take, take, drop, from_le, Build, add_word,
}
use boltdb_rs.Memory.{
  read_inside, decode_array, decode_array-take, length-decode_array, get_elem?-decode_array,
}
use boltdb_rs.Flags.{Bitflags, contains-freelist_iff}
use boltdb_rs.Page.{Page, IsPage, is_freelist_page}
use boltdb_rs.Page.Freelist.{pg_ids, read_pgids, freelist_page_count, freelist_page_ids}
use boltdb_rs.Page.Size.{byte_size, to_owned, borrow}
use boltdb_rs.Page.Elements.{decode_branch, branch_page_elements}
use boltdb_rs.Page.Load.{HasElements, elements_lem}
use boltdb_rs.Page.Size.{branch_size}
use boltdb_rs.Page.Owned.{copied, borrow-to_owned, last-eq-get_elem?}

-- The ids that stand at the data pointer.
abbrev ids_at : Page → List ℕ
ids_at p = decode_array from_le 8 p.count p.body

pub read_pgids_lem : (p : Page) → p.count * 8 ≤ length p.body → read_pgids p.count p ≡ ok (ids_at p)
unfolding read_pgids
read_pgids_lem p fits =
    rw (read_inside p.body 0 (p.count * 8) (omega arith))
      (ap ok (decode_array-take from_le 8 p.count (p.count * 8) p.body (omega arith)))

byte_size-freelist :
    (build : Build) (p : Page)
    → p.flags ≡ 16
    → p.count * 8 ≤ length p.body
    → byte_size build p ≡ ok (16 + p.count * 8)
unfolding byte_size pg_ids
byte_size-freelist build p flag fits =
    ground (arith, read_pgids_lem p fits, length-decode_array from_le 8 p.count p.body)

no_ids : (p : Page) → p.count ≡ 0 → [] ≡ ids_at p
unfolding decode_array
no_ids p e = ap (λ n. decode_array from_le 8 n p.body) (sym e)

module _ ⦃b : Bitflags⦄ where
  freelist_page_ids_lem :
      (p : Page)
      → p.flags ≡ 16
      → p.count < 0xffff
      → p.count * 8 ≤ length p.body
      → freelist_page_ids p ≡ ok (ids_at p)
  unfolding freelist_page_ids freelist_page_count is_freelist_page
  freelist_page_ids_lem p flag small fits =
      ground (arith, contains-freelist_iff p.flags, read_pgids_lem p fits, no_ids p)

  -- An owned copy of a free list page at an aligned address keeps the ids, where there are fewer
  -- than 0xFFFF of them and all lie within the buffer.
  freelist_page_ids-to_owned :
      (build : Build) (addr : ℕ) (p : Page)
      → IsPage p
      → addr % 8 ≡ 0
      → p.flags ≡ 16
      → p.count < 0xffff
      → p.count * 8 ≤ length p.body
      → (to_owned build addr p >>= borrow >>= freelist_page_ids) ≡ freelist_page_ids p
  freelist_page_ids-to_owned build addr p w aligned flag small fits =
      let n : ℕ = 16 + p.count * 8 in
      rw
        (
          borrow-to_owned build addr p n w aligned (byte_size-freelist build p flag fits)
              (omega arith),
          freelist_page_ids_lem (copied addr n p) flag small
              (omega (arith, length-take (n - 16) p.body)),
          freelist_page_ids_lem p flag small fits,
        )
        (ap ok (decode_array-take from_le 8 p.count (n - 16) p.body (omega arith)))

pub branch_page_elements_lem :
    (p : Page)
    → HasElements p
    → branch_page_elements p ≡ ok (decode_array decode_branch 16 p.count p.body)
unfolding branch_page_elements
branch_page_elements_lem p h = elements_lem decode_branch p h

-- Where the key of element `i` ends, counted from the start of the element.
abbrev key_end : ℕ → Page → ℕ
key_end i p = let e = decode_branch (take 16 (drop (i * 16) p.body)) in e.pos + e.ksize

byte_size-branch :
    (build : Build) (p : Page) (n : ℕ)
    → p.flags ≡ 1
    → HasElements p
    → p.count ≡ suc n
    → key_end n p < 2 ^ 32
    → byte_size build p ≡ ok (16 + (n * 16 + key_end n p))
unfolding byte_size branch_size add_word
byte_size-branch build p n flag h count small =
    let len : length (decode_array decode_branch 16 p.count p.body) ≡ suc n =
      length-decode_array decode_branch 16 p.count p.body ∙ count in
    ground (
      arith,
      branch_page_elements_lem p h,
      len,
      last-eq-get_elem? (decode_array decode_branch 16 p.count p.body) n len,
      get_elem?-decode_array decode_branch 16 p.count n p.body (omega arith),
    )

-- An owned copy of a branch page at an aligned address keeps every element, where the page has
-- all the elements that it counts, and the key of the last one, counted from its record by its
-- fields, ends at or behind that record, within the buffer, and without overflow.
branch_page_elements-to_owned :
    (build : Build) (addr : ℕ) (p : Page) (n : ℕ)
    → IsPage p
    → addr % 8 ≡ 0
    → p.flags ≡ 1
    → HasElements p
    → p.count ≡ suc n
    → key_end n p < 2 ^ 32
    → 16 ≤ key_end n p
    → n * 16 + key_end n p ≤ length p.body
    → (to_owned build addr p >>= borrow >>= branch_page_elements) ≡ branch_page_elements p
branch_page_elements-to_owned build addr p n w aligned flag h count small behind fits =
    let size : ℕ = n * 16 + key_end n p in
    rw
      (
        borrow-to_owned build addr p (16 + size) w aligned
            (byte_size-branch build p n flag h count small) (omega arith),
        branch_page_elements_lem (copied addr (16 + size) p)
            (omega (arith, length-take (16 + size - 16) p.body)),
        branch_page_elements_lem p h,
      )
      (ap ok (decode_array-take decode_branch 16 p.count (16 + size - 16) p.body (omega arith)))
