-- ===== src/Page/Size.antt =====
-- common/page.rs: the serialised size of a page, its bytes, and the owned copy of a page.
use boltdb_rs.Base.{
  ℕ, ◌+◌, ◌-◌, ◌*◌, ◌^◌, ◌==◌, List, [], ◌∷◌, Option, none, some, Res, ok, fault, explicit_panic,
  out_of_bounds, expect, get_elem?, ◌>>=◌, if◌then◌else◌, length, replicate, Build, add_word,
}
use boltdb_rs.Memory.{read, write}
use boltdb_rs.Flags.{branch_page_flag, leaf_page_flag, meta_page_flag, freelist_page_flag}
use boltdb_rs.Page.{Page, bytes, from_slice, page_header_size}
use boltdb_rs.Page.Elements.{
  branch_page_elements, leaf_page_elements, BranchPageElement, LeafPageElement,
  branch_page_element_size, leaf_page_element_size, pgid_size,
}
use boltdb_rs.Page.Freelist.{pg_ids}

abbrev pub meta_page_size : ℕ
meta_page_size = 64

-- `slice::last`.
abbrev pub last {ℓ} : {A : Type ℓ} → List A → Option A
last [] = none
last (x ∷ []) = some x
last (x ∷ y ∷ ys) = last (y ∷ ys)

-- The part of a branch page behind its header. The sum of the last element is one of u32.
unfoldable pub branch_size : Build → List BranchPageElement → Res ℕ
branch_size build elements = elim (last elements) [
  | none ↦ ok 0
  | some e ↦ do
    end ← add_word build (2 ^ 32) e.pos e.ksize
    ok ((length elements - 1) * branch_page_element_size + end)
]

unfoldable pub leaf_size : Build → List LeafPageElement → Res ℕ
leaf_size build elements = elim (last elements) [
  | none ↦ ok 0
  | some e ↦ do
    kend ← add_word build (2 ^ 32) e.pos e.ksize
    end ← add_word build (2 ^ 32) kend e.vsize
    ok ((length elements - 1) * leaf_page_element_size + end)
]

unfoldable pub byte_size : Build → Page → Res ℕ
byte_size build p =
    if p.flags == branch_page_flag
    then (do
      branch ← branch_page_elements p
      n ← branch_size build branch
      ok (page_header_size + n))
    else if p.flags == leaf_page_flag
    then (do leaves ← leaf_page_elements p; n ← leaf_size build leaves; ok (page_header_size + n))
    else if p.flags == meta_page_flag
    then ok (page_header_size + meta_page_size)
    else if p.flags == freelist_page_flag
    then (do ids ← pg_ids p; ok (page_header_size + length ids * pgid_size))
    else fault explicit_panic

unfoldable pub as_slice : Build → Page → Res (List ℕ)
as_slice build p = do n ← byte_size build p; read (bytes p) 0 n

-- A store of a byte through `as_slice_mut`: the page is what its bytes then say.
unfoldable pub set_byte : Build → ℕ → ℕ → Page → Res Page
set_byte build index v p = do
  slice ← as_slice build p
  old ← expect out_of_bounds (get_elem? slice index)
  buffer ← write (bytes p) index (v ∷ [])
  from_slice p.addr buffer

unfoldable pub get_data_slice : Build → Page → Res (List ℕ)
get_data_slice build p = do n ← byte_size build p; read p.body 0 (n - page_header_size)

-- `addr` is where the vector's buffer lies.
pub record OwnedPage : Type 0 where
  pub addr : ℕ
  pub page : List ℕ

unfoldable pub new : ℕ → ℕ → OwnedPage
new addr size = record { addr = addr; page = replicate size 0 }

unfoldable pub from_vec : ℕ → List ℕ → OwnedPage
from_vec addr buf = record { addr = addr; page = buf }

unfoldable pub size : OwnedPage → ℕ
size o = length o.page

-- The vector may move its buffer, so the address of the buffer afterwards is given.
unfoldable pub reserve : ℕ → ℕ → OwnedPage → OwnedPage
reserve addr size o = record o { addr = addr }

unfoldable pub as_ptr : OwnedPage → ℕ
as_ptr o = o.addr

-- A store of a byte through `buf_mut`.
unfoldable pub buf_mut : ℕ → ℕ → OwnedPage → Res OwnedPage
buf_mut index v o = do
  old ← expect out_of_bounds (get_elem? o.page index)
  page ← write o.page index (v ∷ [])
  ok (record o { page = page })

unfoldable pub buf : OwnedPage → List ℕ
buf o = o.page

-- `Borrow` and `Deref`: the buffer seen as a page.
unfoldable pub borrow : OwnedPage → Res Page
borrow o = from_slice o.addr o.page

-- Stores through the mutable reference of `BorrowMut` and `DerefMut`: what `f` makes of the page
-- is in the buffer.
unfoldable pub borrow_mut : (Page → Res Page) → OwnedPage → Res OwnedPage
borrow_mut f o = do p ← borrow o; q ← f p; ok (record o { page = bytes q })

-- A copy of the page's bytes in a new buffer at `addr`.
unfoldable pub to_owned : Build → ℕ → Page → Res OwnedPage
to_owned build addr p = do slice ← as_slice build p; ok (from_vec addr slice)
