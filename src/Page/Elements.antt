-- ===== src/Page/Elements.antt =====
-- common/page.rs: the branch and leaf elements, records of 16 bytes at the start of a page's data.
-- An element's methods read memory relative to the element itself, so they take `at`, the offset
-- of the element from the page's data pointer, beside the element.
use boltdb_rs.Base.{
  ℕ, ◌+◌, ◌*◌, ◌%◌, ◌==◌, bit_and, Bool, not, List, [], ◌++◌, Option, none, Res, ok, assertion,
  out_of_bounds, check, expect, ◌>>=◌, ◌>>◌, if◌then◌else◌, take, drop, get_elem?, le_bytes,
  from_le,
}
use boltdb_rs.Memory.{read, write, decode_array}
use boltdb_rs.InBucket.{InBucket, load_bucket}
use boltdb_rs.Page.{Page, get_data_ptr}

abbrev pub branch_page_element_size : ℕ
branch_page_element_size = 16

abbrev pub leaf_page_element_size : ℕ
leaf_page_element_size = 16

abbrev pub pgid_size : ℕ
pgid_size = 8

abbrev pub bucket_leaf_flag : ℕ
bucket_leaf_flag = 0x01

pub record BranchPageElement : Type 0 where
  pub pos : ℕ
  pub ksize : ℕ
  pub pgid : ℕ

pub record LeafPageElement : Type 0 where
  pub flags : ℕ
  pub pos : ℕ
  pub ksize : ℕ
  pub vsize : ℕ

unfoldable pub encode_branch : BranchPageElement → List ℕ
encode_branch e = le_bytes 4 e.pos ++ (le_bytes 4 e.ksize ++ le_bytes 8 e.pgid)

unfoldable pub decode_branch : List ℕ → BranchPageElement
decode_branch bs = record {
  pos = from_le (take 4 bs);
  ksize = from_le (take 4 (drop 4 bs));
  pgid = from_le (take 8 (drop 8 bs));
}

unfoldable pub encode_leaf : LeafPageElement → List ℕ
encode_leaf e =
    le_bytes 4 e.flags ++ (le_bytes 4 e.pos ++ (le_bytes 4 e.ksize ++ le_bytes 4 e.vsize))

unfoldable pub decode_leaf : List ℕ → LeafPageElement
decode_leaf bs = record {
  flags = from_le (take 4 bs);
  pos = from_le (take 4 (drop 4 bs));
  ksize = from_le (take 4 (drop 8 bs));
  vsize = from_le (take 4 (drop 12 bs));
}

-- `must_align` of common/mod.rs, at an address and the alignment of the type.
unfoldable pub must_align : ℕ → ℕ → Res (Unit {0})
must_align ptr align = check assertion ((ptr % align) == 0)

-- The slice of `count` elements at the data pointer.
unfoldable pub leaf_page_elements : Page → Res (List LeafPageElement)
leaf_page_elements p = if p.count == 0 then ok [] else do
  bs ← read p.body 0 (p.count * leaf_page_element_size)
  ok (decode_array decode_leaf leaf_page_element_size p.count bs)

unfoldable pub branch_page_elements : Page → Res (List BranchPageElement)
branch_page_elements p = if p.count == 0 then ok [] else do
  bs ← read p.body 0 (p.count * branch_page_element_size)
  ok (decode_array decode_branch branch_page_element_size p.count bs)

unfoldable pub leaf_page_element : ℕ → Page → Res LeafPageElement
leaf_page_element index p = do
  elements ← leaf_page_elements p
  expect out_of_bounds (get_elem? elements index)

unfoldable pub branch_page_element : ℕ → Page → Res BranchPageElement
branch_page_element index p = do
  elements ← branch_page_elements p
  expect out_of_bounds (get_elem? elements index)

-- A store through `leaf_page_element_mut`: the same checks, and the element's bytes replaced.
unfoldable pub set_leaf_page_element : ℕ → LeafPageElement → Page → Res Page
set_leaf_page_element index e p = do
  old ← leaf_page_element index p
  body ← write p.body (index * leaf_page_element_size) (encode_leaf e)
  ok (record p { body = body })

unfoldable pub set_branch_page_element : ℕ → BranchPageElement → Page → Res Page
set_branch_page_element index e p = do
  old ← branch_page_element index p
  body ← write p.body (index * branch_page_element_size) (encode_branch e)
  ok (record p { body = body })

-- `BranchPageElement::key`: `addr_of!(self.pos)` is the address of the element's first field.
unfoldable pub branch_key : ℕ → BranchPageElement → Page → Res (List ℕ)
branch_key at e p = do must_align (get_data_ptr p + at) 8; read p.body at e.ksize

-- `LeafPageElement::key`: the field `pos` lies 4 bytes behind the element's address.
unfoldable pub leaf_key : ℕ → LeafPageElement → Page → Res (List ℕ)
leaf_key at e p = read p.body (at + 4) e.ksize

-- `LeafPageElement::value`: the field `vsize` lies 12 bytes behind the element's address.
unfoldable pub leaf_value : ℕ → LeafPageElement → Page → Res (List ℕ)
leaf_value at e p = do must_align (get_data_ptr p + at) 4; read p.body (at + 12) e.vsize

unfoldable pub is_bucket_entry : LeafPageElement → Bool
is_bucket_entry e = not (bit_and e.flags bucket_leaf_flag == 0)

unfoldable pub bucket : ℕ → LeafPageElement → Page → Res (Option InBucket)
bucket at e p =
    if is_bucket_entry e
    then (do buf ← leaf_value at e p; load_bucket (get_data_ptr p + at + 12) buf)
    else ok none
