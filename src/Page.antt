-- ===== src/Page.antt =====
-- common/page.rs: the page header and what a page is in memory. The children hold the elements,
-- the free list, the serialised size, owned pages, page info, and pages inside other buffers.
pub mod Layout
pub mod Elements
pub mod Freelist
pub mod Size
pub mod Load
pub mod Store
pub mod Access
pub mod Arrays
pub mod Owned
pub mod Copies
pub mod FreelistIds
pub mod BucketEntry
pub mod Branch
pub mod Leaf
pub mod Info
pub mod Show
pub mod Getters
pub mod Typing
pub mod Inline
use boltdb_rs.Base.{
  ℕ, ◌+◌, ◌%◌, ◌^◌, ◌<◌, ◌==◌, ◌≡◌, Bool, ◌||◌, List, [], ◌++◌, Res, ok, fault, assertion,
  wild_read, misaligned, check, ◌>>◌, ltb, if◌then◌else◌, length, take, drop, le_bytes, from_le,
}
use boltdb_rs.Flags.{Bitflags, branch_page_flag, leaf_page_flag, meta_page_flag, freelist_page_flag}

abbrev pub page_header_size : ℕ
page_header_size = 16

-- A page seen through a reference: the header's fields, the address that the reference holds, and
-- `body`, the bytes behind the header up to the end of the buffer that the page lies in.
pub record Page : Type 0 where
  pub addr : ℕ
  pub id : ℕ
  pub flags : ℕ
  pub count : ℕ
  pub overflow : ℕ
  pub body : List ℕ

-- What the types u64, u16, u16, u32 and the alignment of a reference give.
pub record IsPage (p : Page) : Type 0 where
  pub aligned : p.addr % 8 ≡ 0
  pub id_fits : p.id < 2 ^ 64
  pub flags_fit : p.flags < 2 ^ 16
  pub count_fits : p.count < 2 ^ 16
  pub overflow_fits : p.overflow < 2 ^ 32

-- The buffer from the header on: `#[repr(C)]`, little-endian.
unfoldable pub bytes : Page → List ℕ
bytes p =
    le_bytes 8 p.id
    ++ (le_bytes 2 p.flags ++ (le_bytes 2 p.count ++ (le_bytes 4 p.overflow ++ p.body)))

unfoldable pub from_slice : ℕ → List ℕ → Res Page
from_slice addr buffer =
    if (addr % 8) == 0
    then if ltb (length buffer) page_header_size
      then fault wild_read
      else ok (record {
        addr = addr;
        id = from_le (take 8 buffer);
        flags = from_le (take 2 (drop 8 buffer));
        count = from_le (take 2 (drop 10 buffer));
        overflow = from_le (take 4 (drop 12 buffer));
        body = drop 16 buffer;
      })
    else fault misaligned

-- A page that is made by value is its header alone.
unfoldable pub new : ℕ → ℕ → ℕ → ℕ → ℕ → Page
new addr id flags count overflow = record {
  addr = addr;
  id = id;
  flags = flags;
  count = count;
  overflow = overflow;
  body = [];
}

unfoldable pub default_page : ℕ → Page
default_page addr = new addr 0 branch_page_flag 0 0

-- The data pointer is the address behind the header.
unfoldable pub get_data_ptr : Page → ℕ
get_data_ptr p = p.addr + page_header_size

unfoldable pub set_id : ℕ → Page → Page
set_id target p = record p { id = target }

unfoldable pub set_flags : ℕ → Page → Page
set_flags flags p = record p { flags = flags }

unfoldable pub set_count : ℕ → Page → Page
set_count count p = record p { count = count }

unfoldable pub set_overflow : ℕ → Page → Page
set_overflow overflow p = record p { overflow = overflow }

-- The texts that `typ` returns; `unknown` is `unknown<…>` with the flags in hexadecimal.
pub data PageType : Type 0 where
  branch leaf meta freelist : PageType
  unknown : ℕ → PageType

-- `matches!` compares the flags whole.
unfoldable pub is_branch_page : Page → Bool
is_branch_page p = p.flags == branch_page_flag

module _ ⦃b : Bitflags⦄ where
  unfoldable pub is_leaf_page : Page → Bool
  is_leaf_page p = b.contains p.flags leaf_page_flag

  unfoldable pub is_meta_page : Page → Bool
  is_meta_page p = b.contains p.flags meta_page_flag

  unfoldable pub is_freelist_page : Page → Bool
  is_freelist_page p = b.contains p.flags freelist_page_flag

  unfoldable pub typ : Page → PageType
  unfolding is_branch_page is_leaf_page is_meta_page is_freelist_page
  typ p =
      if is_branch_page p
      then branch
      else if is_leaf_page p
      then leaf
      else if is_meta_page p
      then meta
      else if is_freelist_page p
      then freelist
      else unknown p.flags

  unfoldable pub fast_check : ℕ → Page → Res (Unit {0})
  unfolding is_branch_page is_leaf_page is_meta_page is_freelist_page
  fast_check id p = do
    check assertion (p.id == id)
    check assertion (is_meta_page p || is_branch_page p || is_leaf_page p || is_freelist_page p)
