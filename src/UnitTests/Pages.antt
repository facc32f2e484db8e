-- ===== src/UnitTests/Pages.antt =====
-- The tests in common/page.rs.
use Prim.Native.String.{String}
use boltdb_rs.Base.{
  ℕ, ◌==◌, Bool, [], ◌∷◌, Res, ok, assertion, explicit_panic, check, ◌>>=◌, ◌>>◌, replicate, Build,
}
use boltdb_rs.Flags.{Bitflags, branch_page_flag, leaf_page_flag, meta_page_flag, freelist_page_flag}
use boltdb_rs.Inode.{bytes_eq}
use boltdb_rs.Text.{codes}
use boltdb_rs.PgIds
use boltdb_rs.PgIds.{PgIds, extend_from_slice}
use boltdb_rs.Page.{
  Page, default_page, from_slice, get_data_ptr, set_id, set_flags, set_count, set_overflow, typ,
}
use boltdb_rs.Page.Getters
use boltdb_rs.Page.Show.{typ_text}
use boltdb_rs.Page.Elements.{LeafPageElement, leaf_page_element, set_leaf_page_element}
use boltdb_rs.Page.Leaf
use boltdb_rs.Page.Size
use boltdb_rs.Page.Size.{OwnedPage, byte_size, as_slice, to_owned, borrow, borrow_mut}

abbrev assert_eq : ℕ → ℕ → Res (Unit {0})
assert_eq a b = check assertion (a == b)

-- A method call on the element at `index` of the slice of elements.
unfoldable pub update : ℕ → (LeafPageElement → LeafPageElement) → Page → Res Page
update index f p = do e ← leaf_page_element index p; set_leaf_page_element index (f e) p

unfoldable pub test_pgids_merge : Res (Unit {0})
test_pgids_merge = do
  let a = PgIds.from (12323 ∷ 334 ∷ 3445 ∷ 4456 ∷ 333 ∷ [])
  let b : PgIds = record { pgids = 12323 ∷ 4567 ∷ 3445 ∷ 3489 ∷ 33356 ∷ [] }
  assert_eq (PgIds.len a) 5
  let merged = extend_from_slice b a
  assert_eq (PgIds.len merged) 8

-- The page lies on the stack, at `addr`.
unfoldable pub test_page_buffer : Build → ℕ → Res (Unit {0})
test_page_buffer build addr = do
  let page = set_overflow 0 (set_count 2 (set_flags leaf_page_flag (set_id 2 (default_page addr))))
  buffer ← as_slice build page
  new_page ← from_slice addr buffer
  new_buffer ← as_slice build new_page
  check assertion (bytes_eq buffer new_buffer)

-- The vector lies at `addr`, that of the owned page at `owned_addr`.
unfoldable pub test_page_new : ℕ → ℕ → Res (Unit {0})
test_page_new addr owned_addr = do
  page ← from_slice addr (replicate 1024 0)
  assert_eq page.id 0
  assert_eq page.count 0
  let page1 = set_id 36 page
  assert_eq page1.id 36
  let page2 = set_flags meta_page_flag page1
  assert_eq page2.flags meta_page_flag
  let owned = Size.new owned_addr 1024
  owned1 ← borrow_mut (λ p. ok (set_id 26 p)) owned
  owned2 ← borrow_mut (λ p. ok (set_count 36 p)) owned1
  page3 ← borrow owned2
  assert_eq (Getters.id page3) 26

-- Both tests of owned pages begin with these stores into a vector at `addr`.
unfoldable pub leaf_page : ℕ → Res Page
leaf_page addr = do
  page ← from_slice addr (replicate 4096 0)
  ok (set_overflow 0 (set_count 2 (set_flags leaf_page_flag (set_id 123 page))))

unfoldable pub fill : Page → Res Page
fill page = do
  assert_eq (Leaf.as_ptr 0 page) (get_data_ptr page)
  page1 ← update 0 (Leaf.set_pos 32) page
  page2 ← update 0 (Leaf.set_ksize 5) page1
  page3 ← update 0 (Leaf.set_flags 1) page2
  page4 ← update 0 (Leaf.set_vsize 5) page3
  update 1 (λ e. record { flags = 0; pos = 26; ksize = 3; vsize = 4 }) page4

unfoldable pub test_read_ownedpage : ℕ → Res (Unit {0})
test_read_ownedpage addr = do
  start ← leaf_page addr
  page ← fill start
  elem ← leaf_page_element 0 page
  assert_eq elem.pos 32
  assert_eq elem.ksize 5
  assert_eq elem.vsize 5
  assert_eq (Leaf.flags elem) 1
  elem1 ← leaf_page_element 1 page
  assert_eq elem1.pos 26
  assert_eq elem1.ksize 3
  assert_eq elem1.vsize 4
  assert_eq (Leaf.flags elem1) 0

module _ ⦃b : Bitflags⦄ where
  abbrev has_type : Page → String → Bool
  has_type page text = bytes_eq (typ_text (typ page)) (codes text)

  unfoldable pub test_page_type : ℕ → Res (Unit {0})
  test_page_type addr = do
    let page = default_page addr
    check explicit_panic (has_type (record page { flags = leaf_page_flag }) "leaf")
    check assertion (has_type (record page { flags = branch_page_flag }) "branch")
    check assertion (has_type (record page { flags = leaf_page_flag }) "leaf")
    check assertion (has_type (record page { flags = meta_page_flag }) "meta")
    check assertion (has_type (record page { flags = freelist_page_flag }) "freelist")

  -- The copy lies at `owned_addr`.
  unfoldable pub test_write_ownedpage : Build → ℕ → ℕ → Res (Unit {0})
  test_write_ownedpage build addr owned_addr = do
    start ← leaf_page addr
    check assertion (has_type start "leaf")
    page ← fill start
    check assertion (has_type page "leaf")
    size ← byte_size build page
    bytes ← as_slice build page
    owned ← to_owned build owned_addr page
    ok tt
