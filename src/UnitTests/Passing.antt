-- ===== src/UnitTests/Passing.antt =====
-- Runs of the tests of the source, for every address of their buffers.
use boltdb_rs.Base.{
  ℕ, ◌+◌, ◌++◌, ◌%◌, add_word, ◌==◌, ◌≡◌, ◌↔◌, refl, true, arith, ok, fault, wild_read, misaligned,
  replicate, Build, Bool, if◌then◌else◌, ◌&&◌, Bool-cases, inl, inr, le_bytes, from_le,
}
use boltdb_rs.Flags.{Bitflags}
use boltdb_rs.Memory.{read, write, decode_array, splice}
use boltdb_rs.PgIds.{extend_from_slice, sort, insert, dedup, dedup_from, len, from}
use boltdb_rs.Page.{
  Page, default_page, from_slice, get_data_ptr, set_id, set_flags, set_count, set_overflow, typ,
  leaf, new, bytes,
}
use boltdb_rs.Page.Getters
use boltdb_rs.Inode.{bytes_eq}
use boltdb_rs.Page.Show.{typ_text}
use boltdb_rs.Page.Elements.{
  leaf_page_element, leaf_page_elements, set_leaf_page_element, decode_leaf, encode_leaf,
}
use boltdb_rs.Page.Leaf
use boltdb_rs.Page.Size
use boltdb_rs.Page.Size.{OwnedPage, leaf_size, byte_size, as_slice, to_owned, borrow, borrow_mut}
use boltdb_rs.UnitTests.{test_page_size}
use boltdb_rs.UnitTests.Pages.{
  update, test_pgids_merge, test_page_buffer, test_page_new, leaf_page, fill, test_read_ownedpage,
  test_page_type, test_write_ownedpage,
}

merge_passes : test_pgids_merge ≡ ok tt
unfolding test_pgids_merge extend_from_slice sort insert dedup dedup_from len from
merge_passes = refl

test_page_buffer_faults : (build : Build) (addr : ℕ) → test_page_buffer build addr ≡ fault wild_read
unfolding test_page_buffer as_slice byte_size leaf_page_elements read set_id set_flags set_count
    set_overflow default_page new
test_page_buffer_faults build addr = refl

test_page_size_iff :
    (os_page_size : ℕ) → (test_page_size os_page_size ≡ ok tt) ↔ (os_page_size ≡ 16384)
unfolding test_page_size
test_page_size_iff os_page_size = ground arith

-- Whether a reference to a page may have the address.
abbrev aligned : ℕ → Bool
aligned addr = (addr % 8) == 0

test_page_new_lem :
    (addr owned_addr : ℕ)
    → test_page_new addr owned_addr
      ≡ (if aligned addr && aligned owned_addr then ok tt else fault misaligned)
unfolding test_page_new from_slice set_id set_flags set_count borrow_mut borrow Size.new Getters.id
    bytes le_bytes from_le
test_page_new_lem addr owned_addr = elim (Bool-cases (aligned addr)) [
  | inr e ↦ rw e refl
  | inl e ↦ elim (Bool-cases (aligned owned_addr)) [
    | inl f ↦ rw (e, f, borrow_mut, f, f) refl
    | inr f ↦ rw (e, f) refl
  ]
]

-- The page that both tests of owned pages make.
abbrev filled : ℕ → Page
filled addr = record {
  addr = addr;
  id = 123;
  flags = 2;
  count = 2;
  overflow = 0;
  body =
      encode_leaf (record { flags = 1; pos = 32; ksize = 5; vsize = 5 })
      ++ encode_leaf (record { flags = 0; pos = 26; ksize = 3; vsize = 4 })
      ++ replicate 4048 0;
}

same_ptr : (addr : ℕ) → ((addr + 16 + 0) == (addr + 16)) ≡ true
same_ptr addr = ground arith

blank : ℕ → Page
blank addr = record {
  addr = addr;
  id = 123;
  flags = 2;
  count = 2;
  overflow = 0;
  body = replicate 4080 0;
}

leaf_page_lem :
    (addr : ℕ) → leaf_page addr ≡ (if aligned addr then ok (blank addr) else fault misaligned)
unfolding leaf_page from_slice set_id set_flags set_count set_overflow blank
leaf_page_lem addr = elim (Bool-cases (aligned addr)) [ inr e ↦ rw e refl | inl e ↦ rw e refl ]

fill-blank : (addr : ℕ) → fill (blank addr) ≡ ok (filled addr)
unfolding fill blank update leaf_page_element set_leaf_page_element leaf_page_elements read write
    splice decode_array encode_leaf decode_leaf le_bytes from_le Leaf.as_ptr get_data_ptr
    Leaf.set_pos Leaf.set_ksize Leaf.set_flags Leaf.set_vsize Leaf.flags
fill-blank addr = rw (same_ptr addr) refl

test_read_ownedpage_lem :
    (addr : ℕ) → test_read_ownedpage addr ≡ (if aligned addr then ok tt else fault misaligned)
unfolding test_read_ownedpage leaf_page_element leaf_page_elements read decode_array encode_leaf
    decode_leaf le_bytes from_le Leaf.flags
test_read_ownedpage_lem addr = elim (Bool-cases (aligned addr)) [
  | inr e ↦ rw (leaf_page_lem addr, e) refl
  | inl e ↦ rw (leaf_page_lem addr, e, fill-blank addr) refl
]

module _ ⦃b : Bitflags⦄ where
  test_page_type_passes : (addr : ℕ) → test_page_type addr ≡ ok tt
  unfolding test_page_type typ_text bytes_eq typ
  test_page_type_passes addr = ground (
    arith,
    b.contains_lem 2 2,
    b.contains_lem 4 2,
    b.contains_lem 4 4,
    b.contains_lem 16 2,
    b.contains_lem 16 4,
    b.contains_lem 16 16,
  )

  typ-two : (p : Page) → p.flags ≡ 2 → typ p ≡ leaf
  unfolding typ
  typ-two p e = ground (arith, b.contains_lem p.flags 2)

  test_write_ownedpage_lem :
      (build : Build) (addr owned_addr : ℕ)
      → test_write_ownedpage build addr owned_addr
        ≡ (if aligned addr then ok tt else fault misaligned)
  unfolding test_write_ownedpage blank typ_text bytes_eq byte_size leaf_size leaf_page_elements read
      decode_array encode_leaf decode_leaf le_bytes from_le as_slice to_owned bytes add_word
  test_write_ownedpage_lem build addr owned_addr = elim (Bool-cases (aligned addr)) [
    | inr e ↦ rw (leaf_page_lem addr, e) refl
    | inl e ↦
        rw
          (
            leaf_page_lem addr,
            e,
            typ-two (blank addr) refl,
            fill-blank addr,
            typ-two (filled addr) refl,
          )
          refl
  ]
