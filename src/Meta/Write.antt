-- ===== src/Meta/Write.antt =====
-- Writing a meta and reading it back.
use boltdb_rs.Base.{
  ℕ, ◌+◌, ◌%◌, ◌^◌, ◌≤◌, ◌<◌, ◌==◌, ◌≡◌, ◌≢◌, ◌↔◌, ◌⊎◌, refl, sym, ap, arith, ok, fault,
  explicit_panic, ◌>>=◌, length, true, Build, debug, release, overflow, add_word, sub_word,
  if◌then◌else◌, ◌-◌,
}
use boltdb_rs.Errors.{Result, err, BoltError}
use boltdb_rs.Memory.{read_inside, splice, write-eq-ok, read-splice}
use boltdb_rs.Flags.{Bitflags}
use boltdb_rs.Page.Layout.{length-bytes, drop-bytes_body}
use boltdb_rs.Page.{Page, bytes, set_id, set_flags, typ, PageType}
use boltdb_rs.Meta.{
  load_page_meta, Meta, copy, set_meta, Hasher, meta, as_slice, as_slice_no_checksum, sum64,
  validate, write_meta, set_checksum, magic_number, version_number, pgid_no_freelist, inc_txid,
  dec_txid,
}
use boltdb_rs.Meta.Layout.{IsMeta, decode-as_slice, length-as_slice}

-- The state in which a meta may be written: its page ids lie below the high water mark.
abbrev pub IsWritable : Meta → Type 0
IsWritable m = (m.root.root < m.pgid) × ((m.freelist < m.pgid) ⊎ (m.freelist ≡ pgid_no_freelist))

module _ ⦃h : Hasher⦄ where
  -- The checksum does not cover itself.
  pub sum64-set_checksum : (m : Meta) (v : ℕ) → sum64 (set_checksum v m) ≡ sum64 m
  unfolding sum64 set_checksum as_slice_no_checksum
  sum64-set_checksum m v = refl

  sum64-set_checksum_lem : (m : Meta) → sum64 (record m { checksum = sum64 m }) ≡ sum64 m
  unfolding sum64 as_slice_no_checksum
  sum64-set_checksum_lem m = refl

  -- A meta is valid exactly if it has the magic number and the version of this code, and its
  -- checksum is 0 or that of its fields.
  validate_iff :
      (m : Meta)
      → (validate m ≡ Result.ok tt) ↔ (
          (m.magic ≡ magic_number)
          × (m.version ≡ version_number)
          × ((m.checksum ≡ 0) ⊎ (m.checksum ≡ sum64 m)))
  unfolding validate
  validate_iff m = ground arith

  -- The meta with its checksum filled in.
  abbrev pub sealed : Meta → Meta
  sealed m = record m { checksum = sum64 m }

  module _ (m : Meta) (p : Page) where
    -- The page that a write leaves.
    abbrev pub written : Page
    written = record p { id = m.txid % 2; flags = 4; body = splice p.body 0 (as_slice (sealed m)) }

    -- On a page with room for the struct, a write of a meta below its high water mark goes through.
    pub write_meta-eq-ok :
        IsWritable m → 64 ≤ length p.body → write_meta m p ≡ ok (sealed m, written)
    unfolding write_meta copy set_meta set_id set_flags set_checksum
    write_meta-eq-ok w room =
        ground (arith, write-eq-ok p.body 0 (as_slice (sealed m)), length-as_slice (sealed m))

    -- A meta whose root page or free list page is not below its high water mark, where the free
    -- list is not the mark for none, is not written: the call panics.
    write_meta_panics : ¬ IsWritable m → write_meta m p ≡ fault explicit_panic
    unfolding write_meta
    write_meta_panics bad = ground arith

    ok-IsWritable : (r : Meta × Page) → write_meta m p ≡ ok r → IsWritable m
    unfolding write_meta
    ok-IsWritable r e = ground arith

    -- On a page with room for a meta, the write succeeds if and only if the root bucket lies below
    -- the meta's high water mark, and the free list does too or has the mark for none.
    pub write_meta-eq-ok_iff :
        64 ≤ length p.body → ((r : Meta × Page) × (write_meta m p ≡ ok r)) ↔ IsWritable m
    write_meta-eq-ok_iff room =
        (λ (r, e). ok-IsWritable r e, λ below. ((sealed m, written), write_meta-eq-ok below room))

    sealed-IsMeta : IsMeta m → IsMeta (sealed m)
    unfolding sum64
    sealed-IsMeta w = omega (arith, h.hash-lt (as_slice_no_checksum m))

    pub meta-written : IsMeta m → 64 ≤ length p.body → meta written ≡ ok (sealed m)
    unfolding meta
    meta-written w room =
        rw
          (read-splice p.body 0 (as_slice (sealed m)) (omega (arith, length-as_slice (sealed m))) 64
            (sym (length-as_slice (sealed m))))
          (ap ok (decode-as_slice (sealed m) (sealed-IsMeta w)))

  validate-sealed : (m : Meta) → validate (sealed m) ≢ err BoltError.checksum
  unfolding validate
  validate-sealed m = ground (arith, sum64-set_checksum_lem m)

  module _ ⦃b : Bitflags⦄ where
    typ-written : (m : Meta) (p : Page) → typ (written m p) ≡ PageType.meta
    unfolding typ
    typ-written m p = ground (arith, b.contains_lem 4 2, b.contains_lem 4 4)

    -- A meta below its high water mark, written to a page with room for it, is on the page: the
    -- page has the id of the meta's transaction modulo 2 and the type of a meta page, it reads back
    -- as the meta with its checksum, and that meta does not fail validation by its checksum.
    pub write_meta-read :
        (m : Meta) (p : Page)
        → IsMeta m
        → IsWritable m
        → 64 ≤ length p.body
        → (q : Page) × (write_meta m p ≡ ok (sealed m, q))
          × (q.id ≡ m.txid % 2)
          × (typ q ≡ PageType.meta)
          × (meta q ≡ ok (sealed m))
          × (validate (sealed m) ≢ err BoltError.checksum)
    write_meta-read m p w below room = (
      written m p,
      write_meta-eq-ok m p below room,
      refl,
      typ-written m p,
      meta-written m p w room,
      validate-sealed m,
    )

-- Counting a transaction id up and down again restores the meta. At the last id of a u64 the
-- build decides: with overflow checks the increment panics, without them both steps wrap.
dec_txid-inc_txid :
    (build : Build) (m : Meta)
    → m.txid < 2 ^ 64
    → (inc_txid build m >>= dec_txid build) ≡ (
        if m.txid == 2 ^ 64 - 1
        then elim build [ debug ↦ fault overflow | release ↦ ok m ]
        else ok m)
unfolding inc_txid dec_txid add_word sub_word
dec_txid-inc_txid debug m h = ground arith
dec_txid-inc_txid release m h = ground arith

aligned_data : (addr : ℕ) → addr % 8 ≡ 0 → ((addr + 16) % 8 == 0) ≡ true
aligned_data addr h = ground arith

-- On an aligned page with room for a meta, the meta is the same whether it is read through the
-- page or from the bytes that hold the page.
pub load_page_meta-bytes :
    (p : Page) → p.addr % 8 ≡ 0 → 64 ≤ length p.body → load_page_meta p.addr (bytes p) ≡ meta p
unfolding load_page_meta meta
load_page_meta-bytes p aligned room = rw (
  aligned_data p.addr aligned,
  read_inside (bytes p) 16 64 (omega (arith, length-bytes p)),
  read_inside p.body 0 64 (omega arith),
  drop-bytes_body p,
)
