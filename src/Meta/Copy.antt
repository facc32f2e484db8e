-- ===== src/Meta/Copy.antt =====
-- A written meta beyond the page that it is written to: its copy in an owned page, and the meta of
-- the next transaction.
use boltdb_rs.Base.{
  ℕ, ◌-◌, ◌%◌, ◌^◌, ◌≤◌, ◌<◌, ◌≡◌, ◌≢◌, refl, ◌∙◌, arith, ok, Res, ◌>>=◌, length, length-take,
  take-take, take, Build, debug, release, add_word,
}
use boltdb_rs.Memory.{read_inside, length-splice}
use boltdb_rs.Page.{Page, IsPage}
use boltdb_rs.Page.Size.{to_owned, borrow, byte_size, OwnedPage, from_vec}
use boltdb_rs.Page.Owned.{copied, to_owned_lem, borrow-to_owned}
use boltdb_rs.Meta.{load_page_meta, Meta, Hasher, meta, write_meta, inc_txid, as_slice}
use boltdb_rs.Meta.Layout.{IsMeta, length-as_slice}
use boltdb_rs.Meta.Write.{
  load_page_meta-bytes, IsWritable, sealed, written, write_meta-eq-ok, meta-written,
}

-- A copy that covers the struct holds the same meta.
meta-copied : (addr : ℕ) (q : Page) → 64 ≤ length q.body → meta (copied addr 80 q) ≡ meta q
unfolding meta
meta-copied addr q room =
    rw
      (
        read_inside (take (80 - 16) q.body) 0 64 (omega (arith, length-take (80 - 16) q.body)),
        read_inside q.body 0 64 (omega arith),
        take-take 64 64 q.body (omega arith),
      )
      refl

-- `load_page_meta` on the buffer of an owned page.
unfoldable pub load_copy : OwnedPage → Res Meta
load_copy o = load_page_meta o.addr o.page

module _ ⦃h : Hasher⦄ where
  length-written : (m : Meta) (p : Page) → 64 ≤ length p.body → 64 ≤ length (written m p).body
  length-written m p room = omega (
    arith,
    length-splice p.body 0 (as_slice (sealed m)) (omega (arith, length-as_slice (sealed m))),
  )

  written-IsPage : (m : Meta) (p : Page) → IsPage p → IsPage (written m p)
  written-IsPage m p w = omega (arith, w.aligned, w.count_fits, w.overflow_fits)

  byte_size-written : (build : Build) (m : Meta) (p : Page) → byte_size build (written m p) ≡ ok 80
  unfolding byte_size
  byte_size-written build m p = refl

  -- A meta below its high water mark that is written to a well-formed page with room for it comes
  -- back, with its checksum, from an owned copy of that page at an aligned address, both through
  -- the page and from the bytes of the copy.
  pub write_meta-to_owned :
      (build : Build) (addr : ℕ) (m : Meta) (p : Page)
      → IsPage p
      → IsMeta m
      → IsWritable m
      → 64 ≤ length p.body
      → addr % 8 ≡ 0
      → ((write_meta m p >>= λ (r : Meta × Page). to_owned build addr r.1 >>= borrow >>= meta)
          ≡ ok (sealed m))
        × ((write_meta m p >>= λ (r : Meta × Page). to_owned build addr r.1 >>= load_copy)
            ≡ ok (sealed m))
  unfolding load_copy from_vec
  write_meta-to_owned build addr m p w wm below room aligned =
      let q : Page = written m p in
      let fits : 64 ≤ length q.body = length-written m p room in
      let back : meta (copied addr 80 q) ≡ ok (sealed m) =
        meta-copied addr q fits ∙ meta-written m p wm room in
      (
        rw
            (
              write_meta-eq-ok m p below room,
              borrow-to_owned build addr q 80 (written-IsPage m p w) aligned
                  (byte_size-written build m p) (omega arith),
            )
            back,
        rw
            (
              write_meta-eq-ok m p below room,
              to_owned_lem build addr q 80 (byte_size-written build m p) (omega arith),
            )
            (load_page_meta-bytes (copied addr 80 q) aligned
                (omega (arith, length-take (80 - 16) q.body))
              ∙ back),
      )

  -- A meta below its high water mark and the meta with the next transaction id, each written to a
  -- page with room for it, get pages of different ids, also where a build without overflow checks
  -- lets the transaction id start again at 0.
  pub write_meta-inc_txid :
      (build : Build) (m m' : Meta) (p p' : Page)
      → m.txid < 2 ^ 64
      → inc_txid build m ≡ ok m'
      → IsWritable m
      → 64 ≤ length p.body
      → 64 ≤ length p'.body
      → (q q' : Page) × (write_meta m p ≡ ok (sealed m, q))
        × (write_meta m' p' ≡ ok (sealed m', q'))
        × (q.id ≢ q'.id)
  unfolding inc_txid add_word
  write_meta-inc_txid debug m m' p p' t next below room room' = (
    written m p,
    written m' p',
    write_meta-eq-ok m p below room,
    write_meta-eq-ok m' p' (ground arith) room',
    ground arith,
  )
  write_meta-inc_txid release m m' p p' t next below room room' = (
    written m p,
    written m' p',
    write_meta-eq-ok m p below room,
    write_meta-eq-ok m' p' (ground arith) room',
    ground arith,
  )
