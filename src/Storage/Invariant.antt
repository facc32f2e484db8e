-- ===== src/Storage/Invariant.antt =====
-- What every sequence of stores keeps of a page, and what it makes of its bytes.
use boltdb_rs.Base.{ℕ, ◌%◌, ◌≡◌, refl, List, arith, ok, length, subst, ap, ◌∙◌}
use boltdb_rs.Flags.{Bitflags}
use boltdb_rs.Memory.Bytes.{AreBytes}
use boltdb_rs.Page.{Page, bytes, from_slice, set_id, set_flags}
use boltdb_rs.Page.Layout.{from_slice-bytes, length-bytes}
use boltdb_rs.Page.Typing.{from_slice-IsWellFormed}
use boltdb_rs.Meta.{Hasher, set_checksum, sum64}
use boltdb_rs.Storage.{
  Store, id, flags, count, overflow, leaf, branch, page_id, free_id, byte, meta, written, Stores,
  start, next,
}
use boltdb_rs.Storage.Keeping.{
  Kept, set_id-Kept, set_flags-Kept, set_count-Kept, set_overflow-Kept, set_leaf-Kept,
  set_branch-Kept, put_id-Kept, put_meta-Kept, set_byte-Kept,
}
use boltdb_rs.Storage.Puts.{set_pg_id-put, set_free_list-put, set_meta-put, write_meta-put}
use boltdb_rs.Storage.Images.{bytes-from_slice, image, blocks, put_blocks, Store-image}

module _ (addr n : ℕ) where
  module _ ⦃b : Bitflags⦄ ⦃h : Hasher⦄ where
    Store-Kept : {p q : Page} → Store p q → Kept addr n p → Kept addr n q
    Store-Kept (id v p w) k = set_id-Kept addr n v p w k
    Store-Kept (flags v p w) k = set_flags-Kept addr n v p w k
    Store-Kept (count v p w) k = set_count-Kept addr n v p w k
    Store-Kept (overflow v p w) k = set_overflow-Kept addr n v p w k
    Store-Kept (leaf i e {p} {q} w run) k = set_leaf-Kept addr n i e p q run k
    Store-Kept (branch i e {p} {q} w run) k = set_branch-Kept addr n i e p q run k
    Store-Kept (page_id i v {p} {q} w run) k =
        put_id-Kept addr n i v p q (set_pg_id-put i v p q run) k
    Store-Kept (free_id i v {p} {q} w run) k =
        put_id-Kept addr n i v p q (set_free_list-put i v p q run) k
    Store-Kept (byte build i v {p} {q} w run) k = set_byte-Kept addr n build i v p q w run k
    Store-Kept (meta m {p} {q} w run) k = put_meta-Kept addr n m p q (set_meta-put m p q run) k
    Store-Kept (written m m' {p} {q} w run) k =
        put_meta-Kept addr n (set_checksum (sum64 m) m) (set_flags 4 (set_id (m.txid % 2) p)) q
          (write_meta-put m m' p q run)
          (set_flags-Kept addr n 4 (set_id (m.txid % 2) p) (omega arith)
            (set_id-Kept addr n (m.txid % 2) p (omega arith) k))

module _ ⦃b : Bitflags⦄ ⦃h : Hasher⦄ where
  Stores-bytes :
      (addr : ℕ) (buffer : List ℕ) {p q : Page}
      → AreBytes buffer
      → from_slice addr buffer ≡ ok p
      → (stores : Stores p q) → Kept addr (length p.body) q × (bytes q ≡ image stores buffer)
  Stores-bytes addr buffer {p} v e start =
      let (well, same, room) = from_slice-IsWellFormed addr buffer p v e in
      (
        record { well_formed = well; same_addr = same; same_length = refl },
        bytes-from_slice addr buffer p v e,
      )
  Stores-bytes addr buffer {p} v e (next stores store) =
      let (k, same) = Stores-bytes addr buffer v e stores in
      (
        Store-Kept addr (length p.body) store k,
        Store-image store k.well_formed.are_bytes ∙ ap (put_blocks (blocks store)) same,
      )

  -- A page that is seen in a buffer of bytes and then changed by any sequence of stores of values
  -- in the range of their types has as its bytes what the stores make of the buffer by the layout
  -- of the structs: each puts its words, little-endian and without gaps, at their offset, an
  -- element or a page id at its multiple of 16 or 8 bytes behind the header, and a meta that is
  -- written with the hash of its other words as its checksum and with the header's id and flags; no
  -- other byte changes. The page is read back from these bytes, which fill the buffer.
  pub Stores-image :
      (addr : ℕ) (buffer : List ℕ) {p q : Page}
      → AreBytes buffer
      → from_slice addr buffer ≡ ok p
      → (stores : Stores p q)
      → (bytes q ≡ image stores buffer)
        × (from_slice addr (image stores buffer) ≡ ok q)
        × (length (image stores buffer) ≡ length buffer)
  Stores-image addr buffer {p} {q} v e stores =
      let (well, same, room) = from_slice-IsWellFormed addr buffer p v e in
      let (k, made) = Stores-bytes addr buffer v e stores in
      (
        made,
        subst (λ bs. from_slice addr bs ≡ ok q) made
            (subst (λ a. from_slice a (bytes q) ≡ ok q) k.same_addr
              (from_slice-bytes q k.well_formed.is_page)),
        omega (arith, ap length made, length-bytes q, k.same_length, room),
      )
