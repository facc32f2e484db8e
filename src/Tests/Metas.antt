-- ===== src/Tests/Metas.antt =====
-- Meta pages at concrete inputs.
use boltdb_rs.Base.{◌≡◌, ◌≢◌, ◌↔◌, refl, arith, ok, ◌>>=◌, replicate, sub_word, debug, add_word}
use boltdb_rs.Errors.{err, BoltError}
use boltdb_rs.Page.{Page, typ, PageType}
use boltdb_rs.Meta.{Meta, meta, validate, write_meta, inc_txid, dec_txid}
use boltdb_rs.Meta.Write.{sealed, write_meta-eq-ok_iff, IsWritable, write_meta-read}
use boltdb_rs.Page.Size.{to_owned, borrow}
use boltdb_rs.Meta.Copy.{load_copy, write_meta-to_owned, write_meta-inc_txid}
use boltdb_rs.Tests.Params.{bitflags, fnv}

abbrev pub first_meta : Meta
first_meta = record {
  magic = 0xed0cdaed;
  version = 2;
  page_size = 4096;
  flags = 0;
  root = record { root = 3; sequence = 0 };
  freelist = 2;
  pgid = 4;
  txid = 5;
  checksum = 0;
}

abbrev blank_page : Page
blank_page = record {
  addr = 4096;
  id = 0;
  flags = 0;
  count = 0;
  overflow = 0;
  body = replicate 100 0;
}

write_meta-eq-ok_iff_example :
    let m : Meta = record first_meta { pgid = 3 } in
    ((r : Meta × Page) × (write_meta m blank_page ≡ ok r)) ↔ IsWritable m
write_meta-eq-ok_iff_example =
    write_meta-eq-ok_iff (record first_meta { pgid = 3 }) blank_page (omega arith)

write_meta-read_example :
    (q : Page) × (write_meta first_meta blank_page ≡ ok (sealed first_meta, q))
    × (q.id ≡ 1)
    × (typ q ≡ PageType.meta)
    × (meta q ≡ ok (sealed first_meta))
    × (validate (sealed first_meta) ≢ err BoltError.checksum)
write_meta-read_example =
    write_meta-read first_meta blank_page (omega arith) (omega arith) (omega arith)

counted : (inc_txid debug first_meta >>= dec_txid debug) ≡ ok first_meta
unfolding inc_txid dec_txid add_word sub_word
counted = refl

write_meta-to_owned_example :
    ((write_meta first_meta blank_page >>= λ (r : Meta × Page).
    to_owned debug 8192 r.1 >>= borrow >>= meta)
      ≡ ok (sealed first_meta))
    × ((write_meta first_meta blank_page >>= λ (r : Meta × Page).
          to_owned debug 8192 r.1 >>= load_copy)
        ≡ ok (sealed first_meta))
write_meta-to_owned_example =
    write_meta-to_owned debug 8192 first_meta blank_page (omega arith) (omega arith) (omega arith)
      (omega arith) (omega arith)

-- The meta of the next transaction.
abbrev pub second_meta : Meta
second_meta = record first_meta { txid = 6 }

write_meta-inc_txid_example :
    (q q' : Page) × (write_meta first_meta blank_page ≡ ok (sealed first_meta, q))
    × (write_meta second_meta blank_page ≡ ok (sealed second_meta, q'))
    × (q.id ≢ q'.id)
unfolding inc_txid add_word
write_meta-inc_txid_example =
    write_meta-inc_txid debug first_meta second_meta blank_page blank_page (omega arith) refl
      (omega arith) (omega arith) (omega arith)
