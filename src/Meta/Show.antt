-- ===== src/Meta/Show.antt =====
-- The texts of a meta and of a bucket header: `Display` in common/meta.rs and common/bucket.rs.
use boltdb_rs.Base.{◌≡◌, refl, List, [], ◌∷◌}
use boltdb_rs.InBucket.{InBucket}
use boltdb_rs.Meta.{Meta}
use boltdb_rs.Text.{Text, Piece, lit, num, padded, format}
use boltdb_rs.Text.Digits.{digit_value}
use boltdb_rs.Text.Scan.{number_value, shapes, values, scan, scan-format}

abbrev pub bucket_pieces : InBucket → List Piece
bucket_pieces b = lit "<pgid=" ∷ num b.root ∷ lit ",seq=" ∷ num b.sequence ∷ lit ">" ∷ []

unfoldable pub bucket_text : InBucket → Text
bucket_text b = format (bucket_pieces b)

-- The template's own line breaks and indentation stand in its text.
abbrev pub meta_pieces : Meta → List Piece
meta_pieces m =
    lit "Meta {   \n                Version:  \t"
    ∷ num m.version
    ∷ lit "\n   \n                Page Size:\t"
    ∷ num m.page_size
    ∷ lit " bytes\n   \n                Flags:  \t\t0x"
    ∷ padded 8 m.flags
    ∷ lit "\n    \n                Root:     \t<pgid="
    ∷ num m.root.root
    ∷ lit ">\n    \n                Freelist: \t<pgid="
    ∷ num m.freelist
    ∷ lit ">\n    \n                HWM:      \t<pgid="
    ∷ num m.pgid
    ∷ lit ">\n    \n                Txn ID:  \t"
    ∷ num m.txid
    ∷ lit "\n    \n                Checksum: \t0x"
    ∷ padded 16 m.checksum
    ∷ lit "\n\n            }"
    ∷ []

unfoldable pub meta_text : Meta → Text
meta_text m = format (meta_pieces m)

abbrev pub no_meta : Meta
no_meta = record {
  magic = 0;
  version = 0;
  page_size = 0;
  flags = 0;
  root = record { root = 0; sequence = 0 };
  freelist = 0;
  pgid = 0;
  txid = 0;
  checksum = 0;
}

-- The text of a meta gives back every field that it shows: all but the magic number and the
-- sequence of the root bucket. The text of a bucket header gives back both of its fields.
pub scan-meta_text :
    (m : Meta) (b : InBucket)
    → (scan (shapes (meta_pieces no_meta)) (meta_text m)
        ≡ number_value m.version
          ∷ number_value m.page_size
          ∷ number_value m.flags
          ∷ number_value m.root.root
          ∷ number_value m.freelist
          ∷ number_value m.pgid
          ∷ number_value m.txid
          ∷ number_value m.checksum
          ∷ [])
      × (scan (shapes (bucket_pieces (record { root = 0; sequence = 0 }))) (bucket_text b)
          ≡ number_value b.root ∷ number_value b.sequence ∷ [])
unfolding meta_text bucket_text shapes values format digit_value
scan-meta_text m b = (
  scan-format (meta_pieces m) (refl, (refl, (refl, (refl, (refl, (refl, (refl, (refl, tt)))))))),
  scan-format (bucket_pieces b) (refl, (refl, tt)),
)
