-- ===== src/Tests/Texts.antt =====
-- Texts of pages, metas and bucket headers, at concrete inputs.
use boltdb_rs.Base.{◌≡◌, refl, [], ◌∷◌}
use boltdb_rs.Page.{unknown, typ}
use boltdb_rs.Page.Show.{
  page_fields, page_values, braced, typ_text, flags_text, to_string, display, scan-to_string,
}
use boltdb_rs.Meta.Show.{
  meta_pieces, bucket_pieces, meta_text, bucket_text, no_meta, scan-meta_text,
}
use boltdb_rs.Text.{lit, num, padded, codes, digits, digit, dec, hex, hex_padded, format}
use boltdb_rs.Text.Scan.{number_value, shapes, scan}
use boltdb_rs.Tests.Metas.{first_meta}
use boltdb_rs.Tests.Pages.{data_page}
use boltdb_rs.Tests.Params.{bitflags}

numbers :
    format (num 0 ∷ lit " " ∷ num 1203 ∷ lit " " ∷ padded 8 0xfa0 ∷ []) ≡ codes "0 1203 00000fa0"
unfolding format digits digit dec hex hex_padded
numbers = refl

unknown_text : typ_text (unknown 0xc8) ≡ codes "unknown<c8>"
unfolding typ_text flags_text hex digits digit
unknown_text = refl

page_text : to_string data_page ≡ codes "ID: 123, Type: leaf, count: 2, overflow: 0"
unfolding to_string typ typ_text format dec digits digit
page_text = refl

scan-to_string_example :
    (scan (shapes (page_fields 0 [] 0 0)) (to_string data_page)
      ≡ page_values 123 (typ_text (typ data_page)) 2 0)
    × (scan (shapes (braced (page_fields 0 [] 0 0))) (display data_page)
        ≡ page_values 123 (typ_text (typ data_page)) 2 0)
scan-to_string_example = scan-to_string data_page

scan-meta_text_example :
    (scan (shapes (meta_pieces no_meta)) (meta_text first_meta)
      ≡ number_value 2
        ∷ number_value 4096
        ∷ number_value 0
        ∷ number_value 3
        ∷ number_value 2
        ∷ number_value 4
        ∷ number_value 5
        ∷ number_value 0
        ∷ [])
    × (scan
          (shapes (bucket_pieces (record { root = 0; sequence = 0 })))
          (bucket_text (record { root = 3; sequence = 9 }))
        ≡ number_value 3 ∷ number_value 9 ∷ [])
scan-meta_text_example = scan-meta_text first_meta (record { root = 3; sequence = 9 })
