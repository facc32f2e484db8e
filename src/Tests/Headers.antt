-- ===== src/Tests/Headers.antt =====
-- Bucket headers, inline pages and the bucket entries of leaf pages, at concrete inputs.
use boltdb_rs.Base.{◌-◌, ◌^◌, ◌≡◌, ◌≢◌, refl, ◌++◌, arith, some, ok}
use boltdb_rs.InBucket.{InBucket, encode, load_bucket}
use boltdb_rs.Page.Elements.{bucket}
use boltdb_rs.Page.BucketEntry.{bucket-ne-some}
use boltdb_rs.Page.{bytes}
use boltdb_rs.Page.Inline.{inline_page, inline_page-encode}
use boltdb_rs.Tests.Pages.{data_page, element}

abbrev header : InBucket
header = record { root = 3; sequence = 2 ^ 64 - 1 }

bucket-ne-some_example : bucket 16 element data_page ≢ ok (some header)
bucket-ne-some_example = bucket-ne-some 1 element data_page header (omega arith)

abbrev small : InBucket
small = record { root = 0; sequence = 7 }

inline_page-encode_example :
    (load_bucket 4080 (encode small ++ bytes data_page) ≡ ok (some small))
    × (inline_page 4080 (encode small ++ bytes data_page) small ≡ ok data_page)
inline_page-encode_example =
    inline_page-encode 4080 small data_page (omega arith) refl (omega arith) (omega arith)
      (omega arith)
