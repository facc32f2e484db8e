-- ===== src/Page/BucketEntry.antt =====
-- `LeafPageElement::bucket` of common/page.rs.
use boltdb_rs.Base.{ℕ, ◌*◌, ◌%◌, ◌≡◌, ◌≢◌, arith, some, ok, inl, inr, Res-cases}
use boltdb_rs.InBucket.{InBucket, load_bucket}
use boltdb_rs.Page.{Page, get_data_ptr}
use boltdb_rs.Page.Elements.{LeafPageElement, bucket, leaf_value}

-- On an aligned page no element yields a bucket header: the header is read at the address of the
-- element's field `vsize`, which no reference to two words of 8 bytes may have.
pub bucket-ne-some :
    (i : ℕ) (e : LeafPageElement) (p : Page) (b : InBucket)
    → p.addr % 8 ≡ 0
    → bucket (i * 16) e p ≢ ok (some b)
unfolding bucket get_data_ptr load_bucket
bucket-ne-some i e p b aligned = elim (Res-cases (leaf_value (i * 16) e p)) [
  | inr (f, run) ↦ ground arith
  | inl (buf, run) ↦ ground arith
]
