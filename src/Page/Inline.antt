-- ===== src/Page/Inline.antt =====
-- Pages inside other buffers: `load_page` of common/mod.rs, and `InBucket::inline_page` of
-- common/bucket.rs for the page behind the header in the value of a small bucket.
use boltdb_rs.Base.{
  ℕ, ◌+◌, ◌%◌, ◌^◌, ◌<◌, ◌≡◌, List, ◌++◌, Res, ok, some, drop, sym, arith, drop-append, length,
  length-append, length-le_bytes, le_bytes,
}
use boltdb_rs.InBucket.{InBucket, bucket_header_size, encode, load_bucket}
use boltdb_rs.InBucket.Loading.{load_bucket-encode}
use boltdb_rs.Page.{Page, IsPage, bytes, from_slice}
use boltdb_rs.Page.Layout.{from_slice-bytes}

unfoldable pub load_page : ℕ → List ℕ → Res Page
load_page addr buf = from_slice addr buf

-- The bucket itself is not read.
unfoldable pub inline_page : ℕ → List ℕ → InBucket → Res Page
inline_page addr v b = from_slice (addr + bucket_header_size) (drop bucket_header_size v)

length-encode : (b : InBucket) → 16 ≡ length (encode b)
unfolding encode
length-encode b = omega (
  arith,
  length-append (le_bytes 8 b.root) (le_bytes 8 b.sequence),
  length-le_bytes 8 b.root,
  length-le_bytes 8 b.sequence,
)

-- The words of the header being u64 and the page well-formed: from a value made of a bucket header
-- and the bytes of a page, at an aligned address, the header and the page are both read back.
pub inline_page-encode :
    (addr : ℕ) (b : InBucket) (p : Page)
    → addr % 8 ≡ 0
    → p.addr ≡ addr + 16
    → IsPage p
    → b.root < 2 ^ 64
    → b.sequence < 2 ^ 64
    → (load_bucket addr (encode b ++ bytes p) ≡ ok (some b))
      × (inline_page addr (encode b ++ bytes p) b ≡ ok p)
unfolding inline_page
inline_page-encode addr b p aligned behind w r s = (
  load_bucket-encode addr b (bytes p) aligned r s,
  rw (drop-append 16 (encode b) (bytes p) (length-encode b), sym behind) (from_slice-bytes p w),
)
