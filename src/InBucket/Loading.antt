-- ===== src/InBucket/Loading.antt =====
-- Bucket headers read from raw bytes.
use boltdb_rs.Base.{ℕ, ◌%◌, ◌^◌, ◌<◌, ◌≡◌, List, ◌++◌, arith, some, ok, le_bytes, from_le}
use boltdb_rs.InBucket.{InBucket, encode, decode, load_bucket}

-- The header at the start of an aligned buffer is read back, whatever follows it.
pub load_bucket-encode :
    (addr : ℕ) (b : InBucket) (rest : List ℕ)
    → addr % 8 ≡ 0
    → b.root < 2 ^ 64
    → b.sequence < 2 ^ 64
    → load_bucket addr (encode b ++ rest) ≡ ok (some b)
unfolding load_bucket encode decode le_bytes from_le
load_bucket-encode addr b rest aligned r s = ground arith
