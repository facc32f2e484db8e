-- ===== src/InBucket.antt =====
-- common/bucket.rs: the on-file header of a bucket, and the view of raw bytes as one
-- (`load_bucket` of common/mod.rs).
pub mod Loading
use boltdb_rs.Base.{
  ℕ, ◌%◌, ◌^◌, ◌==◌, List, ◌++◌, Option, some, Res, ok, fault, wild_read, misaligned, ltb,
  if◌then◌else◌, length, take, drop, le_bytes, from_le, Build, add_word, ◌>>=◌,
}

abbrev pub word64 : ℕ
word64 = 2 ^ 64

pub record InBucket : Type 0 where
  pub root : ℕ
  pub sequence : ℕ

unfoldable pub new : ℕ → ℕ → InBucket
new root sequence = record { root = root; sequence = sequence }

unfoldable pub root_page : InBucket → ℕ
root_page b = b.root

unfoldable pub set_root_page : ℕ → InBucket → InBucket
set_root_page id b = record b { root = id }

unfoldable pub in_sequence : InBucket → ℕ
in_sequence b = b.sequence

unfoldable pub set_in_sequence : ℕ → InBucket → InBucket
set_in_sequence sequence b = record b { sequence = sequence }

-- `self.sequence += 1` on a u64.
unfoldable pub inc_sequence : Build → InBucket → Res InBucket
inc_sequence build b = do
  next ← add_word build word64 b.sequence 1
  ok (record b { sequence = next })

abbrev pub bucket_header_size : ℕ
bucket_header_size = 16

-- The struct in memory: two u64 words in the order of their declaration.
unfoldable pub encode : InBucket → List ℕ
encode b = le_bytes 8 b.root ++ le_bytes 8 b.sequence

unfoldable pub decode : List ℕ → InBucket
decode bs = record { root = from_le (take 8 bs); sequence = from_le (take 8 (drop 8 bs)) }

-- The reference is made from the address of the slice whatever its length.
unfoldable pub load_bucket : ℕ → List ℕ → Res (Option InBucket)
load_bucket addr buf =
    if (addr % 8) == 0
    then if ltb (length buf) bucket_header_size then fault wild_read else ok (some (decode buf))
    else fault misaligned
