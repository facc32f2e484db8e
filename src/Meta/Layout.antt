-- ===== src/Meta/Layout.antt =====
-- The meta struct in memory, and the range of its fields.
use boltdb_rs.Base.{◌^◌, ◌<◌, ◌≡◌, refl, arith, length, le_bytes, from_le}
use boltdb_rs.InBucket
use boltdb_rs.InBucket.{InBucket}
use boltdb_rs.Meta.{Meta, as_slice, as_slice_no_checksum, decode}

-- The types of the fields: u32 and u64.
pub record IsMeta (m : Meta) : Type 0 where
  pub magic_fits : m.magic < 2 ^ 32
  pub version_fits : m.version < 2 ^ 32
  pub page_size_fits : m.page_size < 2 ^ 32
  pub flags_fit : m.flags < 2 ^ 32
  pub root_fits : m.root.root < 2 ^ 64
  pub sequence_fits : m.root.sequence < 2 ^ 64
  pub freelist_fits : m.freelist < 2 ^ 64
  pub pgid_fits : m.pgid < 2 ^ 64
  pub txid_fits : m.txid < 2 ^ 64
  pub checksum_fits : m.checksum < 2 ^ 64

-- The struct is read back from its 64 bytes.
pub decode-as_slice : (m : Meta) → IsMeta m → decode (as_slice m) ≡ m
unfolding as_slice as_slice_no_checksum decode InBucket.encode InBucket.decode le_bytes from_le
decode-as_slice m w = ground arith

pub length-as_slice : (m : Meta) → length (as_slice m) ≡ 64
unfolding as_slice as_slice_no_checksum InBucket.encode le_bytes
length-as_slice m = refl
