-- ===== src/Meta/Fields.antt =====
-- common/meta.rs: the getters of a meta, and the setters that the writing of a meta page does not
-- use.
use boltdb_rs.Base.{ℕ}
use boltdb_rs.Page.Size.{meta_page_size}
use boltdb_rs.InBucket.{InBucket}
use boltdb_rs.Meta.{Meta}

unfoldable pub set_magic : ℕ → Meta → Meta
set_magic v m = record m { magic = v }

unfoldable pub set_version : ℕ → Meta → Meta
set_version v m = record m { version = v }

unfoldable pub set_page_size : ℕ → Meta → Meta
set_page_size v m = record m { page_size = v }

unfoldable pub set_flags : ℕ → Meta → Meta
set_flags v m = record m { flags = v }

unfoldable pub set_root_bucket : InBucket → Meta → Meta
set_root_bucket b m = record m { root = b }

unfoldable pub set_freelist : ℕ → Meta → Meta
set_freelist v m = record m { freelist = v }

unfoldable pub set_pgid : ℕ → Meta → Meta
set_pgid id m = record m { pgid = id }

unfoldable pub byte_size : Meta → ℕ
byte_size m = meta_page_size

unfoldable pub magic : Meta → ℕ
magic m = m.magic

unfoldable pub version : Meta → ℕ
version m = m.version

unfoldable pub page_size : Meta → ℕ
page_size m = m.page_size

unfoldable pub flags : Meta → ℕ
flags m = m.flags

unfoldable pub root_bucket : Meta → InBucket
root_bucket m = m.root

unfoldable pub freelist : Meta → ℕ
freelist m = m.freelist

unfoldable pub pgid : Meta → ℕ
pgid m = m.pgid

unfoldable pub txid : Meta → ℕ
txid m = m.txid

unfoldable pub checksum : Meta → ℕ
checksum m = m.checksum
