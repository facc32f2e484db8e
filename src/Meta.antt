-- ===== src/Meta.antt =====
-- common/meta.rs: the meta page, its checksum, validation and writing. The hash is that of the
-- crate `fnv`, a parameter here.
pub mod Layout
pub mod Write
pub mod Copy
pub mod Fields
pub mod Show
use boltdb_rs.Base.{
  ℕ, ◌+◌, ◌%◌, ◌^◌, ◌<◌, ◌==◌, not, ◌&&◌, Bool, List, ◌++◌, Res, ok, fault, explicit_panic,
  misaligned, ◌>>=◌, leb, if◌then◌else◌, take, drop, le_bytes, from_le, Build, add_word, sub_word,
}
use boltdb_rs.Memory.{read, write}
use boltdb_rs.Errors.{BoltError, Result, err}
use boltdb_rs.InBucket
use boltdb_rs.InBucket.{InBucket, word64}
use boltdb_rs.Flags.{meta_page_flag}
use boltdb_rs.Page.{Page, set_id, set_flags, page_header_size}
use boltdb_rs.Page.Size.{meta_page_size}

-- common/types.rs.
abbrev pub magic_number : ℕ
magic_number = 0xed0cdaed

abbrev pub version_number : ℕ
version_number = 2

abbrev pub pgid_no_freelist : ℕ
pgid_no_freelist = 0xffffffffffffffff

pub record Meta : Type 0 where
  pub magic : ℕ
  pub version : ℕ
  pub page_size : ℕ
  pub flags : ℕ
  pub root : InBucket
  pub freelist : ℕ
  pub pgid : ℕ
  pub txid : ℕ
  pub checksum : ℕ

-- The bytes of the struct in front of `checksum`, and the whole struct: `#[repr(C)]`.
unfoldable pub as_slice_no_checksum : Meta → List ℕ
as_slice_no_checksum m =
    le_bytes 4 m.magic
    ++ (le_bytes 4 m.version
        ++ (le_bytes 4 m.page_size
            ++ (le_bytes 4 m.flags
                ++ (InBucket.encode m.root
                    ++ (le_bytes 8 m.freelist ++ (le_bytes 8 m.pgid ++ le_bytes 8 m.txid))))))

unfoldable pub as_slice : Meta → List ℕ
as_slice m = as_slice_no_checksum m ++ le_bytes 8 m.checksum

unfoldable pub decode : List ℕ → Meta
decode bs = record {
  magic = from_le (take 4 bs);
  version = from_le (take 4 (drop 4 bs));
  page_size = from_le (take 4 (drop 8 bs));
  flags = from_le (take 4 (drop 12 bs));
  root = InBucket.decode (take 16 (drop 16 bs));
  freelist = from_le (take 8 (drop 32 bs));
  pgid = from_le (take 8 (drop 40 bs));
  txid = from_le (take 8 (drop 48 bs));
  checksum = from_le (take 8 (drop 56 bs));
}

-- `Page::meta`: the data section read as a meta struct.
unfoldable pub meta : Page → Res Meta
meta p = do bs ← read p.body 0 meta_page_size; ok (decode bs)

-- A store through `Page::meta_mut`.
unfoldable pub set_meta : Meta → Page → Res Page
set_meta m p = do body ← write p.body 0 (as_slice m); ok (record p { body = body })

-- Into the data section of a page.
unfoldable pub copy : Meta → Page → Res Page
copy m p = set_meta m p

-- `load_page_meta` of common/mod.rs: the same struct, found in a buffer
-- at `addr` that holds a page.
unfoldable pub load_page_meta : ℕ → List ℕ → Res Meta
load_page_meta addr buf =
    if ((addr + page_header_size) % 8) == 0
    then (do bs ← read buf page_header_size meta_page_size; ok (decode bs))
    else fault misaligned

-- The FNV-1a hash of a byte string, as a u64.
pub record Hasher : Type 0 where
  pub hash : List ℕ → ℕ
  pub hash-lt : (bs : List ℕ) → hash bs < 2 ^ 64

unfoldable pub set_txid : ℕ → Meta → Meta
set_txid id m = record m { txid = id }

unfoldable pub set_checksum : ℕ → Meta → Meta
set_checksum v m = record m { checksum = v }

unfoldable pub inc_txid : Build → Meta → Res Meta
inc_txid build m = do txid ← add_word build word64 m.txid 1; ok (record m { txid = txid })

unfoldable pub dec_txid : Build → Meta → Res Meta
dec_txid build m = do txid ← sub_word build word64 m.txid 1; ok (record m { txid = txid })

unfoldable pub is_freelist_persisted : Meta → Bool
is_freelist_persisted m = not (m.freelist == pgid_no_freelist)

module _ ⦃h : Hasher⦄ where
  unfoldable pub sum64 : Meta → ℕ
  sum64 m = h.hash (as_slice_no_checksum m)

  unfoldable pub validate : Meta → Result (Unit {0})
  unfolding sum64
  validate m =
      if not (m.magic == magic_number)
      then err BoltError.invalid
      else if not (m.version == version_number)
      then err BoltError.version_mismatch
      else if not (m.checksum == 0) && not (m.checksum == sum64 m)
      then err BoltError.checksum
      else Result.ok tt

  -- The meta with its checksum set, and the page with the meta copied into its data.
  unfoldable pub write_meta : Meta → Page → Res (Meta × Page)
  write_meta m p =
      if leb m.pgid m.root.root
      then fault explicit_panic
      else if leb m.pgid m.freelist && not (m.freelist == pgid_no_freelist)
      then fault explicit_panic
      else (do
        let p' = set_flags meta_page_flag (set_id (m.txid % 2) p)
        let m' = set_checksum (sum64 m) m
        q ← copy m' p'
        ok (m', q))
