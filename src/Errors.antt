-- ===== src/Errors.antt =====
-- errors.rs: the errors of the library, their texts, and the conversions into them.
pub mod Texts
use Prim.Native.String.{String, ◌++◌ as append}

pub data BoltError : Type 0 where
  config : String → BoltError
  io : String → BoltError
  resize_fail : BoltError
  tx_managed : BoltError
  stack_empty : BoltError
  check_failed : String → BoltError
  unexpected : String → BoltError
  database_not_open : BoltError
  invalid : BoltError
  invalid_mapping : BoltError
  version_mismatch : BoltError
  checksum : BoltError
  timeout : BoltError
  tx_not_writable : BoltError
  tx_closed : BoltError
  database_read_only : BoltError
  free_pages_not_loaded : BoltError
  bucket_not_found : BoltError
  bucket_exists : BoltError
  bucket_name_required : BoltError
  key_required : BoltError
  key_too_large : BoltError
  value_too_large : BoltError
  incompatible_value : BoltError
  same_buckets : BoltError
  different_db : BoltError

-- `Result<T>`.
pub data Result {ℓ} (A : Type ℓ) : Type ℓ where
  ok : A → Result A
  err : BoltError → Result A

-- The texts of the `#[error(…)]` attributes.
unfoldable pub display : BoltError → String
display (config text) = append "invalid Configuration: " text
display (io text) = append "io error: " text
display resize_fail = "resize failed"
display tx_managed = "tx managed"
display stack_empty = "stack empty"
display (check_failed text) = append "check failed, " text
display (unexpected text) = text
display database_not_open = "database not open"
display invalid = "invalid database"
display invalid_mapping = "database isn't correctly mapped"
display version_mismatch = "version mismatch"
display checksum = "checksum error"
display timeout = "timeout"
display tx_not_writable = "tx not writable"
display tx_closed = "tx closed"
display database_read_only = "database is in read-only mode"
display free_pages_not_loaded = "free pages are not pre-loaded"
display bucket_not_found = "bucket not found"
display bucket_exists = "bucket already exists"
display bucket_name_required = "bucket name required"
display key_required = "key required"
display key_too_large = "key too large"
display value_too_large = "value too large"
display incompatible_value = "incompatible value"
display same_buckets = "the source and target are the same bucket"
display different_db = "the source and target buckets are in different database files"

-- `From<io::Error>`, given the text of the error's kind, and `From<&'static str>`.
unfoldable pub from_io : String → BoltError
from_io kind = io kind

unfoldable pub from_str : String → BoltError
from_str s = unexpected s
