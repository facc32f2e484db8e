-- ===== src/Db.antt =====
-- db.rs: the state of a database.
pub mod Weak
use boltdb_rs.Base.{ℕ, ℤ, Bool, List, Option}
use boltdb_rs.Errors.{Result}
use boltdb_rs.Meta.{Meta}
use boltdb_rs.Tx.Weak.{Tx}

pub data FreelistType : Type 0 where
  array : FreelistType
  hash_map : FreelistType

-- Structs without fields.
pub data Freelist : Type 0 where
  freelist : Freelist

pub data Batch : Type 0 where
  batch : Batch

pub data Stats : Type 0 where
  stats : Stats

pub record Ops : Type 0 where
  pub write_at : List ℕ → ℤ → Result ℕ

-- `File` is the type of open files. Locks are left to the steps that take them: a lock with a
-- value is the value, and a lock for ordering alone holds none.
pub record RawDb (File : Type 0) : Type 0 where
  pub stats : Stats
  pub strict_mode : Bool
  pub no_sync : Bool
  pub no_freelist_sync : Bool
  pub freelist_type : FreelistType
  pub no_grow_sync : Bool
  pub pre_load_freelist : Bool
  pub mmap_flags : ℤ
  pub max_batch_size : ℤ
  pub max_batch_delay : ℕ
  pub alloc_size : ℕ
  pub mlock : Bool
  pub path : List ℕ
  pub file : Option File
  pub dataref : Option (List ℕ)
  pub data_bytes : Option (List ℕ)
  pub datasz : ℕ
  pub meta0 : Option Meta
  pub meta1 : Option Meta
  pub page_size : ℕ
  pub opened : Bool
  pub rwtx : Option Tx
  pub txs : List Tx
  pub freelist : Option Freelist
  pub freelist_load : Bool
  pub page_pool : List (List ℕ)
  pub batch_mu : Option Batch
  pub rwlock : Unit {0}
  pub metalock : Unit {0}
  pub mmaplock : Unit {0}
  pub statlock : Unit {0}
  pub ops : Ops
  pub read_only : Bool
