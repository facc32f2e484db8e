-- ===== src/Tx.antt =====
-- tx.rs: the state of a transaction and its statistics.
pub mod Weak
use boltdb_rs.Base.{ℕ, ℤ, pos, Bool, List}
use boltdb_rs.Meta.{Meta}
use boltdb_rs.Page.Size.{OwnedPage}
use boltdb_rs.Bucket.{Bucket}
use boltdb_rs.Db.Weak.{WeakDb}

-- A duration is its nanoseconds.
pub record TxStats : Type 0 where
  pub page_count : ℤ
  pub page_alloc : ℤ
  pub cursor_count : ℤ
  pub node_count : ℤ
  pub node_deref : ℤ
  pub rebalance : ℤ
  pub rebalance_time : ℕ
  pub split : ℤ
  pub spill : ℤ
  pub spill_time : ℕ
  pub write : ℤ
  pub write_time : ℕ

-- `F` is f64, `Handler` the type of the closures that run after a commit. The page cache is an
-- association list.
pub record RawTx (F : Type 0) (Handler : Type 0) : Type 0 where
  pub writable : Bool
  pub managed : Bool
  pub db : WeakDb
  pub meta : Meta
  pub root : Bucket F
  pub pages : List (ℕ × OwnedPage)
  pub stats : TxStats
  pub commit_handlers : List Handler
  pub write_flag : ℕ
