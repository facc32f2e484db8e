-- ===== src/Bucket.antt =====
-- bucket.rs: the state of a bucket, and its limits.
use boltdb_rs.Base.{ℕ, List, Option, Res, fault, todo, ◌-◌, ◌^◌}
use boltdb_rs.InBucket.{InBucket}
use boltdb_rs.Page.Size.{OwnedPage}
use boltdb_rs.Tx.Weak.{WeakTx}

abbrev pub max_key_size : ℕ
max_key_size = 32768

abbrev pub max_value_size : ℕ
max_value_size = 2 ^ 31 - 2

-- `F` is f64. A node is named by its address; the caches are association lists, that of the
-- subbuckets by key.
mutual
  pub data Bucket (F : Type 0) : Type 0 where
    bucket :
        InBucket → WeakTx → Buckets F → Option OwnedPage → Option ℕ → List (ℕ × ℕ) → F → Bucket F

  pub data Buckets (F : Type 0) : Type 0 where
    nil : Buckets F
    cons : List ℕ → Bucket F → Buckets F → Buckets F

-- `Bucket::node` on the bucket at an address, for a page id and the weak handle of the parent.
unfoldable pub node : ℕ → ℕ → Option ℕ → Res ℕ
node self child_pgid parent = fault todo
