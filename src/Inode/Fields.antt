-- ===== src/Inode/Fields.antt =====
-- common/inode.rs: the getters and the setters of an inode.
use boltdb_rs.Base.{ℕ, List}
use boltdb_rs.Inode.{Inode}

unfoldable pub set_flags : ℕ → Inode → Inode
set_flags flags inode = record inode { flags = flags }

unfoldable pub set_key : List ℕ → Inode → Inode
set_key key inode = record inode { key = key }

unfoldable pub set_value : List ℕ → Inode → Inode
set_value value inode = record inode { value = value }

unfoldable pub set_pgid : ℕ → Inode → Inode
set_pgid pgid inode = record inode { pgid = pgid }

unfoldable pub flags : Inode → ℕ
flags inode = inode.flags

-- A store through the reference that `flags_mut` returns, as a function of the old value.
unfoldable pub flags_mut : (ℕ → ℕ) → Inode → Inode
flags_mut f inode = record inode { flags = f inode.flags }

unfoldable pub key : Inode → List ℕ
key inode = inode.key

unfoldable pub value : Inode → List ℕ
value inode = inode.value

unfoldable pub pgid : Inode → ℕ
pgid inode = inode.pgid
