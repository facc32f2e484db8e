-- ===== src/Tests/Fields.antt =====
-- The constructors, the getters and setters of single fields, and the small list operations.
use boltdb_rs.Base.{
  ℕ, ◌≡◌, refl, true, false, [], ◌∷◌, some, ok, fault, out_of_bounds, overflow, debug, add_word,
  List, ◌++◌, ◌>>=◌, le_bytes, from_le, replicate,
}
use boltdb_rs.Memory.{read, write, decode_array, splice}
use boltdb_rs.InBucket
use boltdb_rs.Errors.{BoltError, from_io, from_str}
use boltdb_rs.Node
use boltdb_rs.Node.{min_keys}
use boltdb_rs.Page.Freelist
use boltdb_rs.Page.Freelist.{pg_ids, free_list, read_pgids}
use boltdb_rs.Page.Inline.{load_page}
use boltdb_rs.Tests.Nodes.{leaf}
use boltdb_rs.PgIds
use boltdb_rs.PgIds.{PgIds, sort, insert}
use boltdb_rs.Page.{
  Page, default_page, set_overflow, set_count, set_id, set_flags, is_branch_page, is_leaf_page,
  is_meta_page,
}
use boltdb_rs.Page
use boltdb_rs.Page.Elements.{
  BranchPageElement, branch_page_elements, branch_page_element, set_branch_page_element,
  encode_branch, decode_branch, branch_key, is_bucket_entry, must_align,
}
use boltdb_rs.Page.Leaf
use boltdb_rs.Page.Branch
use boltdb_rs.Page.Info
use boltdb_rs.Page.Size
use boltdb_rs.Meta.{set_txid, is_freelist_persisted}
use boltdb_rs.Meta.Fields
use boltdb_rs.Inode
use boltdb_rs.Tests.Params.{bitflags}
use boltdb_rs.Tests.Inodes.{entry, three}
use boltdb_rs.Tests.Metas.{first_meta}

info_fields :
    Info.set_overflow_count 4 (Info.set_count 3 (Info.set_typ 2 (Info.set_id 1 Info.new)))
    ≡ record { id = 1; typ = 2; count = 3; overflow_count = 4 }
unfolding Info.set_overflow_count Info.set_count Info.set_typ Info.set_id Info.new
info_fields = refl

leaf_fields :
    Leaf.set_pos 8 (Leaf.set_vsize 7 (Leaf.set_ksize 6 (Leaf.set_flags 5 (Leaf.new 0 0 0 0))))
    ≡ record { flags = 5; pos = 8; ksize = 6; vsize = 7 }
unfolding Leaf.set_pos Leaf.set_vsize Leaf.set_ksize Leaf.set_flags Leaf.new
leaf_fields = refl

bucket_flag : is_bucket_entry (Leaf.new 3 0 0 0) ≡ true
unfolding is_bucket_entry Leaf.new
bucket_flag = refl

branch_fields :
    Branch.set_pos 1
      (Branch.set_ksize 2 (Branch.set_pgid 3 (record { pos = 0; ksize = 0; pgid = 0 })))
    ≡ record { pos = 1; ksize = 2; pgid = 3 }
unfolding Branch.set_pos Branch.set_ksize Branch.set_pgid
branch_fields = refl

meta_fields :
    (Fields.set_magic 1 (
      Fields.set_version 2 (
        Fields.set_page_size 3 (
          Fields.set_flags 4 (
            Fields.set_root_bucket
              (InBucket.new 5 6)
              (Fields.set_freelist 7 (Fields.set_pgid 8 (set_txid 9 first_meta))))))))
    ≡ record {
      magic = 1;
      version = 2;
      page_size = 3;
      flags = 4;
      root = record { root = 5; sequence = 6 };
      freelist = 7;
      pgid = 8;
      txid = 9;
      checksum = 0;
    }
unfolding Fields.set_magic Fields.set_version Fields.set_page_size Fields.set_flags
    Fields.set_root_bucket Fields.set_freelist Fields.set_pgid set_txid InBucket.new
meta_fields = refl

no_freelist : is_freelist_persisted (Fields.set_freelist 0xffffffffffffffff first_meta) ≡ false
unfolding is_freelist_persisted Fields.set_freelist
no_freelist = refl

bucket_fields : InBucket.root_page (InBucket.set_root_page 4 (InBucket.new 1 2)) ≡ 4
unfolding InBucket.root_page InBucket.set_root_page InBucket.new
bucket_fields = refl

bucket_sequence : InBucket.in_sequence (InBucket.set_in_sequence 4 (InBucket.new 1 2)) ≡ 4
unfolding InBucket.in_sequence InBucket.set_in_sequence InBucket.new
bucket_sequence = refl

sequence_overflow : InBucket.inc_sequence debug (InBucket.new 1 0xffffffffffffffff) ≡ fault overflow
unfolding InBucket.inc_sequence InBucket.new add_word
sequence_overflow = refl

sequence_next : InBucket.inc_sequence debug (InBucket.new 1 2) ≡ ok (InBucket.new 1 3)
unfolding InBucket.inc_sequence InBucket.new add_word
sequence_next = refl

page_fields : set_overflow 3 (set_count 2 (set_id 1 (default_page 4096))) ≡ Page.new 4096 1 1 2 3
unfolding set_overflow set_count set_id default_page Page.new
page_fields = refl

default_branch : is_branch_page (default_page 4096) ≡ true
unfolding is_branch_page default_page Page.new
default_branch = refl

ids_sorted :
    PgIds.to_vec (PgIds.sort_ids (PgIds.push 4 (PgIds.from (12 ∷ 3 ∷ [])))) ≡ 3 ∷ 4 ∷ 12 ∷ []
unfolding PgIds.to_vec PgIds.sort_ids PgIds.push PgIds.from sort insert
ids_sorted = refl

ids_len : PgIds.len (PgIds.from (12 ∷ 3 ∷ [])) ≡ 2
unfolding PgIds.len PgIds.from
ids_len = refl

ids_empty : PgIds.is_empty (PgIds.from []) ≡ true
unfolding PgIds.is_empty PgIds.from
ids_empty = refl

inode_push : Inode.inodes_len (Inode.push (entry 9) three) ≡ 4
unfolding Inode.inodes_len Inode.push
inode_push = refl

inode_first : Inode.first three ≡ some (entry 2)
unfolding Inode.first
inode_first = refl

inode_remove : (Inode.remove 1 three >>= Inode.get 1) ≡ ok (entry 8)
unfolding Inode.remove Inode.get
inode_remove = refl

inode_get : Inode.get 3 three ≡ fault out_of_bounds
unfolding Inode.get
inode_get = refl

owned_size : Size.size (Size.new 4096 8) ≡ 8
unfolding Size.size Size.new
owned_size = refl

abbrev pub branch_page : Page
branch_page = record {
  addr = 4096;
  id = 3;
  flags = 1;
  count = 2;
  overflow = 0;
  body = replicate 40 0;
}

abbrev pub child : BranchPageElement
child = record { pos = 16; ksize = 2; pgid = 9 }

branch_store : (set_branch_page_element 1 child branch_page >>= branch_page_element 1) ≡ ok child
unfolding set_branch_page_element branch_page_element branch_page_elements read write decode_array
    encode_branch decode_branch le_bytes from_le splice
branch_store = refl

branch_key_read :
    (set_branch_page_element 1 child branch_page >>= branch_key 16 child) ≡ ok (16 ∷ 0 ∷ [])
unfolding set_branch_page_element branch_page_element branch_page_elements read write decode_array
    encode_branch decode_branch le_bytes from_le branch_key must_align Page.get_data_ptr splice
branch_key_read = refl

branch_bytes : Size.byte_size debug (record branch_page { count = 1 }) ≡ ok 16
unfolding Size.byte_size Size.branch_size branch_page_elements read decode_array decode_branch
    from_le add_word
branch_bytes = refl

-- Page 5 with the free list flag and the ids 1 and 2, in a buffer of 40 bytes.
abbrev freelist_bytes : List ℕ
freelist_bytes =
    le_bytes 8 5 ++ (16 ∷ 0 ∷ 2 ∷ 0 ∷ 0 ∷ 0 ∷ 0 ∷ 0 ∷ le_bytes 8 1 ++ le_bytes 8 2 ++ replicate 8 7)

freelist_read : (load_page 4096 freelist_bytes >>= free_list) ≡ ok (1 ∷ 2 ∷ [])
unfolding load_page Page.from_slice free_list Page.is_freelist_page read_pgids read decode_array
    le_bytes from_le
freelist_read = refl

freelist_not_meta : Page.is_meta_page (Page.new 4096 5 16 2 0) ≡ false
unfolding Page.is_meta_page Page.new
freelist_not_meta = refl

least_keys : min_keys leaf ≡ 1
unfolding min_keys
least_keys = refl

str_error : from_str "bad" ≡ BoltError.unexpected "bad"
unfolding from_str
str_error = refl

io_error : from_io "bad" ≡ BoltError.io "bad"
unfolding from_io
io_error = refl

child_push :
    Node.push 64 7 (record { buffer = 32; inner = 5 ∷ [] })
    ≡ record { buffer = 64; inner = 5 ∷ 7 ∷ [] }
unfolding Node.push
child_push = refl

owned_buffer : Size.buf (Size.reserve 8192 64 (Size.new 4096 2)) ≡ 0 ∷ 0 ∷ []
unfolding Size.buf Size.reserve Size.new
owned_buffer = refl

owned_moves : Size.as_ptr (Size.reserve 8192 64 (Size.new 4096 2)) ≡ 8192
unfolding Size.as_ptr Size.reserve Size.new
owned_moves = refl

freelist_index : (load_page 4096 freelist_bytes >>= Freelist.pgid 1) ≡ ok 2
unfolding load_page Page.from_slice Freelist.pgid pg_ids read_pgids read decode_array le_bytes
    from_le
freelist_index = refl
