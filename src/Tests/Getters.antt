-- ===== src/Tests/Getters.antt =====
-- The getters, after the setters of the same fields.
use boltdb_rs.Base.{◌+◌, ◌*◌, ◌≡◌, refl, [], ◌∷◌}
use boltdb_rs.Page
use boltdb_rs.Page.Getters
use boltdb_rs.Page.Leaf
use boltdb_rs.Page.Branch
use boltdb_rs.Page.Info
use boltdb_rs.Meta.Fields
use boltdb_rs.Inode
use boltdb_rs.Inode.Fields as InodeFields
use boltdb_rs.PgIds
use boltdb_rs.Node
use boltdb_rs.Tests.Nodes.{leaf}
use boltdb_rs.Tests.Pages.{data_page, element}
use boltdb_rs.Tests.Fields.{child}
use boltdb_rs.Tests.Inodes.{entry, three}
use boltdb_rs.Tests.Metas.{first_meta}

header_fields :
    Getters.id data_page
      ∷ Getters.flags data_page
      ∷ Getters.count data_page
      ∷ Getters.overflow data_page
      ∷ []
    ≡ 123 ∷ 2 ∷ 2 ∷ 0 ∷ []
unfolding Getters.id Getters.flags Getters.count Getters.overflow
header_fields = refl

leaf_fields :
    Leaf.flags (Leaf.set_flags 1 element)
      ∷ Leaf.pos (Leaf.set_pos 9 element)
      ∷ Leaf.as_ptr 16 data_page
      ∷ []
    ≡ 1 ∷ 9 ∷ 4128 ∷ []
unfolding Leaf.flags Leaf.set_flags Leaf.pos Leaf.set_pos Leaf.as_ptr Page.get_data_ptr
leaf_fields = refl

branch_fields :
    Branch.pos child
      ∷ Branch.ksize (Branch.set_ksize 3 child)
      ∷ Branch.pgid (Branch.set_pgid 4 child)
      ∷ Branch.as_ptr 0 data_page
      ∷ []
    ≡ child.pos ∷ 3 ∷ 4 ∷ 4112 ∷ []
unfolding Branch.pos Branch.ksize Branch.set_ksize Branch.pgid Branch.set_pgid Branch.as_ptr
    Page.get_data_ptr
branch_fields = refl

info_stores :
    Info.overflow_count_mut
      (λ n. n * 2)
      (Info.count_mut (λ n. n + 3) (Info.typ_mut (λ n. 2) (Info.id_mut (λ n. n + 1) Info.new)))
    ≡ record { id = 1; typ = 2; count = 3; overflow_count = 0 }
unfolding Info.overflow_count_mut Info.count_mut Info.typ_mut Info.id_mut Info.new
info_stores = refl

info_loads :
    Info.id Info.new ∷ Info.typ Info.new ∷ Info.count Info.new ∷ Info.overflow_count Info.new ∷ []
    ≡ 0 ∷ 0 ∷ 0 ∷ 0 ∷ []
unfolding Info.id Info.typ Info.count Info.overflow_count Info.new
info_loads = refl

meta_fields :
    Fields.magic first_meta
      ∷ Fields.version first_meta
      ∷ Fields.page_size first_meta
      ∷ Fields.flags first_meta
      ∷ Fields.freelist first_meta
      ∷ Fields.pgid first_meta
      ∷ Fields.txid first_meta
      ∷ Fields.checksum first_meta
      ∷ Fields.byte_size first_meta
      ∷ []
    ≡ 0xed0cdaed ∷ 2 ∷ 4096 ∷ 0 ∷ 2 ∷ 4 ∷ 5 ∷ 0 ∷ 64 ∷ []
unfolding Fields.magic Fields.version Fields.page_size Fields.flags Fields.freelist Fields.pgid
    Fields.txid Fields.checksum Fields.byte_size
meta_fields = refl

meta_root : Fields.root_bucket first_meta ≡ record { root = 3; sequence = 0 }
unfolding Fields.root_bucket
meta_root = refl

inode_flags :
    InodeFields.flags (InodeFields.flags_mut (λ n. n + 1) (entry 7))
      ∷ InodeFields.pgid (entry 7)
      ∷ []
    ≡ 1 ∷ 0 ∷ []
unfolding InodeFields.flags InodeFields.flags_mut InodeFields.pgid
inode_flags = refl

inode_key : InodeFields.key (entry 7) ≡ 7 ∷ []
unfolding InodeFields.key
inode_key = refl

inode_value : InodeFields.value (entry 7) ≡ 7 ∷ 7 ∷ []
unfolding InodeFields.value
inode_value = refl

inode_slices : Inode.iter three ≡ Inode.as_slice three
unfolding Inode.iter Inode.as_slice
inode_slices = refl

id_slices : PgIds.iter (PgIds.from (3 ∷ 1 ∷ [])) ≡ PgIds.as_slice (PgIds.from (3 ∷ 1 ∷ []))
unfolding PgIds.iter PgIds.as_slice PgIds.from
id_slices = refl

leaf_kind : Node.is_leaf leaf ≡ leaf.is_leaf
unfolding Node.is_leaf
leaf_kind = refl
