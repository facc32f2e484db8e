-- ===== src/Node.antt =====
-- node.rs: the in-memory nodes of the tree. This file has the state and the operations on one
-- node; the children have its pages, its split, and the tree of nodes.
pub mod Pages
pub mod Split
pub mod SplitIndex
pub mod SplitNodes
pub mod Tree
pub mod Children
pub mod Siblings
pub mod Upsert
pub mod Put
pub mod History
pub mod Handles
use boltdb_rs.Base.{
  ℕ, ◌+◌, ◌-◌, ◌==◌, ◌&&◌, ◌||◌, not, Bool, true, false, List, [], ◌∷◌, ◌++◌, Option, none, some,
  Res, ok, fault, assertion, already_borrowed, out_of_bounds, check, expect, ltb, leb,
  if◌then◌else◌, length, get_elem?, ◌>>=◌, ◌>>◌,
}
use boltdb_rs.Page.{page_header_size}
use boltdb_rs.Page.Elements.{leaf_page_element_size, branch_page_element_size}
use boltdb_rs.Inode
use boltdb_rs.Inode.{
  Inode, Found, at, insert_at, binary_search_by, compare_bytes, bytes_eq, default_inode, Cmp, less,
  equal, greater,
}

-- The list of a node's child handles: the address of its buffer, and the nodes that the handles
-- refer to.
pub record Nodes : Type 0 where
  pub buffer : ℕ
  pub inner : List ℕ

-- A node. Nodes are named by numbers; `bucket` is null or the address of the bucket, and `parent`
-- is the weak reference to the parent.
pub record RawNode : Type 0 where
  pub bucket : Option ℕ
  pub is_leaf : Bool
  pub unbalanced : Bool
  pub spilled : Bool
  pub key : List ℕ
  pub pgid : ℕ
  pub parent : Option ℕ
  pub children : Nodes
  pub inodes : List Inode

unfoldable pub min_keys : RawNode → ℕ
min_keys n = if n.is_leaf then 1 else 2

unfoldable pub page_element_size : RawNode → ℕ
page_element_size n = if n.is_leaf then leaf_page_element_size else branch_page_element_size

-- The loop of `size`.
unfoldable pub size_from : ℕ → ℕ → List Inode → ℕ
size_from elsz size [] = size
size_from elsz size (inode ∷ inodes) =
    size_from elsz (size + elsz + (length inode.key + length inode.value)) inodes

unfoldable pub size : RawNode → ℕ
size n = size_from (page_element_size n) (page_header_size + page_element_size n) n.inodes

-- The loop of `size_less_than`, which stops at the first sum that reaches the bound.
unfoldable pub size_less_from : ℕ → ℕ → ℕ → List Inode → Bool
size_less_from bound elsz sz [] = true
size_less_from bound elsz sz (inode ∷ inodes) =
    let sz' = sz + (elsz + length inode.key + length inode.value) in
    let rest = size_less_from bound elsz sz' inodes in if leb bound sz' then false else rest

unfoldable pub size_less_than : ℕ → RawNode → Bool
size_less_than bound n = size_less_from bound (page_element_size n) page_header_size n.inodes

-- The index of a child by the key under which the parent knows it.
unfoldable pub child_index : RawNode → RawNode → Res (Option ℕ)
child_index child n = do
  found ← binary_search_by child.key n.inodes
  elim found [ at index ↦ ok (some index) | insert_at index ↦ ok none ]

unfoldable pub num_children : RawNode → ℕ
num_children n = length n.inodes

-- `Ok(index) => index, Err(index) => index`.
unfoldable pub index_of : Found → ℕ
index_of (at index) = index
index_of (insert_at index) = index

-- A fresh inode is put in only before an existing one with another key.
unfoldable pub make_room : ℕ → List ℕ → List Inode → Res (List Inode)
make_room index old_key inodes = elim (get_elem? inodes index) [
  | none ↦ ok inodes
  | some n ↦ if bytes_eq n.key old_key then ok inodes else Inode.insert index default_inode inodes
]

unfoldable pub put : List ℕ → List ℕ → List ℕ → ℕ → ℕ → RawNode → Res RawNode
put old_key new_key value pg_id flags n = do
  check assertion (ltb 0 (length old_key))
  check assertion (ltb 0 (length new_key))
  found ← binary_search_by old_key n.inodes
  inodes ← make_room (index_of found) old_key n.inodes
  inodes' ←
      Inode.put_at (index_of found)
        (record { flags = flags; pgid = pg_id; key = new_key; value = value }) inodes
  check assertion (ltb 0 (length new_key))
  ok (record n { inodes = inodes' })

-- Both checks of the index that was found leave the node as it is.
unfoldable pub del : List ℕ → RawNode → Res RawNode
del key n = do
  found ← binary_search_by key n.inodes
  elim found [
    | insert_at index ↦ ok n
    | at index ↦ elim (get_elem? n.inodes index) [
      | none ↦ ok n
      | some inode ↦ elim (compare_bytes inode.key key) [
        | equal ↦ ok n
        | _ ↦ (do
          inodes ← Inode.remove index n.inodes
          ok (record n { inodes = inodes; unbalanced = true }))
      ]
    ]
  ]

unfoldable pub is_leaf : RawNode → Bool
is_leaf n = n.is_leaf

-- The bucket, unless the pointer is null; `bucket_mut` is the same bucket.
unfoldable pub bucket : RawNode → Option ℕ
bucket n = n.bucket

-- `Nodes::retain`, which runs under a mutable borrow of the list: every handle stays whose address
-- is not that of `target`. A handle is one
-- pointer of 8 bytes.
unfoldable pub retain_from : ℕ → ℕ → List ℕ → List ℕ
retain_from address target [] = []
retain_from address target (child ∷ inner) =
    let rest = retain_from (address + 8) target inner in
    if address == target then rest else child ∷ rest

unfoldable pub retain : ℕ → Nodes → Nodes
retain target nodes = record nodes { inner = retain_from nodes.buffer target nodes.inner }

-- `Nodes::push`. The vector may move its buffer, so the address of the buffer afterwards is given.
unfoldable pub push : ℕ → ℕ → Nodes → Nodes
push buffer value nodes = record { buffer = buffer; inner = nodes.inner ++ value ∷ [] }

-- `remove_child`, given the number of borrows of the cell `children` that are live when it is
-- called, and the address of the handle that is passed: `borrow_mut` panics if there is a borrow.
unfoldable pub remove_child : ℕ → ℕ → RawNode → Res RawNode
remove_child borrows target n = do
  check already_borrowed (borrows == 0)
  ok (record n { children = retain target n.children })
