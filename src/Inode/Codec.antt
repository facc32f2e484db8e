-- ===== src/Inode/Codec.antt =====
-- common/inode.rs: reading the inodes of a page, and writing inodes to a page.
use boltdb_rs.Base.{
  ℕ, zero, suc, ◌+◌, ◌-◌, ◌*◌, ◌%◌, ◌^◌, ◌==◌, not, List, [], ◌∷◌, Res, ok, fault, assertion, todo,
  check, ltb, if◌then◌else◌, length, Build, ◌>>=◌, ◌>>◌,
}
use boltdb_rs.Flags.{Bitflags}
use boltdb_rs.Page.{Page, is_leaf_page, get_data_ptr}
use boltdb_rs.Page.Elements.{
  leaf_page_element, branch_page_element, set_leaf_page_element, set_branch_page_element, leaf_key,
  leaf_value, branch_key, leaf_page_element_size, branch_page_element_size,
}
use boltdb_rs.Page.Leaf
use boltdb_rs.Page.Branch
use boltdb_rs.Page.Size.{get_data_slice}
use boltdb_rs.Inode.{Inode}

module _ ⦃b : Bitflags⦄ where
  unfoldable pub page_element_size : Page → ℕ
  page_element_size p = if is_leaf_page p then leaf_page_element_size else branch_page_element_size

  -- Element `i` of the page, as an inode.
  unfoldable pub read_inode : ℕ → Page → Res Inode
  read_inode i p =
      if is_leaf_page p
      then (do
        elem ← leaf_page_element i p
        key ← leaf_key (i * leaf_page_element_size) elem p
        value ← leaf_value (i * leaf_page_element_size) elem p
        ok (record { flags = elem.flags; pgid = 0; key = key; value = value }))
      else (do
        elem ← branch_page_element i p
        key ← branch_key (i * branch_page_element_size) elem p
        ok (record { flags = 0; pgid = elem.pgid; key = key; value = [] }))

  -- The loop over the elements from `i` on, `left` of them.
  unfoldable pub read_inodes : ℕ → ℕ → Page → Res (List Inode)
  read_inodes zero i p = ok []
  read_inodes (suc left) i p = do
    inode ← read_inode i p
    check assertion (ltb 0 (length inode.key))
    rest ← read_inodes left (i + 1) p
    ok (inode ∷ rest)

  unfoldable pub read_inode_from_page : Page → Res (List Inode)
  read_inode_from_page p = read_inodes p.count 0 p

  -- The element's fields for an item, whose data would start at the address `data_ptr`. The
  -- subtraction of pointers is one of addresses.
  unfoldable pub write_element : ℕ → ℕ → Inode → Page → Res Page
  write_element data_ptr i item p =
      if is_leaf_page p
      then (do
        elem ← leaf_page_element i p
        let elem_ptr = get_data_ptr p + i * leaf_page_element_size
        let elem1 = Leaf.set_pos ((data_ptr - elem_ptr) % 2 ^ 32) elem
        let elem2 = Leaf.set_flags item.flags elem1
        let elem3 = Leaf.set_ksize (length item.key % 2 ^ 32) elem2
        set_leaf_page_element i (Leaf.set_vsize (length item.value % 2 ^ 32) elem3) p)
      else (do
        elem ← branch_page_element i p
        let elem_ptr = get_data_ptr p + i * branch_page_element_size
        let elem1 = Branch.set_pos ((data_ptr - elem_ptr) % 2 ^ 32) elem
        let elem2 = Branch.set_ksize (length item.key % 2 ^ 32) elem1
        q ← set_branch_page_element i (Branch.set_pgid item.pgid elem2) p
        check assertion (not (item.pgid == p.id))
        ok q)

  -- The loop over the items. It does not come to the copy of the key and the value.
  unfoldable pub write_items : Build → ℕ → ℕ → ℕ → List Inode → Page → Res (ℕ × Page)
  write_items build data_ptr offset i [] p = ok (offset, p)
  write_items build data_ptr offset i (item ∷ items) p = do
    check assertion (ltb 0 (length item.key))
    data_slice ← get_data_slice build p
    q ← write_element data_ptr i item p
    fault todo

  -- The result is the offset behind the data, as a u32, with the page.
  unfoldable pub write_inode_to_page : Build → List Inode → Page → Res (ℕ × Page)
  write_inode_to_page build inodes p =
      let start = page_element_size p * length inodes in
      do
        (offset, q) ← write_items build (get_data_ptr p + start) start 0 inodes p
        ok (offset % 2 ^ 32, q)
