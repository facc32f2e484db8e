-- ===== src/Node/Pages.antt =====
-- `read` and `write` of node.rs, between a node and a page.
use boltdb_rs.Base.{
  ℕ, zero, suc, ◌+◌, ◌*◌, ◌<◌, ◌==◌, ◌≡◌, ◌↔◌, ◌⊎◌, inl, inr, refl, sym, ap, ◌∙◌, ◌&&◌, List, [],
  ◌∷◌, arith, Res, ok, fault, Fault, assertion, todo, Bool-cases, Res-cases, explicit_panic, check,
  ltb, leb, if◌then◌else◌, length, Build, ◌>>=◌, ◌>>◌, bind-eq-ok,
}
use boltdb_rs.Flags.{Bitflags, branch_page_flag, leaf_page_flag}
use boltdb_rs.Page.{Page, get_data_ptr, set_flags, set_count, is_leaf_page}
use boltdb_rs.Page.Size.{get_data_slice}
use boltdb_rs.Inode.{Inode}
use boltdb_rs.Inode.Codec.{
  read_inode, read_inodes, read_inode_from_page, write_element, write_items, write_inode_to_page,
  page_element_size,
}
use boltdb_rs.Node.{RawNode}

module _ ⦃b : Bitflags⦄ where
  -- The key that is saved, for a list that is not empty: the assertion wants it to have no byte.
  unfoldable pub save_key : List Inode → RawNode → Res RawNode
  save_key [] n = ok n
  save_key (inode ∷ inodes) n = do
    check assertion (length inode.key == 0)
    ok (record n { key = inode.key })

  unfoldable pub read : Page → RawNode → Res RawNode
  unfolding save_key
  read p n = do
    inodes ← read_inode_from_page p
    save_key inodes (record n { pgid = p.id; is_leaf = is_leaf_page p; inodes = inodes })

  -- The node's flags and the number of its inodes are put into the header first.
  unfoldable pub write : Build → Page → RawNode → Res Page
  write build p n = do
    check assertion (p.count == 0 && p.flags == 0)
    if leb 0xffff (length n.inodes)
        then fault explicit_panic
        else if length n.inodes == 0
        then ok (set_count 0 (set_flags (if n.is_leaf then leaf_page_flag else branch_page_flag) p))
        else (do
          (offset, q) ← write_inode_to_page build n.inodes (
              set_count (length n.inodes)
                (set_flags (if n.is_leaf then leaf_page_flag else branch_page_flag) p))
          ok q)

  -- Every inode that is read has a key of at least one byte.
  abbrev HaveKeys : List Inode → Type 0
  HaveKeys [] = Unit
  HaveKeys (n ∷ ns) = (0 < length n.key) × HaveKeys ns

  -- A page that is read without a fault gives one inode for each element, with a key each.
  pub read_inodes-HaveKeys :
      (left i : ℕ) (p : Page) (xs : List Inode)
      → read_inodes left i p ≡ ok xs
      → (length xs ≡ left) × HaveKeys xs
  unfolding read_inodes
  read_inodes-HaveKeys zero i p xs h = ground arith
  read_inodes-HaveKeys (suc left) i p xs h =
      let (inode, e, f) = bind-eq-ok _ (read_inode i p) h in
      let (t, e', f') = bind-eq-ok _ (check assertion (ltb 0 (length inode.key))) f in
      let (rest, e'', f'') = bind-eq-ok _ (read_inodes left (i + 1) p) f' in
      let ih : (length rest ≡ left) × HaveKeys rest =
        read_inodes-HaveKeys left (i + 1) p rest e'' in
      ground arith

  read_from_empty : (p : Page) → p.count ≡ 0 → read_inode_from_page p ≡ ok []
  unfolding read_inode_from_page read_inodes
  read_from_empty p e = rw e

  read_from_page-HaveKeys :
      (p : Page) (xs : List Inode)
      → read_inode_from_page p ≡ ok xs
      → (length xs ≡ p.count) × HaveKeys xs
  unfolding read_inode_from_page
  read_from_page-HaveKeys p xs h = read_inodes-HaveKeys p.count 0 p xs h

  -- A list with keys passes the assertion on the first key only if it is empty.
  save_key-eq-ok :
      (xs : List Inode) (n n' : RawNode)
      → HaveKeys xs
      → save_key xs n ≡ ok n'
      → (xs ≡ []) × (n' ≡ n)
  unfolding save_key
  save_key-eq-ok [] n n' w h = ground arith
  save_key-eq-ok (x ∷ xs) n n' w h = ground arith

  abbrev emptied : Page → RawNode → RawNode
  emptied p n = record n { pgid = p.id; is_leaf = is_leaf_page p; inodes = [] }

  read_ok→ : (p : Page) (n n' : RawNode) → read p n ≡ ok n' → (p.count ≡ 0) × (n' ≡ emptied p n)
  unfolding read
  read_ok→ p n n' h =
      let (xs, e, f) = bind-eq-ok _ (read_inode_from_page p) h in
      let keys = read_from_page-HaveKeys p xs e in
      let saved = save_key-eq-ok xs _ n' keys.1 f in
      (
        sym keys.0 ∙ ap length saved.0,
        saved.1
            ∙ ap (λ ys. record n { pgid = p.id; is_leaf = is_leaf_page p; inodes = ys }) saved.0,
      )

  read_ok← : (p : Page) (n n' : RawNode) → (p.count ≡ 0) × (n' ≡ emptied p n) → read p n ≡ ok n'
  unfolding read save_key
  read_ok← p n n' (e, s) = rw (read_from_empty p e) (ap ok (sym s))

  -- `read` returns exactly on a page without elements. The node then has the page's id and kind,
  -- and no inodes.
  pub read-eq-ok_iff :
      (p : Page) (n n' : RawNode)
      → (read p n ≡ ok n')
        ↔ ((p.count ≡ 0) × (n' ≡ record n { pgid = p.id; is_leaf = is_leaf_page p; inodes = [] }))
  read-eq-ok_iff p n n' = (read_ok→ p n n', read_ok← p n n')

  write_items_faults :
      (build : Build) (data_ptr offset i : ℕ) (item : Inode) (items : List Inode) (p : Page)
      → (e : Fault) × (write_items build data_ptr offset i (item ∷ items) p ≡ fault e)
  unfolding write_items
  write_items_faults build data_ptr offset i item items p =
      elim (Bool-cases (ltb 0 (length item.key))) [
        | inr empty ↦ (assertion, ground arith)
        | inl keyed ↦ elim (Res-cases (get_data_slice build p)) [
          | inr (e, f) ↦ (e, ground arith)
          | inl (bs, f) ↦ elim (Res-cases (write_element data_ptr i item p)) [
            | inr (e, g) ↦ (e, ground arith)
            | inl (q, g) ↦ (todo, ground arith)
          ]
        ]
      ]

  -- Items are never written: with at least one item the call does not return.
  write_inode_to_page_faults :
      (build : Build) (item : Inode) (items : List Inode) (p : Page)
      → (e : Fault) × (write_inode_to_page build (item ∷ items) p ≡ fault e)
  unfolding write_inode_to_page
  write_inode_to_page_faults build item items p =
      let start : ℕ = page_element_size p * length (item ∷ items) in
      let (e, f) = write_items_faults build (get_data_ptr p + start) start 0 item items p in
      (e, ground arith)

  List-cases : (xs : List Inode) → (xs ≡ []) ⊎ ((x : Inode) × (rest : List Inode) × (xs ≡ x ∷ rest))
  List-cases [] = inl refl
  List-cases (x ∷ rest) = inr (x, rest, refl)

  write_ok→ :
      (build : Build) (p q : Page) (n : RawNode)
      → write build p n ≡ ok q
      → (p.count ≡ 0)
        × (p.flags ≡ 0)
        × (n.inodes ≡ [])
        × (q ≡ record p { flags = if n.is_leaf then 2 else 1 })
  unfolding write set_count set_flags
  write_ok→ build p q n h = elim (List-cases n.inodes) [
    | inl none_left ↦ ground arith
    | inr (x, rest, e) ↦
        let blank : Page = record p {
          flags = if n.is_leaf then leaf_page_flag else branch_page_flag;
          count = length n.inodes;
        } in
        let (f, g) = write_inode_to_page_faults build x rest blank in ground arith
  ]

  write_ok← :
      (build : Build) (p q : Page) (n : RawNode)
      → (p.count ≡ 0)
        × (p.flags ≡ 0)
        × (n.inodes ≡ [])
        × (q ≡ record p { flags = if n.is_leaf then 2 else 1 })
      → write build p n ≡ ok q
  unfolding write set_count set_flags
  write_ok← build p q n w = ground arith

  -- `write` returns exactly for a node without inodes on a page that is blank, and then only the
  -- page's flags change.
  pub write-eq-ok_iff :
      (build : Build) (p q : Page) (n : RawNode)
      → (write build p n ≡ ok q) ↔ (
          (p.count ≡ 0)
          × (p.flags ≡ 0)
          × (n.inodes ≡ [])
          × (q ≡ record p { flags = if n.is_leaf then 2 else 1 }))
  write-eq-ok_iff build p q n = (write_ok→ build p q n, write_ok← build p q n)
