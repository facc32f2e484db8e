-- ===== src/Inode/Reading.antt =====
-- What `read_inode_from_page` of common/inode.rs reads.
use boltdb_rs.Base.{
  ℕ, zero, suc, ◌+◌, ◌*◌, ◌%◌, ◌≤◌, ◌<◌, ◌==◌, ◌≡◌, refl, ap, Bool, true, false, List, [], ◌∷◌,
  arith, some, ok, check, assertion, length, length-take, length-drop, take, drop, get_elem?, ltb,
  lt→ltb,
}
use boltdb_rs.Memory.{read_inside}
use boltdb_rs.Flags.{Bitflags}
use boltdb_rs.Page.{Page, is_leaf_page, get_data_ptr}
use boltdb_rs.Page.Elements.{leaf_key, leaf_value, branch_key, must_align}
use boltdb_rs.Page.Load.{HasElements, branch_at, branch_page_element_lem}
use boltdb_rs.Page.Access.{leaf_at, leaf_page_element_lem}
use boltdb_rs.Inode.{Inode}
use boltdb_rs.Inode.Codec.{read_inode, read_inodes, read_inode_from_page}

-- An element with a key, whose key and value lie inside the buffer where the code reads them.
pub record IsLeafReadable (i : ℕ) (p : Page) : Type 0 where
  pub keyed : 0 < (leaf_at i p).ksize
  pub key_inside : i * 16 + 4 + (leaf_at i p).ksize ≤ length p.body
  pub value_inside : i * 16 + 12 + (leaf_at i p).vsize ≤ length p.body

pub record IsBranchReadable (i : ℕ) (p : Page) : Type 0 where
  pub keyed : 0 < (branch_at i p).ksize
  pub key_inside : i * 16 + (branch_at i p).ksize ≤ length p.body

abbrev pub Readable : Bool → ℕ → Page → Type 0
Readable true i p = IsLeafReadable i p
Readable false i p = IsBranchReadable i p

-- The inode of an element, by the kind of the page. In a leaf the key starts at the element's
-- field `pos`, the value at its field `vsize`; in a branch the key starts with the element.
abbrev pub inode_at : Bool → ℕ → Page → Inode
inode_at true i p = record {
  flags = (leaf_at i p).flags;
  pgid = 0;
  key = take (leaf_at i p).ksize (drop (i * 16 + 4) p.body);
  value = take (leaf_at i p).vsize (drop (i * 16 + 12) p.body);
}
inode_at false i p = record {
  flags = 0;
  pgid = (branch_at i p).pgid;
  key = take (branch_at i p).ksize (drop (i * 16) p.body);
  value = [];
}

taken_key :
    (p : Page) (off n : ℕ) → 0 < n → off + n ≤ length p.body → 0 < length (take n (drop off p.body))
taken_key p off n k inside = omega (arith, length-take n (drop off p.body), length-drop off p.body)

module _ ⦃b : Bitflags⦄ (p : Page) (aligned : p.addr % 8 ≡ 0) (room : HasElements p) where
  aligned_element : (i : ℕ) → ((p.addr + 16 + i * 16) % 4 == 0) ≡ true
  aligned_element i = ground arith

  aligned_branch : (i : ℕ) → ((p.addr + 16 + i * 16) % 8 == 0) ≡ true
  aligned_branch i = ground arith

  load_leaf_key :
      (i : ℕ)
      → IsLeafReadable i p
      → leaf_key (i * 16) (leaf_at i p) p ≡ ok ((inode_at true i p).key)
  unfolding leaf_key
  load_leaf_key i w = read_inside p.body (i * 16 + 4) (leaf_at i p).ksize w.key_inside

  load_leaf_value :
      (i : ℕ)
      → IsLeafReadable i p
      → leaf_value (i * 16) (leaf_at i p) p ≡ ok ((inode_at true i p).value)
  unfolding leaf_value get_data_ptr must_align
  load_leaf_value i w =
      rw (aligned_element i) (read_inside p.body (i * 16 + 12) (leaf_at i p).vsize w.value_inside)

  load_branch_key :
      (i : ℕ)
      → IsBranchReadable i p
      → branch_key (i * 16) (branch_at i p) p ≡ ok ((inode_at false i p).key)
  unfolding branch_key get_data_ptr must_align
  load_branch_key i w =
      rw (aligned_branch i) (read_inside p.body (i * 16) (branch_at i p).ksize w.key_inside)

  read_inode-inode_at :
      (kind : Bool) (i : ℕ)
      → is_leaf_page p ≡ kind
      → i < p.count
      → Readable kind i p
      → read_inode i p ≡ ok (inode_at kind i p)
  unfolding read_inode
  read_inode-inode_at true i leaf h w =
      let load = leaf_page_element_lem i p room in
      rw (leaf, load, lt→ltb i p.count h, load_leaf_key i w, load_leaf_value i w) refl
  read_inode-inode_at false i leaf h w =
      let load = branch_page_element_lem i p room in
      rw (leaf, load, lt→ltb i p.count h, load_branch_key i w) refl

  keyed_inode :
      (kind : Bool) (i : ℕ)
      → Readable kind i p
      → check assertion (ltb 0 (length (inode_at kind i p).key)) ≡ ok tt
  keyed_inode true i w =
      rw (lt→ltb 0 _ (taken_key p (i * 16 + 4) (leaf_at i p).ksize w.keyed w.key_inside)) refl
  keyed_inode false i w =
      rw (lt→ltb 0 _ (taken_key p (i * 16) (branch_at i p).ksize w.keyed w.key_inside)) refl

  -- `xs` holds the inodes of `left` elements from `i` on.
  abbrev ReadFrom : Bool → ℕ → ℕ → List Inode → Type 0
  ReadFrom kind left i xs =
      (j k : ℕ) → j < left → k ≡ i + j → get_elem? xs j ≡ some (inode_at kind k p)

  ReadFrom-suc :
      (kind : Bool) (left i : ℕ) (xs : List Inode)
      → ReadFrom kind left (i + 1) xs
      → ReadFrom kind (suc left) i (inode_at kind i p ∷ xs)
  ReadFrom-suc kind left i xs f zero k h eq =
      let same : i ≡ k = omega arith in ap (λ m. some (inode_at kind m p)) same
  ReadFrom-suc kind left i xs f (suc j) k h eq = f j k (omega arith) (omega arith)

  read_inodes-inode_at :
      (kind : Bool) (left i : ℕ)
      → is_leaf_page p ≡ kind
      → i + left ≤ p.count
      → ((j : ℕ) → j < p.count → Readable kind j p)
      → (xs : List Inode) × (read_inodes left i p ≡ ok xs)
        × (length xs ≡ left)
        × ReadFrom kind left i xs
  unfolding read_inodes
  read_inodes-inode_at kind zero i leaf h w = ([], refl, refl, λ j k below. absurd (omega arith))
  read_inodes-inode_at kind (suc left) i leaf h w =
      let (xs, e, l, f) = read_inodes-inode_at kind left (i + 1) leaf (omega arith) w in
      let now : i < p.count = omega arith in
      (
        inode_at kind i p ∷ xs,
        rw (read_inode-inode_at kind i leaf now (w i now), keyed_inode kind i (w i now), e) refl,
        omega (arith, l),
        ReadFrom-suc kind left i xs f,
      )

  -- From an aligned page that holds the elements it counts, where all have keys, and whose keys and
  -- values lie in the buffer where the code looks for them, all inodes are read: one for each
  -- element, in their order, with the bytes at those places.
  pub read_inode_from_page-inode_at :
      ((j : ℕ) → j < p.count → Readable (is_leaf_page p) j p)
      → (xs : List Inode) × (read_inode_from_page p ≡ ok xs)
        × (length xs ≡ p.count)
        × ((j : ℕ) → j < p.count → get_elem? xs j ≡ some (inode_at (is_leaf_page p) j p))
  unfolding read_inode_from_page
  read_inode_from_page-inode_at w =
      let (xs, e, l, f) = read_inodes-inode_at (is_leaf_page p) p.count 0 refl (omega arith) w in
      (xs, e, l, λ j below. f j j below (omega arith))
