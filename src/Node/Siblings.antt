-- ===== src/Node/Siblings.antt =====
-- The siblings of a node, in node.rs.
use boltdb_rs.Base.{
  ℕ, ◌+◌, ◌-◌, ◌<◌, ◌≡◌, ◌≢◌, ◌↔◌, inl, inr, arith, none, some, ok, fault, Fault, explicit_panic,
  unwrap_none, todo, length, Build, sub_word, ◌>>=◌, Option-cases, Res-cases, Bool-cases,
}
use boltdb_rs.Bucket
use boltdb_rs.Inode
use boltdb_rs.Inode.{Inode, at, binary_search_by}
use boltdb_rs.Inode.Keys.{IsSorted}
use boltdb_rs.Inode.Scan.{linear_search, binary_search_by-linear_search, linear_search-at}
use boltdb_rs.Node.{bucket, RawNode, child_index, num_children}
use boltdb_rs.Node.Tree.{Heap, parent, child_at, next_sibling, prev_sibling}

child_at_faults : (id index : ℕ) (n : RawNode) → (e : Fault) × (child_at id index n ≡ fault e)
unfolding child_at Bucket.node
child_at_faults id index n = elim (Bool-cases n.is_leaf) [
  | inl leaf ↦ (explicit_panic, ground arith)
  | inr branch ↦ elim (Res-cases (Inode.get index n.inodes)) [
    | inr (e, f) ↦ (e, ground arith)
    | inl (child, f) ↦ elim (Option-cases (bucket n)) [
      | inl null ↦ (unwrap_none, ground arith)
      | inr (b, g) ↦ (todo, ground arith)
    ]
  ]
]

no_sibling :
    (pid index : ℕ) (p : RawNode) (id : ℕ)
    → (child_at pid index p >>= λ sibling. ok (some sibling)) ≢ ok (some id)
no_sibling pid index p id = let (e, f) = child_at_faults pid index p in ground arith

module _ (h : Heap) (n p : RawNode) (pid id : ℕ) (e : parent h n ≡ some (pid, p)) where
  prev_ne_some : prev_sibling h n ≢ ok (some id)
  unfolding prev_sibling
  prev_ne_some = elim (Res-cases (child_index n p)) [
    | inr (f, g) ↦ ground arith
    | inl (found, g) ↦ elim (Option-cases found) [
      | inl missing ↦ ground arith
      | inr (index, k) ↦ ground (arith, no_sibling pid (index - 1) p id)
    ]
  ]

  next_ne_some : (build : Build) → next_sibling build h n ≢ ok (some id)
  unfolding next_sibling
  next_ne_some build = elim (Res-cases (child_index n p)) [
    | inr (f, g) ↦ ground arith
    | inl (found, g) ↦ elim (Option-cases found) [
      | inl missing ↦ ground arith
      | inr (index, k) ↦ ground (arith, no_sibling pid (index + 1) p id)
    ]
  ]

-- No sibling is ever returned: a call returns nothing or does not return.
pub siblings-ne-some :
    (build : Build) (h : Heap) (n : RawNode) (id : ℕ)
    → (next_sibling build h n ≢ ok (some id)) × (prev_sibling h n ≢ ok (some id))
unfolding next_sibling prev_sibling
siblings-ne-some build h n id = elim (Option-cases (parent h n)) [
  | inl top ↦ ground arith
  | inr ((pid, p), e) ↦ (next_ne_some h n p pid id e build, prev_ne_some h n p pid id e)
]

-- For a child whose key stands at index `i` of a parent with ascending keys: nothing comes back
-- as its next sibling exactly if it is the last child, and as its previous one exactly if it is
-- the first.
pub siblings-eq-none_iff :
    (build : Build) (h : Heap) (n p : RawNode) (pid i : ℕ)
    → parent h n ≡ some (pid, p)
    → IsSorted p.inodes
    → linear_search n.key p.inodes ≡ at i
    → ((next_sibling build h n ≡ ok none) ↔ (i + 1 ≡ length p.inodes))
      × ((prev_sibling h n ≡ ok none) ↔ (i ≡ 0))
unfolding next_sibling prev_sibling child_index num_children sub_word
siblings-eq-none_iff build h n p pid i e w found =
    let inside : i < length p.inodes = linear_search-at n.key p.inodes i found in
    let (f, next) = child_at_faults pid (i + 1) p in
    let (g, prev) = child_at_faults pid (i - 1) p in
    ground (arith, binary_search_by-linear_search n.key p.inodes w)
