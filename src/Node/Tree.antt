-- ===== src/Node/Tree.antt =====
-- The tree of nodes in node.rs: parents, the root and siblings.
use boltdb_rs.Base.{
  ℕ, zero, suc, ◌+◌, ◌-◌, ◌<◌, ◌==◌, ◌≡◌, inl, inr, ap, not, arith, Option, none, some, Res, ok,
  fault, out_of_fuel, explicit_panic, unwrap_none, expect, check, leb, if◌then◌else◌, Build,
  sub_word, ◌>>=◌, ◌>>◌, Option-cases,
}
use boltdb_rs.InBucket.{word64}
use boltdb_rs.Bucket
use boltdb_rs.Inode
use boltdb_rs.Inode.{Inode, at, binary_search_by}
use boltdb_rs.Node.{RawNode, bucket, child_index, num_children}

-- The nodes that are alive, by name.
abbrev pub Heap : Type 0
Heap = ℕ → Option RawNode

-- `Weak::upgrade`: nothing if the node has been dropped.
unfoldable pub upgrade : Heap → Option ℕ → Option (ℕ × RawNode)
upgrade h none = none
upgrade h (some id) = elim (h id) [ none ↦ none | some n ↦ some (id, n) ]

unfoldable pub parent : Heap → RawNode → Option (ℕ × RawNode)
parent h n = upgrade h n.parent

-- The walk up to a node without a parent, with fuel for its steps.
unfoldable pub root : ℕ → Heap → ℕ → RawNode → Res (ℕ × RawNode)
root zero h id n = fault out_of_fuel
root (suc fuel) h id n = elim (parent h n) [ none ↦ ok (id, n) | some (pid, p) ↦ root fuel h pid p ]

-- On the node `n` named `id`; the bucket gets a weak handle of it.
unfoldable pub child_at : ℕ → ℕ → RawNode → Res ℕ
child_at id index n = do
  check explicit_panic (not n.is_leaf)
  child ← Inode.get index n.inodes
  b ← expect unwrap_none (bucket n)
  Bucket.node b child.pgid (some id)

unfoldable pub next_sibling : Build → Heap → RawNode → Res (Option ℕ)
next_sibling build h n = elim (parent h n) [
  | none ↦ ok none
  | some (pid, p) ↦ (do
    found ← child_index n p
    index ← expect unwrap_none found
    last ← sub_word build word64 (num_children p) 1
    if leb last index
        then ok none
        else (do sibling ← child_at pid (index + 1) p; ok (some sibling)))
]

unfoldable pub prev_sibling : Heap → RawNode → Res (Option ℕ)
prev_sibling h n = elim (parent h n) [
  | none ↦ ok none
  | some (pid, p) ↦ (do
    found ← child_index n p
    index ← expect unwrap_none found
    if index == 0 then ok none else (do sibling ← child_at pid (index - 1) p; ok (some sibling)))
]

-- `IsAncestor h id n a m`: node `a`, which is `m`, is reached from node `id`, which is `n`, by
-- steps to the parent.
pub data IsAncestor (h : Heap) (id : ℕ) (n : RawNode) : ℕ → RawNode → Type 0 where
  self : IsAncestor h id n id n
  up :
      {a b : ℕ} {m p : RawNode}
      → IsAncestor h id n a m
      → parent h m ≡ some (b, p)
      → IsAncestor h id n b p

module _ (h : Heap) (depth : ℕ → ℕ)
    (rises : (id pid : ℕ) (n p : RawNode)
      → h id ≡ some n
      → parent h n ≡ some (pid, p)
      → depth pid < depth id) where
  upgrade-alive :
      (w : Option ℕ) (p : RawNode) (pid : ℕ) → upgrade h w ≡ some (pid, p) → h pid ≡ some p
  unfolding upgrade
  upgrade-alive none p pid e = cc
  upgrade-alive (some q) p pid e = elim (Option-cases (h q)) [
    | inl dead ↦ ground arith
    | inr (m, alive) ↦ ground (arith, λ (t : q ≡ pid). ap h t)
  ]

  parent-alive : (n p : RawNode) (pid : ℕ) → parent h n ≡ some (pid, p) → h pid ≡ some p
  unfolding parent
  parent-alive n p pid e = upgrade-alive n.parent p pid e

  root_from :
      (start : ℕ) (s : RawNode) (fuel id : ℕ) (n : RawNode)
      → h id ≡ some n
      → depth id < fuel
      → IsAncestor h start s id n
      → (r : ℕ) × (m : RawNode) × (root fuel h id n ≡ ok (r, m))
        × (parent h m ≡ none)
        × IsAncestor h start s r m
  unfolding root
  root_from start s zero id n alive lt up_to = absurd (omega arith)
  root_from start s (suc fuel) id n alive lt up_to = elim (Option-cases (parent h n)) [
    | inl top ↦ (id, n, ground arith, top, up_to)
    | inr ((pid, p), e) ↦
        let (r, m, run, top, chain) =
          root_from start s fuel pid p (parent-alive n p pid e)
            (omega (arith, rises id pid n p alive e)) (up up_to e) in
        (r, m, ground arith, top, chain)
  ]

  -- Where every step to a parent lessens a depth, fuel above the depth of a node is enough:
  -- the walk ends at an ancestor that has no parent.
  pub root-IsAncestor :
      (fuel id : ℕ) (n : RawNode)
      → h id ≡ some n
      → depth id < fuel
      → (r : ℕ) × (m : RawNode) × (root fuel h id n ≡ ok (r, m))
        × (parent h m ≡ none)
        × IsAncestor h id n r m
  root-IsAncestor fuel id n alive lt = root_from id n fuel id n alive lt self
