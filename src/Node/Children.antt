-- ===== src/Node/Children.antt =====
-- The list of children in node.rs: what `remove_child` does to it.
use boltdb_rs.Base.{
  ℕ, suc, ◌+◌, ◌*◌, ◌<◌, ◌==◌, ◌≡◌, ◌≢◌, refl, ap, List, [], ◌∷◌, arith, ok, fault,
  already_borrowed, if◌then◌else◌, length, Bool-cases, inl, inr, true,
}
use boltdb_rs.Node.{RawNode, retain_from, retain, remove_child}

-- Where no slot of the list has the address, every handle stays.
retain_from_lem :
    (address target : ℕ) (inner : List ℕ)
    → ((i : ℕ) → i < length inner → target ≢ address + 8 * i)
    → retain_from address target inner ≡ inner
unfolding retain_from
retain_from_lem address target [] none_at = refl
retain_from_lem address target (c ∷ inner) none_at =
    let rest : retain_from (address + 8) target inner ≡ inner =
      retain_from_lem (address + 8) target inner
        (λ i lt e. none_at (suc i) (omega arith) (omega arith)) in
    ground (arith, rest, none_at 0)

free_borrows : (borrows : ℕ) → (borrows == 0) ≡ true → borrows ≡ 0
free_borrows borrows free = ground arith

-- A reference to a handle in the node's own list is made through a borrow of the cell that holds
-- the list, which then is live: under this condition `remove_child` never takes a child out. It
-- panics if a borrow is live, and otherwise it leaves the node as it is, also if the handle refers
-- to one of the children.
pub remove_child_lem :
    (borrows target : ℕ) (n : RawNode)
    → ((i : ℕ) → i < length n.children.inner → target ≡ n.children.buffer + 8 * i → 0 < borrows)
    → remove_child borrows target n ≡ (if borrows == 0 then ok n else fault already_borrowed)
unfolding remove_child retain
remove_child_lem borrows target n live = elim (Bool-cases (borrows == 0)) [
  | inl free ↦
      let same : retain_from n.children.buffer target n.children.inner ≡ n.children.inner =
        retain_from_lem n.children.buffer target n.children.inner
          (λ i lt e. absurd (omega (arith, live i lt e, free_borrows borrows free))) in
      rw free (ap (λ xs. ok (record n { children = record n.children { inner = xs } })) same)
  | inr held ↦ rw held refl
]
