-- ===== src/Tests/Interleaving.antt =====
-- Calls on two nodes in turn.
use boltdb_rs.Base.{
  ℕ, ◌==◌, ◌≡◌, refl, List, [], ◌∷◌, arith, none, some, ok, ap₂, subst, Bool-cases, inl, inr,
}
use boltdb_rs.Inode.Keys.{IsSorted}
use boltdb_rs.Node.{RawNode}
use boltdb_rs.Node.Tree.{Heap}
use boltdb_rs.Node.History.{Call, put_key, del_key, view, puts, insert_all, Keyed, Within}
use boltdb_rs.Node.Handles.{update, run, calls_of, run-puts}
use boltdb_rs.Tests.Inodes.{three-IsSorted}
use boltdb_rs.Tests.Nodes.{leaf, inside_three, inside_two}

-- Two nodes with the same keys.
abbrev two_nodes : Heap
two_nodes = update 1 leaf (update 2 leaf λ _. none)

abbrev in_turn : List (ℕ × Call)
in_turn =
    (1, put_key (5 ∷ []) (1 ∷ []) 0 0) ∷ (2, put_key (2 ∷ []) [] 0 0) ∷ (1, del_key (2 ∷ [])) ∷ []

abbrev Good : ℕ → RawNode → Type 0
Good id n = IsSorted n.inodes × Keyed (calls_of id in_turn) × Within (calls_of id in_turn) n

Good-same : (j : ℕ) → Good j leaf → (id : ℕ) (n : RawNode) → j ≡ id → leaf ≡ n → Good id n
Good-same j good id n same met =
    subst (λ (q : ℕ × RawNode). Good q.0 q.1) (ap₂ (λ a b. (a, b)) same met) good

first-Good : Good 1 leaf
first-Good = (three-IsSorted, omega arith, (inside_three, tt))

second-Good : Good 2 leaf
second-Good = (three-IsSorted, omega arith, (inside_two, tt))

all-Good : (id : ℕ) (n : RawNode) → two_nodes id ≡ some n → Good id n
all-Good id n there = elim (Bool-cases (id == 1)) [
  | inl first ↦ Good-same 1 first-Good id n (ground arith) (ground arith)
  | inr rest ↦ elim (Bool-cases (id == 2)) [
    | inl second ↦ Good-same 2 second-Good id n (ground arith) (ground arith)
    | inr other ↦ absurd (ground arith)
  ]
]

run-puts_example :
    (h' : Heap) × (run in_turn two_nodes ≡ ok h')
    × ((id : ℕ) (n : RawNode)
        → two_nodes id ≡ some n
        → (n' : RawNode) × (h' id ≡ some n')
          × IsSorted n'.inodes
          × (view n' ≡ insert_all (puts (calls_of id in_turn)) (view n)))
run-puts_example =
    run-puts in_turn two_nodes ((leaf, refl), ((leaf, refl), ((leaf, refl), tt))) all-Good
