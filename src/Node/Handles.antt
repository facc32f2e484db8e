-- ===== src/Node/Handles.antt =====
-- Calls of `put` and `del` of node.rs on many nodes, in any order, through handles: the handles of
-- one node share it.
use boltdb_rs.Base.{
  ℕ, ◌==◌, ◌≡◌, refl, sym, ap, ◌∙◌, List, [], ◌∷◌, arith, Option, none, some, Res, ok, fault,
  wild_read, if◌then◌else◌, ◌>>=◌, bind-eq-ok, Bool-cases, inl, inr, true,
}
use boltdb_rs.Inode.Keys.{IsSorted}
use boltdb_rs.Node.{RawNode}
use boltdb_rs.Node.Tree.{Heap}
use boltdb_rs.Node.History.{Call, call, calls, puts, insert_all, view, Keyed, Within, calls-puts}

abbrev pub update : ℕ → RawNode → Heap → Heap
update id n h j = if j == id then some n else h j

-- The calls with the handles that they are made through, by the names of their nodes. A handle
-- keeps its node alive.
abbrev pub run : List (ℕ × Call) → Heap → Res Heap
run [] h = ok h
run ((id, c) ∷ cs) h = elim (h id) [
  | none ↦ fault wild_read
  | some n ↦ call c n >>= λ n'. run cs (update id n' h)
]

-- The calls on one node.
abbrev pub calls_of : ℕ → List (ℕ × Call) → List Call
calls_of id [] = []
calls_of id ((j, c) ∷ cs) = let rest = calls_of id cs in if id == j then c ∷ rest else rest

abbrev pub AreAlive : List (ℕ × Call) → Heap → Type 0
AreAlive [] h = Unit
AreAlive ((id, c) ∷ cs) h = ((n : RawNode) × (h id ≡ some n)) × AreAlive cs h

AreAlive-update :
    (cs : List (ℕ × Call)) (id : ℕ) (n : RawNode) (h : Heap)
    → AreAlive cs h
    → AreAlive cs (update id n h)
AreAlive-update [] id n h alive = tt
AreAlive-update ((j, c) ∷ cs) id n h ((m, there), alive) = (
  elim (Bool-cases (j == id)) [ inl here ↦ (n, rw here refl) | inr other ↦ (m, rw other there) ],
  AreAlive-update cs id n h alive,
)

-- Each node's own calls return.
abbrev Return : List (ℕ × Call) → Heap → Type 0
Return cs h =
    (id : ℕ) (n : RawNode) → h id ≡ some n → (n' : RawNode) × (calls (calls_of id cs) n ≡ ok n')

same_id : (j id : ℕ) → (j == id) ≡ true → j ≡ id
same_id j id e = ground arith

-- The node's first call, and its calls after that.
first_call :
    (id : ℕ) (c : Call) (cs : List (ℕ × Call)) (n n' : RawNode)
    → calls (calls_of id ((id, c) ∷ cs)) n ≡ ok n'
    → (n1 : RawNode) × (call c n ≡ ok n1) × (calls (calls_of id cs) n1 ≡ ok n')
unfolding calls
first_call id c cs n n' whole =
    let self : (id == id) ≡ true = ground arith in
    bind-eq-ok (calls (calls_of id cs)) (call c n)
      (ap (λ b. calls (if b then c ∷ calls_of id cs else calls_of id cs) n) (sym self) ∙ whole)

module _ (id : ℕ) (c : Call) (cs : List (ℕ × Call)) (n n1 : RawNode) (h : Heap)
    (there : h id ≡ some n) (step : call c n ≡ ok n1) where
  run_first : run ((id, c) ∷ cs) h ≡ run cs (update id n1 h)
  run_first =
      ap
        (λ (o : Option RawNode). elim o [
          | none ↦ fault wild_read
          | some m ↦ call c m >>= λ n'. run cs (update id n' h)
        ])
        there
      ∙ ap (λ r. r >>= λ n'. run cs (update id n' h)) step

  Return-update : Return ((id, c) ∷ cs) h → Return cs (update id n1 h)
  Return-update returns j m found = elim (Bool-cases (j == id)) [
    | inl here ↦
        let (n', whole) = returns id n there in
        let (k, step', rest) = first_call id c cs n n' whole in
        let met : some n1 ≡ some m = ap (λ b. if b then some n1 else h j) (sym here) ∙ found in
        let e : j ≡ id = same_id j id here in (n', cc)
    | inr other ↦
        let (n', whole) = returns j m (ap (λ b. if b then some n1 else h j) (sym other) ∙ found) in
        (n', ap (λ b. calls (if b then c ∷ calls_of j cs else calls_of j cs) m) (sym other) ∙ whole)
  ]

-- A call on one node does not touch the others.
run-calls :
    (cs : List (ℕ × Call)) (h : Heap)
    → AreAlive cs h
    → Return cs h
    → (h' : Heap) × (run cs h ≡ ok h')
      × ((id : ℕ) (n : RawNode)
          → h id ≡ some n
          → (n' : RawNode) × (h' id ≡ some n') × (calls (calls_of id cs) n ≡ ok n'))
unfolding calls
run-calls [] h alive returns = (h, refl, λ id n there. (n, there, refl))
run-calls ((id, c) ∷ cs) h ((n, there), alive) returns =
    let (n', whole) = returns id n there in
    let (n1, step, rest) = first_call id c cs n n' whole in
    let (h', runs, each) =
      run-calls cs (update id n1 h) (AreAlive-update cs id n1 h alive)
        (Return-update id c cs n n1 h there step returns) in
    (
      h',
      run_first id c cs n n1 h there step ∙ runs,
      λ j m found. elim (Bool-cases (j == id)) [
        | inl here ↦
            let (m', at, ret) = each j n1 (rw here refl) in
            let e : j ≡ id = same_id j id here in
            let met : some n ≡ some m = sym there ∙ (ap h (sym e) ∙ found) in
            let step' : call c m ≡ ok n1 = cc in (m', at, rw (here, step') ret)
        | inr other ↦ let (m', at, ret) = each j m (rw other found) in (m', at, rw other ret)
      ],
    )

-- Handles of nodes that are alive: where the keys of every node ascend, and the puts to each have
-- keys that are not empty and do not lie behind all keys that it has at the start, any interleaving
-- of puts and deletes through the handles returns. Each node's keys ascend afterwards, and what is
-- found in it under each key is its map at the start with the inodes of its own puts inserted, in
-- their order: no put to another node changes it, and no delete takes anything out of any node,
-- though `del` is meant to.
pub run-puts :
    (cs : List (ℕ × Call)) (h : Heap)
    → AreAlive cs h
    → ((id : ℕ) (n : RawNode)
        → h id ≡ some n
        → IsSorted n.inodes × Keyed (calls_of id cs) × Within (calls_of id cs) n)
    → (h' : Heap) × (run cs h ≡ ok h')
      × ((id : ℕ) (n : RawNode)
          → h id ≡ some n
          → (n' : RawNode) × (h' id ≡ some n')
            × IsSorted n'.inodes
            × (view n' ≡ insert_all (puts (calls_of id cs)) (view n)))
run-puts cs h alive good =
    let (h', runs, each) = run-calls cs h alive (λ id n there.
      let (sorted, keyed, within) = good id n there in
      let (n', ret, sorted', seen) = calls-puts (calls_of id cs) n sorted keyed within in
      (n', ret)) in
    (
      h',
      runs,
      λ id n there.
          let (sorted, keyed, within) = good id n there in
          let (n', ret, sorted', seen) = calls-puts (calls_of id cs) n sorted keyed within in
          let (m, at, ret') = each id n there in
          let same : n' ≡ m = cc in (n', at ∙ ap some (sym same), sorted', seen),
    )
