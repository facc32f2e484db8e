-- ===== src/Node/Put.antt =====
-- `put` and `del` of node.rs on nodes with ascending keys.
use boltdb_rs.Base.{
  ℕ, suc, ◌<◌, ◌≡◌, ◌↔◌, inl, inr, refl, sym, ap, ◌∙◌, subst, List, [], ◌∷◌, arith, Option, none,
  some, Res, ok, fault, out_of_bounds, if◌then◌else◌, length, ◌>>=◌, Option-cases,
}
use mathlib.Core.Option
use boltdb_rs.Inode
use boltdb_rs.Inode.{
  Inode, Cmp, less, equal, greater, compare_bytes, bytes_eq, Found, at, insert_at, default_inode,
  binary_search_by,
}
use boltdb_rs.Inode.Keys.{IsSorted, bytes_eq-compare, compare_bytes_refl}
use boltdb_rs.Inode.Search.{binary_search_by-Answers, Answers, Cmp-cases}
use boltdb_rs.Inode.Scan.{
  linear_search, shift, binary_search_by-linear_search, head_less, head_equal, head_greater,
}
use boltdb_rs.Node.Upsert.{
  upsert, lookup, lookup-upsert, IsSorted-upsert, KeysBelow, KeysBelow-upsert, upsert-none_iff,
}
use boltdb_rs.Node.{RawNode, put, del, make_room, index_of}

-- What `del` does at the index that a search reports.
del_found :
    (key : List ℕ) (n : RawNode) (r : Found)
    → binary_search_by key n.inodes ≡ ok r
    → Answers key n.inodes r
    → del key n ≡ ok n
unfolding del
del_found key n (insert_at i) run answer = rw run
del_found key n (at i) run (a, e, k) =
    let same : compare_bytes a.key key ≡ equal =
      subst (λ t. compare_bytes t key ≡ equal) (sym k) (compare_bytes_refl key) in
    ground arith

-- No call of `del` changes a node: a key that is not there is left alone, and so is one that is.
pub del_unchanged : (key : List ℕ) (n : RawNode) → del key n ≡ ok n
del_unchanged key n =
    let (r, run, answer) = binary_search_by-Answers key n.inodes in del_found key n r run answer

-- The two list operations of `put` at an index.
place : ℕ → List ℕ → Inode → List Inode → Res (List Inode)
place index key new xs = make_room index key xs >>= Inode.put_at index new

place_nil :
    (key : List ℕ) (new : Inode)
    → place (index_of (linear_search key [])) key new [] ≡ fault out_of_bounds
unfolding place linear_search index_of make_room Inode.put_at
place_nil key new = refl

place-suc :
    (i : ℕ) (key : List ℕ) (new n : Inode) (ns : List Inode)
    → place (suc i) key new (n ∷ ns) ≡ (place i key new ns >>= λ ys. ok (n ∷ ys))
unfolding place make_room Inode.put_at Inode.insert
place-suc i key new n ns = ground arith

abbrev or_panic : Option (List Inode) → Res (List Inode)
or_panic none = fault out_of_bounds
or_panic (some ys) = ok ys

index_of-shift : (r : Found) → index_of (shift r) ≡ suc (index_of r)
unfolding index_of
index_of-shift (at i) = refl
index_of-shift (insert_at i) = refl

place_equal :
    (key : List ℕ) (new n : Inode) (ns : List Inode)
    → compare_bytes n.key key ≡ equal
    → place (index_of (linear_search key (n ∷ ns))) key new (n ∷ ns) ≡ ok (new ∷ ns)
unfolding place make_room Inode.put_at index_of
place_equal key new n ns c = ground (arith, head_equal key n ns c, bytes_eq-compare n.key key)

place_greater :
    (key : List ℕ) (new n : Inode) (ns : List Inode)
    → compare_bytes n.key key ≡ greater
    → place (index_of (linear_search key (n ∷ ns))) key new (n ∷ ns) ≡ ok (new ∷ n ∷ ns)
unfolding place make_room Inode.put_at Inode.insert index_of
place_greater key new n ns c = ground (arith, head_greater key n ns c, bytes_eq-compare n.key key)

or_panic-map :
    (n : Inode) (o : Option (List Inode))
    → (or_panic o >>= λ ys. ok (n ∷ ys)) ≡ or_panic (Option.map (λ ys. n ∷ ys) o)
or_panic-map n none = refl
or_panic-map n (some ys) = refl

place-upsert :
    (key : List ℕ) (new : Inode) (xs : List Inode)
    → place (index_of (linear_search key xs)) key new xs ≡ or_panic (upsert key new xs)
unfolding upsert
place-upsert key new [] = place_nil key new
place-upsert key new (n ∷ ns) = elim (Cmp-cases (compare_bytes n.key key)) [
  | inl c ↦
      ap (λ i. place i key new (n ∷ ns))
        (ap index_of (head_less key n ns c) ∙ index_of-shift (linear_search key ns))
      ∙ (place-suc (index_of (linear_search key ns)) key new n ns
          ∙ (ap (λ r. r >>= λ ys. ok (n ∷ ys)) (place-upsert key new ns)
              ∙ (or_panic-map n (upsert key new ns) ∙ ground arith)))
  | inr (inl c) ↦ place_equal key new n ns c ∙ ground arith
  | inr (inr c) ↦ place_greater key new n ns c ∙ ground arith
]

-- The node with the list that the reference gives; where it gives none, the panic of an index.
abbrev pub with_inodes : RawNode → Option (List Inode) → Res RawNode
with_inodes n none = fault out_of_bounds
with_inodes n (some xs) = ok (record n { inodes = xs })

-- On a node with ascending keys, a put of non-empty keys is the reference's insertion or
-- replacement at the old key; it panics exactly where the reference finds no place, behind all
-- keys of the node.
pub put-upsert :
    (old_key new_key value : List ℕ) (pg_id flags : ℕ) (n : RawNode)
    → IsSorted n.inodes
    → 0 < length old_key
    → 0 < length new_key
    → put old_key new_key value pg_id flags n
      ≡ with_inodes n (
          upsert old_key
            (record { flags = flags; pgid = pg_id; key = new_key; value = value })
            n.inodes)
unfolding put place
put-upsert old_key new_key value pg_id flags n w o k =
    let new : Inode = record { flags = flags; pgid = pg_id; key = new_key; value = value } in
    ground
      (arith, binary_search_by-linear_search old_key n.inodes w, place-upsert old_key new n.inodes)

with_inodes-fault_iff :
    (n : RawNode) (o : Option (List Inode)) → (with_inodes n o ≡ fault out_of_bounds) ↔ (o ≡ none)
with_inodes-fault_iff n none = ground arith
with_inodes-fault_iff n (some xs) = ground arith

module _ (n : RawNode) (w : IsSorted n.inodes) (value : List ℕ) (pg_id flags : ℕ) where
  -- On a node with ascending keys, a put of non-empty keys indexes out of bounds exactly where
  -- all keys of the node are less than the old key; so also on a node with no keys.
  pub put_panics_iff :
      (old_key new_key : List ℕ)
      → 0 < length old_key
      → 0 < length new_key
      → (put old_key new_key value pg_id flags n ≡ fault out_of_bounds) ↔ KeysBelow old_key n.inodes
  put_panics_iff old_key new_key o k =
      let new : Inode = record { flags = flags; pgid = pg_id; key = new_key; value = value } in
      let panics = with_inodes-fault_iff n (upsert old_key new n.inodes) in
      let below = upsert-none_iff old_key new n.inodes in
      rw (put-upsert old_key new_key value pg_id flags n w o k)
        ((λ f. below.0 (panics.0 f)), (λ b. panics.1 (below.1 b)))

  -- What a put of a key leaves: ascending keys, the new inode under its key, the old ones under
  -- theirs, and the same bounds on all keys.
  pub put-KeysBelow :
      (key : List ℕ)
      → 0 < length key
      → ¬ KeysBelow key n.inodes
      → (n' : RawNode) × (put key key value pg_id flags n ≡ ok n')
        × IsSorted n'.inodes
        × ((j : List ℕ)
            → lookup j n'.inodes ≡ (
                if bytes_eq key j
                then some (record { flags = flags; pgid = pg_id; key = key; value = value })
                else lookup j n.inodes))
        × ((k : List ℕ) → KeysBelow k n'.inodes ↔ KeysBelow k n.inodes)
  put-KeysBelow key o inside =
      let new : Inode = record { flags = flags; pgid = pg_id; key = key; value = value } in
      elim (Option-cases (upsert key new n.inodes)) [
        | inl none_left ↦ absurd (inside ((upsert-none_iff key new n.inodes).0 none_left))
        | inr (ys, e) ↦ (
          record n { inodes = ys },
          put-upsert key key value pg_id flags n w o o ∙ ap (with_inodes n) e,
          IsSorted-upsert new n.inodes ys w e,
          λ j. lookup-upsert j new n.inodes ys e,
          λ k. KeysBelow-upsert k new n.inodes ys e,
        )
      ]

  -- On a node with ascending keys, a put of a non-empty key that does not lie behind all keys
  -- returns a node whose keys ascend again. The new inode is found under its key, and every other
  -- key keeps what it had.
  pub put-lookup :
      (key : List ℕ)
      → 0 < length key
      → ¬ KeysBelow key n.inodes
      → (n' : RawNode) × (put key key value pg_id flags n ≡ ok n')
        × IsSorted n'.inodes
        × ((j : List ℕ)
            → lookup j n'.inodes ≡ (
                if bytes_eq key j
                then some (record { flags = flags; pgid = pg_id; key = key; value = value })
                else lookup j n.inodes))
  put-lookup key o inside =
      let (n', run, sorted, looked, below) = put-KeysBelow key o inside in (n', run, sorted, looked)
