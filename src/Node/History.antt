-- ===== src/Node/History.antt =====
-- Sequences of calls of `put` and `del` of node.rs on one node, against a map from keys to inodes.
use boltdb_rs.Base.{
  ℕ, ◌<◌, ◌≡◌, ◌↔◌, ◌⊎◌, inl, inr, refl, sym, ap, ◌∙◌, List, [], ◌∷◌, arith, Option, some, Res, ok,
  fault, out_of_bounds, if◌then◌else◌, length, ◌>>=◌,
}
use mathlib.Core.Path.{fun_ext}
use boltdb_rs.Inode.{Inode, bytes_eq}
use boltdb_rs.Inode.Keys.{IsSorted}
use boltdb_rs.Node.{RawNode, put, del}
use boltdb_rs.Node.Upsert.{lookup, KeysBelow, KeysBelow-cases}
use boltdb_rs.Node.Put.{put-KeysBelow, put_panics_iff, del_unchanged}

-- A call on a node. A put stores under the key that it looks for.
pub data Call : Type 0 where
  put_key : List ℕ → List ℕ → ℕ → ℕ → Call
  del_key : List ℕ → Call

unfoldable pub call : Call → RawNode → Res RawNode
call (put_key key value pg_id flags) n = put key key value pg_id flags n
call (del_key key) n = del key n

unfoldable pub calls : List Call → RawNode → Res RawNode
unfolding call
calls [] n = ok n
calls (c ∷ cs) n = call c n >>= calls cs

-- The abstract node: what is found under each key.
abbrev pub KeyMap : Type 0
KeyMap = List ℕ → Option Inode

abbrev pub view : RawNode → KeyMap
view n j = lookup j n.inodes

-- The inodes that the puts among some calls store, in their order. The deletes are left out.
abbrev pub puts : List Call → List Inode
puts [] = []
puts (put_key key value pg_id flags ∷ cs) =
    record { flags = flags; pgid = pg_id; key = key; value = value } ∷ puts cs
puts (del_key key ∷ cs) = puts cs

-- Inodes inserted into a map one after the other, each under its key.
abbrev pub insert : Inode → KeyMap → KeyMap
insert e m j = if bytes_eq e.key j then some e else m j

abbrev pub insert_all : List Inode → KeyMap → KeyMap
insert_all [] m = m
insert_all (e ∷ es) m = insert_all es (insert e m)

-- No call puts an empty key.
abbrev pub Keyed : List Call → Type 0
Keyed [] = Unit
Keyed (put_key key value pg_id flags ∷ cs) = (0 < length key) × Keyed cs
Keyed (del_key key ∷ cs) = Keyed cs

-- No call puts a key behind all of a node's keys; some call does.
abbrev pub Within : List Call → RawNode → Type 0
Within [] n = Unit
Within (put_key key value pg_id flags ∷ cs) n = (¬ KeysBelow key n.inodes) × Within cs n
Within (del_key key ∷ cs) n = Within cs n

abbrev pub Beyond : List Call → RawNode → Type 0
Beyond [] n = ⊥
Beyond (put_key key value pg_id flags ∷ cs) n = KeysBelow key n.inodes ⊎ Beyond cs n
Beyond (del_key key ∷ cs) n = Beyond cs n

abbrev SameBounds : RawNode → RawNode → Type 0
SameBounds n n' = (k : List ℕ) → KeysBelow k n'.inodes ↔ KeysBelow k n.inodes

Within-bounds : (cs : List Call) (n n' : RawNode) → SameBounds n n' → Within cs n → Within cs n'
Within-bounds [] n n' same w = tt
Within-bounds (put_key key value pg_id flags ∷ cs) n n' same w =
    (λ below. w.0 ((same key).0 below), Within-bounds cs n n' same w.1)
Within-bounds (del_key key ∷ cs) n n' same w = Within-bounds cs n n' same w

Beyond-bounds : (cs : List Call) (n n' : RawNode) → SameBounds n n' → Beyond cs n ↔ Beyond cs n'
Beyond-bounds [] n n' same = (λ b. b, λ b. b)
Beyond-bounds (put_key key value pg_id flags ∷ cs) n n' same =
    ground (arith, same key, Beyond-bounds cs n n' same)
Beyond-bounds (del_key key ∷ cs) n n' same = Beyond-bounds cs n n' same

-- On a node with ascending keys, every sequence of puts and deletes returns whose put keys are not
-- empty and do not lie behind all keys that the node has at the start. The keys ascend afterwards,
-- and what is found under each key is what the puts alone make of the map at the start: no delete
-- takes anything out.
pub calls-puts :
    (cs : List Call) (n : RawNode)
    → IsSorted n.inodes
    → Keyed cs
    → Within cs n
    → (n' : RawNode) × (calls cs n ≡ ok n')
      × IsSorted n'.inodes
      × (view n' ≡ insert_all (puts cs) (view n))
unfolding calls
calls-puts [] n w k i = (n, refl, w, refl)
calls-puts (put_key key value pg_id flags ∷ cs) n w k i =
    let (n1, run, sorted, looked, same) = put-KeysBelow n w value pg_id flags key k.0 i.0 in
    let (n', run', sorted', seen) = calls-puts cs n1 sorted k.1 (Within-bounds cs n n1 same i.1) in
    (
      n',
      ap (λ r. r >>= calls cs) run ∙ run',
      sorted',
      seen ∙ ap (insert_all (puts cs)) (fun_ext looked),
    )
calls-puts (del_key key ∷ cs) n w k i =
    let (n', run', sorted', seen) = calls-puts cs n w k i in
    (n', ap (λ r. r >>= calls cs) (del_unchanged key n) ∙ run', sorted', seen)

-- On a node with ascending keys, a sequence of puts of keys that are not empty and of deletes
-- panics by an index exactly if it has a put whose key lies behind all keys that the node has at
-- the start: no earlier call makes room for it.
pub calls_panics_iff :
    (cs : List Call) (n : RawNode)
    → IsSorted n.inodes
    → Keyed cs
    → (calls cs n ≡ fault out_of_bounds) ↔ Beyond cs n
unfolding calls
calls_panics_iff [] n w k = ground arith
calls_panics_iff (put_key key value pg_id flags ∷ cs) n w k = elim (KeysBelow-cases key n.inodes) [
  | inl below ↦
      let e = (put_panics_iff n w value pg_id flags key key k.0 k.0).1 below in
      (λ h. inl below, λ h. ap (λ r. r >>= calls cs) e)
  | inr within ↦
      let (n1, run, sorted, looked, same) = put-KeysBelow n w value pg_id flags key k.0 within in
      let ih = calls_panics_iff cs n1 sorted k.1 in
      let bounds = Beyond-bounds cs n n1 same in
      let e : calls (put_key key value pg_id flags ∷ cs) n ≡ calls cs n1 =
        ap (λ r. r >>= calls cs) run in
      (
        λ h. inr (bounds.1 (ih.0 (sym e ∙ h))),
        λ h. elim h [ inl below ↦ absurd (within below) | inr beyond ↦ e ∙ ih.1 (bounds.0 beyond) ],
      )
]
calls_panics_iff (del_key key ∷ cs) n w k =
    let ih = calls_panics_iff cs n w k in
    let e : calls (del_key key ∷ cs) n ≡ calls cs n =
      ap (λ r. r >>= calls cs) (del_unchanged key n) in
    (λ h. ih.0 (sym e ∙ h), λ b. e ∙ ih.1 b)
