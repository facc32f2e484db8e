-- ===== src/Tests/Nodes.antt =====
-- Nodes, their split and their tree, at concrete inputs.
use boltdb_rs.Base.{
  ℕ, suc, ◌+◌, ◌*◌, ◌/◌, ◌≤◌, ◌<◌, ◌==◌, ◌≡◌, ◌↔◌, ◌⊎◌, refl, true, false, ◌||◌, List, [], ◌∷◌,
  arith, none, some, ok, fault, out_of_bounds, already_borrowed, ltb, if◌then◌else◌, debug,
  sub_word,
}
use boltdb_rs.Page.{Page, is_leaf_page}
use boltdb_rs.Inode.{Inode, compare_bytes, bytes_eq, is_empty, at, binary_search_by}
use boltdb_rs.Inode
use boltdb_rs.Inode.Scan.{linear_search}
use boltdb_rs.Node.{
  RawNode, make_room, index_of, put, del, size, size_less_than, page_element_size, remove_child,
  retain, retain_from,
}
use boltdb_rs.Node.Put.{del_unchanged, put-upsert, with_inodes}
use boltdb_rs.Node.History.{Call, put_key, del_key, calls, calls_panics_iff}
use boltdb_rs.Node.Upsert.{upsert, KeysBelow}
use boltdb_rs.Node.Pages.{read, write, read-eq-ok_iff, write-eq-ok_iff}
use boltdb_rs.Node.Split.{Float64, split, split_loop, split_index, size_less_than-size}
use boltdb_rs.Node.SplitNodes.{split-eq-ok_iff}
use boltdb_rs.Node.SplitIndex.{split_index_lem, page_bytes}
use boltdb_rs.Node.Tree.{
  Heap, parent, upgrade, root, next_sibling, prev_sibling, IsAncestor, root-IsAncestor,
}
use boltdb_rs.Node.Children.{remove_child_lem}
use boltdb_rs.Node.Siblings.{siblings-eq-none_iff}
use boltdb_rs.Tests.Inodes.{entry, three, three-IsSorted}
use boltdb_rs.Tests.Params.{bitflags}
use boltdb_rs.Tests.Pages.{data_page}

abbrev node_of : List Inode → RawNode
node_of xs = record {
  bucket = none;
  is_leaf = true;
  unbalanced = false;
  spilled = false;
  key = 4 ∷ [];
  pgid = 0;
  parent = none;
  children = record { buffer = 4096; inner = 7 ∷ 9 ∷ [] };
  inodes = xs;
}

abbrev pub leaf : RawNode
leaf = node_of three

abbrev new_entry : Inode
new_entry = record { flags = 0; pgid = 0; key = 5 ∷ []; value = 1 ∷ [] }

abbrev after_put : RawNode
after_put = node_of (entry 2 ∷ entry 4 ∷ new_entry ∷ entry 8 ∷ [])

put_run : put (5 ∷ []) (5 ∷ []) (1 ∷ []) 0 0 leaf ≡ ok after_put
unfolding put binary_search_by make_room Inode.insert Inode.put_at index_of compare_bytes bytes_eq
put_run = refl

del_unchanged_example : del (4 ∷ []) leaf ≡ ok leaf
del_unchanged_example = del_unchanged (4 ∷ []) leaf

put-upsert_example :
    put (5 ∷ []) (5 ∷ []) (1 ∷ []) 0 0 leaf ≡ with_inodes leaf (upsert (5 ∷ []) new_entry three)
put-upsert_example =
    put-upsert (5 ∷ []) (5 ∷ []) (1 ∷ []) 0 0 leaf three-IsSorted (omega arith) (omega arith)

pub inside_three : ¬ KeysBelow (5 ∷ []) three
unfolding compare_bytes
inside_three below = cc

abbrev history : List Call
history = put_key (5 ∷ []) (1 ∷ []) 0 0 ∷ del_key (2 ∷ []) ∷ put_key (2 ∷ []) [] 0 0 ∷ []

pub inside_two : ¬ KeysBelow (2 ∷ []) three
unfolding compare_bytes
inside_two below = cc

calls_panics_iff_example :
    (calls (put_key (5 ∷ []) [] 0 0 ∷ put_key (9 ∷ []) [] 0 0 ∷ []) leaf ≡ fault out_of_bounds)
    ↔ (KeysBelow (5 ∷ []) three ⊎ (KeysBelow (9 ∷ []) three ⊎ ⊥))
calls_panics_iff_example =
    calls_panics_iff (put_key (5 ∷ []) [] 0 0 ∷ put_key (9 ∷ []) [] 0 0 ∷ []) leaf three-IsSorted
      (omega arith)

abbrev empty_page : Page
empty_page = record data_page { count = 0 }

read-eq-ok_iff_example : (read empty_page leaf ≡ ok (record leaf { pgid = 123; inodes = [] })) ↔ (
    (◌≡◌ {A = ℕ} 0 0)
    × (◌≡◌ {A = RawNode}
        (record leaf { pgid = 123; inodes = [] })
        (record leaf { pgid = 123; is_leaf = is_leaf_page empty_page; inodes = [] })))
read-eq-ok_iff_example = read-eq-ok_iff empty_page leaf (record leaf { pgid = 123; inodes = [] })

abbrev blank_page : Page
blank_page = record data_page { flags = 0; count = 0 }

write-eq-ok_iff_example : (write debug blank_page leaf ≡ ok blank_page) ↔ (
    (◌≡◌ {A = ℕ} 0 0)
    × (◌≡◌ {A = ℕ} 0 0)
    × (three ≡ [])
    × (◌≡◌ {A = Page} blank_page (record data_page { count = 0; flags = 2 })))
write-eq-ok_iff_example = write-eq-ok_iff debug blank_page blank_page leaf

size_less_than-size_example :
    size_less_than 70 leaf ≡ (is_empty three || ltb (size leaf) (70 + page_element_size leaf))
size_less_than-size_example = size_less_than-size 70 leaf

abbrev five : RawNode
five = node_of (entry 2 ∷ entry 4 ∷ entry 6 ∷ entry 8 ∷ entry 9 ∷ [])

split_index_lem_example :
    (i : ℕ) × (split_index debug 40 five ≡ ok (i, page_bytes five (suc i)))
    × (i + 3 ≤ 5)
    × ((i ≤ 1) ⊎ (page_bytes five (suc i) ≤ 40))
    × ((i + 3 ≡ 5) ⊎ ((1 ≤ i) × (40 < page_bytes five (suc (suc i)))))
split_index_lem_example = split_index_lem debug 40 five (omega arith)

split_index_run : split_index debug 40 five ≡ ok (1, 54)
unfolding split_index split_loop page_element_size sub_word
split_index_run = refl

-- Whole percents in place of floating-point numbers.
abbrev percents : Float64
percents = record {
  F = ℕ;
  lt = ltb;
  mul = λ a b. a * b;
  from_usize = λ n. n;
  to_usize = λ n. n / 100;
  min_fill_percent = 10;
  max_fill_percent = 100;
}

split-eq-ok_iff_example :
    (split percents 1 debug (λ b. 50) 64 five ≡ ok (five ∷ []))
    ↔ ((five ∷ [] ≡ five ∷ []) × ((◌≤◌ 5 4) ⊎ (size five < 64 + page_element_size five)))
split-eq-ok_iff_example = split-eq-ok_iff percents debug (λ b. 50) 64 five 0 (five ∷ [])

-- A branch with the name 1 over leaves that know it as their parent.
abbrev branch : RawNode
branch = record leaf { is_leaf = false }

abbrev child : RawNode
child = record leaf { parent = some 1 }

abbrev tree : Heap
tree id = if id == 1 then some branch else some child

abbrev depth_of : ℕ → ℕ
depth_of id = if id == 1 then 0 else 1

tree_rises :
    (id pid : ℕ) (n p : RawNode)
    → tree id ≡ some n
    → parent tree n ≡ some (pid, p)
    → depth_of pid < depth_of id
unfolding parent upgrade
tree_rises id pid n p alive e = ground arith

root-IsAncestor_example :
    (r : ℕ) × (m : RawNode) × (root 2 tree 5 child ≡ ok (r, m))
    × (parent tree m ≡ none)
    × IsAncestor tree 5 child r m
root-IsAncestor_example = root-IsAncestor tree depth_of tree_rises 2 5 child refl (omega arith)

siblings-eq-none_iff_example :
    ((next_sibling debug tree child ≡ ok none) ↔ (1 + 1 ≡ 3))
    × ((prev_sibling tree child ≡ ok none) ↔ (◌≡◌ {A = ℕ} 1 0))
unfolding parent upgrade linear_search compare_bytes
siblings-eq-none_iff_example =
    siblings-eq-none_iff debug tree child branch 1 1 refl three-IsSorted refl

-- A branch whose handles of the nodes 2 and 3 lie at the addresses 4096 and 4104.
abbrev parent_of_two : RawNode
parent_of_two = record branch { children = record { buffer = 4096; inner = 2 ∷ 3 ∷ [] } }

-- A handle elsewhere does not take out the child that it refers to; one in the list is passed
-- through a borrow.
remove_elsewhere : remove_child 0 9000 parent_of_two ≡ ok parent_of_two
unfolding remove_child retain retain_from
remove_elsewhere = refl

remove_borrowed : remove_child 1 4104 parent_of_two ≡ fault already_borrowed
unfolding remove_child
remove_borrowed = refl

remove_child_lem_example : remove_child 0 9000 parent_of_two ≡ ok parent_of_two
remove_child_lem_example = remove_child_lem 0 9000 parent_of_two λ i lt e. absurd (omega (arith, e))
