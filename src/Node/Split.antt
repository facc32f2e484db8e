-- ===== src/Node/Split.antt =====
-- The sizes of a node and its split, in node.rs.
use boltdb_rs.Base.{
  ℕ, zero, suc, ◌+◌, ◌*◌, ◌≡◌, refl, Bool, true, ◌&&◌, ◌||◌, List, [], ◌∷◌, arith, Option, none,
  some, Res, ok, fault, out_of_bounds, out_of_fuel, unwrap_none, todo, expect, ltb, leb,
  if◌then◌else◌, length, Build, sub_word, ◌>>=◌,
}
use boltdb_rs.InBucket.{word64}
use boltdb_rs.Inode.{Inode, is_empty}
use boltdb_rs.Node.{
  bucket, RawNode, page_element_size, size, size_from, size_less_than, size_less_from,
}

-- What the code uses of f64, with the literals 0.1 and 1.0.
pub record Float64 : Type 1 where
  pub F : Type 0
  pub lt : F → F → Bool
  pub mul : F → F → F
  pub from_usize : ℕ → F
  pub to_usize : F → ℕ
  pub min_fill_percent : F
  pub max_fill_percent : F

abbrev pub min_keys_per_page : ℕ
min_keys_per_page = 2

-- The loop of `split_index` at element `i`; `limit` is the end of its range.
unfoldable pub split_loop : ℕ → ℕ → ℕ → List Inode → ℕ → ℕ → ℕ → Res (ℕ × ℕ)
split_loop elsz threshold limit [] i index sz =
    if ltb i limit then fault out_of_bounds else ok (index, sz)
split_loop elsz threshold limit (inode ∷ inodes) i index sz =
    let elsize = elsz + length inode.key + length inode.value in
    let rest = split_loop elsz threshold limit inodes (suc i) i (sz + elsize) in
    if ltb i limit
    then if leb min_keys_per_page i && ltb threshold (sz + elsize) then ok (index, sz) else rest
    else ok (index, sz)

unfoldable pub split_index : Build → ℕ → RawNode → Res (ℕ × ℕ)
split_index build threshold n = do
  limit ← sub_word build word64 (length n.inodes) min_keys_per_page
  split_loop (page_element_size n) threshold limit n.inodes 0 0 16

-- Whether a node stays whole.
unfoldable pub fits : ℕ → RawNode → Bool
fits page_size n = leb (length n.inodes) (min_keys_per_page * 2) || size_less_than page_size n

module _ (f : Float64) where
  unfoldable pub clamp : f.F → f.F → f.F → f.F
  clamp n min max = if f.lt n min then min else if f.lt max n then max else n

  -- `fill_percent` gives the field of the bucket at an address. The new node is not made.
  unfoldable pub split_two : Build → (ℕ → f.F) → ℕ → RawNode → Res (RawNode × Option RawNode)
  split_two build fill_percent page_size n = if fits page_size n then ok (n, none) else (do
    b ← expect unwrap_none (bucket n)
    let percent = clamp (fill_percent b) f.min_fill_percent f.max_fill_percent
    let threshold = f.to_usize (f.mul (f.from_usize page_size) percent)
    split ← split_index build threshold n
    fault todo)

  -- The loop of `split`, with fuel for the nodes that it makes.
  unfoldable pub split : ℕ → Build → (ℕ → f.F) → ℕ → RawNode → Res (List RawNode)
  split zero build fill_percent page_size n = fault out_of_fuel
  split (suc fuel) build fill_percent page_size n = do
    (a, b) ← split_two build fill_percent page_size n
    elim b [
      | none ↦ ok (a ∷ [])
      | some next ↦ (do nodes ← split fuel build fill_percent page_size next; ok (a ∷ nodes))
    ]

-- The bytes of the inodes of a list, with their element records.
unfoldable pub total : ℕ → List Inode → ℕ
total elsz [] = 0
total elsz (inode ∷ inodes) = elsz + length inode.key + length inode.value + total elsz inodes

size_from-total : (elsz sz : ℕ) (xs : List Inode) → size_from elsz sz xs ≡ sz + total elsz xs
unfolding size_from total
size_from-total elsz sz [] = omega arith
size_from-total elsz sz (x ∷ xs) =
    omega (arith, size_from-total elsz (sz + elsz + (length x.key + length x.value)) xs)

empty_total : (elsz : ℕ) (xs : List Inode) → is_empty xs ≡ true → total elsz xs ≡ 0
unfolding is_empty total
empty_total elsz [] h = refl
empty_total elsz (x ∷ xs) h = ground arith

size_less_from-total :
    (bound elsz sz : ℕ) (xs : List Inode)
    → size_less_from bound elsz sz xs ≡ (is_empty xs || ltb (sz + total elsz xs) bound)
unfolding size_less_from total is_empty
size_less_from-total bound elsz sz [] = refl
size_less_from-total bound elsz sz (x ∷ xs) = ground (
  arith,
  size_less_from-total bound elsz (sz + (elsz + length x.key + length x.value)) xs,
  empty_total elsz xs,
)

-- The early exit agrees with the full size, which counts one element record more than there
-- are inodes: a node is less than a bound if it is empty or its size is less than the bound
-- plus that record.
pub size_less_than-size :
    (bound : ℕ) (n : RawNode)
    → size_less_than bound n ≡ (is_empty n.inodes || ltb (size n) (bound + page_element_size n))
unfolding size_less_than size
size_less_than-size bound n = ground (
  arith,
  size_less_from-total bound (page_element_size n) 16 n.inodes,
  size_from-total (page_element_size n) (16 + page_element_size n) n.inodes,
)
