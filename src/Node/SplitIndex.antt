-- ===== src/Node/SplitIndex.antt =====
-- Where `split_index` of node.rs cuts a node.
use boltdb_rs.Base.{
  ℕ, zero, suc, ◌+◌, ◌-◌, ◌^◌, ◌≤◌, ◌<◌, ◌≡◌, ◌↔◌, ◌⊎◌, inl, inr, refl, ap, ◌∙◌, ◌&&◌, List, [],
  ◌∷◌, arith, Res, ok, fault, out_of_bounds, overflow, ltb, leb, ◌==◌, length, take, Build, debug,
  release, sub_word, Bool-cases,
}
use boltdb_rs.Inode.{Inode}
use boltdb_rs.Node.{RawNode, page_element_size}
use boltdb_rs.Node.Split.{split_loop, split_index, total}

total-take_zero : (elsz k : ℕ) (xs : List Inode) → k ≡ 0 → total elsz (take k xs) ≡ 0
unfolding total
total-take_zero elsz zero xs e = refl
total-take_zero elsz (suc k) xs e = absurd (omega arith)

module _ (elsz threshold limit : ℕ) where
  -- From the element behind `prev` on, the loop takes `k` more elements.
  record Cut (prev sz : ℕ) (xs : List Inode) (r : Res (ℕ × ℕ)) : Type 0 where
    k : ℕ
    returns : r ≡ ok (prev + k, sz + total elsz (take k xs))
    room : prev + k + 1 ≤ limit
    within : (k ≡ 0) ⊎ (prev + k ≤ 1) ⊎ (sz + total elsz (take k xs) ≤ threshold)
    maximal :
        (prev + k + 1 ≡ limit) ⊎ ((1 ≤ prev + k) × (threshold < sz + total elsz (take (suc k) xs)))

  split_loop-Cut :
      (xs : List Inode) (prev sz : ℕ)
      → prev + 1 ≤ limit
      → limit ≤ prev + 1 + length xs
      → Cut prev sz xs (split_loop elsz threshold limit xs (suc prev) prev sz)
  unfolding split_loop total
  split_loop-Cut [] prev sz lo hi = record {
    k = 0;
    returns = ground arith;
    room = omega arith;
    within = inl refl;
    maximal = inl (omega arith);
  }
  split_loop-Cut (x ∷ xs) prev sz lo hi = elim (Bool-cases (ltb (suc prev) limit)) [
    | inr done ↦ record {
      k = 0;
      returns = ground arith;
      room = omega arith;
      within = inl refl;
      maximal = ground arith;
    }
    | inl more ↦
        elim (Bool-cases
          (leb 2 (suc prev) && ltb threshold (sz + (elsz + length x.key + length x.value)))) [
            | inl stop ↦ record {
              k = 0;
              returns = ground arith;
              room = omega arith;
              within = inl refl;
              maximal = ground arith;
            }
            | inr go ↦
                let c =
                  split_loop-Cut xs (suc prev) (sz + (elsz + length x.key + length x.value))
                    (ground arith) (omega arith) in
                record {
                  k = suc c.k;
                  returns = ground (arith, c.returns);
                  room = omega (arith, c.room);
                  within = ground (arith, c.within, total-take_zero elsz c.k xs);
                  maximal = ground (arith, c.maximal);
                }
          ]
  ]

-- The bytes of a page that holds the first `k` inodes of a node.
abbrev pub page_bytes : RawNode → ℕ → ℕ
page_bytes n k = 16 + total (page_element_size n) (take k n.inodes)

first_element :
    (elsz threshold limit : ℕ) (x : Inode) (xs : List Inode)
    → 0 < limit
    → split_loop elsz threshold limit (x ∷ xs) 0 0 16
      ≡ split_loop elsz threshold limit xs 1 0 (16 + (elsz + length x.key + length x.value))
unfolding split_loop
first_element elsz threshold limit x xs h = ground arith

split_loop_start :
    (elsz threshold m : ℕ) (xs : List Inode)
    → length xs ≡ suc (suc (suc m))
    → (i : ℕ) × (split_loop elsz threshold (suc m) xs 0 0 16
        ≡ ok (i, 16 + total elsz (take (suc i) xs)))
      × (i + 3 ≤ length xs)
      × ((i ≤ 1) ⊎ (16 + total elsz (take (suc i) xs) ≤ threshold))
      × ((i + 3 ≡ length xs) ⊎ ((1 ≤ i) × (threshold < 16 + total elsz (take (suc (suc i)) xs))))
unfolding total
split_loop_start elsz threshold m [] e = absurd (omega arith)
split_loop_start elsz threshold m (x ∷ xs) e =
    let c =
      split_loop-Cut elsz threshold (suc m) xs 0 (16 + (elsz + length x.key + length x.value))
        (omega arith) (omega arith) in
    (
      c.k,
      first_element elsz threshold (suc m) x xs (omega arith) ∙ (c.returns ∙ ground arith),
      omega (arith, c.room),
      ground (arith, c.within),
      ground (arith, c.maximal),
    )

-- On a node of at least three inodes a cut is found, and at least two inodes lie behind the one
-- that it names. The size that comes with it is that of a page with the inodes up to it, which is
-- within the threshold unless the cut is at one of the first two. The cut is the last possible, or
-- one inode more would pass the threshold.
pub split_index_lem :
    (build : Build) (threshold : ℕ) (n : RawNode)
    → 3 ≤ length n.inodes
    → (i : ℕ) × (split_index build threshold n ≡ ok (i, page_bytes n (suc i)))
      × (i + 3 ≤ length n.inodes)
      × ((i ≤ 1) ⊎ (page_bytes n (suc i) ≤ threshold))
      × ((i + 3 ≡ length n.inodes) ⊎ ((1 ≤ i) × (threshold < page_bytes n (suc (suc i)))))
unfolding split_index sub_word
split_index_lem build threshold n h =
    let m : ℕ = length n.inodes - 3 in
    let e : suc m ≡ length n.inodes - 2 = omega arith in
    let (i, run, room, within, maximal) =
      split_loop_start (page_element_size n) threshold m n.inodes (omega arith) in
    (
      i,
      ground (arith, run, ap (λ t. split_loop (page_element_size n) threshold t n.inodes 0 0 16) e),
      room,
      within,
      maximal,
    )

runs_out :
    (elsz threshold limit : ℕ) (xs : List Inode) (i index sz : ℕ)
    → i + length xs < 2
    → i + length xs < limit
    → split_loop elsz threshold limit xs i index sz ≡ fault out_of_bounds
unfolding split_loop
runs_out elsz threshold limit [] i index sz h l = ground arith
runs_out elsz threshold limit (x ∷ xs) i index sz h l = ground (
  arith,
  runs_out elsz threshold limit xs (suc i) i (sz + (elsz + length x.key + length x.value)),
)

-- With fewer than two inodes the end of the range underflows: a panic of its own in a build with
-- overflow checks, and in one without them of the index, past the last inode.
split_index_short :
    (build : Build) (threshold : ℕ) (n : RawNode)
    → length n.inodes < 2
    → split_index build threshold n
      ≡ fault (elim build [ debug ↦ overflow | release ↦ out_of_bounds ])
unfolding split_index sub_word
split_index_short debug threshold n h = ground arith
split_index_short release threshold n h =
    ground (
      arith,
      runs_out (page_element_size n) threshold (length n.inodes + 2 ^ 64 - 2) n.inodes 0 0 16,
    )

empty_range :
    (elsz threshold : ℕ) (xs : List Inode) → split_loop elsz threshold 0 xs 0 0 16 ≡ ok (0, 16)
unfolding split_loop
empty_range elsz threshold [] = refl
empty_range elsz threshold (x ∷ xs) = ground arith

split_index_two :
    (build : Build) (threshold : ℕ) (n : RawNode)
    → length n.inodes ≡ 2
    → split_index build threshold n ≡ ok (0, 16)
unfolding split_index sub_word
split_index_two debug threshold n e =
    ground (arith, empty_range (page_element_size n) threshold n.inodes)
split_index_two release threshold n e =
    ground (arith, empty_range (page_element_size n) threshold n.inodes)

enough_inodes :
    (build : Build) (threshold : ℕ) (n : RawNode) (r : ℕ × ℕ)
    → split_index build threshold n ≡ ok r
    → 2 ≤ length n.inodes
enough_inodes debug threshold n r e = ground (arith, split_index_short debug threshold n)
enough_inodes release threshold n r e = ground (arith, split_index_short release threshold n)

-- A cut is found if and only if the node has at least two inodes, whatever the threshold and the
-- kind of build.
split_index-eq-ok_iff :
    (build : Build) (threshold : ℕ) (n : RawNode)
    → ((r : ℕ × ℕ) × (split_index build threshold n ≡ ok r)) ↔ (2 ≤ length n.inodes)
split_index-eq-ok_iff build threshold n = (
  λ (r, e). enough_inodes build threshold n r e,
  λ h. elim (Bool-cases (length n.inodes == 2)) [
    | inl two ↦ ((0, 16), split_index_two build threshold n (ground (arith, two)))
    | inr more ↦
        let (i, run, room, within, maximal) =
          split_index_lem build threshold n (ground (arith, more)) in
        ((i, page_bytes n (suc i)), run)
  ],
)
