-- ===== src/Node/SplitNodes.antt =====
-- What `split` of node.rs returns.
use boltdb_rs.Base.{
  ℕ, suc, ◌+◌, ◌≤◌, ◌<◌, ◌≡◌, ◌↔◌, ◌⊎◌, inl, inr, true, false, List, [], ◌∷◌, arith, none, ok,
  fault, Fault, unwrap_none, todo, length, Build, Bool-cases, Option-cases, Res-cases,
}
use boltdb_rs.Inode.{is_empty}
use boltdb_rs.Node.{bucket, RawNode, page_element_size, size}
use boltdb_rs.Node.Split.{Float64, clamp, split_index, fits, split_two, split, size_less_than-size}

module _ (f : Float64) (build : Build) (fill_percent : ℕ → f.F) (page_size : ℕ) (n : RawNode) where
  split_two_whole :
      fits page_size n ≡ true → split_two f build fill_percent page_size n ≡ ok (n, none)
  unfolding split_two
  split_two_whole h = rw h

  split_two_cut :
      fits page_size n ≡ false
      → (e : Fault) × (split_two f build fill_percent page_size n ≡ fault e)
  unfolding split_two
  split_two_cut h = elim (Option-cases (bucket n)) [
    | inl e ↦ (unwrap_none, simp (h, e))
    | inr (b, e) ↦
        let threshold : ℕ = f.to_usize (
          f.mul (f.from_usize page_size)
            (clamp f (fill_percent b) f.min_fill_percent f.max_fill_percent)) in
        elim (Res-cases (split_index build threshold n)) [
          | inl (cut, run) ↦ (todo, simp (h, e, run))
          | inr (g, run) ↦ (g, simp (h, e, run))
        ]
  ]

  fits_iff :
      (fits page_size n ≡ true)
      ↔ ((length n.inodes ≤ 4) ⊎ (size n < page_size + page_element_size n))
  unfolding fits is_empty
  fits_iff = ground (arith, size_less_than-size page_size n)

  -- `split` returns exactly for a node that stays whole, with that node alone: one of at most four
  -- inodes, or whose size is less than a page and one element record.
  pub split-eq-ok_iff :
      (fuel : ℕ) (nodes : List RawNode)
      → (split f (suc fuel) build fill_percent page_size n ≡ ok nodes)
        ↔ ((nodes ≡ n ∷ []) × ((length n.inodes ≤ 4) ⊎ (size n < page_size + page_element_size n)))
  unfolding split
  split-eq-ok_iff fuel nodes = elim (Bool-cases (fits page_size n)) [
    | inl whole ↦ ground (arith, split_two_whole whole, fits_iff.0 whole)
    | inr cut ↦ let (e, run) = split_two_cut cut in ground (arith, run, fits_iff)
  ]
