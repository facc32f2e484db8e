-- ===== src/Inode/Scan.antt =====
-- The binary search of common/inode.rs against a scan of the list.
use boltdb_rs.Base.{
  ℕ, zero, suc, ◌<◌, ◌≡◌, refl, sym, ap, ◌∙◌, List, [], ◌∷◌, arith, ok, subst, length,
}
use boltdb_rs.Inode.{
  Inode, less, equal, greater, compare_bytes, Found, at, insert_at, binary_search_by,
}
use boltdb_rs.Inode.Keys.{IsSorted, IsSorted-get_elem?, compare_bytes_refl}
use boltdb_rs.Inode.Search.{Answers, binary_search_by-Answers}

-- The reference: from the front, up to the first key that is not less.
abbrev pub shift : Found → Found
shift (at i) = at (suc i)
shift (insert_at i) = insert_at (suc i)

unfoldable pub linear_search : List ℕ → List Inode → Found
linear_search key [] = insert_at 0
linear_search key (n ∷ ns) = elim (compare_bytes n.key key) [
  | less ↦ shift (linear_search key ns)
  | equal ↦ at 0
  | greater ↦ insert_at 0
]

shift-at : (r : Found) (i : ℕ) → shift r ≡ at (suc i) → r ≡ at i
shift-at (at j) i h = ground arith
shift-at (insert_at j) i h = cc

module _ (key : List ℕ) where
  pub head_less :
      (n : Inode) (ns : List Inode)
      → compare_bytes n.key key ≡ less
      → linear_search key (n ∷ ns) ≡ shift (linear_search key ns)
  unfolding linear_search
  head_less n ns c = ground arith

  pub head_equal :
      (n : Inode) (ns : List Inode)
      → compare_bytes n.key key ≡ equal
      → linear_search key (n ∷ ns) ≡ at 0
  unfolding linear_search
  head_equal n ns c = ground arith

  pub head_greater :
      (n : Inode) (ns : List Inode)
      → compare_bytes n.key key ≡ greater
      → linear_search key (n ∷ ns) ≡ insert_at 0
  unfolding linear_search
  head_greater n ns c = ground arith

  -- An answer at the front, by the order of the first key.
  head_at :
      (n : Inode) (ns : List Inode) → Answers key (n ∷ ns) (at 0) → compare_bytes n.key key ≡ equal
  head_at n ns (a, e, k) = cc (compare_bytes_refl key)

  tail_at :
      (n : Inode) (ns : List Inode) (i : ℕ)
      → IsSorted (n ∷ ns)
      → Answers key (n ∷ ns) (at (suc i))
      → compare_bytes n.key key ≡ less
  tail_at n ns i w (a, e, k) =
      subst (λ t. compare_bytes n.key t ≡ less) k
        (IsSorted-get_elem? (n ∷ ns) 0 (suc i) n a w (omega arith) refl e)

  -- On a sorted list there is one answer, that of the scan.
  Answers-linear_search :
      (xs : List Inode) (r : Found) → IsSorted xs → Answers key xs r → r ≡ linear_search key xs
  unfolding linear_search
  Answers-linear_search [] (at i) w (a, e, k) = cc
  Answers-linear_search [] (insert_at i) w (b, lo, hi) =
      let z : i ≡ 0 = omega arith in ap insert_at z
  Answers-linear_search (n ∷ ns) (at zero) w answer = sym (head_equal n ns (head_at n ns answer))
  Answers-linear_search (n ∷ ns) (at (suc i)) w answer =
      ap shift (Answers-linear_search ns (at i) w.1 answer)
      ∙ sym (head_less n ns (tail_at n ns i w answer))
  Answers-linear_search (n ∷ ns) (insert_at zero) w (b, lo, hi) =
      sym (head_greater n ns (hi w 0 n (omega arith) refl))
  Answers-linear_search (n ∷ ns) (insert_at (suc i)) w (b, lo, hi) =
      ap shift (
        Answers-linear_search ns (insert_at i) w.1 (
          omega arith,
          λ v j a h f. lo w (suc j) a (omega arith) f,
          λ v j a h f. hi w (suc j) a (omega arith) f,
        ))
      ∙ sym (head_less n ns (lo w 0 n (omega arith) refl))

  -- On a sorted list the binary search gives what a scan from the front gives.
  pub binary_search_by-linear_search :
      (xs : List Inode) → IsSorted xs → binary_search_by key xs ≡ ok (linear_search key xs)
  binary_search_by-linear_search xs w =
      let (r, run, answer) = binary_search_by-Answers key xs in
      run ∙ ap ok (Answers-linear_search xs r w answer)

  -- An index that the scan reports lies in the list.
  pub linear_search-at : (xs : List Inode) (i : ℕ) → linear_search key xs ≡ at i → i < length xs
  unfolding linear_search
  linear_search-at [] i h = cc
  linear_search-at (n ∷ ns) zero h = omega arith
  linear_search-at (n ∷ ns) (suc i) h =
      ground (arith, shift-at (linear_search key ns) i, linear_search-at ns i)
