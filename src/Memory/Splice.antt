-- ===== src/Memory/Splice.antt =====
-- Replacing a stretch of a list.
use boltdb_rs.Base.{
  ℕ, zero, suc, ◌+◌, ◌≤◌, ◌≡◌, refl, ap, List, [], ◌∷◌, ◌++◌, arith, length, take, drop,
  length-append, length-drop, take-append,
}

module _ {ℓ} {A : Type ℓ} where
  -- `bs` put in place of what stands from `off` on.
  unfoldable pub splice : List A → ℕ → List A → List A
  splice xs zero bs = bs ++ drop (length bs) xs
  splice [] (suc off) bs = []
  splice (x ∷ xs) (suc off) bs = x ∷ splice xs off bs

  pub length-splice :
      (xs : List A) (off : ℕ) (bs : List A)
      → off + length bs ≤ length xs
      → length (splice xs off bs) ≡ length xs
  unfolding splice
  length-splice xs zero bs h =
      omega (arith, length-append bs (drop (length bs) xs), length-drop (length bs) xs)
  length-splice [] (suc off) bs h = refl
  length-splice (x ∷ xs) (suc off) bs h = ap suc (length-splice xs off bs (omega arith))

  -- What was written is read back.
  pub take-drop-splice :
      (xs : List A) (off : ℕ) (bs : List A) (n : ℕ)
      → n ≡ length bs
      → off + length bs ≤ length xs
      → take n (drop off (splice xs off bs)) ≡ bs
  unfolding splice
  take-drop-splice xs zero bs n e h = take-append n bs (drop (length bs) xs) e
  take-drop-splice [] (suc off) bs n e h = absurd (omega arith)
  take-drop-splice (x ∷ xs) (suc off) bs n e h = take-drop-splice xs off bs n e (omega arith)

  -- A read below the stretch, or above it, is not affected.
  pub take-drop-splice_below :
      (xs : List A) (off : ℕ) (bs : List A) (at n : ℕ)
      → at + n ≤ off
      → take n (drop at (splice xs off bs)) ≡ take n (drop at xs)
  unfolding splice
  take-drop-splice_below xs off bs at zero h = refl
  take-drop-splice_below xs zero bs at (suc n) h = absurd (omega arith)
  take-drop-splice_below [] (suc off) bs at (suc n) h = refl
  take-drop-splice_below (x ∷ xs) (suc off) bs zero (suc n) h =
      ap (◌∷◌ x) (take-drop-splice_below xs off bs zero n (omega arith))
  take-drop-splice_below (x ∷ xs) (suc off) bs (suc at) (suc n) h =
      take-drop-splice_below xs off bs at (suc n) (omega arith)

  drop-append-drop_above :
      (xs bs : List A) (at : ℕ)
      → length bs ≤ at
      → length bs ≤ length xs
      → drop at (bs ++ drop (length bs) xs) ≡ drop at xs
  drop-append-drop_above xs [] at h k = refl
  drop-append-drop_above [] (b ∷ bs) at h k = absurd (omega arith)
  drop-append-drop_above (x ∷ xs) (b ∷ bs) zero h k = absurd (omega arith)
  drop-append-drop_above (x ∷ xs) (b ∷ bs) (suc at) h k =
      drop-append-drop_above xs bs at (omega arith) (omega arith)

  pub drop-splice_above :
      (xs : List A) (off : ℕ) (bs : List A) (at : ℕ)
      → off + length bs ≤ at
      → off + length bs ≤ length xs
      → drop at (splice xs off bs) ≡ drop at xs
  unfolding splice
  drop-splice_above xs zero bs at h k = drop-append-drop_above xs bs at (omega arith) (omega arith)
  drop-splice_above [] (suc off) bs at h k = absurd (omega arith)
  drop-splice_above (x ∷ xs) (suc off) bs zero h k = absurd (omega arith)
  drop-splice_above (x ∷ xs) (suc off) bs (suc at) h k =
      drop-splice_above xs off bs at (omega arith) (omega arith)
