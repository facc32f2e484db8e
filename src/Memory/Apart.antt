-- ===== src/Memory/Apart.antt =====
-- Splices at places that do not overlap.
use boltdb_rs.Base.{
  ℕ, zero, suc, ◌+◌, ◌-◌, ◌≤◌, ◌≡◌, sym, ap, ◌∙◌, List, [], ◌∷◌, ◌++◌, arith, length, drop,
}
use boltdb_rs.Memory.{splice}

-- Behind the first `k` elements a splice is a splice of the rest.
pub drop-splice {ℓ} :
    {A : Type ℓ} (k off at : ℕ) (xs bs : List A)
    → at ≡ k + off
    → k ≤ length xs
    → drop k (splice xs at bs) ≡ splice (drop k xs) off bs
unfolding splice
drop-splice zero off at xs bs e h = let e' : at ≡ off = omega arith in ap (λ o. splice xs o bs) e'
drop-splice (suc k) off zero xs bs e h = absurd (omega arith)
drop-splice (suc k) off (suc at) [] bs e h = absurd (omega arith)
drop-splice (suc k) off (suc at) (x ∷ xs) bs e h =
    drop-splice k off at xs bs (omega arith) (omega arith)

pub splice-append {ℓ} :
    {A : Type ℓ} (bs ys : List A) (off at : ℕ) (cs : List A)
    → at ≡ length bs + off
    → splice (bs ++ ys) at cs ≡ bs ++ splice ys off cs
unfolding splice
splice-append [] ys off at cs e = let e' : at ≡ off = omega arith in ap (λ o. splice ys o cs) e'
splice-append (b ∷ bs) ys off zero cs e = absurd (omega arith)
splice-append (b ∷ bs) ys off (suc at) cs e =
    ap (◌∷◌ b) (splice-append bs ys off at cs (omega arith))

-- Two of them may be made in either order.
pub splice_comm {ℓ} :
    {A : Type ℓ} (xs : List A) (off at : ℕ) (bs cs : List A)
    → off + length bs ≤ at
    → at + length cs ≤ length xs
    → splice (splice xs off bs) at cs ≡ splice (splice xs at cs) off bs
unfolding splice
splice_comm xs zero at bs cs h k =
    splice-append bs (drop (length bs) xs) (at - length bs) at cs (omega arith)
    ∙ ap (◌++◌ bs)
        (sym (drop-splice (length bs) (at - length bs) at xs cs (omega arith) (omega arith)))
splice_comm [] (suc off) at bs cs h k = absurd (omega arith)
splice_comm (x ∷ xs) (suc off) zero bs cs h k = absurd (omega arith)
splice_comm (x ∷ xs) (suc off) (suc at) bs cs h k =
    ap (◌∷◌ x) (splice_comm xs off at bs cs (omega arith) (omega arith))
