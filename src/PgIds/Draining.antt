-- ===== src/PgIds/Draining.antt =====
-- `PgIds::drain` of common/page.rs.
use boltdb_rs.Base.{
  ℕ, zero, suc, ap, [], ◌∷◌, length-take, length-drop, take-append, drop-append, drop-drop, ◌-◌,
  ◌≡◌, ◌≤◌, refl, arith, List, ◌++◌, ok, length, take, drop,
}
use boltdb_rs.PgIds.{PgIds, drain}

append_parts : (n : ℕ) (xs : List ℕ) → take n xs ++ drop n xs ≡ xs
append_parts zero xs = refl
append_parts (suc n) [] = refl
append_parts (suc n) (x ∷ xs) = ap (λ ys. x ∷ ys) (append_parts n xs)

-- Where the range lies inside the list, the ids before it, the ids taken out and the ids behind it
-- make up the list again, and as many ids were taken out as the range is long.
drain_lem :
    (start end : ℕ) (s : PgIds)
    → start ≤ end
    → end ≤ length s.pgids
    → (s' : PgIds) × (taken : List ℕ) × (drain start end s ≡ ok (s', taken))
      × (take start s'.pgids ++ (taken ++ drop start s'.pgids) ≡ s.pgids)
      × (length taken ≡ end - start)
unfolding drain
drain_lem start end s below inside =
    let xs : List ℕ = s.pgids in
    let fits : start ≡ length (take start xs) = ground (arith, length-take start xs) in
    (
      record { pgids = take start xs ++ drop end xs },
      take (end - start) (drop start xs),
      ground arith,
      cc (
        take-append start (take start xs) (drop end xs) fits,
        drop-append start (take start xs) (drop end xs) fits,
        drop-drop start (end - start) end xs (omega arith),
        append_parts (end - start) (drop start xs),
        append_parts start xs,
      ),
      ground (arith, length-take (end - start) (drop start xs), length-drop start xs),
    )
