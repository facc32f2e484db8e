-- ===== src/Memory/Words.antt =====
-- Structs without padding as tables of words: the width of each word in bytes, and its value.
use boltdb_rs.Base.{
  ℕ, zero, suc, ◌+◌, ◌*◌, ◌/◌, ◌%◌, ◌≤◌, ◌≡◌, refl, sym, ap, ap₂, ◌∙◌, List, [], ◌∷◌, ◌++◌, arith,
  length, take, drop, le_bytes, from_le, length-le_bytes, drop-drop, length-drop, length-take,
  length-append,
}
use mathlib.Core.List.{append_assoc}
use boltdb_rs.Memory.{splice, length-splice}
use boltdb_rs.Memory.Apart.{splice-append}
use boltdb_rs.Memory.Bytes.{AreBytes, AreBytes-take, AreBytes-drop}

-- The bytes of a table, one word behind the other.
abbrev pub words : List (ℕ × ℕ) → List ℕ
words [] = []
words ((w, v) ∷ table) = le_bytes w v ++ words table

-- The words of a table put one after the other into a buffer, the first at `off`.
abbrev pub put_words : ℕ → List (ℕ × ℕ) → List ℕ → List ℕ
put_words off [] buffer = buffer
put_words off ((w, v) ∷ table) buffer = put_words (off + w) table (splice buffer off (le_bytes w v))

-- The words of the given widths that stand in a buffer from `off` on.
abbrev pub words_at : List ℕ → ℕ → List ℕ → List (ℕ × ℕ)
words_at [] off buffer = []
words_at (w ∷ ws) off buffer =
    (w, from_le (take w (drop off buffer))) ∷ words_at ws (off + w) buffer

abbrev pub sum : List ℕ → ℕ
sum [] = 0
sum (w ∷ ws) = w + sum ws

splice-pair {ℓ} :
    {A : Type ℓ} (xs : List A) (off at : ℕ) (bs cs : List A)
    → at ≡ off + length bs
    → at + length cs ≤ length xs
    → splice (splice xs off bs) at cs ≡ splice xs off (bs ++ cs)
unfolding splice
splice-pair xs zero at bs cs e h =
    splice-append bs (drop (length bs) xs) 0 at cs (omega arith)
    ∙ (ap (λ t. bs ++ (cs ++ t))
          (drop-drop (length bs) (length cs) (length (bs ++ cs)) xs (length-append bs cs))
        ∙ sym (append_assoc bs cs (drop (length (bs ++ cs)) xs)))
splice-pair [] (suc off) at bs cs e h = absurd (omega arith)
splice-pair (x ∷ xs) (suc off) zero bs cs e h = absurd (omega arith)
splice-pair (x ∷ xs) (suc off) (suc at) bs cs e h =
    ap (◌∷◌ x) (splice-pair xs off at bs cs (omega arith) (omega arith))

splice-nil {ℓ} : {A : Type ℓ} (xs : List A) (off : ℕ) → splice xs off [] ≡ xs
unfolding splice
splice-nil xs zero = refl
splice-nil [] (suc off) = refl
splice-nil (x ∷ xs) (suc off) = ap (◌∷◌ x) (splice-nil xs off)

-- They are put as one stretch of bytes.
pub put_words-splice :
    (off : ℕ) (table : List (ℕ × ℕ)) (buffer : List ℕ)
    → off + length (words table) ≤ length buffer
    → put_words off table buffer ≡ splice buffer off (words table)
put_words-splice off [] buffer h = sym (splice-nil buffer off)
put_words-splice off ((w, v) ∷ table) buffer h =
    let len = length-append (le_bytes w v) (words table) in
    let word = length-le_bytes w v in
    let kept = length-splice buffer off (le_bytes w v) (omega (arith, len)) in
    put_words-splice (off + w) table (splice buffer off (le_bytes w v))
      (omega (arith, len, word, kept))
    ∙ splice-pair buffer off (off + w) (le_bytes w v) (words table) (omega (arith, word))
        (omega (arith, len, word))

-- A word of bytes is what its value is stored as.
pub le_bytes-from_le :
    (w : ℕ) (bs : List ℕ) → AreBytes bs → length bs ≡ w → le_bytes w (from_le bs) ≡ bs
unfolding le_bytes from_le
le_bytes-from_le zero [] v e = refl
le_bytes-from_le zero (b ∷ bs) v e = absurd (omega arith)
le_bytes-from_le (suc w) [] v e = absurd (omega arith)
le_bytes-from_le (suc w) (b ∷ bs) v e =
    let low : (b + 256 * from_le bs) % 256 ≡ b = omega (arith, v.0) in
    let high : (b + 256 * from_le bs) / 256 ≡ from_le bs = omega (arith, v.0) in
    ap₂ ◌∷◌ low (ap (le_bytes w) high ∙ le_bytes-from_le w bs v.1 (omega arith))

pub take-append-drop {ℓ} : {A : Type ℓ} (n : ℕ) (xs : List A) → take n xs ++ drop n xs ≡ xs
take-append-drop zero xs = refl
take-append-drop (suc n) [] = refl
take-append-drop (suc n) (x ∷ xs) = ap (◌∷◌ x) (take-append-drop n xs)

-- Words that are read from bytes are the bytes, up to the end of the last.
pub words-words_at :
    (ws : List ℕ) (off : ℕ) (buffer : List ℕ)
    → AreBytes buffer
    → off + sum ws ≤ length buffer
    → words (words_at ws off buffer) ++ drop (off + sum ws) buffer ≡ drop off buffer
words-words_at [] off buffer v h = let e : off + 0 ≡ off = omega arith in ap (λ o. drop o buffer) e
words-words_at (w ∷ ws) off buffer v h =
    let here = drop off buffer in
    let e : off + (w + sum ws) ≡ off + w + sum ws = omega arith in
    let back : le_bytes w (from_le (take w here)) ≡ take w here =
      le_bytes-from_le w (take w here) (AreBytes-take w here (AreBytes-drop off buffer v))
        (omega (arith, length-take w here, length-drop off buffer)) in
    append_assoc (le_bytes w (from_le (take w here))) (words (words_at ws (off + w) buffer)) _
    ∙ (ap₂ ◌++◌ back (
          ap (λ o. words (words_at ws (off + w) buffer) ++ drop o buffer) e
          ∙ (words-words_at ws (off + w) buffer v (omega arith)
              ∙ sym (drop-drop off w (off + w) buffer refl)))
        ∙ take-append-drop w here)
