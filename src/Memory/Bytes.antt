-- ===== src/Memory/Bytes.antt =====
-- Buffers whose elements are bytes, and the range of the words that are read from them.
use native.Mathlib.Nat.{pow-suc}
use boltdb_rs.Base.{
  ℕ, zero, suc, ◌+◌, ◌/◌, ◌^◌, ◌≤◌, ◌<◌, ◌≡◌, List, [], ◌∷◌, ◌++◌, arith, ok, length, take, drop,
  le_bytes, from_le, subst,
}
use boltdb_rs.Memory.{read, write, splice, length-splice}

abbrev pub AreBytes : List ℕ → Type 0
AreBytes [] = Unit
AreBytes (b ∷ bs) = (b < 256) × AreBytes bs

pub AreBytes-append : (xs ys : List ℕ) → AreBytes xs → AreBytes ys → AreBytes (xs ++ ys)
AreBytes-append [] ys v w = w
AreBytes-append (x ∷ xs) ys v w = (v.0, AreBytes-append xs ys v.1 w)

pub AreBytes-take : (n : ℕ) (xs : List ℕ) → AreBytes xs → AreBytes (take n xs)
AreBytes-take zero xs v = tt
AreBytes-take (suc n) [] v = tt
AreBytes-take (suc n) (x ∷ xs) v = (v.0, AreBytes-take n xs v.1)

pub AreBytes-drop : (n : ℕ) (xs : List ℕ) → AreBytes xs → AreBytes (drop n xs)
AreBytes-drop zero xs v = v
AreBytes-drop (suc n) [] v = tt
AreBytes-drop (suc n) (x ∷ xs) v = AreBytes-drop n xs v.1

pub AreBytes-le_bytes : (w n : ℕ) → AreBytes (le_bytes w n)
unfolding le_bytes
AreBytes-le_bytes zero n = tt
AreBytes-le_bytes (suc w) n = (omega arith, AreBytes-le_bytes w (n / 256))

AreBytes-splice :
    (xs : List ℕ) (off : ℕ) (bs : List ℕ) → AreBytes xs → AreBytes bs → AreBytes (splice xs off bs)
unfolding splice
AreBytes-splice xs zero bs v w =
    AreBytes-append bs (drop (length bs) xs) w (AreBytes-drop (length bs) xs v)
AreBytes-splice [] (suc off) bs v w = tt
AreBytes-splice (x ∷ xs) (suc off) bs v w = (v.0, AreBytes-splice xs off bs v.1 w)

pow_pos : (w : ℕ) → 0 < 256 ^ w
pow_pos zero = omega arith
pow_pos (suc w) = omega (arith, pow-suc 256 w, pow_pos w)

pub from_le-take_lt : (w : ℕ) (bs : List ℕ) → AreBytes bs → from_le (take w bs) < 256 ^ w
unfolding from_le
from_le-take_lt zero bs v = omega arith
from_le-take_lt (suc w) [] v = pow_pos (suc w)
from_le-take_lt (suc w) (b ∷ bs) v = omega (arith, pow-suc 256 w, from_le-take_lt w bs v.1)

pub loaded :
    (mem : List ℕ) (off len : ℕ) (bs : List ℕ)
    → read mem off len ≡ ok bs
    → take len (drop off mem) ≡ bs
unfolding read
loaded mem off len bs h = ground arith

pub stored :
    (mem : List ℕ) (off : ℕ) (bs mem' : List ℕ)
    → write mem off bs ≡ ok mem'
    → (splice mem off bs ≡ mem') × (off + length bs ≤ length mem)
unfolding write
stored mem off bs mem' h = ground arith

-- A load of bytes gives bytes.
pub AreBytes-read :
    (mem : List ℕ) (off len : ℕ) (bs : List ℕ)
    → AreBytes mem
    → read mem off len ≡ ok bs
    → AreBytes bs
AreBytes-read mem off len bs v h =
    subst AreBytes (loaded mem off len bs h)
      (AreBytes-take len (drop off mem) (AreBytes-drop off mem v))

-- A store of bytes keeps bytes and the length of the buffer.
pub AreBytes-write :
    (mem : List ℕ) (off : ℕ) (bs mem' : List ℕ)
    → AreBytes mem
    → AreBytes bs
    → write mem off bs ≡ ok mem'
    → AreBytes mem' × (length mem' ≡ length mem)
AreBytes-write mem off bs mem' v w h =
    let (same, fits) = stored mem off bs mem' h in
    subst (λ m. AreBytes m × (length m ≡ length mem)) same
      (AreBytes-splice mem off bs v w, length-splice mem off bs fits)
