-- ===== src/Memory.antt =====
-- Raw memory: reads and writes at an offset of a buffer, and arrays of fixed-size records in it,
-- as `slice::from_raw_parts` and pointer casts see them.
use boltdb_rs.Base.{
  ℕ, zero, suc, ◌+◌, ◌-◌, ◌*◌, ◌≤◌, ◌<◌, ◌≡◌, refl, ap, ◌⊎◌, List, [], ◌∷◌, ◌++◌, arith, Option,
  none, some, Res, ok, fault, wild_read, wild_write, leb, if◌then◌else◌, length, take, drop,
  get_elem?, length-take, drop-drop, take-take, drop-take, ◌∙◌, ap₂,
}
mod Splice
pub mod Bytes
pub mod Apart
pub mod Words
unfoldable pub use Splice.*

-- `len` bytes at offset `off`; past the end of the buffer the access is undefined.
unfoldable pub read : List ℕ → ℕ → ℕ → Res (List ℕ)
read mem off len =
    if leb (off + len) (length mem) then ok (take len (drop off mem)) else fault wild_read

unfoldable pub write : List ℕ → ℕ → List ℕ → Res (List ℕ)
write mem off bs =
    if leb (off + length bs) (length mem) then ok (splice mem off bs) else fault wild_write

pub read_inside :
    (mem : List ℕ) (off len : ℕ)
    → off + len ≤ length mem
    → read mem off len ≡ ok (take len (drop off mem))
unfolding read
read_inside mem off len h = ground arith

-- `n` records of `size` bytes each, from the start of the buffer.
unfoldable pub decode_array {ℓ} : {A : Type ℓ} → (List ℕ → A) → ℕ → ℕ → List ℕ → List A
decode_array decode size zero bs = []
decode_array decode size (suc n) bs =
    decode (take size bs) ∷ decode_array decode size n (drop size bs)

module _ {ℓ} {A : Type ℓ} (decode : List ℕ → A) (size : ℕ) where
  -- Record `i` is read from the bytes `i * size` and following.
  pub get_elem?-decode_array :
      (n i : ℕ) (bs : List ℕ)
      → i < n
      → get_elem? (decode_array decode size n bs) i ≡ some (decode (take size (drop (i * size) bs)))
  unfolding decode_array
  get_elem?-decode_array zero i bs h = absurd (omega arith)
  get_elem?-decode_array (suc n) zero bs h =
      let e : 0 ≡ 0 * size = omega arith in ap (λ k. some (decode (take size (drop k bs)))) e
  get_elem?-decode_array (suc n) (suc i) bs h =
      get_elem?-decode_array n i (drop size bs) (omega arith)
      ∙ ap (λ t. some (decode (take size t)))
          (drop-drop size (i * size) (suc i * size) bs (omega arith))

  pub length-decode_array : (n : ℕ) (bs : List ℕ) → length (decode_array decode size n bs) ≡ n
  unfolding decode_array
  length-decode_array zero bs = refl
  length-decode_array (suc n) bs = ap suc (length-decode_array n (drop size bs))

  -- Only the bytes of the array count.
  pub decode_array-take :
      (n k : ℕ) (bs : List ℕ)
      → n * size ≤ k
      → decode_array decode size n (take k bs) ≡ decode_array decode size n bs
  unfolding decode_array
  decode_array-take zero k bs h = refl
  decode_array-take (suc n) k bs h = ap₂ ◌∷◌ (ap decode (take-take size k bs (omega arith))) (
      rw (drop-take size k (k - size) bs (omega arith))
        (decode_array-take n (k - size) (drop size bs) (omega arith)))

pub read-take :
    (mem : List ℕ) (k off len : ℕ)
    → off + len ≤ k
    → k ≤ length mem
    → read (take k mem) off len ≡ read mem off len
unfolding read
read-take mem k off len h l = ground (
  arith,
  length-take k mem,
  drop-take off k (k - off) mem,
  take-take len (k - off) (drop off mem),
)

-- A write that fits is read back, and leaves what lies before it and behind it.
module _ (mem : List ℕ) (off : ℕ) (bs : List ℕ) (fits : off + length bs ≤ length mem) where
  pub write-eq-ok : write mem off bs ≡ ok (splice mem off bs)
  unfolding write
  write-eq-ok = ground arith

  pub read-splice : (n : ℕ) → n ≡ length bs → read (splice mem off bs) off n ≡ ok bs
  unfolding read
  read-splice n e =
      ground (arith, length-splice mem off bs fits, take-drop-splice mem off bs n e fits)

  pub read-splice_other :
      (at n : ℕ)
      → (at + n ≤ off) ⊎ (off + length bs ≤ at)
      → read (splice mem off bs) at n ≡ read mem at n
  unfolding read
  read-splice_other at n apart = ground (
    arith,
    length-splice mem off bs fits,
    take-drop-splice_below mem off bs at n,
    drop-splice_above mem off bs at,
  )
