-- ===== src/Pointers.antt =====
-- The pointer helpers of common/mod.rs. A pointer to values of `size` bytes is an address, and
-- `base` in `unsafe_byte_slice` points at the start of a buffer.
use boltdb_rs.Base.{
  ℕ, ◌+◌, ◌-◌, ◌*◌, ◌^◌, ◌≤◌, ◌<◌, ◌≡◌, ◌↔◌, List, arith, Res, ok, ◌>>=◌, length, take, drop, Build,
  debug, release, sub_word,
}
use boltdb_rs.InBucket.{word64}
use boltdb_rs.Memory.{read}

-- `base.add(offset)` counts in values, not in bytes.
unfoldable pub unsafe_add : ℕ → ℕ → ℕ → ℕ
unsafe_add size base offset = base + offset * size

unfoldable pub unsafe_index : ℕ → ℕ → ℕ → ℕ → ℕ → ℕ
unsafe_index size base offset elemsz n = unsafe_add size (unsafe_add size base offset) (n * elemsz)

unfoldable pub unsafe_byte_slice : Build → List ℕ → ℕ → ℕ → ℕ → Res (List ℕ)
unsafe_byte_slice build base offset i j = do
  len ← sub_word build word64 j i
  read base (offset + i) len

-- On a buffer of less than 2 ^ 64 bytes and a first bound below that, there is a slice from `i` to
-- `j` behind `offset` if and only if the bounds are in order and the end lies within the buffer; it
-- then has the bytes from the first bound up to the second. This holds in both kinds of build.
pub unsafe_byte_slice-eq-ok_iff :
    (build : Build) (base : List ℕ) (offset i j : ℕ) (bs : List ℕ)
    → length base < 2 ^ 64
    → i < 2 ^ 64
    → (unsafe_byte_slice build base offset i j ≡ ok bs)
      ↔ ((i ≤ j) × (offset + j ≤ length base) × (bs ≡ take (j - i) (drop (offset + i) base)))
unfolding unsafe_byte_slice sub_word read
unsafe_byte_slice-eq-ok_iff debug base offset i j bs small fits = ground arith
unsafe_byte_slice-eq-ok_iff release base offset i j bs small fits = ground arith
