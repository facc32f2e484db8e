-- ===== src/Page/Layout.antt =====
-- The page header in memory, and the classification of a page by its flags.
use boltdb_rs.Base.{
  ℕ, ◌+◌, ◌/◌, ◌%◌, ◌^◌, ◌<◌, ◌≡◌, ◌≢◌, ◌↔◌, ◌⊎◌, sym, ap, ◌∙◌, List, ◌++◌, arith, ok, length, take,
  drop, le_bytes, from_le, length-le_bytes, from_le-le_bytes, take-append, drop-append, drop-drop,
  length-append,
}
use boltdb_rs.Flags.{Bitflags, contains-leaf_iff, contains-meta_iff, contains-freelist_iff}
use boltdb_rs.Page.{Page, IsPage, bytes, from_slice, typ, fast_check, unknown}

-- Reading back a field from a word followed by other bytes.
module _ (w n : ℕ) (rest : List ℕ) where
  pub field-le_bytes : n < 256 ^ w → from_le (take w (le_bytes w n ++ rest)) ≡ n
  field-le_bytes fits =
      ap from_le (take-append w (le_bytes w n) rest (sym (length-le_bytes w n)))
      ∙ from_le-le_bytes w n fits

  pub drop-le_bytes : drop w (le_bytes w n ++ rest) ≡ rest
  drop-le_bytes = drop-append w (le_bytes w n) rest (sym (length-le_bytes w n))

module _ (p : Page) where
  pub length-bytes : length (bytes p) ≡ 16 + length p.body
  unfolding bytes
  length-bytes =
      let r3 : List ℕ = le_bytes 4 p.overflow ++ p.body in
      let r2 : List ℕ = le_bytes 2 p.count ++ r3 in
      let r1 : List ℕ = le_bytes 2 p.flags ++ r2 in
      omega (
        arith,
        length-append (le_bytes 8 p.id) r1,
        length-append (le_bytes 2 p.flags) r2,
        length-append (le_bytes 2 p.count) r3,
        length-append (le_bytes 4 p.overflow) p.body,
        length-le_bytes 8 p.id,
        length-le_bytes 2 p.flags,
        length-le_bytes 2 p.count,
        length-le_bytes 4 p.overflow,
      )

  abbrev from_count : List ℕ
  from_count = le_bytes 2 p.count ++ (le_bytes 4 p.overflow ++ p.body)

  drop-bytes_flags : drop 8 (bytes p) ≡ le_bytes 2 p.flags ++ from_count
  unfolding bytes
  drop-bytes_flags = drop-le_bytes 8 p.id _

  drop-bytes_count : drop 10 (bytes p) ≡ from_count
  drop-bytes_count =
      sym (drop-drop 8 2 10 (bytes p) (omega arith))
      ∙ (ap (drop 2) drop-bytes_flags ∙ drop-le_bytes 2 p.flags from_count)

  drop-bytes_overflow : drop 12 (bytes p) ≡ le_bytes 4 p.overflow ++ p.body
  drop-bytes_overflow =
      sym (drop-drop 10 2 12 (bytes p) (omega arith))
      ∙ (ap (drop 2) drop-bytes_count ∙ drop-le_bytes 2 p.count _)

  pub drop-bytes_body : drop 16 (bytes p) ≡ p.body
  drop-bytes_body =
      sym (drop-drop 12 4 16 (bytes p) (omega arith))
      ∙ (ap (drop 4) drop-bytes_overflow ∙ drop-le_bytes 4 p.overflow p.body)

  take-bytes_id : p.id < 2 ^ 64 → from_le (take 8 (bytes p)) ≡ p.id
  unfolding bytes
  take-bytes_id h = field-le_bytes 8 p.id _ h

-- A well-formed page is read back from its bytes, whatever follows the header.
pub from_slice-bytes : (p : Page) → IsPage p → from_slice p.addr (bytes p) ≡ ok p
unfolding from_slice
from_slice-bytes p h = ground (
  arith,
  length-bytes p,
  take-bytes_id p h.id_fits,
  ap (λ (t : List ℕ). from_le (take 2 t)) (drop-bytes_flags p)
      ∙ field-le_bytes 2 p.flags (from_count p) h.flags_fit,
  ap (λ (t : List ℕ). from_le (take 2 t)) (drop-bytes_count p)
      ∙ field-le_bytes 2 p.count _ h.count_fits,
  ap (λ (t : List ℕ). from_le (take 4 t)) (drop-bytes_overflow p)
      ∙ field-le_bytes 4 p.overflow p.body h.overflow_fits,
  drop-bytes_body p,
)

module _ ⦃b : Bitflags⦄ where
  -- The check accepts exactly a page that carries the id asked for and whose flags are
  -- the branch flag alone or have one of the bits of the other three types.
  fast_check_iff :
      (id : ℕ) (p : Page)
      → (fast_check id p ≡ ok tt) ↔ (
          (p.id ≡ id)
          × ((p.flags ≡ 1)
              ⊎ (p.flags / 2 % 2 ≡ 1)
              ⊎ (p.flags / 4 % 2 ≡ 1)
              ⊎ (p.flags / 16 % 2 ≡ 1)))
  unfolding fast_check
  fast_check_iff id p =
      ground
        (arith, contains-leaf_iff p.flags, contains-meta_iff p.flags, contains-freelist_iff p.flags)

  -- A page passes the check under its own id exactly when its type has a name.
  pub fast_check-typ : (p : Page) → (fast_check p.id p ≡ ok tt) ↔ (typ p ≢ unknown p.flags)
  unfolding fast_check typ
  fast_check-typ p = ground arith
