-- ===== src/Page/FreelistIds.antt =====
-- What `freelist_page_ids` of common/page.rs reads.
use boltdb_rs.Base.{
  ℕ, ◌+◌, ◌-◌, ◌*◌, ◌/◌, ◌%◌, ◌^◌, ◌<◌, ◌≡◌, refl, ap, ap₂, ◌∙◌, List, [], ◌∷◌, ◌++◌, arith, ok,
  fault, wild_read, ◌>>=◌, length, le_bytes, from_le, length-le_bytes, length-append,
}
use mathlib.Core.List.{append_assoc}
use boltdb_rs.Memory.{read, read_inside, decode_array, decode_array-take}
use boltdb_rs.Flags.{Bitflags, contains-freelist_iff}
use boltdb_rs.Page.{Page, get_data_ptr, is_freelist_page}
use boltdb_rs.Page.Layout.{field-le_bytes, drop-le_bytes}
use boltdb_rs.Page.Freelist.{read_pgids, freelist_page_count, freelist_page_ids}

-- Page ids laid out one behind the other.
abbrev pub encode_ids : List ℕ → List ℕ
encode_ids [] = []
encode_ids (x ∷ xs) = le_bytes 8 x ++ encode_ids xs

abbrev pub AreIds : List ℕ → Type 0
AreIds [] = Unit
AreIds (x ∷ xs) = (x < 2 ^ 64) × AreIds xs

length-encode_ids : (ids : List ℕ) → length (encode_ids ids) ≡ length ids * 8
length-encode_ids [] = omega arith
length-encode_ids (x ∷ xs) =
    omega (
      arith,
      length-append (le_bytes 8 x) (encode_ids xs),
      length-le_bytes 8 x,
      length-encode_ids xs,
    )

decode_array-encode_ids :
    (ids rest : List ℕ)
    → AreIds ids
    → decode_array from_le 8 (length ids) (encode_ids ids ++ rest) ≡ ids
unfolding decode_array
decode_array-encode_ids [] rest w = refl
decode_array-encode_ids (x ∷ xs) rest w = rw (append_assoc (le_bytes 8 x) (encode_ids xs) rest) (
    ap₂ ◌∷◌ (field-le_bytes 8 x (encode_ids xs ++ rest) w.0) (
      ap (decode_array from_le 8 (length xs)) (drop-le_bytes 8 x (encode_ids xs ++ rest))
      ∙ decode_array-encode_ids xs rest w.1))

no_ids : (p : Page) (ids : List ℕ) → p.count ≡ length ids → p.count ≡ 0 → [] ≡ ids
no_ids p [] e z = refl
no_ids p (x ∷ xs) e z = absurd (omega arith)

read_ids :
    (p : Page) (ids rest : List ℕ)
    → p.count ≡ length ids
    → AreIds ids
    → p.body ≡ encode_ids ids ++ rest
    → (read p.body 0 (p.count * 8) >>= λ bs. ok (decode_array from_le 8 p.count bs)) ≡ ok ids
read_ids p ids rest count w layout =
    rw
      (read_inside p.body 0 (p.count * 8) (
        omega
          (arith, ap length layout, length-append (encode_ids ids) rest, length-encode_ids ids)))
      (ap ok (
        decode_array-take from_le 8 p.count (p.count * 8) p.body (omega arith)
        ∙ (ap₂ (decode_array from_le 8) count layout ∙ decode_array-encode_ids ids rest w)))

module _ ⦃b : Bitflags⦄ where
  -- On a page with the freelist flag and fewer than 0xFFFF ids, exactly the ids that were laid out
  -- at the data pointer are read, whatever follows them.
  pub freelist_page_ids-encode_ids :
      (p : Page) (ids rest : List ℕ)
      → p.flags / 16 % 2 ≡ 1
      → p.count ≡ length ids
      → p.count < 0xffff
      → AreIds ids
      → p.body ≡ encode_ids ids ++ rest
      → freelist_page_ids p ≡ ok ids
  unfolding freelist_page_ids freelist_page_count is_freelist_page read_pgids
  freelist_page_ids-encode_ids p ids rest flag count small w layout =
      ground (
        arith,
        contains-freelist_iff p.flags,
        read_ids p ids rest count w layout,
        no_ids p ids count,
      )

  -- A count of 0xFFFF makes the address of the data the number of ids: with a shorter buffer,
  -- the read leaves it.
  pub freelist_page_ids_overflow :
      (p : Page)
      → p.flags / 16 % 2 ≡ 1
      → p.count ≡ 0xffff
      → p.addr + 16 < 2 ^ 64 - 1
      → length p.body < (p.addr + 16) * 8
      → (freelist_page_count p ≡ ok (1, p.addr + 16)) × (freelist_page_ids p ≡ fault wild_read)
  unfolding freelist_page_ids freelist_page_count is_freelist_page read_pgids get_data_ptr read
  freelist_page_ids_overflow p flag count range short =
      ground (arith, contains-freelist_iff p.flags)
