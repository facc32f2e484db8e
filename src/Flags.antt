-- ===== src/Flags.antt =====
-- The page flags of common/page.rs. The type is generated by the crate `bitflags`, whose test
-- `contains` is a parameter with its documented meaning.
use boltdb_rs.Base.{
  ℕ, ◌/◌, ◌%◌, ◌==◌, bit_and, ◌≡◌, ◌↔◌, Bool, true, arith, bit_and_two, bit_and_four,
  bit_and_sixteen,
}

abbrev pub branch_page_flag : ℕ
branch_page_flag = 0x01

abbrev pub leaf_page_flag : ℕ
leaf_page_flag = 0x02

abbrev pub meta_page_flag : ℕ
meta_page_flag = 0x04

abbrev pub freelist_page_flag : ℕ
freelist_page_flag = 0x10

-- "Whether all set bits in `other` are also set in `self`", on the bits of the two.
pub record Bitflags : Type 0 where
  pub contains : ℕ → ℕ → Bool
  pub contains_lem : (flags other : ℕ) → contains flags other ≡ (bit_and flags other == other)

module _ ⦃b : Bitflags⦄ where
  pub contains-leaf_iff : (flags : ℕ) → (b.contains flags 2 ≡ true) ↔ (flags / 2 % 2 ≡ 1)
  contains-leaf_iff flags = ground (arith, b.contains_lem flags 2, bit_and_two flags)

  pub contains-meta_iff : (flags : ℕ) → (b.contains flags 4 ≡ true) ↔ (flags / 4 % 2 ≡ 1)
  contains-meta_iff flags = ground (arith, b.contains_lem flags 4, bit_and_four flags)

  pub contains-freelist_iff : (flags : ℕ) → (b.contains flags 16 ≡ true) ↔ (flags / 16 % 2 ≡ 1)
  contains-freelist_iff flags = ground (arith, b.contains_lem flags 16, bit_and_sixteen flags)
