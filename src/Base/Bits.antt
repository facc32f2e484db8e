-- ===== src/Base/Bits.antt =====
-- `&` with a single bit, as arithmetic.
use Prim.Native.Nat.{
  ℕ, zero, suc, ◌+◌, ◌-◌, ◌*◌, ◌/◌, ◌%◌, ◌≤◌, min, digits, bit_and, bit_and-bitwise,
}
use mathlib.Core.Path.{◌≡◌, refl, ◌∙◌}
use native.Mathlib.Omega.{arith}

-- The digit recursion behind `bit_and`, with its fuel.
abbrev conjoin : ℕ → ℕ → ℕ → ℕ
conjoin fuel x y = digits (λ t. 0) min fuel x y

-- One more unit of fuel changes nothing once there is enough.
conjoin_one_more : (fuel x y : ℕ) → x ≤ fuel → conjoin (suc fuel) x y ≡ conjoin fuel x y
conjoin_one_more zero zero y enough = refl
conjoin_one_more (suc fuel) zero y enough = refl
conjoin_one_more zero (suc x) y enough = absurd (omega arith)
conjoin_one_more (suc fuel) (suc x) y enough =
    omega (arith, conjoin_one_more fuel (suc x / 2) (y / 2) (omega arith))

conjoin_more :
    (more fuel total x y : ℕ)
    → total ≡ more + fuel
    → x ≤ fuel
    → conjoin total x y ≡ conjoin fuel x y
conjoin_more zero fuel total x y e enough = let same : total ≡ fuel = omega arith in rw same
conjoin_more (suc more) fuel zero x y e enough = absurd (omega arith)
conjoin_more (suc more) fuel (suc total) x y e enough =
    conjoin_one_more total x y (omega arith) ∙ conjoin_more more fuel total x y (omega arith) enough

-- The lowest digit, and the rest.
halve : (x y : ℕ) → bit_and x y ≡ bit_and (x / 2) (y / 2) * 2 + min (x % 2) (y % 2)
halve zero y = omega (arith, bit_and-bitwise 0 y, bit_and-bitwise 0 (y / 2))
halve (suc x) y =
    let half : ℕ = suc x / 2 in
    omega (
      arith,
      conjoin_more (x - half) half x half (y / 2) (omega arith) (omega arith),
      bit_and-bitwise half (y / 2),
      bit_and-bitwise (suc x) y,
    )

no_mask : (bound x : ℕ) → x ≤ bound → bit_and x 0 ≡ 0
no_mask bound zero small = refl
no_mask zero (suc x) small = absurd (omega arith)
no_mask (suc bound) (suc x) small =
    omega (arith, no_mask bound (suc x / 2) (omega arith), halve (suc x) 0)

-- The bits of a page's type and of a leaf element's bucket mark.
pub bit_and-one : (flags : ℕ) → bit_and flags 1 ≡ flags % 2
bit_and-one flags = omega (arith, no_mask (flags / 2) (flags / 2) (omega arith), halve flags 1)

pub bit_and_two : (flags : ℕ) → bit_and flags 2 ≡ flags / 2 % 2 * 2
bit_and_two flags = omega (arith, halve flags 2, bit_and-one (flags / 2))

pub bit_and_four : (flags : ℕ) → bit_and flags 4 ≡ flags / 4 % 2 * 4
bit_and_four flags = omega (arith, halve flags 4, bit_and_two (flags / 2))

pub bit_and_sixteen : (flags : ℕ) → bit_and flags 16 ≡ flags / 16 % 2 * 16
bit_and_sixteen flags =
    omega (arith, halve flags 16, halve (flags / 2) 8, bit_and_four (flags / 2 / 2))
