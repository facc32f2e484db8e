-- ===== src/Base/Word.antt =====
-- Machine words: little-endian bytes, and `+ 1`, `- 1`, `+` with the two behaviours on overflow.
use Prim.Native.Nat.{ℕ, zero, suc, ◌+◌, ◌-◌, ◌*◌, ◌/◌, ◌%◌, ◌^◌, ◌<◌}
use mathlib.Core.Path.{◌≡◌, refl, ap}
use mathlib.Core.List.{List, [], ◌∷◌}
use native.Mathlib.Omega.{arith}
use native.Mathlib.Nat.{pow-suc}
use boltdb_rs.Base.Tests.{ltb, if◌then◌else◌}
use boltdb_rs.Base.Lists.{length}
use boltdb_rs.Base.Outcome.{Res, ok, fault, overflow}

-- The `w` bytes of a word, the least significant first.
unfoldable pub le_bytes : ℕ → ℕ → List ℕ
le_bytes zero n = []
le_bytes (suc w) n = (n % 256) ∷ le_bytes w (n / 256)

unfoldable pub from_le : List ℕ → ℕ
from_le [] = 0
from_le (b ∷ bs) = b + 256 * from_le bs

pub length-le_bytes : (w n : ℕ) → length (le_bytes w n) ≡ w
unfolding le_bytes
length-le_bytes zero n = refl
length-le_bytes (suc w) n = ap suc (length-le_bytes w (n / 256))

pub from_le-le_bytes : (w n : ℕ) → n < 256 ^ w → from_le (le_bytes w n) ≡ n
unfolding le_bytes from_le
from_le-le_bytes zero n h = omega arith
from_le-le_bytes (suc w) n h =
    omega (arith, from_le-le_bytes w (n / 256) (omega (arith, pow-suc 256 w)))

-- Whether the build has overflow checks: a `debug` build panics, a `release` build wraps.
pub data Build : Type 0 where
  debug release : Build

abbrev pub wrapped : Build → ℕ → ℕ → Res ℕ
wrapped debug m n = fault overflow
wrapped release m n = ok (n % m)

-- `a + b` in a word of modulus `m`.
unfoldable pub add_word : Build → ℕ → ℕ → ℕ → Res ℕ
add_word build m a b = if ltb (a + b) m then ok (a + b) else wrapped build m (a + b)

-- `a - b` in a word of modulus `m`.
unfoldable pub sub_word : Build → ℕ → ℕ → ℕ → Res ℕ
sub_word build m a b = if ltb a b then wrapped build m (a + m - b) else ok (a - b)
