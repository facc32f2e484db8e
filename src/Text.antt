-- ===== src/Text.antt =====
-- Texts as the codes of their characters, and what `format!` and `write!` make of a template: its
-- literals, and numbers in decimal or lowercase hexadecimal.
pub mod Digits
pub mod Scan
use Prim.Native.Char.{code}
use Prim.Native.String.{String}
use boltdb_rs.Base.{
  ℕ, zero, suc, ◌+◌, ◌-◌, ◌/◌, ◌%◌, List, [], ◌∷◌, ◌++◌, ltb, if◌then◌else◌, length, replicate,
}

abbrev pub Text : Type 0
Text = List ℕ

abbrev pub codes : String → Text
codes String.[] = []
codes (String.◌∷◌ c s) = code c ∷ codes s

unfoldable pub digit : ℕ → ℕ
digit d = if ltb d 10 then b'0' + d else b'a' + (d - 10)

-- The digits of a number, with fuel for them.
unfoldable pub digits : ℕ → ℕ → ℕ → Text
digits base zero n = []
digits base (suc fuel) n =
    let front = digits base fuel (n / base) in
    if ltb n base then digit n ∷ [] else front ++ digit (n % base) ∷ []

-- A number has no more digits than its value and one.
unfoldable pub dec : ℕ → Text
dec n = digits 10 (suc n) n

unfoldable pub hex : ℕ → Text
hex n = digits 16 (suc n) n

-- `{:0…x}`: zeros in front up to a width.
unfoldable pub hex_padded : ℕ → ℕ → Text
hex_padded width n = let text = hex n in replicate (width - length text) b'0' ++ text

-- A part of a template: a literal, `{}` with a number or a text, or `{:0…x}`.
pub data Piece : Type 0 where
  lit : String → Piece
  num : ℕ → Piece
  word : Text → Piece
  padded : ℕ → ℕ → Piece

unfoldable pub format : List Piece → Text
unfolding dec hex_padded
format [] = []
format (lit s ∷ ps) = codes s ++ format ps
format (num n ∷ ps) = dec n ++ format ps
format (word t ∷ ps) = t ++ format ps
format (padded width n ∷ ps) = hex_padded width n ++ format ps
