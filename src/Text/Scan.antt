-- ===== src/Text/Scan.antt =====
-- Reading the numbers and words back from a text that a template made.
use boltdb_rs.Base.{
  ℕ, ◌==◌, ◌≡◌, refl, ap, ap₂, ◌∙◌, false, List, [], ◌∷◌, ◌++◌, arith, none, if◌then◌else◌, length,
  drop, drop-append,
}
use boltdb_rs.Text.{Text, codes, Piece, lit, num, word, padded, format, dec, hex_padded}
use boltdb_rs.Text.Digits.{digit_value, read_number, read_number-dec, read_number-hex_padded}

-- What stands at a place of a template, and what was read there.
pub data Shape : Type 0 where
  skip : ℕ → Shape
  number : Shape
  hexadecimal : Shape
  up_to_comma : Shape

pub data Value : Type 0 where
  number_value : ℕ → Value
  word_value : Text → Value

unfoldable pub shapes : List Piece → List Shape
shapes [] = []
shapes (lit s ∷ ps) = skip (length (codes s)) ∷ shapes ps
shapes (num n ∷ ps) = number ∷ shapes ps
shapes (word t ∷ ps) = up_to_comma ∷ shapes ps
shapes (padded width n ∷ ps) = hexadecimal ∷ shapes ps

unfoldable pub values : List Piece → List Value
values [] = []
values (lit s ∷ ps) = values ps
values (num n ∷ ps) = number_value n ∷ values ps
values (word t ∷ ps) = word_value t ∷ values ps
values (padded width n ∷ ps) = number_value n ∷ values ps

before_comma : Text → Text
before_comma [] = []
before_comma (c ∷ t) = let rest = before_comma t in if c == b',' then [] else c ∷ rest

from_comma : Text → Text
from_comma [] = []
from_comma (c ∷ t) = let rest = from_comma t in if c == b',' then c ∷ t else rest

pub scan : List Shape → Text → List Value
scan [] t = []
scan (skip k ∷ ss) t = scan ss (drop k t)
scan (number ∷ ss) t = number_value (read_number 10 0 t).0 ∷ scan ss (read_number 10 0 t).1
scan (hexadecimal ∷ ss) t = number_value (read_number 16 0 t).0 ∷ scan ss (read_number 16 0 t).1
scan (up_to_comma ∷ ss) t = word_value (before_comma t) ∷ scan ss (from_comma t)

-- A number ends where no further digit follows, a word at a comma.
abbrev pub Stops : ℕ → Text → Type 0
Stops base [] = Unit
Stops base (c ∷ t) = digit_value base c ≡ none

abbrev pub StartsComma : Text → Type 0
StartsComma [] = ⊥
StartsComma (c ∷ t) = c ≡ b','

abbrev pub NoComma : Text → Type 0
NoComma [] = Unit
NoComma (c ∷ t) = ((c == b',') ≡ false) × NoComma t

abbrev pub Separated : List Piece → Type 0
Separated [] = Unit
Separated (lit s ∷ ps) = Separated ps
Separated (num n ∷ ps) = Stops 10 (format ps) × Separated ps
Separated (word t ∷ ps) = NoComma t × StartsComma (format ps) × Separated ps
Separated (padded width n ∷ ps) = Stops 16 (format ps) × Separated ps

read_number_stop : (base n : ℕ) (t : Text) → Stops base t → read_number base n t ≡ (n, t)
unfolding read_number
read_number_stop base n [] s = refl
read_number_stop base n (c ∷ t) s = rw (s, read_number) refl

before_comma-append : (w t : Text) → NoComma w → StartsComma t → before_comma (w ++ t) ≡ w
unfolding before_comma
before_comma-append [] [] w s = absurd s
before_comma-append [] (c ∷ t) w s = ground arith
before_comma-append (c ∷ w) t n s = rw n.0 (ap (λ cs. c ∷ cs) (before_comma-append w t n.1 s))

from_comma-append : (w t : Text) → NoComma w → StartsComma t → from_comma (w ++ t) ≡ t
unfolding from_comma
from_comma-append [] [] w s = absurd s
from_comma-append [] (c ∷ t) w s = ground arith
from_comma-append (c ∷ w) t n s = rw n.0 (from_comma-append w t n.1 s)

-- A template whose parts are separated is read back from its text.
pub scan-format : (ps : List Piece) → Separated ps → scan (shapes ps) (format ps) ≡ values ps
unfolding scan format shapes values
scan-format [] s = refl
scan-format (lit l ∷ ps) s =
    ap (scan (shapes ps)) (drop-append (length (codes l)) (codes l) (format ps) refl)
    ∙ scan-format ps s
scan-format (num n ∷ ps) s =
    let run : read_number 10 0 (dec n ++ format ps) ≡ (n, format ps) =
      read_number-dec n (format ps) ∙ read_number_stop 10 n (format ps) s.0 in
    ap (λ r. number_value r.0 ∷ scan (shapes ps) r.1) run
    ∙ ap (λ vs. number_value n ∷ vs) (scan-format ps s.1)
scan-format (word t ∷ ps) s =
    ap₂ (λ w rest. word_value w ∷ scan (shapes ps) rest) (before_comma-append t (format ps) s.0 s.1)
      (from_comma-append t (format ps) s.0 s.1)
    ∙ ap (λ vs. word_value t ∷ vs) (scan-format ps s.2)
scan-format (padded width n ∷ ps) s =
    let run : read_number 16 0 (hex_padded width n ++ format ps) ≡ (n, format ps) =
      read_number-hex_padded width n (format ps) ∙ read_number_stop 16 n (format ps) s.0 in
    ap (λ r. number_value r.0 ∷ scan (shapes ps) r.1) run
    ∙ ap (λ vs. number_value n ∷ vs) (scan-format ps s.1)
