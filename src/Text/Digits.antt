-- ===== src/Text/Digits.antt =====
-- Reading back a number from its digits.
use native.Mathlib.Nat.{div-add-mod', mod-lt, div-lt_self}
use mathlib.Core.List.{append_assoc}
use boltdb_rs.Base.{
  ℕ, zero, suc, ◌+◌, ◌-◌, ◌*◌, ◌/◌, ◌%◌, ◌≤◌, ◌<◌, ◌≡◌, inl, inr, refl, ap, ◌∙◌, false, ◌&&◌, ◌||◌,
  Bool-cases, [], ◌∷◌, ◌++◌, arith, Option, none, some, ltb, ltb→lt, leb, if◌then◌else◌, length,
  replicate,
}
use boltdb_rs.Text.{Text, digit, digits, dec, hex, hex_padded}

-- The value of a digit, if the character is one of the base.
unfoldable pub digit_value : ℕ → ℕ → Option ℕ
digit_value base c =
    let v = if ltb c b'a' then c - b'0' else (c - b'a') + 10 in
    if leb b'0' c && (leb c b'9' || leb b'a' c) && ltb v base then some v else none

-- The number at the front of a text, and what is behind it.
unfoldable pub read_number : ℕ → ℕ → Text → ℕ × Text
read_number base acc [] = (acc, [])
read_number base acc (c ∷ text) = elim (digit_value base c) [
  | none ↦ (acc, c ∷ text)
  | some v ↦ read_number base (acc * base + v) text
]

digit_value-digit : (base d : ℕ) → base ≤ 16 → d < base → digit_value base (digit d) ≡ some d
unfolding digit_value digit
digit_value-digit base d small h = ground arith

zero_value : (base : ℕ) → 2 ≤ base → digit_value base b'0' ≡ some 0
unfolding digit_value
zero_value base two = ground arith

module _ (base : ℕ) (two : 2 ≤ base) (small : base ≤ 16) where
  read_digit :
      (acc d : ℕ) (rest : Text)
      → d < base
      → read_number base acc (digit d ∷ rest) ≡ read_number base (acc * base + d) rest
  unfolding read_number
  read_digit acc d rest h = rw (digit_value-digit base d small h, read_number) refl

  not_less : (n : ℕ) → ltb n base ≡ false → base ≤ n
  not_less n h = ground arith

  smaller : (n fuel : ℕ) → base ≤ n → n < suc fuel → n / base < fuel
  smaller n fuel b h =
      let less : n / base < n = div-lt_self (omega arith) (omega arith) in omega arith

  -- With fuel above the number, its digits are read as the number.
  pub read_number-digits :
      (fuel n : ℕ) (rest : Text)
      → n < fuel
      → read_number base 0 (digits base fuel n ++ rest) ≡ read_number base n rest
  unfolding digits
  read_number-digits zero n rest h = absurd (omega arith)
  read_number-digits (suc fuel) n rest h = elim (Bool-cases (ltb n base)) [
    | inl last ↦
        let same : 0 * base + n ≡ n = omega arith in
        rw last (read_digit 0 n rest (ltb→lt n base last) ∙ ap (λ m. read_number base m rest) same)
    | inr more ↦
        let d : ℕ = digit (n % base) in
        let less : n / base < fuel = smaller n fuel (not_less n more) h in
        rw more (
          ap (read_number base 0) (append_assoc (digits base fuel (n / base)) (d ∷ []) rest)
          ∙ (read_number-digits fuel (n / base) (d ∷ rest) less
              ∙ (read_digit (n / base) (n % base) rest (mod-lt n {m = base} (omega arith))
                  ∙ ap (λ m. read_number base m rest) (div-add-mod' n base))))
  ]

read_zeros :
    (base k : ℕ) (text : Text)
    → 2 ≤ base
    → read_number base 0 (replicate k b'0' ++ text) ≡ read_number base 0 text
unfolding read_number
read_zeros base zero text two = refl
read_zeros base (suc k) text two =
    let zero_digit : digit_value base b'0' ≡ some 0 = zero_value base two in
    let same : 0 * base + 0 ≡ 0 = omega arith in
    rw (zero_digit, read_number)
      (ap (λ m. read_number base m (replicate k b'0' ++ text)) same ∙ read_zeros base k text two)

-- Numbers in decimal and, padded or not, in hexadecimal are read back as far as the digits go.
pub read_number-dec :
    (n : ℕ) (rest : Text) → read_number 10 0 (dec n ++ rest) ≡ read_number 10 n rest
unfolding dec
read_number-dec n rest =
    read_number-digits 10 (omega arith) (omega arith) (suc n) n rest (omega arith)

pub read_number-hex_padded :
    (width n : ℕ) (rest : Text)
    → read_number 16 0 (hex_padded width n ++ rest) ≡ read_number 16 n rest
unfolding hex_padded hex
read_number-hex_padded width n rest =
    let text : Text = digits 16 (suc n) n in
    ap (read_number 16 0) (append_assoc (replicate (width - length text) b'0') text rest)
    ∙ (read_zeros 16 (width - length text) (text ++ rest) (omega arith)
        ∙ read_number-digits 16 (omega arith) (omega arith) (suc n) n rest (omega arith))
