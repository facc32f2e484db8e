-- ===== src/Page/Show.antt =====
-- common/page.rs: the texts of flags and pages. The crate `bitflags` shows flags in hexadecimal by
-- their bits.
use boltdb_rs.Base.{
  ℕ, zero, suc, ◌/◌, ◌%◌, ◌≡◌, inl, inr, refl, Bool-cases, List, [], ◌∷◌, ◌++◌, arith, ltb,
}
use boltdb_rs.Flags.{Bitflags}
use boltdb_rs.Page.{Page, PageType, branch, leaf, meta, freelist, unknown, typ}
use boltdb_rs.Text.{Text, codes, Piece, lit, num, word, format, digit, digits, hex}
use boltdb_rs.Text.Digits.{digit_value}
use boltdb_rs.Text.Scan.{
  Value, number_value, word_value, shapes, values, scan, scan-format, NoComma,
}

-- `Display` of `PageFlags`.
unfoldable pub flags_text : ℕ → Text
flags_text flags = hex flags

-- The text that `Page::typ` returns.
unfoldable pub typ_text : PageType → Text
unfolding flags_text
typ_text branch = codes "branch"
typ_text leaf = codes "leaf"
typ_text meta = codes "meta"
typ_text freelist = codes "freelist"
typ_text (unknown flags) = codes "unknown<" ++ flags_text flags ++ codes ">"

abbrev pub page_fields : ℕ → Text → ℕ → ℕ → List Piece
page_fields id typ count overflow =
    lit "ID: "
    ∷ num id
    ∷ lit ", Type: "
    ∷ word typ
    ∷ lit ", count: "
    ∷ num count
    ∷ lit ", overflow: "
    ∷ num overflow
    ∷ []

abbrev pub braced : List Piece → List Piece
braced fields = lit "{ " ∷ (fields ++ lit " }" ∷ [])

module _ ⦃b : Bitflags⦄ where
  unfoldable pub to_string : Page → Text
  unfolding typ_text
  to_string p = format (page_fields p.id (typ_text (typ p)) p.count p.overflow)

  -- `Display` of `Page`.
  unfoldable pub display : Page → Text
  unfolding typ_text
  display p = format (braced (page_fields p.id (typ_text (typ p)) p.count p.overflow))

NoComma-append : (s t : Text) → NoComma s → NoComma t → NoComma (s ++ t)
NoComma-append [] t a c = c
NoComma-append (x ∷ s) t a c = (a.0, NoComma-append s t a.1 c)

NoComma-digits : (fuel n : ℕ) → NoComma (digits 16 fuel n)
unfolding digits digit
NoComma-digits zero n = tt
NoComma-digits (suc fuel) n = elim (Bool-cases (ltb n 16)) [
  | inl last ↦ rw last (ground arith, tt)
  | inr more ↦ rw more (
      NoComma-append (digits 16 fuel (n / 16)) (digit (n % 16) ∷ []) (NoComma-digits fuel (n / 16))
        (ground arith, tt))
]

typ_text-NoComma : (t : PageType) → NoComma (typ_text t)
unfolding typ_text flags_text hex
typ_text-NoComma branch = ground arith
typ_text-NoComma leaf = ground arith
typ_text-NoComma meta = ground arith
typ_text-NoComma freelist = ground arith
typ_text-NoComma (unknown flags) =
    NoComma-append (codes "unknown<" ++ digits 16 (suc flags) flags) (codes ">")
      (NoComma-append (codes "unknown<") (digits 16 (suc flags) flags) (ground arith)
        (NoComma-digits (suc flags) flags))
      (ground arith)

abbrev pub page_values : ℕ → Text → ℕ → ℕ → List Value
page_values id typ count overflow =
    number_value id ∷ word_value typ ∷ number_value count ∷ number_value overflow ∷ []

module _ ⦃b : Bitflags⦄ (p : Page) where
  -- The two texts of a page give back, at the places of their templates, the page's id, the text
  -- of its type, its count and its overflow; so two pages with one text agree in all four.
  pub scan-to_string :
      (scan (shapes (page_fields 0 [] 0 0)) (to_string p)
        ≡ page_values p.id (typ_text (typ p)) p.count p.overflow)
      × (scan (shapes (braced (page_fields 0 [] 0 0))) (display p)
          ≡ page_values p.id (typ_text (typ p)) p.count p.overflow)
  unfolding to_string display shapes values format digit_value
  scan-to_string =
      let fields : List Piece = page_fields p.id (typ_text (typ p)) p.count p.overflow in
      (
        scan-format fields (refl, (typ_text-NoComma (typ p), refl, (refl, (tt, tt)))),
        scan-format (braced fields) (refl, (typ_text-NoComma (typ p), refl, (refl, (refl, tt)))),
      )
