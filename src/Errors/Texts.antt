-- ===== src/Errors/Texts.antt =====
-- On the texts of the errors of errors.rs.
use Prim.Native.String.{String}
use text.Mathlib.Text.{◌==◌ as str_eq}
use boltdb_rs.Base.{
  ◌≡◌, refl, ap, Bool, true, false, Option, none, some, List, [], ◌∷◌, if◌then◌else◌,
}
use boltdb_rs.Errors.{BoltError, display}

-- The errors without a text of their own.
abbrev pub plain_errors : List BoltError
plain_errors =
    BoltError.resize_fail ∷ BoltError.tx_managed ∷ BoltError.stack_empty
    ∷ BoltError.database_not_open ∷ BoltError.invalid ∷ BoltError.invalid_mapping
    ∷ BoltError.version_mismatch ∷ BoltError.checksum ∷ BoltError.timeout
    ∷ BoltError.tx_not_writable ∷ BoltError.tx_closed ∷ BoltError.database_read_only
    ∷ BoltError.free_pages_not_loaded ∷ BoltError.bucket_not_found ∷ BoltError.bucket_exists
    ∷ BoltError.bucket_name_required ∷ BoltError.key_required ∷ BoltError.key_too_large
    ∷ BoltError.value_too_large ∷ BoltError.incompatible_value ∷ BoltError.same_buckets
    ∷ BoltError.different_db ∷ []

abbrev pub is_plain : BoltError → Bool
is_plain (BoltError.config text) = false
is_plain (BoltError.io text) = false
is_plain (BoltError.check_failed text) = false
is_plain (BoltError.unexpected text) = false
is_plain _ = true

-- The first of some errors with a text.
find_error : String → List BoltError → Option BoltError
find_error text [] = none
find_error text (e ∷ es) = if str_eq (display e) text then some e else find_error text es

find_error-display :
    (e : BoltError) → is_plain e ≡ true → find_error (display e) plain_errors ≡ some e
unfolding find_error display
find_error-display (BoltError.config text) h = cc
find_error-display (BoltError.io text) h = cc
find_error-display BoltError.resize_fail h = refl
find_error-display BoltError.tx_managed h = refl
find_error-display BoltError.stack_empty h = refl
find_error-display (BoltError.check_failed text) h = cc
find_error-display (BoltError.unexpected text) h = cc
find_error-display BoltError.database_not_open h = refl
find_error-display BoltError.invalid h = refl
find_error-display BoltError.invalid_mapping h = refl
find_error-display BoltError.version_mismatch h = refl
find_error-display BoltError.checksum h = refl
find_error-display BoltError.timeout h = refl
find_error-display BoltError.tx_not_writable h = refl
find_error-display BoltError.tx_closed h = refl
find_error-display BoltError.database_read_only h = refl
find_error-display BoltError.free_pages_not_loaded h = refl
find_error-display BoltError.bucket_not_found h = refl
find_error-display BoltError.bucket_exists h = refl
find_error-display BoltError.bucket_name_required h = refl
find_error-display BoltError.key_required h = refl
find_error-display BoltError.key_too_large h = refl
find_error-display BoltError.value_too_large h = refl
find_error-display BoltError.incompatible_value h = refl
find_error-display BoltError.same_buckets h = refl
find_error-display BoltError.different_db h = refl

-- Two errors that carry no text of their own and are shown by the same text are the same.
display-injective :
    (a b : BoltError) → is_plain a ≡ true → is_plain b ≡ true → display a ≡ display b → a ≡ b
display-injective a b h k same =
    cc (find_error-display a h, find_error-display b k, ap (λ t. find_error t plain_errors) same)
