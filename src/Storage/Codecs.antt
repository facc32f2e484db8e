-- ===== src/Storage/Codecs.antt =====
-- Bytes that are loaded from a page and put back: decoding a struct and encoding it again.
use boltdb_rs.Base.{
  ℕ, ◌≡◌, ok, List, take, drop, from_le, zero, suc, ◌+◌, ◌≤◌, refl, sym, ap, ◌∙◌, [], ◌∷◌, ◌++◌,
  arith, length, length-take, length-drop, le_bytes, take-take, drop-take, drop-drop, ap₂,
}
use boltdb_rs.InBucket
use mathlib.Core.List.{append-nil}
use boltdb_rs.Memory.{splice, write-eq-ok}
use boltdb_rs.Memory.Words.{words, words_at, sum, words-words_at, take-append-drop}
use boltdb_rs.Storage.Puts.{put}
use boltdb_rs.Storage.Tables.{as_slice-words, checked_words}
use boltdb_rs.InBucket.{InBucket}
use boltdb_rs.Page.Elements.{encode_leaf, decode_leaf, encode_branch, decode_branch}
use boltdb_rs.Meta
use boltdb_rs.Meta.{as_slice_no_checksum, set_meta}
use boltdb_rs.Memory.Bytes.{AreBytes}
use boltdb_rs.Page.{Page}
use boltdb_rs.Page.Elements.{}
use boltdb_rs.Meta.{Meta, meta, decode}

-- A range of bytes put where it stands changes nothing.
splice_self {ℓ} :
    {A : Type ℓ} (xs : List A) (off n : ℕ)
    → off + n ≤ length xs
    → splice xs off (take n (drop off xs)) ≡ xs
unfolding splice
splice_self xs zero n h =
    let e : length (take n xs) ≡ n = omega (arith, length-take n xs) in
    ap (λ k. take n xs ++ drop k xs) e ∙ take-append-drop n xs
splice_self [] (suc off) n h = absurd (omega arith)
splice_self (x ∷ xs) (suc off) n h = ap (◌∷◌ x) (splice_self xs off n (omega arith))

pub put_self :
    (p : Page) (off n : ℕ) (bs : List ℕ)
    → off + n ≤ length p.body
    → bs ≡ take n (drop off p.body)
    → put p off bs ≡ ok p
put_self p off n bs h e =
    let e' : length bs ≡ n =
      ap length e ∙ omega (arith, length-take n (drop off p.body), length-drop off p.body) in
    rw (write-eq-ok p.body off bs (omega (arith, e')))
      (ap (λ b. ok (record p { body = b })) (ap (splice p.body off) e ∙ splice_self p.body off n h))

drop-beyond {ℓ} : {A : Type ℓ} (n : ℕ) (xs : List A) → length xs ≤ n → drop n xs ≡ []
drop-beyond zero [] h = refl
drop-beyond zero (x ∷ xs) h = absurd (omega arith)
drop-beyond (suc n) [] h = refl
drop-beyond (suc n) (x ∷ xs) h = drop-beyond n xs (omega arith)

-- The bytes of a record that is decoded from bytes.
table_back :
    (ws : List ℕ) (bs : List ℕ) → AreBytes bs → length bs ≡ sum ws → words (words_at ws 0 bs) ≡ bs
table_back ws bs v e =
    let whole = words-words_at ws 0 bs v (omega arith) in
    let nothing : drop (0 + sum ws) bs ≡ [] = drop-beyond (0 + sum ws) bs (omega arith) in
    sym (append-nil (words (words_at ws 0 bs)))
    ∙ (ap (λ t. words (words_at ws 0 bs) ++ t) (sym nothing) ∙ whole)

pub encode_leaf-decode_leaf :
    (bs : List ℕ) → AreBytes bs → length bs ≡ 16 → encode_leaf (decode_leaf bs) ≡ bs
unfolding encode_leaf decode_leaf le_bytes
encode_leaf-decode_leaf bs v e = table_back (4 ∷ 4 ∷ 4 ∷ 4 ∷ []) bs v e

pub encode_branch-decode_branch :
    (bs : List ℕ) → AreBytes bs → length bs ≡ 16 → encode_branch (decode_branch bs) ≡ bs
unfolding encode_branch decode_branch le_bytes
encode_branch-decode_branch bs v e = table_back (4 ∷ 4 ∷ 8 ∷ []) bs v e

abbrev header_at : List ℕ → InBucket
header_at bs = record {
  root = from_le (take 8 (drop 16 bs));
  sequence = from_le (take 8 (drop 24 bs));
}

decode-header_at : (bs : List ℕ) → InBucket.decode (take 16 (drop 16 bs)) ≡ header_at bs
unfolding InBucket.decode
decode-header_at bs =
    ap₂ (λ r s. record { root = r; sequence = s })
      (ap from_le (take-take 8 16 (drop 16 bs) (omega arith)))
      (ap (λ t. from_le (take 8 t)) (drop-take 8 16 8 (drop 16 bs) refl)
        ∙ (ap from_le (take-take 8 8 (drop 8 (drop 16 bs)) (omega arith))
            ∙ ap (λ t. from_le (take 8 t)) (drop-drop 16 8 24 bs refl)))

pub as_slice-decode : (bs : List ℕ) → AreBytes bs → length bs ≡ 64 → Meta.as_slice (decode bs) ≡ bs
unfolding decode
as_slice-decode bs v e =
    as_slice-words (decode bs)
    ∙ (ap
          (λ (r : InBucket).
            words (checked_words (decode bs).checksum (record (decode bs) { root = r })))
          (decode-header_at bs)
        ∙ table_back (4 ∷ 4 ∷ 4 ∷ 4 ∷ 8 ∷ 8 ∷ 8 ∷ 8 ∷ 8 ∷ 8 ∷ []) bs v e)
