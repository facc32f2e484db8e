-- ===== src/Storage/Images.antt =====
-- What the stores do to the bytes of a page, by the layout of the structs in memory.
use boltdb_rs.Base.{
  ℕ, ◌+◌, ◌*◌, ◌%◌, ◌<◌, ◌≡◌, refl, sym, ap, ◌∙◌, List, [], ◌∷◌, ◌++◌, arith, ok, bind-eq-ok,
  le_bytes, subst,
}
use boltdb_rs.InBucket
use boltdb_rs.Flags.{Bitflags}
use boltdb_rs.Memory.{write, splice}
use boltdb_rs.Memory.Apart.{splice-append}
use boltdb_rs.Memory.Bytes.{AreBytes, AreBytes-write, stored}
use boltdb_rs.Memory.Words.{words, put_words, put_words-splice, words-words_at}
use boltdb_rs.Page.{Page, bytes, from_slice, set_id, set_flags, set_count, set_overflow}
use boltdb_rs.Page.Layout.{length-bytes}
use boltdb_rs.Page.Typing.{seen, from_slice-seen, AreBytes-bytes}
use boltdb_rs.Page.Elements.{encode_leaf, encode_branch}
use boltdb_rs.Meta
use boltdb_rs.Meta.{Meta, Hasher, as_slice_no_checksum, set_checksum, sum64}
use boltdb_rs.Storage.{
  Store, id, flags, count, overflow, leaf, branch, page_id, free_id, byte, meta, written, Stores,
  start, next,
}
use boltdb_rs.Storage.Puts.{
  put, set_leaf-put, set_branch-put, set_pg_id-put, set_free_list-put, set_meta-put, set_byte-put,
  write_meta-put,
}
use boltdb_rs.Storage.Tables.{
  leaf_words, branch_words, meta_words, checked_words, encode_leaf-words, encode_branch-words,
  id-words, as_slice-words,
}

-- The page that is seen in bytes is made of them.
pub bytes-from_slice :
    (addr : ℕ) (buffer : List ℕ) (p : Page)
    → AreBytes buffer
    → from_slice addr buffer ≡ ok p
    → bytes p ≡ buffer
unfolding bytes le_bytes
bytes-from_slice addr buffer p v e =
    let (same, aligned, room) = from_slice-seen addr buffer p e in
    ap bytes (sym same) ∙ words-words_at (8 ∷ 2 ∷ 2 ∷ 4 ∷ []) 0 buffer v room

abbrev header : Page → List ℕ
header p = le_bytes 8 p.id ++ (le_bytes 2 p.flags ++ (le_bytes 2 p.count ++ le_bytes 4 p.overflow))

-- A splice behind the header.
bytes-splice :
    (p : Page) (off : ℕ) (bs : List ℕ)
    → bytes (record p { body = splice p.body off bs }) ≡ splice (bytes p) (16 + off) bs
unfolding bytes le_bytes
bytes-splice p off bs = sym (splice-append (header p) p.body off (16 + off) bs refl)

-- Words put behind the header.
put-words :
    (p q : Page) (off : ℕ) (table : List (ℕ × ℕ))
    → put p off (words table) ≡ ok q
    → bytes q ≡ put_words (16 + off) table (bytes p)
put-words p q off table h =
    let (body, run, same) =
      bind-eq-ok (λ (b : List ℕ). ok (record p { body = b })) (write p.body off (words table)) h in
    let (spliced, fits) = stored p.body off (words table) body run in
    let there : record p { body = splice p.body off (words table) } ≡ q =
      ap (λ b. record p { body = b }) spliced ∙ cc in
    ap bytes (sym there)
    ∙ (bytes-splice p off (words table)
        ∙ sym (put_words-splice (16 + off) table (bytes p) (omega (arith, fits, length-bytes p))))

module _ ⦃b : Bitflags⦄ ⦃h : Hasher⦄ where
  -- What a store puts into the bytes of a page: tables of words, each at its offset. The header's
  -- fields lie at 0, 8, 10 and 12, and the data begin at 16.
  abbrev pub blocks : {p q : Page} → Store p q → List (ℕ × List (ℕ × ℕ))
  blocks (id v p _) = (0, (8, v) ∷ []) ∷ []
  blocks (flags v p _) = (8, (2, v) ∷ []) ∷ []
  blocks (count v p _) = (10, (2, v) ∷ []) ∷ []
  blocks (overflow v p _) = (12, (4, v) ∷ []) ∷ []
  blocks (leaf i e _ _) = (16 + i * 16, leaf_words e) ∷ []
  blocks (branch i e _ _) = (16 + i * 16, branch_words e) ∷ []
  blocks (page_id i v _ _) = (16 + i * 8, (8, v) ∷ []) ∷ []
  blocks (free_id i v _ _) = (16 + i * 8, (8, v) ∷ []) ∷ []
  blocks (byte build i v _ _) = (i, (1, v) ∷ []) ∷ []
  blocks (meta m _ _) = (16, checked_words m.checksum m) ∷ []
  blocks (written m m' _ _) =
      (0, (8, m.txid % 2) ∷ [])
      ∷ (8, (2, 4) ∷ [])
      ∷ (16, checked_words (h.hash (words (meta_words m))) m)
      ∷ []

  abbrev pub put_blocks : List (ℕ × List (ℕ × ℕ)) → List ℕ → List ℕ
  put_blocks [] buffer = buffer
  put_blocks ((off, table) ∷ rest) buffer = put_blocks rest (put_words off table buffer)

  set_id-image : (v : ℕ) (p : Page) → bytes (set_id v p) ≡ put_words 0 ((8, v) ∷ []) (bytes p)
  unfolding bytes set_id le_bytes splice
  set_id-image v p = refl

  set_flags-image : (v : ℕ) (p : Page) → bytes (set_flags v p) ≡ put_words 8 ((2, v) ∷ []) (bytes p)
  unfolding bytes set_flags le_bytes splice
  set_flags-image v p = refl

  set_count-image :
      (v : ℕ) (p : Page) → bytes (set_count v p) ≡ put_words 10 ((2, v) ∷ []) (bytes p)
  unfolding bytes set_count le_bytes splice
  set_count-image v p = refl

  set_overflow-image :
      (v : ℕ) (p : Page) → bytes (set_overflow v p) ≡ put_words 12 ((4, v) ∷ []) (bytes p)
  unfolding bytes set_overflow le_bytes splice
  set_overflow-image v p = refl

  sealed-words :
      (m : Meta)
      → Meta.as_slice (set_checksum (sum64 m) m)
        ≡ words (checked_words (h.hash (words (meta_words m))) m)
  unfolding Meta.as_slice as_slice_no_checksum InBucket.encode le_bytes set_checksum sum64
  sealed-words m = refl

  -- Bytes that are the words of a table, put behind the header.
  put-image :
      (p q : Page) (off : ℕ) (bs : List ℕ) (table : List (ℕ × ℕ))
      → bs ≡ words table
      → put p off bs ≡ ok q
      → bytes q ≡ put_words (16 + off) table (bytes p)
  put-image p q off bs table e run =
      put-words p q off table (subst (λ xs. put p off xs ≡ ok q) e run)

  set_byte-image :
      (v i : ℕ) (p q : Page) (buffer : List ℕ)
      → v < 256
      → AreBytes (bytes p)
      → write (bytes p) i (v ∷ []) ≡ ok buffer
      → from_slice p.addr buffer ≡ ok q
      → bytes q ≡ put_words i ((1, v) ∷ []) (bytes p)
  unfolding le_bytes
  set_byte-image v i p q buffer small w run seen =
      let (are, long) = AreBytes-write (bytes p) i (v ∷ []) buffer w (small, tt) run in
      let (spliced, fits) = stored (bytes p) i (v ∷ []) buffer run in
      let same : v ≡ v % 256 = omega arith in
      bytes-from_slice p.addr buffer q are seen
      ∙ (sym spliced ∙ ap (λ x. splice (bytes p) i (x ∷ [])) same)

  -- A store puts its blocks.
  pub Store-image :
      {p q : Page} (s : Store p q) → AreBytes p.body → bytes q ≡ put_blocks (blocks s) (bytes p)
  Store-image (id v p _) w = set_id-image v p
  Store-image (flags v p _) w = set_flags-image v p
  Store-image (count v p _) w = set_count-image v p
  Store-image (overflow v p _) w = set_overflow-image v p
  Store-image (leaf i e {p} {q} _ run) w =
      put-image p q (i * 16) (encode_leaf e) (leaf_words e) (encode_leaf-words e)
        (set_leaf-put i e p q run)
  Store-image (branch i e {p} {q} _ run) w =
      put-image p q (i * 16) (encode_branch e) (branch_words e) (encode_branch-words e)
        (set_branch-put i e p q run)
  Store-image (page_id i v {p} {q} _ run) w =
      put-image p q (i * 8) (le_bytes 8 v) ((8, v) ∷ []) (id-words v) (set_pg_id-put i v p q run)
  Store-image (free_id i v {p} {q} _ run) w =
      put-image p q (i * 8) (le_bytes 8 v) ((8, v) ∷ []) (id-words v)
        (set_free_list-put i v p q run)
  Store-image (byte build i v {p} {q} small run) w =
      let (buffer, wrote, seen) = set_byte-put build i v p q run in
      set_byte-image v i p q buffer small (AreBytes-bytes p w) wrote seen
  Store-image (meta m {p} {q} _ run) w =
      put-image p q 0 (Meta.as_slice m) (checked_words m.checksum m) (as_slice-words m)
        (set_meta-put m p q run)
  Store-image (written m m' {p} {q} _ run) w =
      let r : Page = set_flags 4 (set_id (m.txid % 2) p) in
      let table = checked_words (h.hash (words (meta_words m))) m in
      put-image r q 0 (Meta.as_slice (set_checksum (sum64 m) m)) table (sealed-words m)
        (write_meta-put m m' p q run)
      ∙ ap (put_words 16 table) (
          set_flags-image 4 (set_id (m.txid % 2) p)
          ∙ ap (put_words 8 ((2, 4) ∷ [])) (set_id-image (m.txid % 2) p))

  -- A buffer after the blocks of all stores, in their order.
  abbrev pub image : {p q : Page} → Stores p q → List ℕ → List ℕ
  image start buffer = buffer
  image (next stores store) buffer = put_blocks (blocks store) (image stores buffer)
