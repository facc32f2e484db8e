-- ===== src/Storage/Keeping.antt =====
-- What each store into the body or the header of a page keeps.
use boltdb_rs.Base.{
  ℕ, ◌*◌, ◌^◌, ◌<◌, ◌≡◌, ◌∙◌, List, [], ◌∷◌, arith, ok, bind-eq-ok, length, subst, le_bytes, Build,
}
use boltdb_rs.InBucket
use boltdb_rs.Memory.{write}
use boltdb_rs.Memory.Bytes.{AreBytes, AreBytes-append, AreBytes-le_bytes, AreBytes-write}
use boltdb_rs.Page.{Page, bytes, set_id, set_flags, set_count, set_overflow}
use boltdb_rs.Page.Layout.{length-bytes}
use boltdb_rs.Page.Typing.{IsWellFormed, AreBytes-bytes, from_slice-IsWellFormed}
use boltdb_rs.Page.Elements.{
  LeafPageElement, BranchPageElement, encode_leaf, encode_branch, set_leaf_page_element,
  set_branch_page_element,
}
use boltdb_rs.Page.Size.{set_byte}
use boltdb_rs.Meta
use boltdb_rs.Meta.{
  Meta, Hasher, as_slice_no_checksum, copy, set_meta, set_checksum, sum64, write_meta,
}
use boltdb_rs.Storage.Puts.{put, set_leaf-put, set_branch-put, set_byte-put}

-- A well-formed page at an address, with a body of a length.
pub record Kept (addr n : ℕ) (p : Page) : Type 0 where
  pub well_formed : IsWellFormed p
  pub same_addr : p.addr ≡ addr
  pub same_length : length p.body ≡ n

AreBytes-encode_leaf : (e : LeafPageElement) → AreBytes (encode_leaf e)
unfolding encode_leaf
AreBytes-encode_leaf e = AreBytes-append (le_bytes 4 e.flags) _ (AreBytes-le_bytes 4 e.flags) (
    AreBytes-append (le_bytes 4 e.pos) _ (AreBytes-le_bytes 4 e.pos) (
      AreBytes-append (le_bytes 4 e.ksize) _ (AreBytes-le_bytes 4 e.ksize)
        (AreBytes-le_bytes 4 e.vsize)))

AreBytes-encode_branch : (e : BranchPageElement) → AreBytes (encode_branch e)
unfolding encode_branch
AreBytes-encode_branch e = AreBytes-append (le_bytes 4 e.pos) _ (AreBytes-le_bytes 4 e.pos) (
    AreBytes-append (le_bytes 4 e.ksize) _ (AreBytes-le_bytes 4 e.ksize)
      (AreBytes-le_bytes 8 e.pgid))

AreBytes-meta : (m : Meta) → AreBytes (Meta.as_slice m)
unfolding Meta.as_slice as_slice_no_checksum InBucket.encode le_bytes
AreBytes-meta m = omega arith

module _ (addr n : ℕ) where
  put_body-Kept :
      (p q : Page) (off : ℕ) (bs : List ℕ)
      → AreBytes bs
      → put p off bs ≡ ok q
      → Kept addr n p
      → Kept addr n q
  put_body-Kept p q off bs v h k =
      let (body, run, same) =
        bind-eq-ok (λ (b : List ℕ). ok (record p { body = b })) (write p.body off bs) h in
      let (are, long) = AreBytes-write p.body off bs body k.well_formed.are_bytes v run in
      let same' : record p { body = body } ≡ q = cc in
      subst (Kept addr n) same' (ground (arith, are, long))

  -- A header field in its range.
  pub set_id-Kept : (v : ℕ) (p : Page) → v < 2 ^ 64 → Kept addr n p → Kept addr n (set_id v p)
  unfolding set_id
  set_id-Kept v p h k = ground arith

  pub set_flags-Kept : (v : ℕ) (p : Page) → v < 2 ^ 16 → Kept addr n p → Kept addr n (set_flags v p)
  unfolding set_flags
  set_flags-Kept v p h k = ground arith

  pub set_count-Kept : (v : ℕ) (p : Page) → v < 2 ^ 16 → Kept addr n p → Kept addr n (set_count v p)
  unfolding set_count
  set_count-Kept v p h k = ground arith

  pub set_overflow-Kept :
      (v : ℕ) (p : Page) → v < 2 ^ 32 → Kept addr n p → Kept addr n (set_overflow v p)
  unfolding set_overflow
  set_overflow-Kept v p h k = ground arith

  pub set_leaf-Kept :
      (i : ℕ) (e : LeafPageElement) (p q : Page)
      → set_leaf_page_element i e p ≡ ok q
      → Kept addr n p
      → Kept addr n q
  set_leaf-Kept i e p q h =
      put_body-Kept p q (i * 16) (encode_leaf e) (AreBytes-encode_leaf e) (set_leaf-put i e p q h)

  pub set_branch-Kept :
      (i : ℕ) (e : BranchPageElement) (p q : Page)
      → set_branch_page_element i e p ≡ ok q
      → Kept addr n p
      → Kept addr n q
  set_branch-Kept i e p q h =
      put_body-Kept p q (i * 16) (encode_branch e) (AreBytes-encode_branch e)
        (set_branch-put i e p q h)

  pub put_id-Kept :
      (i v : ℕ) (p q : Page) → put p (i * 8) (le_bytes 8 v) ≡ ok q → Kept addr n p → Kept addr n q
  put_id-Kept i v p q = put_body-Kept p q (i * 8) (le_bytes 8 v) (AreBytes-le_bytes 8 v)

  pub put_meta-Kept :
      (m : Meta) (p q : Page) → put p 0 (Meta.as_slice m) ≡ ok q → Kept addr n p → Kept addr n q
  put_meta-Kept m p q = put_body-Kept p q 0 (Meta.as_slice m) (AreBytes-meta m)

  pub set_byte-Kept :
      (build : Build) (i v : ℕ) (p q : Page)
      → v < 256
      → set_byte build i v p ≡ ok q
      → Kept addr n p
      → Kept addr n q
  set_byte-Kept build i v p q small h k =
      let (buffer, run, seen) = set_byte-put build i v p q h in
      let (are, long) =
        AreBytes-write (bytes p) i (v ∷ []) buffer (AreBytes-bytes p k.well_formed.are_bytes)
          (small, tt) run in
      let (well, same, room) = from_slice-IsWellFormed p.addr buffer q are seen in
      record {
        well_formed = well;
        same_addr = same ∙ k.same_addr;
        same_length = omega (arith, k.same_length, length-bytes p, long, room);
      }
