-- ===== src/Storage/Puts.antt =====
-- What each store into the body of a page comes to where it returns: bytes put at an offset.
use boltdb_rs.Base.{
  check, assertion, Res-cases, inl, inr, ◌%◌, ℕ, ◌*◌, ◌≡◌, List, [], ◌∷◌, arith, Res, ok, ◌>>=◌,
  bind-eq-ok, le_bytes, expect, out_of_bounds, get_elem?, Build,
}
use boltdb_rs.Memory.{write}
use boltdb_rs.Page.{Page, bytes, from_slice, set_id, set_flags, is_freelist_page}
use boltdb_rs.Page.Elements.{
  LeafPageElement, BranchPageElement, encode_leaf, encode_branch, leaf_page_element,
  branch_page_element, set_leaf_page_element, set_branch_page_element,
}
use boltdb_rs.Page.Freelist.{pg_ids, set_pg_id, set_free_list}
use boltdb_rs.Page.Size.{as_slice, set_byte}
use boltdb_rs.Meta
use boltdb_rs.Meta.{
  Meta, Hasher, as_slice_no_checksum, copy, set_meta, set_checksum, sum64, write_meta,
}
use boltdb_rs.Flags.{Bitflags}

abbrev pub put : Page → ℕ → List ℕ → Res Page
put p off bs = write p.body off bs >>= λ body. ok (record p { body = body })

-- A store of a byte into all bytes of a page.
abbrev pub seen_again : Page → ℕ → ℕ → Res Page
seen_again p i v = write (bytes p) i (v ∷ []) >>= from_slice p.addr

pub set_leaf-put :
    (i : ℕ) (e : LeafPageElement) (p q : Page)
    → set_leaf_page_element i e p ≡ ok q
    → put p (i * 16) (encode_leaf e) ≡ ok q
unfolding set_leaf_page_element
set_leaf-put i e p q h =
    let (old, run, rest) =
      bind-eq-ok (λ (x : LeafPageElement). put p (i * 16) (encode_leaf e)) (leaf_page_element i p)
        h in
    rest

pub set_branch-put :
    (i : ℕ) (e : BranchPageElement) (p q : Page)
    → set_branch_page_element i e p ≡ ok q
    → put p (i * 16) (encode_branch e) ≡ ok q
unfolding set_branch_page_element
set_branch-put i e p q h =
    let (old, run, rest) =
      bind-eq-ok (λ (x : BranchPageElement). put p (i * 16) (encode_branch e))
        (branch_page_element i p) h in
    rest

pub set_pg_id-put :
    (i v : ℕ) (p q : Page) → set_pg_id i v p ≡ ok q → put p (i * 8) (le_bytes 8 v) ≡ ok q
unfolding set_pg_id
set_pg_id-put i v p q h =
    let (ids, run, rest) =
      bind-eq-ok
        (λ (xs : List ℕ).
          expect out_of_bounds (get_elem? xs i) >>= λ x. put p (i * 8) (le_bytes 8 v))
        (pg_ids p) h in
    let (old, run', rest') =
      bind-eq-ok (λ (x : ℕ). put p (i * 8) (le_bytes 8 v)) (expect out_of_bounds (get_elem? ids i))
        rest in
    rest'

pub set_meta-put : (m : Meta) (p q : Page) → set_meta m p ≡ ok q → put p 0 (Meta.as_slice m) ≡ ok q
unfolding set_meta
set_meta-put m p q h = h

pub set_byte-put :
    (build : Build) (i v : ℕ) (p q : Page)
    → set_byte build i v p ≡ ok q
    → (buffer : List ℕ) × (write (bytes p) i (v ∷ []) ≡ ok buffer)
      × (from_slice p.addr buffer ≡ ok q)
unfolding set_byte
set_byte-put build i v p q h =
    let (slice, r0, h0) =
      bind-eq-ok (λ (xs : List ℕ). expect out_of_bounds (get_elem? xs i) >>= λ x. seen_again p i v)
        (as_slice build p) h in
    let (old, r1, h1) =
      bind-eq-ok (λ (x : ℕ). seen_again p i v) (expect out_of_bounds (get_elem? slice i)) h0 in
    bind-eq-ok (from_slice p.addr) (write (bytes p) i (v ∷ [])) h1

module _ ⦃b : Bitflags⦄ ⦃h : Hasher⦄ where
  pub set_free_list-put :
      (i v : ℕ) (p q : Page) → set_free_list i v p ≡ ok q → put p (i * 8) (le_bytes 8 v) ≡ ok q
  unfolding set_free_list
  set_free_list-put i v p q e =
      let (unit, run, rest) =
        bind-eq-ok (λ (x : Unit {0}). set_pg_id i v p) (check assertion (is_freelist_page p)) e in
      set_pg_id-put i v p q rest

  -- The page whose header says that it is the meta page, with the meta put into it.
  pub write_meta-put :
      (m m' : Meta) (p q : Page)
      → write_meta m p ≡ ok (m', q)
      → put (set_flags 4 (set_id (m.txid % 2) p)) 0 (Meta.as_slice (set_checksum (sum64 m) m))
        ≡ ok q
  unfolding write_meta copy
  write_meta-put m m' p q e =
      set_meta-put (set_checksum (sum64 m) m) (set_flags 4 (set_id (m.txid % 2) p)) q
        (elim (Res-cases
          (set_meta (set_checksum (sum64 m) m) (set_flags 4 (set_id (m.txid % 2) p)))) [
            | inl (r, run) ↦ ground arith
            | inr (f, run) ↦ ground arith
          ])
