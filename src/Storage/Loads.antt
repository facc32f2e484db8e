-- ===== src/Storage/Loads.antt =====
-- Loads from a page over bytes, and the stores of what they gave.
use boltdb_rs.Base.{
  ℕ, ◌<◌, ◌≡◌, ok, bind-eq-ok, List, out_of_bounds, subst, take, drop, from_le, ◌+◌, ◌*◌, ◌≤◌, refl,
  sym, ap, ◌∙◌, arith, length, length-take, Bool, true, false, fault, ltb→lt, length-drop, le_bytes,
  ltb, if◌then◌else◌, Res,
}
use boltdb_rs.InBucket
use boltdb_rs.Memory.Words.{le_bytes-from_le}
use boltdb_rs.InBucket.{InBucket}
use boltdb_rs.Page.Elements.{
  encode_leaf, encode_branch, leaf_page_elements, branch_page_elements, set_leaf_page_element,
  set_branch_page_element,
}
use boltdb_rs.Page.Freelist.{set_pg_id}
use boltdb_rs.Page.Load.{HasElements, branch_at, element_lem, branch_page_element_lem}
use boltdb_rs.Page.Access.{leaf_at, leaf_page_element_lem}
use boltdb_rs.Page.Copies.{read_pgids_lem}
use boltdb_rs.Page.Arrays.Kinds.{HasIds, set_leaf_lem, set_branch_lem, set_pg_id_lem}
use boltdb_rs.Meta
use boltdb_rs.Meta.{as_slice_no_checksum, set_meta}
use boltdb_rs.Memory.{read}
use boltdb_rs.Memory.Bytes.{AreBytes, AreBytes-take, AreBytes-drop, AreBytes-read, from_le-take_lt}
use boltdb_rs.Page.{Page}
use boltdb_rs.Page.Elements.{
  LeafPageElement, BranchPageElement, leaf_page_element, branch_page_element,
}
use boltdb_rs.Page.Freelist.{pgid, pg_ids, read_pgids}
use boltdb_rs.Page.Typing.{field_lt}
use boltdb_rs.Meta.{Meta, meta, decode}
use boltdb_rs.Meta.Layout.{IsMeta}
use boltdb_rs.Storage.Codecs.{
  put_self, encode_leaf-decode_leaf, encode_branch-decode_branch, as_slice-decode,
}

decode-IsMeta : (bs : List ℕ) → AreBytes bs → IsMeta (decode bs)
unfolding decode InBucket.decode
decode-IsMeta bs v =
    let root : AreBytes (take 16 (drop 16 bs)) =
      AreBytes-take 16 (drop 16 bs) (AreBytes-drop 16 bs v) in
    record {
      magic_fits = from_le-take_lt 4 bs v;
      version_fits = field_lt 4 4 bs v;
      page_size_fits = field_lt 4 8 bs v;
      flags_fit = field_lt 4 12 bs v;
      root_fits = from_le-take_lt 8 (take 16 (drop 16 bs)) root;
      sequence_fits = field_lt 8 8 (take 16 (drop 16 bs)) root;
      freelist_fits = field_lt 8 32 bs v;
      pgid_fits = field_lt 8 40 bs v;
      txid_fits = field_lt 8 48 bs v;
      checksum_fits = field_lt 8 56 bs v;
    }

pub meta-IsMeta : (p : Page) (m : Meta) → AreBytes p.body → meta p ≡ ok m → IsMeta m
unfolding meta
meta-IsMeta p m v h =
    let (bs, run, same) = bind-eq-ok (λ (xs : List ℕ). ok (decode xs)) (read p.body 0 64) h in
    let same' : decode bs ≡ m = cc in
    subst IsMeta same' (decode-IsMeta bs (AreBytes-read p.body 0 64 bs v run))

leaf_fits : (i : ℕ) (e : LeafPageElement) (p : Page) → leaf_page_element i p ≡ ok e → HasElements p
unfolding leaf_page_element leaf_page_elements read
leaf_fits i e p h = ground arith

branch_fits :
    (i : ℕ) (e : BranchPageElement) (p : Page) → branch_page_element i p ≡ ok e → HasElements p
unfolding branch_page_element branch_page_elements read
branch_fits i e p h = ground arith

ids_fit : (i x : ℕ) (p : Page) → pgid i p ≡ ok x → HasIds p
unfolding pgid pg_ids read_pgids read
ids_fit i x p h = ground arith

-- A load that returned, of an element, a page id or the meta, and what it gave.
pub data Load (p : Page) : Type 0 where
  load_leaf : (i : ℕ) (e : LeafPageElement) → leaf_page_element i p ≡ ok e → Load p
  load_branch : (i : ℕ) (e : BranchPageElement) → branch_page_element i p ≡ ok e → Load p
  load_id : (i x : ℕ) → pgid i p ≡ ok x → Load p
  load_meta : (m : Meta) → meta p ≡ ok m → Load p

-- What was loaded, stored where it was.
abbrev pub store_back : {p : Page} → Load p → Res Page
store_back {p} (load_leaf i e _) = set_leaf_page_element i e p
store_back {p} (load_branch i e _) = set_branch_page_element i e p
store_back {p} (load_id i x _) = set_pg_id i x p
store_back {p} (load_meta m _) = set_meta m p

-- The bytes of record `i` of an array behind the header.
record_bytes :
    (p : Page) (size i : ℕ)
    → AreBytes p.body
    → p.count * size ≤ length p.body
    → i < p.count
    → (i * size + size ≤ length p.body)
      × AreBytes (take size (drop (i * size) p.body))
      × (length (take size (drop (i * size) p.body)) ≡ size)
record_bytes p size i v fits inside =
    let room : i * size + size ≤ length p.body = grind (arith, fits) in
    (
      room,
      AreBytes-take size _ (AreBytes-drop (i * size) p.body v),
      omega (arith, room, length-take size (drop (i * size) p.body), length-drop (i * size) p.body),
    )

came_from {ℓ} :
    {A : Type ℓ} (test : Bool) (x e : A)
    → (if test then ok x else fault out_of_bounds) ≡ ok e
    → (test ≡ true) × (x ≡ e)
came_from true x e h = (refl, cc)
came_from false x e h = cc

leaf_back :
    (i : ℕ) (e : LeafPageElement) (p : Page)
    → AreBytes p.body
    → leaf_page_element i p ≡ ok e
    → set_leaf_page_element i e p ≡ ok p
leaf_back i e p v load =
    let h = leaf_fits i e p load in
    let (inside, same) =
      came_from (ltb i p.count) (leaf_at i p) e (sym (leaf_page_element_lem i p h) ∙ load) in
    let (room, are, long) = record_bytes p 16 i v h (ltb→lt i p.count inside) in
    rw (set_leaf_lem i e p h, inside)
      (put_self p (i * 16) 16 (encode_leaf e) room
        (ap encode_leaf (sym same) ∙ encode_leaf-decode_leaf _ are long))

branch_back :
    (i : ℕ) (e : BranchPageElement) (p : Page)
    → AreBytes p.body
    → branch_page_element i p ≡ ok e
    → set_branch_page_element i e p ≡ ok p
branch_back i e p v load =
    let h = branch_fits i e p load in
    let (inside, same) =
      came_from (ltb i p.count) (branch_at i p) e (sym (branch_page_element_lem i p h) ∙ load) in
    let (room, are, long) = record_bytes p 16 i v h (ltb→lt i p.count inside) in
    rw (set_branch_lem i e p h, inside)
      (put_self p (i * 16) 16 (encode_branch e) room
        (ap encode_branch (sym same) ∙ encode_branch-decode_branch _ are long))

pgid_lem :
    (i : ℕ) (p : Page)
    → HasIds p
    → pgid i p
      ≡ (if ltb i p.count then ok (from_le (take 8 (drop (i * 8) p.body))) else fault out_of_bounds)
unfolding pgid pg_ids
pgid_lem i p h = rw (read_pgids_lem p h) (element_lem from_le 8 p i)

id_back : (i x : ℕ) (p : Page) → AreBytes p.body → pgid i p ≡ ok x → set_pg_id i x p ≡ ok p
id_back i x p v load =
    let h = ids_fit i x p load in
    let (inside, same) =
      came_from (ltb i p.count) (from_le (take 8 (drop (i * 8) p.body))) x
        (sym (pgid_lem i p h) ∙ load) in
    let (room, are, long) = record_bytes p 8 i v h (ltb→lt i p.count inside) in
    rw (set_pg_id_lem i x p h, inside)
      (put_self p (i * 8) 8 (le_bytes 8 x) room
        (ap (le_bytes 8) (sym same) ∙ le_bytes-from_le 8 _ are long))

meta_fits :
    (m : Meta) (p : Page) → meta p ≡ ok m → (64 ≤ length p.body) × (decode (take 64 p.body) ≡ m)
unfolding meta read
meta_fits m p h = ground arith

meta_back : (m : Meta) (p : Page) → AreBytes p.body → meta p ≡ ok m → set_meta m p ≡ ok p
unfolding set_meta
meta_back m p v load =
    let (room, same) = meta_fits m p load in
    put_self p 0 64 (Meta.as_slice m) room (
      ap Meta.as_slice (sym same)
      ∙ as_slice-decode (take 64 p.body) (AreBytes-take 64 p.body v)
          (omega (arith, room, length-take 64 p.body)))

-- Every element, page id or meta that is loaded from a page over bytes and stored where it was
-- leaves the page as it is.
pub Load-store_back : (p : Page) (load : Load p) → AreBytes p.body → store_back load ≡ ok p
Load-store_back p (load_leaf i e run) v = leaf_back i e p v run
Load-store_back p (load_branch i e run) v = branch_back i e p v run
Load-store_back p (load_id i x run) v = id_back i x p v run
Load-store_back p (load_meta m run) v = meta_back m p v run
