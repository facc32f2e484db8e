-- ===== src/Page/Arrays/Kinds.antt =====
-- The arrays that common/page.rs sees at the data pointer of a page: leaf elements, branch
-- elements, page ids, and the free list.
use boltdb_rs.Base.{
  ℕ, ◌*◌, ◌^◌, ◌≤◌, ◌<◌, ◌≡◌, refl, true, List, ok, fault, out_of_bounds, ◌>>=◌, ltb, if◌then◌else◌,
  length, le_bytes, from_le, length-le_bytes, from_le-le_bytes, arith,
}
use boltdb_rs.Memory.{write, decode_array}
use boltdb_rs.Flags.{Bitflags}
use boltdb_rs.Page.{Page, is_freelist_page}
use boltdb_rs.Page.Elements.{
  LeafPageElement, BranchPageElement, encode_leaf, decode_leaf, encode_branch, decode_branch,
  leaf_page_elements, branch_page_elements, set_leaf_page_element, set_branch_page_element,
}
use boltdb_rs.Page.Freelist.{pg_ids, set_pg_id, free_list, set_free_list}
use boltdb_rs.Page.Load.{HasElements, element_lem, branch_page_element_lem}
use boltdb_rs.Page.Access.{
  IsLeafPageElement, leaf_page_element_lem, leaf_page_elements_lem, length-encode_leaf,
  decode_leaf-encode_leaf,
}
use boltdb_rs.Page.Store.{IsBranchPageElement, length-encode_branch, decode_branch-encode_branch}
use boltdb_rs.Page.Copies.{branch_page_elements_lem, read_pgids_lem}
use boltdb_rs.Page.Arrays.{PageArray, IsLawful, AreElements, store_all, set_all, store_all-load}
use boltdb_rs.Page.Arrays.Records.{records-IsLawful}

abbrev pub HasIds : Page → Type 0
HasIds p = p.count * 8 ≤ length p.body

pub data Kind : Type 0 where
  leaf_elements branch_elements page_ids free_ids : Kind

abbrev pub Element : Kind → Type 0
Element leaf_elements = LeafPageElement
Element branch_elements = BranchPageElement
Element page_ids = ℕ
Element free_ids = ℕ

pub set_leaf_lem :
    (i : ℕ) (e : LeafPageElement) (p : Page)
    → HasElements p
    → set_leaf_page_element i e p ≡ (
        if ltb i p.count
        then (do body ← write p.body (i * 16) (encode_leaf e); ok (record p { body = body }))
        else fault out_of_bounds)
unfolding set_leaf_page_element
set_leaf_lem i e p h = rw (leaf_page_element_lem i p h) (ground arith)

pub set_branch_lem :
    (i : ℕ) (e : BranchPageElement) (p : Page)
    → HasElements p
    → set_branch_page_element i e p ≡ (
        if ltb i p.count
        then (do body ← write p.body (i * 16) (encode_branch e); ok (record p { body = body }))
        else fault out_of_bounds)
unfolding set_branch_page_element
set_branch_lem i e p h = rw (branch_page_element_lem i p h) (ground arith)

pub set_pg_id_lem :
    (i v : ℕ) (p : Page)
    → HasIds p
    → set_pg_id i v p ≡ (
        if ltb i p.count
        then (do body ← write p.body (i * 8) (le_bytes 8 v); ok (record p { body = body }))
        else fault out_of_bounds)
unfolding set_pg_id pg_ids
set_pg_id_lem i v p h = rw (read_pgids_lem p h) (ground (arith, element_lem from_le 8 p i))

pg_ids_lem : (p : Page) → HasIds p → pg_ids p ≡ ok (decode_array from_le 8 p.count p.body)
unfolding pg_ids
pg_ids_lem p h = read_pgids_lem p h

set_free_list_lem :
    ⦃b : Bitflags⦄ (i v : ℕ) (p : Page)
    → HasIds p
    → is_freelist_page p ≡ true
    → set_free_list i v p ≡ (
        if ltb i p.count
        then (do body ← write p.body (i * 8) (le_bytes 8 v); ok (record p { body = body }))
        else fault out_of_bounds)
unfolding set_free_list
set_free_list_lem i v p h free = rw free (set_pg_id_lem i v p h)

free_list_lem :
    ⦃b : Bitflags⦄ (p : Page)
    → HasIds p
    → is_freelist_page p ≡ true
    → free_list p ≡ ok (decode_array from_le 8 p.count p.body)
unfolding free_list
free_list_lem p h free = rw free (read_pgids_lem p h)

is_freelist_page-body :
    ⦃b : Bitflags⦄ (p : Page) (addr : ℕ) (body : List ℕ)
    → is_freelist_page p ≡ true
    → is_freelist_page (record p { addr = addr; body = body }) ≡ true
unfolding is_freelist_page
is_freelist_page-body p addr body free = free

module _ ⦃b : Bitflags⦄ where
  abbrev pub array : (k : Kind) → PageArray (Element k)
  array leaf_elements = record {
    load = leaf_page_elements;
    store = set_leaf_page_element;
    IsElement = IsLeafPageElement;
    Holds = HasElements;
    width = 16;
  }
  array branch_elements = record {
    load = branch_page_elements;
    store = set_branch_page_element;
    IsElement = IsBranchPageElement;
    Holds = HasElements;
    width = 16;
  }
  array page_ids = record {
    load = pg_ids;
    store = set_pg_id;
    IsElement = λ v. v < 2 ^ 64;
    Holds = HasIds;
    width = 8;
  }
  array free_ids = record {
    load = free_list;
    store = set_free_list;
    IsElement = λ v. v < 2 ^ 64;
    Holds = λ p. HasIds p × (is_freelist_page p ≡ true);
    width = 8;
  }

  pub array-IsLawful : (k : Kind) → IsLawful (array k)
  array-IsLawful leaf_elements =
      records-IsLawful (array leaf_elements) decode_leaf encode_leaf 16 length-encode_leaf
        decode_leaf-encode_leaf (λ p h. h) (λ p addr body e h. e) refl leaf_page_elements_lem
        set_leaf_lem
  array-IsLawful branch_elements =
      records-IsLawful (array branch_elements) decode_branch encode_branch 16 length-encode_branch
        decode_branch-encode_branch (λ p h. h) (λ p addr body e h. e) refl branch_page_elements_lem
        set_branch_lem
  array-IsLawful page_ids =
      records-IsLawful (array page_ids) from_le (le_bytes 8) 8 (length-le_bytes 8)
        (from_le-le_bytes 8) (λ p h. h) (λ p addr body e h. e) refl pg_ids_lem set_pg_id_lem
  array-IsLawful free_ids =
      records-IsLawful (array free_ids) from_le (le_bytes 8) 8 (length-le_bytes 8)
        (from_le-le_bytes 8) (λ p h. h.0)
        (λ p addr body e h. (e, is_freelist_page-body p addr body h.1)) refl
        (λ p h. free_list_lem p h.0 h.1) (λ i v p h. set_free_list_lem i v p h.0 h.1)

  -- On a page that holds the elements or page ids it counts, and that has the free list's flag
  -- where ids are stored through it: any sequence of stores of values in the range of their types
  -- changes what is loaded as it would change a list, and panics exactly where the list has no such
  -- index.
  pub stores-set_all :
      (k : Kind) (es : List (ℕ × Element k)) (p : Page)
      → (array k).Holds p
      → AreElements (array k) es
      → (store_all (array k) es p >>= (array k).load) ≡ ((array k).load p >>= set_all es)
  stores-set_all k = store_all-load (array k) (array-IsLawful k)
