-- ===== src/Storage.antt =====
-- The stores into a page, of common/page.rs and common/meta.rs, as steps: each call that changes a
-- page, with values in the range of their types. The children describe the structs as tables of
-- words and the bytes that the stores leave, and the loads of what was stored.
pub mod Loads
mod Puts
mod Tables
mod Codecs
mod Keeping
pub mod Images
pub mod Invariant
pub mod Corruption
use boltdb_rs.Base.{ℕ, ◌^◌, ◌<◌, ◌≡◌, ok, Build}
use boltdb_rs.Flags.{Bitflags}
use boltdb_rs.Page.{Page, set_id, set_flags, set_count, set_overflow}
use boltdb_rs.Page.Elements.{
  LeafPageElement, BranchPageElement, set_leaf_page_element, set_branch_page_element,
}
use boltdb_rs.Page.Access.{IsLeafPageElement}
use boltdb_rs.Page.Store.{IsBranchPageElement}
use boltdb_rs.Page.Freelist.{set_pg_id, set_free_list}
use boltdb_rs.Page.Size.{set_byte}
use boltdb_rs.Meta.{Meta, Hasher, set_meta, write_meta}
use boltdb_rs.Meta.Layout.{IsMeta}

module _ ⦃b : Bitflags⦄ ⦃h : Hasher⦄ where
  pub data Store : Page → Page → Type 0 where
    id : (v : ℕ) (p : Page) → v < 2 ^ 64 → Store p (set_id v p)
    flags : (v : ℕ) (p : Page) → v < 2 ^ 16 → Store p (set_flags v p)
    count : (v : ℕ) (p : Page) → v < 2 ^ 16 → Store p (set_count v p)
    overflow : (v : ℕ) (p : Page) → v < 2 ^ 32 → Store p (set_overflow v p)
    leaf :
        (i : ℕ) (e : LeafPageElement) {p q : Page}
        → IsLeafPageElement e
        → set_leaf_page_element i e p ≡ ok q
        → Store p q
    branch :
        (i : ℕ) (e : BranchPageElement) {p q : Page}
        → IsBranchPageElement e
        → set_branch_page_element i e p ≡ ok q
        → Store p q
    page_id : (i v : ℕ) {p q : Page} → v < 2 ^ 64 → set_pg_id i v p ≡ ok q → Store p q
    free_id : (i v : ℕ) {p q : Page} → v < 2 ^ 64 → set_free_list i v p ≡ ok q → Store p q
    byte :
        (build : Build) (i v : ℕ) {p q : Page} → v < 256 → set_byte build i v p ≡ ok q → Store p q
    meta : (m : Meta) {p q : Page} → IsMeta m → set_meta m p ≡ ok q → Store p q
    written : (m m' : Meta) {p q : Page} → IsMeta m → write_meta m p ≡ ok (m', q) → Store p q

  -- The pages after any number of stores.
  pub data Stores (p : Page) : Page → Type 0 where
    start : Stores p p
    next : {q r : Page} → Stores p q → Store q r → Stores p r
