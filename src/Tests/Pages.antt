-- ===== src/Tests/Pages.antt =====
-- Pages, their elements and free lists, at concrete inputs.
use boltdb_rs.Base.{
  ℕ, ◌≡◌, refl, List, [], ◌∷◌, ◌++◌, arith, ok, fault, wild_read, ◌>>=◌, replicate, le_bytes,
  from_le, debug, add_word,
}
use boltdb_rs.Memory.{read, decode_array}
use boltdb_rs.Page.{Page}
use boltdb_rs.Page.Elements.{
  LeafPageElement, leaf_page_element, set_leaf_page_element, leaf_key, leaf_page_elements,
  decode_leaf,
}
use boltdb_rs.Page.Access.{leaf_key-set}
use boltdb_rs.Page.Freelist.{freelist_page_count, freelist_page_ids}
use boltdb_rs.Page.FreelistIds.{
  encode_ids, freelist_page_ids-encode_ids, freelist_page_ids_overflow,
}
use boltdb_rs.Page.Size.{byte_size, leaf_size, to_owned, borrow}
use boltdb_rs.Page.Owned.{leaf_page_elements-to_owned}
use boltdb_rs.Tests.Params.{bitflags}

abbrev pub word4 : ℕ → List ℕ → List ℕ
word4 n rest = n ∷ 0 ∷ 0 ∷ 0 ∷ rest

-- The page of the source's tests `test_read_ownedpage` and `test_write_ownedpage`.
abbrev pub data_page : Page
data_page = record {
  addr = 4096;
  id = 123;
  flags = 2;
  count = 2;
  overflow = 0;
  body =
      word4 1
        (word4 32 (word4 5 (word4 5 (word4 0 (word4 26 (word4 3 (word4 4 (replicate 60 0))))))));
}

abbrev pub element : LeafPageElement
element = record { flags = 0; pos = 300; ksize = 4; vsize = 4 }

element1 : leaf_page_element 1 data_page ≡ ok (record { flags = 0; pos = 26; ksize = 3; vsize = 4 })
unfolding leaf_page_element leaf_page_elements read decode_array decode_leaf from_le
element1 = refl

pub data_page_size : byte_size debug data_page ≡ ok 65
unfolding byte_size leaf_page_elements read decode_array decode_leaf from_le leaf_size add_word
data_page_size = refl

leaf_key-set_example :
    (set_leaf_page_element 1 element data_page >>= leaf_key 16 element) ≡ ok (44 ∷ 1 ∷ 0 ∷ 0 ∷ [])
unfolding le_bytes
leaf_key-set_example = leaf_key-set 1 element data_page (omega arith) (omega arith) (omega arith)

leaf_page_elements-to_owned_example :
    (to_owned debug 8192 data_page >>= borrow >>= leaf_page_elements) ≡ leaf_page_elements data_page
unfolding decode_leaf from_le
leaf_page_elements-to_owned_example =
    leaf_page_elements-to_owned debug 8192 data_page 1 (omega arith) (omega arith) refl
      (omega arith) refl (omega arith) (omega arith) (omega arith)

-- Two free pages.
abbrev pub free_page : Page
free_page = record {
  addr = 4096;
  id = 2;
  flags = 16;
  count = 2;
  overflow = 0;
  body = encode_ids (7 ∷ 9 ∷ []) ++ 0 ∷ [];
}

freelist_page_ids-encode_ids_example : freelist_page_ids free_page ≡ ok (7 ∷ 9 ∷ [])
freelist_page_ids-encode_ids_example =
    freelist_page_ids-encode_ids free_page (7 ∷ 9 ∷ []) (0 ∷ []) (omega arith) refl (omega arith)
      (omega arith) refl

freelist_page_ids_overflow_example :
    let p : Page = record free_page { count = 0xffff } in
    (freelist_page_count p ≡ ok (1, 4112)) × (freelist_page_ids p ≡ fault wild_read)
unfolding le_bytes
freelist_page_ids_overflow_example =
    freelist_page_ids_overflow (record free_page { count = 0xffff }) (omega arith) refl
      (omega arith) (omega arith)
