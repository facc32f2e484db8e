-- ===== src/Tests/Storing.antt =====
-- Loads and stores on a page, and the source's own tests, at concrete inputs.
use boltdb_rs.Base.{
  ℕ, ◌≡◌, refl, List, [], ◌∷◌, arith, ok, ◌>>=◌, length, replicate, le_bytes, from_le,
}
use boltdb_rs.Memory.{read, write, splice, decode_array}
use boltdb_rs.Page.{Page, bytes, from_slice, set_count, is_freelist_page}
use boltdb_rs.Page.Elements.{
  leaf_page_element, leaf_page_elements, set_leaf_page_element, encode_leaf, decode_leaf,
}
use boltdb_rs.Page.Freelist
use boltdb_rs.Page.Size
use boltdb_rs.Storage.{Stores, start, next, count, leaf}
use boltdb_rs.Storage.Images.{image}
use boltdb_rs.Storage.Loads.{Load-store_back, load_leaf}
use boltdb_rs.Storage.Invariant.{Stores-image}
use boltdb_rs.UnitTests.Pages.{}
use boltdb_rs.Tests.Params.{bitflags, fnv}
use boltdb_rs.Tests.Pages.{data_page, element}

abbrev blank_buffer : List ℕ
blank_buffer = replicate 32 0

abbrev blank : Page
blank = record { addr = 4096; id = 0; flags = 0; count = 0; overflow = 0; body = replicate 16 0 }

abbrev one_element : Page
one_element = record blank { count = 1; body = encode_leaf element }

filled : set_leaf_page_element 0 element (record blank { count = 1 }) ≡ ok one_element
unfolding set_leaf_page_element leaf_page_element leaf_page_elements read write decode_array
    decode_leaf encode_leaf le_bytes from_le splice
filled = refl

counted : Stores blank (record blank { count = 1 })
unfolding set_count
counted = next start (count 1 blank (omega arith))

blank_seen : from_slice 4096 blank_buffer ≡ ok blank
unfolding from_slice from_le
blank_seen = refl

Stores-image_example :
    let stores : Stores blank one_element = next counted (leaf 0 element (omega arith) filled) in
    (bytes one_element ≡ image stores blank_buffer)
    × (from_slice 4096 (image stores blank_buffer) ≡ ok one_element)
    × (length (image stores blank_buffer) ≡ length blank_buffer)
Stores-image_example =
    Stores-image 4096 blank_buffer (omega arith) blank_seen
      (next counted (leaf 0 element (omega arith) filled))

element1 : leaf_page_element 1 data_page ≡ ok (record { flags = 0; pos = 26; ksize = 3; vsize = 4 })
unfolding leaf_page_element leaf_page_elements read decode_array decode_leaf from_le
element1 = refl

Load-store_back_example :
    set_leaf_page_element 1 (record { flags = 0; pos = 26; ksize = 3; vsize = 4 }) data_page
    ≡ ok data_page
Load-store_back_example =
    Load-store_back data_page
      (load_leaf 1 (record { flags = 0; pos = 26; ksize = 3; vsize = 4 }) element1) (omega arith)

-- A page of two free ids in 16 bytes.
abbrev two_ids : Page
two_ids = record blank { flags = 16; count = 2 }

free_store : (Freelist.set_free_list 1 9 two_ids >>= Freelist.pgid 1) ≡ ok 9
unfolding is_freelist_page Freelist.set_free_list Freelist.set_pg_id Freelist.pgid Freelist.pg_ids
    Freelist.read_pgids read write decode_array le_bytes from_le splice
free_store = refl

byte_store :
    Size.buf_mut 1 7 (record { addr = 4096; page = 1 ∷ 2 ∷ 3 ∷ [] })
    ≡ ok (record { addr = 4096; page = 1 ∷ 7 ∷ 3 ∷ [] })
unfolding Size.buf_mut write splice
byte_store = refl
