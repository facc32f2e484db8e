-- ===== src/Tests/Arrays.antt =====
-- Sequences of stores into the arrays of a page.
use boltdb_rs.Base.{
  ℕ, ◌≡◌, refl, List, [], ◌∷◌, arith, debug, ok, fault, out_of_bounds, ◌>>=◌, le_bytes, from_le,
}
use boltdb_rs.Memory.{read, write, splice, decode_array}
use boltdb_rs.Page.{is_freelist_page}
use boltdb_rs.Page.Elements.{LeafPageElement, leaf_page_elements}
use boltdb_rs.Page.Freelist.{pg_ids, read_pgids, set_pg_id, free_list, set_free_list}
use boltdb_rs.Page.Size.{to_owned, borrow, borrow_mut}
use mathlib.Core.List.{Permᴰ}
use boltdb_rs.Page.Arrays.Orders.{store_all_rearranged}
use boltdb_rs.Page.Arrays.Copies.{to_owned-stores}
use boltdb_rs.Page.Arrays.{set_all, store_all}
use boltdb_rs.Page.Arrays.Kinds.{leaf_elements, array, stores-set_all}
use boltdb_rs.Tests.Params.{bitflags}
use boltdb_rs.Tests.Pages.{data_page, data_page_size, element, free_page}

-- Both elements of the page are replaced, and then the first again.
abbrev both : List (ℕ × LeafPageElement)
both = (0, element) ∷ (1, element) ∷ (0, record element { vsize = 9 }) ∷ []

stores-set_all_example :
    (store_all (array leaf_elements) both data_page >>= leaf_page_elements)
    ≡ (leaf_page_elements data_page >>= set_all both)
stores-set_all_example = stores-set_all leaf_elements both data_page (omega arith) (ground arith)

ids_stored : (set_pg_id 1 77 free_page >>= set_free_list 0 5 >>= free_list) ≡ ok (5 ∷ 77 ∷ [])
unfolding set_pg_id set_free_list free_list pg_ids read_pgids read write splice decode_array
    le_bytes from_le is_freelist_page
ids_stored = refl

id_beyond : (set_pg_id 2 77 free_page) ≡ fault out_of_bounds
unfolding set_pg_id pg_ids read_pgids read decode_array le_bytes from_le
id_beyond = refl

to_owned-stores_example :
    (to_owned debug 8192 data_page
      >>= borrow_mut (store_all (array leaf_elements) both)
      >>= borrow
      >>= leaf_page_elements)
    ≡ (leaf_page_elements data_page >>= set_all both)
to_owned-stores_example =
    to_owned-stores leaf_elements both debug 8192 data_page 65 (omega arith) refl (omega arith)
      data_page_size (omega arith) (omega arith) (ground arith)

-- Two stores at different indices, and the same two in the other order.
abbrev first_second : List (ℕ × LeafPageElement)
first_second = (0, element) ∷ (1, record element { vsize = 9 }) ∷ []

abbrev second_first : List (ℕ × LeafPageElement)
second_first = (1, record element { vsize = 9 }) ∷ (0, element) ∷ []

store_all_rearranged_example :
    store_all (array leaf_elements) first_second data_page
    ≡ store_all (array leaf_elements) second_first data_page
store_all_rearranged_example =
    store_all_rearranged leaf_elements data_page (Permᴰ.swap {l = []} refl refl) (omega arith)
      (ground arith)
