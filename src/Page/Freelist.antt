-- ===== src/Page/Freelist.antt =====
-- common/page.rs: the page ids in the data section, read as the free list.
use boltdb_rs.Base.{
  ℕ, ◌*◌, ◌-◌, ◌^◌, ◌==◌, List, [], Res, ok, fault, assertion, explicit_panic, check, expect,
  out_of_bounds, get_elem?, ◌>>=◌, ◌>>◌, ltb, if◌then◌else◌, from_le, le_bytes,
}
use boltdb_rs.Memory.{read, write, decode_array}
use boltdb_rs.Flags.{Bitflags}
use boltdb_rs.Page.{Page, get_data_ptr, is_freelist_page}

-- `n` page ids at the data pointer.
unfoldable pub read_pgids : ℕ → Page → Res (List ℕ)
read_pgids n p = do bs ← read p.body 0 (n * 8); ok (decode_array from_le 8 n bs)

unfoldable pub pg_ids : Page → Res (List ℕ)
pg_ids p = read_pgids p.count p

unfoldable pub pgid : ℕ → Page → Res ℕ
pgid index p = do ids ← pg_ids p; expect out_of_bounds (get_elem? ids index)

-- A store through `pg_ids_mut`.
unfoldable pub set_pg_id : ℕ → ℕ → Page → Res Page
set_pg_id index id p = do
  ids ← pg_ids p
  old ← expect out_of_bounds (get_elem? ids index)
  body ← write p.body (index * 8) (le_bytes 8 id)
  ok (record p { body = body })

module _ ⦃b : Bitflags⦄ where
  unfoldable pub free_list : Page → Res (List ℕ)
  free_list p = do check assertion (is_freelist_page p); read_pgids p.count p

  -- A store through `free_list_mut`.
  unfoldable pub set_free_list : ℕ → ℕ → Page → Res Page
  set_free_list index id p = do check assertion (is_freelist_page p); set_pg_id index id p

  -- The index of the first id and their number. A count of 0xFFFF stands for a longer list;
  -- `(data_ptr) as usize` is then the address itself.
  unfoldable pub freelist_page_count : Page → Res (ℕ × ℕ)
  freelist_page_count p = do
    check assertion (is_freelist_page p)
    if p.count == 0xffff
        then if ltb (get_data_ptr p) (2 ^ 64 - 1)
          then ok (1, get_data_ptr p)
          else fault explicit_panic
        else ok (0, p.count)

  unfoldable pub freelist_page_ids : Page → Res (List ℕ)
  freelist_page_ids p = do
    check assertion (is_freelist_page p)
    (idx, count) ← freelist_page_count p
    if count == 0 then ok [] else read_pgids count p
