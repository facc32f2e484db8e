-- ===== src/Page/Info.antt =====
-- common/page.rs: `PageInfo`, human readable information about a page.
use boltdb_rs.Base.{ℕ}

pub record PageInfo : Type 0 where
  pub id : ℕ
  pub typ : ℕ
  pub count : ℕ
  pub overflow_count : ℕ

unfoldable pub new : PageInfo
new = record { id = 0; typ = 0; count = 0; overflow_count = 0 }

unfoldable pub set_id : ℕ → PageInfo → PageInfo
set_id id i = record i { id = id }

unfoldable pub set_typ : ℕ → PageInfo → PageInfo
set_typ typ i = record i { typ = typ }

unfoldable pub set_count : ℕ → PageInfo → PageInfo
set_count count i = record i { count = count }

unfoldable pub set_overflow_count : ℕ → PageInfo → PageInfo
set_overflow_count overflow_count i = record i { overflow_count = overflow_count }

unfoldable pub id : PageInfo → ℕ
id i = i.id

unfoldable pub typ : PageInfo → ℕ
typ i = i.typ

unfoldable pub count : PageInfo → ℕ
count i = i.count

unfoldable pub overflow_count : PageInfo → ℕ
overflow_count i = i.overflow_count

-- A store through the reference that `id_mut` returns, as a function of the old value.
unfoldable pub id_mut : (ℕ → ℕ) → PageInfo → PageInfo
id_mut f i = record i { id = f i.id }

unfoldable pub typ_mut : (ℕ → ℕ) → PageInfo → PageInfo
typ_mut f i = record i { typ = f i.typ }

unfoldable pub count_mut : (ℕ → ℕ) → PageInfo → PageInfo
count_mut f i = record i { count = f i.count }

unfoldable pub overflow_count_mut : (ℕ → ℕ) → PageInfo → PageInfo
overflow_count_mut f i = record i { overflow_count = f i.overflow_count }
