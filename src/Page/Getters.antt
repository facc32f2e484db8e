-- ===== src/Page/Getters.antt =====
-- common/page.rs: the getters of a page's header.
use boltdb_rs.Base.{ℕ}
use boltdb_rs.Page.{Page}

unfoldable pub id : Page → ℕ
id p = p.id

unfoldable pub flags : Page → ℕ
flags p = p.flags

unfoldable pub count : Page → ℕ
count p = p.count

unfoldable pub overflow : Page → ℕ
overflow p = p.overflow
