-- ===== src/Page/Branch.antt =====
-- common/page.rs: the getters and the setters of a branch element.
use boltdb_rs.Base.{ℕ, ◌+◌}
use boltdb_rs.Page.{Page, get_data_ptr}
use boltdb_rs.Page.Elements.{BranchPageElement}

unfoldable pub set_pos : ℕ → BranchPageElement → BranchPageElement
set_pos pos e = record e { pos = pos }

unfoldable pub set_ksize : ℕ → BranchPageElement → BranchPageElement
set_ksize size e = record e { ksize = size }

unfoldable pub set_pgid : ℕ → BranchPageElement → BranchPageElement
set_pgid v e = record e { pgid = v }

unfoldable pub pos : BranchPageElement → ℕ
pos e = e.pos

unfoldable pub ksize : BranchPageElement → ℕ
ksize e = e.ksize

unfoldable pub pgid : BranchPageElement → ℕ
pgid e = e.pgid

-- Of the element at the offset `at` of a page's data.
unfoldable pub as_ptr : ℕ → Page → ℕ
as_ptr at p = get_data_ptr p + at
