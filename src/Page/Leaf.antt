-- ===== src/Page/Leaf.antt =====
-- common/page.rs: the constructor, the getters and the setters of a leaf element.
use boltdb_rs.Base.{ℕ, ◌+◌}
use boltdb_rs.Page.{Page, get_data_ptr}
use boltdb_rs.Page.Elements.{LeafPageElement}

unfoldable pub new : ℕ → ℕ → ℕ → ℕ → LeafPageElement
new flags pos ksize vsize = record { flags = flags; pos = pos; ksize = ksize; vsize = vsize }

unfoldable pub set_ksize : ℕ → LeafPageElement → LeafPageElement
set_ksize len e = record e { ksize = len }

unfoldable pub set_vsize : ℕ → LeafPageElement → LeafPageElement
set_vsize len e = record e { vsize = len }

unfoldable pub set_flags : ℕ → LeafPageElement → LeafPageElement
set_flags flags e = record e { flags = flags }

unfoldable pub set_pos : ℕ → LeafPageElement → LeafPageElement
set_pos pos e = record e { pos = pos }

unfoldable pub flags : LeafPageElement → ℕ
flags e = e.flags

unfoldable pub pos : LeafPageElement → ℕ
pos e = e.pos

-- Of the element at the offset `at` of a page's data.
unfoldable pub as_ptr : ℕ → Page → ℕ
as_ptr at p = get_data_ptr p + at
