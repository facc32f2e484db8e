-- ===== src/UnitTests.antt =====
-- The tests of the source, the functions under `#[cfg(test)]`, as programs that return or panic.
-- Their output on the console is not kept. A buffer or a value on the stack lies at an address that
-- the caller gives.
pub mod Root
pub mod Pages
pub mod Passing
use boltdb_rs.Base.{ℕ, ◌+◌, ◌==◌, Res, ok, assertion, check, ◌>>=◌, ◌>>◌}
use boltdb_rs.Limits.{default_page_size}

-- In common/types.rs.
unfoldable pub test_page_size : ℕ → Res (Unit {0})
test_page_size os_page_size = check assertion (16384 == default_page_size os_page_size)

-- In common/meta.rs.
unfoldable pub it_works : Res (Unit {0})
it_works = check assertion ((2 + 2) == 4)
