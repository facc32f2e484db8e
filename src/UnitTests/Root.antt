-- ===== src/UnitTests/Root.antt =====
-- The test in lib.rs.
use boltdb_rs.Base.{ℕ, ◌+◌, ◌==◌, Res, assertion, check}

unfoldable pub it_works : Res (Unit {0})
it_works = let pid : ℕ = 64 in check assertion ((2 + 2) == 4)
