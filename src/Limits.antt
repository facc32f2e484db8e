-- ===== src/Limits.antt =====
-- The constants of common/types.rs and os.rs: the limits and defaults of a database. A duration is
-- its nanoseconds, and the size of a page of the operating system is a parameter.
use boltdb_rs.Base.{ℕ, ◌*◌, ◌^◌, Bool}

abbrev pub max_mmap_step : ℕ
max_mmap_step = 2 ^ 30

abbrev pub page_max_alloc_size : ℕ
page_max_alloc_size = 0xfffffff

-- `cfg!(target_os = "openbsd")`, for the system that is built for.
abbrev pub ignore_no_sync : Bool → Bool
ignore_no_sync openbsd = openbsd

abbrev pub default_max_batch_size : ℕ
default_max_batch_size = 1000

abbrev pub default_max_batch_delay : ℕ
default_max_batch_delay = 10 * 10 ^ 6

abbrev pub default_alloc_size : ℕ
default_alloc_size = 16 * 1024 * 1024

abbrev pub default_page_size : ℕ → ℕ
default_page_size os_page_size = os_page_size

-- The largest map, on targets of 64 bits and on the others.
abbrev pub max_map_size : Bool → ℕ
max_map_size Bool.true = 0xffffffffffff
max_map_size Bool.false = 0x7fffffff

abbrev pub max_alloc_size : ℕ
max_alloc_size = 0x7fffffff
