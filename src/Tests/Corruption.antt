-- ===== src/Tests/Corruption.antt =====
-- Two metas that a poor hash does not tell apart.
use boltdb_rs.Base.{ℕ, ◌^◌, ◌<◌, ◌≡◌, ◌≢◌, refl, ap, List, arith, ok, le_bytes, from_le}
use boltdb_rs.InBucket
use boltdb_rs.Memory.{read}
use boltdb_rs.Errors.{Result}
use boltdb_rs.Page.{Page}
use boltdb_rs.Meta
use boltdb_rs.Meta.{Meta, Hasher, as_slice_no_checksum, meta, sum64, validate}
use boltdb_rs.Storage.Corruption.{validate-collision}
use boltdb_rs.Tests.Metas.{first_meta, second_meta}

-- A hash with one value.
seven-lt : (bs : List ℕ) → 7 < 2 ^ 64
seven-lt bs = omega arith

abbrev seven : Hasher
seven = record { hash = λ bs. 7; hash-lt = seven-lt }

abbrev first : Meta
first = record first_meta { checksum = 7 }

abbrev second : Meta
second = record second_meta { checksum = 7 }

page_of : Meta → Page
page_of m = record {
  addr = 4096;
  id = 0;
  flags = 4;
  count = 0;
  overflow = 0;
  body = Meta.as_slice m;
}

first_loaded : meta (page_of first) ≡ ok first
unfolding meta read Meta.as_slice as_slice_no_checksum InBucket.encode InBucket.decode Meta.decode
    le_bytes from_le page_of
first_loaded = refl

second_loaded : meta (page_of second) ≡ ok second
unfolding meta read Meta.as_slice as_slice_no_checksum InBucket.encode InBucket.decode Meta.decode
    le_bytes from_le page_of
second_loaded = refl

first_valid : validate ⦃h = seven⦄ first ≡ Result.ok tt
unfolding validate sum64
first_valid = refl

second_valid : validate ⦃h = seven⦄ second ≡ Result.ok tt
unfolding validate sum64
second_valid = refl

differ : first ≢ second
differ same = absurd (omega (arith, ap (λ (m : Meta). m.txid) same))

validate-collision_example :
    (as_slice_no_checksum first ≢ as_slice_no_checksum second) × (◌≡◌ {A = ℕ} 7 7)
unfolding page_of Meta.as_slice as_slice_no_checksum InBucket.encode le_bytes
validate-collision_example =
    validate-collision ⦃h = seven⦄ (page_of first) (page_of second) first second (omega arith)
      (omega arith) first_loaded second_loaded first_valid second_valid refl (ground arith) differ
