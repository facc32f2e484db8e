-- ===== src/Storage/Corruption.antt =====
-- What the checksum of a meta page protects.
use boltdb_rs.Base.{◌≡◌, ◌≢◌, sym, ap, ap₂, ◌∙◌, arith, ok, ◌++◌, le_bytes, ◌≢◌}
use boltdb_rs.Errors.{Result}
use boltdb_rs.Memory.Bytes.{AreBytes}
use boltdb_rs.Page.{Page}
use boltdb_rs.Meta.{Meta, Hasher, meta, as_slice, as_slice_no_checksum, decode, sum64, validate}
use boltdb_rs.Meta.Layout.{IsMeta, decode-as_slice}
use boltdb_rs.Storage.Loads.{meta-IsMeta}

-- The bytes under the checksum and the checksum are the whole meta.
as_slice_no_checksum-injective :
    (m n : Meta)
    → IsMeta m
    → IsMeta n
    → m.checksum ≡ n.checksum
    → as_slice_no_checksum m ≡ as_slice_no_checksum n
    → m ≡ n
unfolding as_slice
as_slice_no_checksum-injective m n w w' sum same =
    sym (decode-as_slice m w)
    ∙ (ap decode (ap₂ ◌++◌ same (ap (le_bytes 8) sum)) ∙ decode-as_slice n w')

module _ ⦃h : Hasher⦄ where
  valid-sum64 : (m : Meta) → validate m ≡ Result.ok tt → m.checksum ≢ 0 → m.checksum ≡ sum64 m
  unfolding validate
  valid-sum64 m valid nonzero = ground arith

  -- Two different metas that are loaded from pages over bytes, pass validation, and have one
  -- checksum, which is not 0, are a collision of the hash: the bytes under the checksum differ, and
  -- their hashes do not.
  pub validate-collision :
      (p q : Page) (m n : Meta)
      → AreBytes p.body
      → AreBytes q.body
      → meta p ≡ ok m
      → meta q ≡ ok n
      → validate m ≡ Result.ok tt
      → validate n ≡ Result.ok tt
      → m.checksum ≡ n.checksum
      → m.checksum ≢ 0
      → m ≢ n
      → (as_slice_no_checksum m ≢ as_slice_no_checksum n)
        × (h.hash (as_slice_no_checksum m) ≡ h.hash (as_slice_no_checksum n))
  unfolding sum64
  validate-collision p q m n v w load load' valid valid' sum nonzero differ = (
    λ same. differ (
        as_slice_no_checksum-injective m n (meta-IsMeta p m v load) (meta-IsMeta q n w load') sum
          same),
    sym (valid-sum64 m valid nonzero) ∙ (sum ∙ valid-sum64 n valid' (λ zero. nonzero (sum ∙ zero))),
  )
