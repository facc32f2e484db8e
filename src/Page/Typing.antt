-- ===== src/Page/Typing.antt =====
-- What a page is when it is read from bytes: its fields have the range of their machine types.
use boltdb_rs.Base.{
  ℕ, ◌+◌, ◌%◌, ◌^◌, ◌≤◌, ◌<◌, ◌≡◌, refl, List, arith, ok, length, length-drop, take, drop, subst,
  from_le, le_bytes,
}
use boltdb_rs.Memory.Bytes.{
  AreBytes, AreBytes-append, AreBytes-drop, AreBytes-le_bytes, from_le-take_lt,
}
use boltdb_rs.Page.{Page, IsPage, bytes, from_slice}
use boltdb_rs.Page.Elements.{}

-- A page over a buffer of bytes.
pub record IsWellFormed (p : Page) : Type 0 where
  pub is_page : IsPage p
  pub are_bytes : AreBytes p.body

pub AreBytes-bytes : (p : Page) → AreBytes p.body → AreBytes (bytes p)
unfolding bytes
AreBytes-bytes p v = AreBytes-append (le_bytes 8 p.id) _ (AreBytes-le_bytes 8 p.id) (
    AreBytes-append (le_bytes 2 p.flags) _ (AreBytes-le_bytes 2 p.flags) (
      AreBytes-append (le_bytes 2 p.count) _ (AreBytes-le_bytes 2 p.count)
        (AreBytes-append (le_bytes 4 p.overflow) p.body (AreBytes-le_bytes 4 p.overflow) v)))

abbrev pub seen : ℕ → List ℕ → Page
seen addr buffer = record {
  addr = addr;
  id = from_le (take 8 buffer);
  flags = from_le (take 2 (drop 8 buffer));
  count = from_le (take 2 (drop 10 buffer));
  overflow = from_le (take 4 (drop 12 buffer));
  body = drop 16 buffer;
}

pub from_slice-seen :
    (addr : ℕ) (buffer : List ℕ) (p : Page)
    → from_slice addr buffer ≡ ok p
    → (seen addr buffer ≡ p) × (addr % 8 ≡ 0) × (16 ≤ length buffer)
unfolding from_slice
from_slice-seen addr buffer p h = ground arith

pub from_slice-IsWellFormed :
    (addr : ℕ) (buffer : List ℕ) (p : Page)
    → AreBytes buffer
    → from_slice addr buffer ≡ ok p
    → IsWellFormed p × (p.addr ≡ addr) × (16 + length p.body ≡ length buffer)
from_slice-IsWellFormed addr buffer p v h =
    let (same, aligned, room) = from_slice-seen addr buffer p h in
    subst (λ q. IsWellFormed q × (q.addr ≡ addr) × (16 + length q.body ≡ length buffer)) same
      (
        record {
          is_page = record {
            aligned = aligned;
            id_fits = from_le-take_lt 8 buffer v;
            flags_fit = from_le-take_lt 2 (drop 8 buffer) (AreBytes-drop 8 buffer v);
            count_fits = from_le-take_lt 2 (drop 10 buffer) (AreBytes-drop 10 buffer v);
            overflow_fits = from_le-take_lt 4 (drop 12 buffer) (AreBytes-drop 12 buffer v);
          };
          are_bytes = AreBytes-drop 16 buffer v;
        },
        refl,
        omega (arith, length-drop 16 buffer),
      )

-- The word of `w` bytes at `off` in a record.
pub field_lt : (w off : ℕ) (bs : List ℕ) → AreBytes bs → from_le (take w (drop off bs)) < 256 ^ w
field_lt w off bs v = from_le-take_lt w (drop off bs) (AreBytes-drop off bs v)
