-- ===== src/Tests/Lookups.antt =====
-- A search among the inodes of a page, at concrete inputs.
use boltdb_rs.Base.{
  ℕ, ◌<◌, ◌≡◌, ◌↔◌, refl, [], ◌∷◌, zero, suc, arith, ok, ◌>>=◌, replicate, from_le,
}
use boltdb_rs.Page.{Page, is_leaf_page}
use boltdb_rs.Page.Elements.{decode_leaf}
use boltdb_rs.Inode.{at, binary_search_by, compare_bytes}
use boltdb_rs.Inode.Codec.{read_inode_from_page}
use boltdb_rs.Inode.Reading.{Readable}
use boltdb_rs.Inode.Lookup.{KeysAscend, key_at, binary_search_by-read_inode_from_page}
use boltdb_rs.Tests.Pages.{data_page, word4}
use boltdb_rs.Tests.Params.{bitflags}

-- A leaf page on which the bytes that are taken for keys ascend.
abbrev ordered_page : Page
ordered_page = record data_page {
  body =
      word4 1
        (word4 26 (word4 5 (word4 5 (word4 0 (word4 32 (word4 3 (word4 4 (replicate 60 0))))))));
}

ordered_page-Readable : (j : ℕ) → j < 2 → Readable (is_leaf_page ordered_page) j ordered_page
unfolding decode_leaf from_le is_leaf_page
ordered_page-Readable zero h = record {
  keyed = omega arith;
  key_inside = omega arith;
  value_inside = omega arith;
}
ordered_page-Readable (suc zero) h = record {
  keyed = omega arith;
  key_inside = omega arith;
  value_inside = omega arith;
}
ordered_page-Readable (suc (suc j)) h = absurd (omega arith)

ordered_page-KeysAscend : KeysAscend ordered_page
unfolding decode_leaf from_le is_leaf_page compare_bytes
ordered_page-KeysAscend i zero h below = absurd (omega arith)
ordered_page-KeysAscend zero (suc zero) h below = refl
ordered_page-KeysAscend (suc i) (suc zero) h below = absurd (omega arith)
ordered_page-KeysAscend i (suc (suc j)) h below = absurd (omega arith)

binary_search_by-read_inode_from_page_example :
    ((read_inode_from_page ordered_page >>= binary_search_by (32 ∷ 0 ∷ 0 ∷ [])) ≡ ok (at 1))
    ↔ ((1 < ordered_page.count) × (32 ∷ 0 ∷ 0 ∷ [] ≡ key_at ordered_page 1))
binary_search_by-read_inode_from_page_example =
    binary_search_by-read_inode_from_page ordered_page (omega arith) (omega arith)
      ordered_page-Readable ordered_page-KeysAscend (32 ∷ 0 ∷ 0 ∷ []) 1
