-- ===== src/Storage/Tables.antt =====
-- The structs of a page as tables of words: `repr(C)`, which leaves no gaps in them.
use boltdb_rs.Base.{ℕ, ◌≡◌, refl, List, [], ◌∷◌, ◌++◌, le_bytes}
use boltdb_rs.InBucket
use boltdb_rs.Memory.Words.{words}
use boltdb_rs.Page.Elements.{LeafPageElement, BranchPageElement, encode_leaf, encode_branch}
use boltdb_rs.Meta
use boltdb_rs.Meta.{Meta, Hasher, as_slice_no_checksum, set_checksum, sum64}
use boltdb_rs.Storage.{}
use boltdb_rs.Storage.Puts.{}

-- The structs as tables of words.
abbrev pub leaf_words : LeafPageElement → List (ℕ × ℕ)
leaf_words e = (4, e.flags) ∷ (4, e.pos) ∷ (4, e.ksize) ∷ (4, e.vsize) ∷ []

abbrev pub branch_words : BranchPageElement → List (ℕ × ℕ)
branch_words e = (4, e.pos) ∷ (4, e.ksize) ∷ (8, e.pgid) ∷ []

-- A meta without its checksum, and with a checksum behind.
abbrev pub meta_words : Meta → List (ℕ × ℕ)
meta_words m =
    (4, m.magic)
    ∷ (4, m.version)
    ∷ (4, m.page_size)
    ∷ (4, m.flags)
    ∷ (8, m.root.root)
    ∷ (8, m.root.sequence)
    ∷ (8, m.freelist)
    ∷ (8, m.pgid)
    ∷ (8, m.txid)
    ∷ []

abbrev pub checked_words : ℕ → Meta → List (ℕ × ℕ)
checked_words sum m = meta_words m ++ (8, sum) ∷ []

pub encode_leaf-words : (e : LeafPageElement) → encode_leaf e ≡ words (leaf_words e)
unfolding encode_leaf le_bytes
encode_leaf-words e = refl

pub encode_branch-words : (e : BranchPageElement) → encode_branch e ≡ words (branch_words e)
unfolding encode_branch le_bytes
encode_branch-words e = refl

pub id-words : (v : ℕ) → le_bytes 8 v ≡ words ((8, v) ∷ [])
unfolding le_bytes
id-words v = refl

pub as_slice-words : (m : Meta) → Meta.as_slice m ≡ words (checked_words m.checksum m)
unfolding Meta.as_slice as_slice_no_checksum InBucket.encode le_bytes
as_slice-words m = refl
