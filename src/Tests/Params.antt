-- ===== src/Tests/Params.antt =====
-- Concrete functions for the two crates that the models take as parameters.
use Prim.Native.Nat.{bit_xor}
use boltdb_rs.Base.{ℕ, ◌*◌, ◌%◌, ◌^◌, ◌<◌, ◌==◌, refl, bit_and, List, [], ◌∷◌, arith}
use boltdb_rs.Flags.{Bitflags}
use boltdb_rs.Meta.{Hasher}

instance abbrev pub bitflags : Bitflags
bitflags = record { contains = λ f o. bit_and f o == o; contains_lem = λ f o. refl }

-- FNV-1a with 64 bits.
abbrev pub fnv1a_from : ℕ → List ℕ → ℕ
fnv1a_from h [] = h
fnv1a_from h (b ∷ bs) = fnv1a_from ((bit_xor h b * 0x100000001b3) % 2 ^ 64) bs

fnv1a_from-lt : (h : ℕ) (bs : List ℕ) → h < 2 ^ 64 → fnv1a_from h bs < 2 ^ 64
fnv1a_from-lt h [] fits = fits
fnv1a_from-lt h (b ∷ bs) fits =
    fnv1a_from-lt ((bit_xor h b * 0x100000001b3) % 2 ^ 64) bs (omega arith)

pub fnv1a-lt : (bs : List ℕ) → fnv1a_from 0xcbf29ce484222325 bs < 2 ^ 64
fnv1a-lt bs = fnv1a_from-lt 0xcbf29ce484222325 bs (omega arith)

instance abbrev pub fnv : Hasher
fnv = record { hash = fnv1a_from 0xcbf29ce484222325; hash-lt = fnv1a-lt }
