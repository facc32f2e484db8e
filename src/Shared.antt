-- ===== src/Shared.antt =====
-- Reference-counted allocations, as `Arc`, `Rc` and their `Weak` give them: an address holds its
-- value as long as some strong handle refers to it. A handle is the address, and a weak handle
-- that was never attached has none.
pub mod Lifetime
use boltdb_rs.Base.{ℕ, ◌+◌, ◌-◌, ◌==◌, Option, none, some, if◌then◌else◌}

-- `cells` has the value and the number of strong handles of each address that is alive; from
-- `fresh` on no address was used yet.
pub record Arcs {ℓ} (A : Type ℓ) : Type ℓ where
  pub fresh : ℕ
  pub cells : ℕ → Option (A × ℕ)

module _ {ℓ} {A : Type ℓ} where
  abbrev pub update : ℕ → Option (A × ℕ) → (ℕ → Option (A × ℕ)) → ℕ → Option (A × ℕ)
  update id c cells j = if j == id then c else cells j

  unfoldable pub create : A → Arcs A → ℕ × Arcs A
  create a s =
      (s.fresh, record { fresh = s.fresh + 1; cells = update s.fresh (some (a, 1)) s.cells })

  unfoldable pub clone : ℕ → Arcs A → Arcs A
  clone id s = elim (s.cells id) [
    | none ↦ s
    | some (a, k) ↦ record s { cells = update id (some (a, k + 1)) s.cells }
  ]

  -- The last strong handle takes the value with it.
  unfoldable pub release : ℕ → Arcs A → Arcs A
  release id s = elim (s.cells id) [
    | none ↦ s
    | some (a, k) ↦ record s {
      cells = update id (if k == 1 then none else some (a, k - 1)) s.cells;
    }
  ]

  -- A new strong handle, if the value is still there.
  unfoldable pub upgrade : Option ℕ → Arcs A → Option ℕ × Arcs A
  unfolding clone
  upgrade none s = (none, s)
  upgrade (some id) s = elim (s.cells id) [ none ↦ (none, s) | some (a, k) ↦ (some id, clone id s) ]
