-- ===== src/Tx/Weak.antt =====
-- `Tx` and `WeakTx` of tx.rs: handles to a shared transaction.
use boltdb_rs.Base.{ℕ, ◌<◌, ◌≡◌, ◌↔◌, ap, refl, arith, Option, none, some}
use mathlib.Core.Option
use boltdb_rs.Shared
use boltdb_rs.Shared.{Arcs}
use boltdb_rs.Shared.Lifetime.{World, Reach, empty_world, count, upgrade_iff}

pub record Tx : Type 0 where
  pub arc : ℕ

pub record WeakTx : Type 0 where
  pub weak : Option ℕ

unfoldable pub new : WeakTx
new = record { weak = none }

unfoldable pub from : Tx → WeakTx
from tx = record { weak = some tx.arc }

abbrev pub to_tx : ℕ → Tx
to_tx id = record { arc = id }

map-to_tx_iff : (o : Option ℕ) (tx : Tx) → (Option.map to_tx o ≡ some tx) ↔ (o ≡ some tx.arc)
map-to_tx_iff none tx = ground arith
map-to_tx_iff (some id) tx = ground arith

map-to_tx-none_iff : (o : Option ℕ) → (Option.map to_tx o ≡ none) ↔ (o ≡ none)
map-to_tx-none_iff none = ground arith
map-to_tx-none_iff (some id) = ground arith

module _ {ℓ} {A : Type ℓ} where
  unfoldable pub upgrade : WeakTx → Arcs A → Option Tx × Arcs A
  upgrade w s = (Option.map to_tx (Shared.upgrade w.weak s).0, (Shared.upgrade w.weak s).1)

  upgrade-none : (s : Arcs A) → (Shared.upgrade none s).0 ≡ none
  unfolding Shared.upgrade
  upgrade-none s = refl

  -- In every state that is reached from the start by creating, cloning, upgrading and dropping
  -- handles, the weak handle of a transaction upgrades to that transaction exactly while a strong
  -- handle is held, and to none exactly otherwise; a new weak handle upgrades to none.
  pub upgrade-from_iff :
      (w : World A) (tx : Tx)
      → Reach empty_world w
      → ((upgrade (from tx) w.arcs).0 ≡ some tx ↔ 0 < count tx.arc w.held)
        × ((upgrade (from tx) w.arcs).0 ≡ none ↔ count tx.arc w.held ≡ 0)
        × ((upgrade new w.arcs).0 ≡ none)
  unfolding upgrade from new
  upgrade-from_iff w tx r =
      let (live, dead) = upgrade_iff w tx.arc r in
      let o = (Shared.upgrade (some tx.arc) w.arcs).0 in
      (
        ground (arith, live, map-to_tx_iff o tx),
        ground (arith, dead, map-to_tx-none_iff o),
        ap (Option.map to_tx) (upgrade-none w.arcs),
      )
