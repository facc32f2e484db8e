-- ===== src/Db/Weak.antt =====
-- `DB` and `WeakDB` of db.rs: handles to a shared database.
use boltdb_rs.Base.{ℕ, ◌<◌, ◌≡◌, ◌↔◌, refl, arith, ap, Option, none, some}
use mathlib.Core.Option
use boltdb_rs.Shared
use boltdb_rs.Shared.{Arcs}
use boltdb_rs.Shared.Lifetime.{World, Reach, empty_world, count, upgrade_iff}

pub record Db : Type 0 where
  pub arc : ℕ

pub record WeakDb : Type 0 where
  pub weak : Option ℕ

unfoldable pub new : WeakDb
new = record { weak = none }

unfoldable pub from : Db → WeakDb
from db = record { weak = some db.arc }

abbrev pub to_db : ℕ → Db
to_db id = record { arc = id }

map-to_db_iff : (o : Option ℕ) (db : Db) → (Option.map to_db o ≡ some db) ↔ (o ≡ some db.arc)
map-to_db_iff none db = ground arith
map-to_db_iff (some id) db = ground arith

map-to_db-none_iff : (o : Option ℕ) → (Option.map to_db o ≡ none) ↔ (o ≡ none)
map-to_db-none_iff none = ground arith
map-to_db-none_iff (some id) = ground arith

module _ {ℓ} {A : Type ℓ} where
  unfoldable pub upgrade : WeakDb → Arcs A → Option Db × Arcs A
  upgrade w s = (Option.map to_db (Shared.upgrade w.weak s).0, (Shared.upgrade w.weak s).1)

  upgrade-none : (s : Arcs A) → (Shared.upgrade none s).0 ≡ none
  unfolding Shared.upgrade
  upgrade-none s = refl

  -- In every state that is reached from the start by creating, cloning, upgrading and dropping
  -- handles, the weak handle of a database upgrades to that database exactly while a strong handle
  -- is held, and to none exactly otherwise; a new weak handle upgrades to none.
  pub upgrade-from_held_iff :
      (w : World A) (db : Db)
      → Reach empty_world w
      → ((upgrade (from db) w.arcs).0 ≡ some db ↔ 0 < count db.arc w.held)
        × ((upgrade (from db) w.arcs).0 ≡ none ↔ count db.arc w.held ≡ 0)
        × ((upgrade new w.arcs).0 ≡ none)
  unfolding upgrade from new
  upgrade-from_held_iff w db r =
      let (live, dead) = upgrade_iff w db.arc r in
      let o = (Shared.upgrade (some db.arc) w.arcs).0 in
      (
        ground (arith, live, map-to_db_iff o db),
        ground (arith, dead, map-to_db-none_iff o),
        ap (Option.map to_db) (upgrade-none w.arcs),
      )
