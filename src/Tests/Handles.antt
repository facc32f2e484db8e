-- ===== src/Tests/Handles.antt =====
-- Handles to transactions and databases, at concrete inputs.
use boltdb_rs.Base.{ℕ, ◌<◌, ◌≡◌, ◌↔◌, refl, arith, none, some, [], ◌∷◌}
use boltdb_rs.Shared
use boltdb_rs.Shared.{create, release}
use boltdb_rs.Shared.Lifetime.{World, Reach, here, next, make, drop_one, empty_world, count}
use boltdb_rs.Tx.Weak.{upgrade-from_iff, upgrade as upgrade_tx, from as from_tx, new as new_tx}
use boltdb_rs.Db.Weak.{upgrade-from_held_iff, upgrade as upgrade_db, from as from_db, new as new_db}

-- One value is created, at address 0, and its handle dropped.
abbrev made : World ℕ
made = record { arcs = (create 7 (empty_world {A = ℕ}).arcs).1; held = 0 ∷ [] }

abbrev dropped : World ℕ
dropped = record { arcs = release 0 made.arcs; held = [] }

made-Reach : Reach empty_world made
made-Reach = next here (make empty_world 7)

dropped-Reach : Reach empty_world dropped
dropped-Reach = next made-Reach (drop_one made 0 (omega arith))

upgrade-from_iff_example :
    ((upgrade_tx (from_tx (record { arc = 0 })) made.arcs).0 ≡ some (record { arc = 0 })
      ↔ 0 < count 0 made.held)
    × ((upgrade_tx (from_tx (record { arc = 0 })) made.arcs).0 ≡ none ↔ count 0 made.held ≡ 0)
    × ((upgrade_tx new_tx made.arcs).0 ≡ none)
upgrade-from_iff_example = upgrade-from_iff made (record { arc = 0 }) made-Reach

upgrade-from_held_iff_example :
    ((upgrade_db (from_db (record { arc = 0 })) dropped.arcs).0 ≡ some (record { arc = 0 })
      ↔ 0 < count 0 dropped.held)
    × ((upgrade_db (from_db (record { arc = 0 })) dropped.arcs).0 ≡ none ↔ count 0 dropped.held ≡ 0)
    × ((upgrade_db new_db dropped.arcs).0 ≡ none)
upgrade-from_held_iff_example = upgrade-from_held_iff dropped (record { arc = 0 }) dropped-Reach

no_db : (upgrade_db new_db made.arcs).0 ≡ none
unfolding upgrade_db new_db Shared.upgrade
no_db = refl
