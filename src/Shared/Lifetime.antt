-- ===== src/Shared/Lifetime.antt =====
-- How long a reference-counted value lives: the strong handles that a program holds, and what it
-- may do with them.
use boltdb_rs.Base.{
  ℕ, ◌+◌, ◌≤◌, ◌<◌, ◌==◌, ◌≡◌, ◌↔◌, ◌⊎◌, inl, refl, arith, List, [], ◌∷◌, Option, none, some,
  if◌then◌else◌,
}
use boltdb_rs.Shared.{Arcs, create, clone, release, upgrade}

abbrev pub count : ℕ → List ℕ → ℕ
count id [] = 0
count id (h ∷ hs) = (if h == id then 1 else 0) + count id hs

abbrev pub remove_one : ℕ → List ℕ → List ℕ
remove_one id [] = []
remove_one id (h ∷ hs) = if h == id then hs else h ∷ remove_one id hs

count-remove_one :
    (j id : ℕ) (hs : List ℕ)
    → 0 < count id hs
    → count j (remove_one id hs) + (if id == j then 1 else 0) ≡ count j hs
count-remove_one j id [] h = absurd (omega arith)
count-remove_one j id (x ∷ hs) h = ground (arith, count-remove_one j id hs)

-- The allocations, and the strong handles that the program holds, one entry for each.
pub record World {ℓ} (A : Type ℓ) : Type ℓ where
  pub arcs : Arcs A
  pub held : List ℕ

module _ {ℓ} {A : Type ℓ} where
  -- A step of some thread. A weak handle may be upgraded at any time; only a handle that is held
  -- can be cloned or dropped.
  pub data Step : World A → World A → Type ℓ where
    make :
        (w : World A) (a : A)
        → Step w (record { arcs = (create a w.arcs).1; held = w.arcs.fresh ∷ w.held })
    share :
        (w : World A) (id : ℕ)
        → 0 < count id w.held
        → Step w (record { arcs = clone id w.arcs; held = id ∷ w.held })
    revive :
        (w : World A) (id : ℕ)
        → (upgrade (some id) w.arcs).0 ≡ some id
        → Step w (record { arcs = (upgrade (some id) w.arcs).1; held = id ∷ w.held })
    miss :
        (w : World A) (weak : Option ℕ)
        → (upgrade weak w.arcs).0 ≡ none
        → Step w (record w { arcs = (upgrade weak w.arcs).1 })
    drop_one :
        (w : World A) (id : ℕ)
        → 0 < count id w.held
        → Step w (record { arcs = release id w.arcs; held = remove_one id w.held })

  pub data Reach (s : World A) : World A → Type ℓ where
    here : Reach s s
    next : {t u : World A} → Reach s t → Step t u → Reach s u

  abbrev pub strong : ℕ → Arcs A → ℕ
  strong id s = elim (s.cells id) [ none ↦ 0 | some (a, k) ↦ k ]

  -- Each address has as many strong handles as are held, a value only if there is one, and no
  -- value where nothing was allocated.
  pub record IsCounted (w : World A) : Type ℓ where
    pub counted : (id : ℕ) → strong id w.arcs ≡ count id w.held
    pub alive : (id : ℕ) → (w.arcs.cells id ≡ none) ⊎ (0 < strong id w.arcs)
    pub unused : (id : ℕ) → w.arcs.fresh ≤ id → w.arcs.cells id ≡ none

  pub Step-IsCounted : {t u : World A} → Step t u → IsCounted t → IsCounted u
  unfolding create clone release upgrade
  Step-IsCounted (make w a) c = record {
    counted = λ id. ground (arith, c.counted id, c.unused id);
    alive = λ id. ground (arith, c.alive id);
    unused = λ id h. ground (arith, c.unused id);
  }
  Step-IsCounted (share w id h) c = record {
    counted = λ j. ground (arith, c.counted j, c.counted id);
    alive = λ j. ground (arith, c.alive j);
    unused = λ j b. ground (arith, c.unused j, c.counted id);
  }
  Step-IsCounted (revive w id h) c = record {
    counted = λ j. ground (arith, c.counted j, c.counted id);
    alive = λ j. ground (arith, c.alive j);
    unused = λ j b. ground (arith, c.unused j, c.counted id);
  }
  Step-IsCounted (miss w none h) c = c
  Step-IsCounted (miss w (some id) h) c = record {
    counted = λ j. ground (arith, c.counted j);
    alive = λ j. ground (arith, c.alive j);
    unused = λ j b. ground (arith, c.unused j);
  }
  Step-IsCounted (drop_one w id h) c = record {
    counted = λ j. ground (arith, c.counted j, c.counted id, count-remove_one j id w.held);
    alive = λ j. ground (arith, c.alive j);
    unused = λ j b. ground (arith, c.unused j);
  }

  pub Reach-IsCounted : {s t : World A} → IsCounted s → Reach s t → IsCounted t
  Reach-IsCounted c here = c
  Reach-IsCounted c (next r st) = Step-IsCounted st (Reach-IsCounted c r)

  -- The start: nothing is allocated, and nothing is held.
  abbrev pub empty_world : World A
  empty_world = record { arcs = record { fresh = 0; cells = λ id. none }; held = [] }

  empty-IsCounted : IsCounted empty_world
  empty-IsCounted = record { counted = λ id. refl; alive = λ id. inl refl; unused = λ id h. refl }

  -- From the start, an upgrade gives a strong handle to the same value exactly while the program
  -- holds one, and otherwise none.
  pub upgrade_iff :
      (w : World A) (id : ℕ)
      → Reach empty_world w
      → ((upgrade (some id) w.arcs).0 ≡ some id ↔ 0 < count id w.held)
        × ((upgrade (some id) w.arcs).0 ≡ none ↔ count id w.held ≡ 0)
  unfolding upgrade
  upgrade_iff w id r =
      let c : IsCounted w = Reach-IsCounted empty-IsCounted r in
      ground (arith, c.counted id, c.alive id)
