-- ===== src/Migrations/Restarts.antt =====
-- main.go: the loop over the migrations, started again after it was interrupted.
use antflow_server.Base.{Bool, true, ◌≡◌, refl, some, List, [], ◌∷◌, Bool-cases, inl, inr, str_eq}
use antflow_server.Store.World.{next_fault, rest_faults}
use antflow_server.Migrations.{Schema, Statement, exec_all, migrate, migrate_all, migrations}

abbrev pub empty : Schema
empty = record { extensions = []; tables = []; indexes = [] }

-- What all the migrations make of an empty database.
unfoldable pub full : Schema
unfolding migrate_all migrations
full = (migrate_all [] migrations empty).1

-- A start whose statements do not fail leads to the full schema.
abbrev pub Completes : Schema → Type 0
Completes s = migrate_all [] migrations s ≡ (true, full)

-- Each stop on the way through the migrations is a schema from which a start completes.
abbrev pub Stages : List (List Statement) → Schema → Type 0
Stages [] s = Completes s
Stages (m ∷ ms) s = Completes s × ((s' : Schema) × (exec_all m s ≡ some s') × Stages ms s')

stopped-Completes :
    (faults : List Bool) (ms : List (List Statement)) (s : Schema)
    → Stages ms s
    → Completes (migrate_all faults ms s).1
unfolding migrate_all migrate
stopped-Completes faults [] s g = g
stopped-Completes faults (m ∷ ms) s (c, (s', e, g)) = elim (Bool-cases (next_fault faults)) [
  | inl f ↦ rw f c
  | inr f ↦ rw (f, e) (stopped-Completes (rest_faults faults) ms s' g)
]

-- Each migration leaves the schema as it is.
abbrev pub Done : List (List Statement) → Schema → Type 0
Done [] s = Unit {0}
Done (m ∷ ms) s = (exec_all m s ≡ some s) × Done ms s

migrate_all-Done :
    (faults : List Bool) (ms : List (List Statement)) (s : Schema)
    → Done ms s
    → (migrate_all faults ms s).1 ≡ s
unfolding migrate_all migrate
migrate_all-Done faults [] s d = refl
migrate_all-Done faults (m ∷ ms) s d = elim (Bool-cases (next_fault faults)) [
  | inl f ↦ rw f refl
  | inr f ↦ rw (f, d.0) (migrate_all-Done (rest_faults faults) ms s d.1)
]

full-Done : Done migrations full
unfolding full migrate_all migrations exec_all str_eq
full-Done = (refl, (refl, (refl, (refl, (refl, (refl, (refl, (refl, tt))))))))

empty-Stages : Stages migrations empty
unfolding full migrate_all migrations exec_all str_eq
empty-Stages = (
  refl,
  (
    _,
    refl,
    (
      refl,
      (
        _,
        refl,
        (
          refl,
          (
            _,
            refl,
            (
              refl,
              (
                _,
                refl,
                (refl, (_, refl, (refl, (_, refl, (refl, (_, refl, (refl, (_, refl, refl)))))))),
              ),
            ),
          ),
        ),
      ),
    ),
  ),
)

-- However the first start on an empty database was cut short, at whichever migration, a start whose
-- statements do not fail then gets through them all, to the schema that one clean start makes; and
-- from there on no start, whichever of its migrations fail, changes the schema.
pub migrate_all-migrations :
    (faults more : List Bool)
    → (migrate_all [] migrations (migrate_all faults migrations empty).1 ≡ (true, full))
      × ((migrate_all more migrations full).1 ≡ full)
migrate_all-migrations faults more = (
  stopped-Completes faults migrations empty empty-Stages,
  migrate_all-Done more migrations full full-Done,
)
