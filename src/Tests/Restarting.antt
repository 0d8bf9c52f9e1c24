-- ===== src/Tests/Restarting.antt =====
-- A server whose first start failed at the fourth migration.
use antflow_server.Base.{str_eq, Bool, true, false, ◌≡◌, refl, List, [], ◌∷◌, map}
use antflow_server.Migrations.{migrate_all, migrations}
use antflow_server.Migrations.Restarts.{empty, full, migrate_all-migrations}

abbrev fourth_fails : List Bool
fourth_fails = false ∷ false ∷ false ∷ true ∷ []

-- Three tables are there then, and all eight in the end.
three_tables :
    map (λ t. t.name) (migrate_all fourth_fails migrations empty).1.tables
    ≡ "namespace" ∷ "workflow_definition" ∷ "workflow_definition_step" ∷ []
unfolding migrate_all migrations str_eq
three_tables = refl

migrate_all-migrations_example :
    (migrate_all [] migrations (migrate_all fourth_fails migrations empty).1 ≡ (true, full))
    × ((migrate_all (true ∷ []) migrations full).1 ≡ full)
migrate_all-migrations_example = migrate_all-migrations fourth_fails (true ∷ [])
