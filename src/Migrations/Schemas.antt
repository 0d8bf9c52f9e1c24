-- ===== src/Migrations/Schemas.antt =====
-- The DDL of infrastructure/persistence: what a statement makes of a schema, by the names in it.
use antflow_server.Base.{
  ◌&&◌, Bool, true, Option, none, some, List, [], ◌∷◌, ◌++◌, String, str_eq, exists, find, update,
  delete, if◌then◌else◌,
}

pub record Table : Type 0 where
  pub name : String
  pub columns : List String
  pub constraints : List String

pub record Schema : Type 0 where
  pub extensions : List String
  pub tables : List Table
  pub indexes : List String

-- Where the object is there already (or, for a DROP, is not there): `IF NOT EXISTS` and `IF EXISTS` skip
-- the statement, without them it fails.
pub data Otherwise : Type 0 where
  skip refuse : Otherwise

-- A table comes with the tables that its foreign keys name, an index with its table.
pub data Statement : Type 0 where
  create_extension : Otherwise → String → Statement
  create_table : Otherwise → Table → List String → Statement
  create_index : Otherwise → String → String → Statement
  add_column drop_constraint : Otherwise → String → String → Statement
  add_constraint : String → String → Statement

abbrev pub or_else : Otherwise → Schema → Option Schema
or_else skip s = some s
or_else refuse s = none

abbrev pub is_table : String → Table → Bool
is_table n t = str_eq t.name n

abbrev pub change_table : String → (Table → Table) → Schema → Schema
change_table n f s = record s { tables = update (is_table n) f s.tables }

abbrev pub all_there : List String → List Table → Bool
all_there [] ts = true
all_there (n ∷ ns) ts = exists (is_table n) ts && all_there ns ts

add_column_to : Option Table → Otherwise → String → Schema → Option Schema
add_column_to none o c s = none
add_column_to (some t) o c s =
    if exists (str_eq c) t.columns
    then or_else o s
    else some (change_table t.name (λ t. record t { columns = t.columns ++ c ∷ [] }) s)

drop_constraint_of : Option Table → Otherwise → String → Schema → Option Schema
drop_constraint_of none o c s = none
drop_constraint_of (some t) o c s =
    if exists (str_eq c) t.constraints
    then some
        (change_table t.name (λ t. record t { constraints = delete (str_eq c) t.constraints }) s)
    else or_else o s

add_constraint_to : Option Table → String → Schema → Option Schema
add_constraint_to none c s = none
add_constraint_to (some t) c s =
    if exists (str_eq c) t.constraints
    then none
    else some (change_table t.name (λ t. record t { constraints = t.constraints ++ c ∷ [] }) s)

unfoldable pub exec : Statement → Schema → Option Schema
unfolding add_column_to drop_constraint_of add_constraint_to
exec (create_extension o n) s =
    if exists (str_eq n) s.extensions
    then or_else o s
    else some (record s { extensions = s.extensions ++ n ∷ [] })
exec (create_table o t refs) s =
    if exists (is_table t.name) s.tables
    then or_else o s
    else if all_there refs s.tables
    then some (record s { tables = s.tables ++ t ∷ [] })
    else none
exec (create_index o n t) s =
    if exists (str_eq n) s.indexes
    then or_else o s
    else if exists (is_table t) s.tables
    then some (record s { indexes = s.indexes ++ n ∷ [] })
    else none
exec (add_column o t c) s = add_column_to (find (is_table t) s.tables) o c s
exec (drop_constraint o t c) s = drop_constraint_of (find (is_table t) s.tables) o c s
exec (add_constraint t c) s = add_constraint_to (find (is_table t) s.tables) c s

abbrev pub exec_rest : Option Schema → (Schema → Option Schema) → Option Schema
exec_rest none f = none
exec_rest (some s) f = f s

-- The statements of one `Exec`, which PostgreSQL runs in one transaction.
unfoldable pub exec_all : List Statement → Schema → Option Schema
unfolding exec
exec_all [] s = some s
exec_all (q ∷ qs) s = exec_rest (exec q s) (exec_all qs)
