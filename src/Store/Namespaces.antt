-- ===== src/Store/Namespaces.antt =====
-- infrastructure/persistence/namespace_repository.go.
use antflow_server.Base.{Bool, not, ◌||◌, [], ◌∷◌, ◌++◌, String, str_eq, exists, find}
use antflow_server.Domain.{Namespace, not_found}
use antflow_server.Store.World.{Db, M, ◌>>=◌, stmt, query, base_query, insert_if, or_throw}

-- PRIMARY KEY (id), UNIQUE (name)
unfoldable pub namespace_fits : Namespace → Db → Bool
namespace_fits ns d = not (exists (λ r. str_eq r.id ns.id || str_eq r.name ns.name) d.namespaces)

unfoldable pub create : Namespace → M (Unit {0})
unfolding namespace_fits
create ns =
    stmt λ d. insert_if (namespace_fits ns d) (record d { namespaces = d.namespaces ++ ns ∷ [] })

unfoldable pub get_by_id : String → M Namespace
get_by_id id = do row ← query λ d. find (λ r. str_eq r.id id) d.namespaces; or_throw not_found row

unfoldable pub get_by_name : String → M Namespace
get_by_name name = do
  row ← base_query λ d. find (λ r. str_eq r.name name) d.namespaces
  or_throw not_found row
