-- ===== src/Examples/Stores/Registries.antt =====
-- storage/store.go and sqlite/pool.go, the registry, labels, queries and pools: the theorems at concrete inputs.
use sqliteproxy.Base.{◌≡◌, refl, codes, text_eq}
use sqliteproxy.Effect.{ok, err}
use sqliteproxy.Errors.{not_found}
use sqliteproxy.Storage.Consistency.{get-publish}
use sqliteproxy.Storage.Registry.{publish, get, get_by_username}
use sqliteproxy.Examples.Stores.{empty, one, tenant}

get-publish_example :
    (get (codes "db_1a") one ≡ ok tenant) × (get_by_username (codes "db_1a") one ≡ err not_found)
unfolding publish text_eq get_by_username
get-publish_example = get-publish tenant empty one (codes "db_1a") refl refl
