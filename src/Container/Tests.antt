-- ===== src/Container/Tests.antt =====
-- Runs of system/container/service_container.py with three plugins.
use capability_os.Base.{Distinct}
use capability_os.Base.{String, ◌≡◌, ◌≢◌, refl, true, none, List, [], ◌∷◌, Dict, keys, contains}
use capability_os.Exec.{Result, ok, raise, other}
use capability_os.Container.{registered, Shared, Plugin, ServiceContainer, kahn, resolve_order}
use capability_os.Container.Once.{IsOrderOf}
use capability_os.Container.Resolved.{resolve_order-IsOrderOf}
use capability_os.Container.Dependencies.{IsDependencyOrder, resolve_order-IsDependencyOrder}
use capability_os.Container.Order.{kahn-ne-none}
use capability_os.Container.Lifecycle.{initialize_all, start_all}
use capability_os.Container.Lifecycle.States.{IsPhased, lifecycle-IsPhased}

-- The world is the list of the methods that were called.
abbrev called : String → Shared (List String) → Result (Unit {0}) × Shared (List String)
called what s = (ok tt, record s { world = what ∷ s.world })

abbrev plugin : String → List String → Plugin (List String)
plugin name deps = record {
  dependencies = deps;
  initialize = λ tags. called name;
  name = name;
  version = "1";
  health_check = none;
  register_routes = none;
  start = called name;
  stop = called name;
}

abbrev broken : Plugin (List String)
broken = record (plugin "agent" ("core" ∷ "absent" ∷ [])) {
  start = λ s. (raise other "no model", s);
}

abbrev plugins : Dict (Plugin (List String))
plugins =
    ("agent", broken) ∷ ("core", plugin "core" []) ∷ ("loop", plugin "loop" ("loop" ∷ [])) ∷ []

abbrev container : ServiceContainer (List String)
container = record {
  plugins = plugins;
  manifests = [];
  states = ("agent", registered) ∷ ("core", registered) ∷ ("loop", registered) ∷ [];
  init_errors = [];
  shared = record { services = []; world = [] };
}

in_order : resolve_order plugins ≡ "core" ∷ "agent" ∷ "loop" ∷ []
unfolding resolve_order
in_order = refl

started_with_error : (start_all (initialize_all container).1).0 ≡ "agent: no model" ∷ []
unfolding start_all initialize_all
started_with_error = refl

distinct : Distinct (keys plugins)
unfolding keys
distinct = (refl, (refl, (refl, tt)))

resolve_order-IsOrderOf_example : IsOrderOf (keys plugins) (resolve_order plugins)
resolve_order-IsOrderOf_example = resolve_order-IsOrderOf plugins distinct

known : contains (keys plugins) "agent" ≡ true
unfolding keys
known = refl

lifecycle-IsPhased_example : IsPhased "agent" container
lifecycle-IsPhased_example = lifecycle-IsPhased "agent" container known

kahn-ne-none_example : kahn plugins ≢ none
kahn-ne-none_example = kahn-ne-none plugins

resolve_order-IsDependencyOrder_example : IsDependencyOrder plugins (resolve_order plugins)
resolve_order-IsDependencyOrder_example = resolve_order-IsDependencyOrder plugins distinct
