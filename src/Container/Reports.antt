-- ===== src/Container/Reports.antt =====
-- The routes, the health checks and the status of system/container/service_container.py.
use capability_os.Base.{
  String, true, false, Option, none, some, List, [], ◌∷◌, if◌then◌else◌, ◌⋯◌, Dict, lookup,
}
use capability_os.Exec.{Result, ok, err}
use capability_os.Container.{
  PluginState, registered, initializing, initialized, starting, running, stopping, stopped, error,
  Shared, Health, Plugin, ServiceContainer, resolve_order,
}
use capability_os.Container.Lifecycle.{is_running}

-- PluginState.value
unfoldable pub state_name : PluginState → String
state_name registered = "registered"
state_name initializing = "initializing"
state_name initialized = "initialized"
state_name starting = "starting"
state_name running = "running"
state_name stopping = "stopping"
state_name stopped = "stopped"
state_name error = "error"

-- str(PluginState)
unfoldable pub state_text : PluginState → String
state_text registered = "PluginState.REGISTERED"
state_text initializing = "PluginState.INITIALIZING"
state_text initialized = "PluginState.INITIALIZED"
state_text starting = "PluginState.STARTING"
state_text running = "PluginState.RUNNING"
state_text stopping = "PluginState.STOPPING"
state_text stopped = "PluginState.STOPPED"
state_text error = "PluginState.ERROR"

pub record PluginStatus : Type 0 where
  pub state : String
  pub name : String
  pub version : String
  pub error : Option String

module _ {W : Type 0} where
  unfoldable pub route_plugin : Option (Plugin W) → ServiceContainer W → ServiceContainer W
  route_plugin none c = c
  route_plugin (some p) c = elim p.register_routes [
    | none ↦ c
    | some routes ↦ record c { shared = (routes c.shared).1 }
  ]

  unfoldable pub route_each : List String → ServiceContainer W → ServiceContainer W
  unfolding route_plugin lookup
  route_each [] c = c
  route_each (pid ∷ pids) c = route_each pids (route_plugin (lookup pid c.plugins) c)

  -- An exception of a plugin is logged, and the others go on.
  unfoldable pub register_all_routes : ServiceContainer W → ServiceContainer W
  unfolding route_each resolve_order
  register_all_routes c = route_each (resolve_order c.plugins) c

  abbrev health_reply : Result Health × Shared W → ServiceContainer W → Health × ServiceContainer W
  health_reply (ok h, s) c = (h, record c { shared = s })
  health_reply (err e, s) c = (
    record { healthy = false; message = "Health check failed: " ⋯ e.message },
    record c { shared = s },
  )

  unfoldable pub check_plugin_health : String → ServiceContainer W → Health × ServiceContainer W
  unfolding lookup is_running state_text
  check_plugin_health plugin_id c = elim (lookup plugin_id c.plugins) [
    | none ↦ (record { healthy = false; message = "Plugin '" ⋯ plugin_id ⋯ "' not found" }, c)
    | some p ↦
        if is_running (lookup plugin_id c.states)
        then (elim p.health_check [
          | none ↦ (record { healthy = true; message = "No health check declared" }, c)
          | some check ↦ health_reply (check c.shared) c
        ])
        else (
          record {
            healthy = false;
            message =
                "Plugin not running (state: "
                ⋯ elim (lookup plugin_id c.states) [ none ↦ "?" | some s ↦ state_text s ]
                ⋯ ")";
          },
          c,
        )
  ]

  unfoldable pub check_all_health :
      Dict (Plugin W) → ServiceContainer W → Dict Health × ServiceContainer W
  unfolding check_plugin_health
  check_all_health [] c = ([], c)
  check_all_health ((pid, p) ∷ plugins) c =
      let (h, c1) = check_plugin_health pid c in
      let (rest, c2) = check_all_health plugins c1 in ((pid, h) ∷ rest, c2)

  unfoldable pub get_status : Dict (Plugin W) → ServiceContainer W → Dict PluginStatus
  unfolding lookup state_name
  get_status [] c = []
  get_status ((pid, p) ∷ plugins) c =
      let status : PluginStatus = record {
        state = elim (lookup pid c.states) [ none ↦ "registered" | some s ↦ state_name s ];
        name = p.name;
        version = p.version;
        error = lookup pid c.init_errors;
      } in
      (pid, status) ∷ get_status plugins c
