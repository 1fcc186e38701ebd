-- ===== src/Container/Lifecycle.antt =====
-- The registration and the lifecycle of plugins in system/container/service_container.py, and the
-- services. `validate_contract`, which looks at the methods of an object, is an argument.
pub mod Loops
pub mod Single
pub mod States
use capability_os.Base.{
  ℕ, String, Bool, true, false, not, ◌&&◌, ◌||◌, Option, none, some, List, [], ◌∷◌, ◌++◌, contains,
  if◌then◌else◌, ◌⋯◌, Dict, lookup, insert, has,
}
use capability_os.Exec.{Result, ok, err, Failure, raise, ErrorKind}
use capability_os.Container.{
  PluginState, registered, initializing, initialized, starting, running, stopping, stopped, error,
  Shared, Plugin, ServiceContainer, list_at, resolve_order,
}

abbrev security_critical_contracts : List String
security_critical_contracts =
    "ToolRuntimeContract" ∷ "SecurityServiceContract" ∷ "DatabaseContract" ∷ []

abbrev is_valid : List String → Bool
is_valid [] = true
is_valid (v ∷ violations) = false

-- self._states.get(pid) == PluginState.INITIALIZED, and the same of RUNNING.
unfoldable pub is_initialized : Option PluginState → Bool
is_initialized (some initialized) = true
is_initialized _ = false

unfoldable pub is_running : Option PluginState → Bool
is_running (some running) = true
is_running _ = false

abbrev note : Option String → List String → List String
note none errors = errors
note (some e) errors = e ∷ errors

abbrev reversed : List String → List String
reversed [] = []
reversed (x ∷ xs) = reversed xs ++ x ∷ []

module _ {W : Type 0} where
  unfoldable pub register_plugin :
      String → Plugin W → Option (List String) → ServiceContainer W → ServiceContainer W
  unfolding insert
  register_plugin pid plugin manifest c = record c {
    plugins = insert pid plugin c.plugins;
    manifests = elim manifest [ none ↦ c.manifests | some tags ↦ insert pid tags c.manifests ];
    states = insert pid registered c.states;
  }

  -- Exceptions are known by the name of the contract. The implementation is registered, or refused where its contract is critical or the container is
  -- strict.
  unfoldable pub register_service :
      (String → String → List String)
      → Bool
      → String
      → String
      → Shared W
      → Result (Unit {0}) × Shared W
  unfolding insert
  register_service validate_contract strict contract implementation s =
      if not (is_valid (validate_contract contract implementation))
        && (strict || contains security_critical_contracts contract)
      then (raise ErrorKind.other contract, s)
      else (ok tt, record s { services = insert contract implementation s.services })

  unfoldable pub get_service : String → Shared W → Result String
  unfolding lookup
  get_service contract s = elim (lookup contract s.services) [
    | none ↦ raise ErrorKind.other contract
    | some implementation ↦ ok implementation
  ]

  unfoldable pub set_state : String → PluginState → ServiceContainer W → ServiceContainer W
  unfolding insert
  set_state pid state c = record c { states = insert pid state c.states }

  -- What follows a plugin's method that has returned, or raised an exception.
  unfoldable pub settle :
      String
      → PluginState
      → Result (Unit {0})
      → ServiceContainer W
      → Option String × ServiceContainer W
  unfolding set_state
  settle pid state (ok _) c = (none, set_state pid state c)
  settle pid state (err e) c = (some (pid ⋯ ": " ⋯ e.message), set_state pid error c)

  -- Only a failed initialization is noted.
  unfoldable pub note_error : String → Result (Unit {0}) → ServiceContainer W → ServiceContainer W
  unfolding insert
  note_error pid (ok _) c = c
  note_error pid (err e) c = record c { init_errors = insert pid e.message c.init_errors }

  unfoldable pub initialize_plugin :
      String → Plugin W → ServiceContainer W → Option String × ServiceContainer W
  unfolding set_state settle note_error list_at
  initialize_plugin pid plugin c =
      let c' = set_state pid initializing c in
      let (r, shared) = plugin.initialize (list_at pid c.manifests) c'.shared in
      settle pid initialized r (note_error pid r (record c' { shared = shared }))

  -- `self._plugins[pid]`; every name in the order is there.
  unfoldable pub initialize_one : String → ServiceContainer W → Option String × ServiceContainer W
  unfolding lookup initialize_plugin
  initialize_one pid c = elim (lookup pid c.plugins) [
    | none ↦ (none, c)
    | some plugin ↦ initialize_plugin pid plugin c
  ]

  unfoldable pub start_plugin :
      String → Plugin W → ServiceContainer W → Option String × ServiceContainer W
  unfolding set_state settle
  start_plugin pid plugin c =
      let c' = set_state pid starting c in
      let (r, shared) = plugin.start c'.shared in
      settle pid running r (record c' { shared = shared })

  unfoldable pub stop_plugin :
      String → Plugin W → ServiceContainer W → Option String × ServiceContainer W
  unfolding set_state settle
  stop_plugin pid plugin c =
      let c' = set_state pid stopping c in
      let (r, shared) = plugin.stop c'.shared in
      settle pid stopped r (record c' { shared = shared })

  unfoldable pub start_one : String → ServiceContainer W → Option String × ServiceContainer W
  unfolding lookup start_plugin is_initialized
  start_one pid c =
      if is_initialized (lookup pid c.states)
      then (elim (lookup pid c.plugins) [
        | none ↦ (none, c)
        | some plugin ↦ start_plugin pid plugin c
      ])
      else (none, c)

  unfoldable pub stop_one : String → ServiceContainer W → Option String × ServiceContainer W
  unfolding lookup stop_plugin is_running
  stop_one pid c =
      if is_running (lookup pid c.states)
      then (elim (lookup pid c.plugins) [
        | none ↦ (none, c)
        | some plugin ↦ stop_plugin pid plugin c
      ])
      else (none, c)

  -- The loop over the order, with the errors that it collects.
  unfoldable pub for_each :
      (String → ServiceContainer W → Option String × ServiceContainer W)
      → List String
      → ServiceContainer W
      → List String × ServiceContainer W
  for_each step [] c = ([], c)
  for_each step (pid ∷ pids) c =
      let (e, c1) = step pid c in let (errors, c2) = for_each step pids c1 in (note e errors, c2)

  unfoldable pub initialize_all : ServiceContainer W → List String × ServiceContainer W
  unfolding for_each initialize_one resolve_order
  initialize_all c = for_each initialize_one (resolve_order c.plugins) c

  unfoldable pub start_all : ServiceContainer W → List String × ServiceContainer W
  unfolding for_each start_one resolve_order
  start_all c = for_each start_one (resolve_order c.plugins) c

  unfoldable pub stop_all : ServiceContainer W → ServiceContainer W
  unfolding for_each stop_one resolve_order
  stop_all c = (for_each stop_one (reversed (resolve_order c.plugins)) c).1
