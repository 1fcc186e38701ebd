-- ===== src/Container/Lifecycle/Single.antt =====
-- What `_initialize_one`, `_start_one` and `_stop_one` of system/container/service_container.py do to
-- the states.
use capability_os.Base.{
  String, false, ◌≡◌, inl, inr, refl, ap, ◌∙◌, ◌==◌, lookup, lookup-insert, lookup-own,
}
use capability_os.Exec.{Result, ok, err}
use capability_os.Container.{
  PluginState, initializing, initialized, starting, running, stopping, stopped, error, Plugin,
  ServiceContainer, list_at,
}
use capability_os.Container.Lifecycle.Loops.{Is, state_of}
use capability_os.Container.Lifecycle.{
  set_state, settle, note_error, initialize_plugin, start_plugin, stop_plugin,
}

module _ {W : Type 0} where
  settle-Is :
      (pid : String) (s : PluginState) (r : Result (Unit {0})) (c : ServiceContainer W)
      → Is s (state_of pid (settle pid s r c).1)
  unfolding settle set_state
  settle-Is pid s (ok u) c = inl (lookup-own pid s c.states)
  settle-Is pid s (err e) c = inr (lookup-own pid error c.states)

  settle_others :
      (pid q : String) (s : PluginState) (r : Result (Unit {0})) (c : ServiceContainer W)
      → pid == q ≡ false
      → state_of q (settle pid s r c).1 ≡ state_of q c
  unfolding settle set_state
  settle_others pid q s (ok u) c h = lookup-insert pid q s c.states ∙ rw h refl
  settle_others pid q s (err e) c h = lookup-insert pid q error c.states ∙ rw h refl

  settle_plugins :
      (pid : String) (s : PluginState) (r : Result (Unit {0})) (c : ServiceContainer W)
      → (settle pid s r c).1.plugins ≡ c.plugins
  unfolding settle set_state
  settle_plugins pid s (ok u) c = refl
  settle_plugins pid s (err e) c = refl

  note_states :
      (pid : String) (r : Result (Unit {0})) (c : ServiceContainer W)
      → (note_error pid r c).states ≡ c.states
  unfolding note_error
  note_states pid (ok u) c = refl
  note_states pid (err e) c = refl

  note_plugins :
      (pid : String) (r : Result (Unit {0})) (c : ServiceContainer W)
      → (note_error pid r c).plugins ≡ c.plugins
  unfolding note_error
  note_plugins pid (ok u) c = refl
  note_plugins pid (err e) c = refl

  pub initialize-Is :
      (pid : String) (p : Plugin W) (c : ServiceContainer W)
      → Is initialized (state_of pid (initialize_plugin pid p c).1)
  unfolding initialize_plugin set_state
  initialize-Is pid p c =
      let c' = set_state pid initializing c in
      let (r, shared) = p.initialize (list_at pid c.manifests) c'.shared in
      let c2 : ServiceContainer W = record c' { shared = shared } in
      settle-Is pid initialized r (note_error pid r c2)

  pub initialize_others :
      (pid q : String) (p : Plugin W) (c : ServiceContainer W)
      → pid == q ≡ false
      → state_of q (initialize_plugin pid p c).1 ≡ state_of q c
  unfolding initialize_plugin set_state
  initialize_others pid q p c differs =
      let c' = set_state pid initializing c in
      let (r, shared) = p.initialize (list_at pid c.manifests) c'.shared in
      let c2 : ServiceContainer W = record c' { shared = shared } in
      settle_others pid q initialized r (note_error pid r c2) differs
      ∙ ap (λ d. lookup q d) (note_states pid r c2)
      ∙ lookup-insert pid q initializing c.states
      ∙ rw differs refl

  pub initialize_plugins :
      (pid : String) (p : Plugin W) (c : ServiceContainer W)
      → (initialize_plugin pid p c).1.plugins ≡ c.plugins
  unfolding initialize_plugin set_state
  initialize_plugins pid p c =
      let c' = set_state pid initializing c in
      let (r, shared) = p.initialize (list_at pid c.manifests) c'.shared in
      let c2 : ServiceContainer W = record c' { shared = shared } in
      settle_plugins pid initialized r (note_error pid r c2) ∙ note_plugins pid r c2

  pub start-Is :
      (pid : String) (p : Plugin W) (c : ServiceContainer W)
      → Is running (state_of pid (start_plugin pid p c).1)
  unfolding start_plugin set_state
  start-Is pid p c =
      let c' = set_state pid starting c in
      let (r, shared) = p.start c'.shared in
      let c2 : ServiceContainer W = record c' { shared = shared } in settle-Is pid running r c2

  pub start_others :
      (pid q : String) (p : Plugin W) (c : ServiceContainer W)
      → pid == q ≡ false
      → state_of q (start_plugin pid p c).1 ≡ state_of q c
  unfolding start_plugin set_state
  start_others pid q p c differs =
      let c' = set_state pid starting c in
      let (r, shared) = p.start c'.shared in
      let c2 : ServiceContainer W = record c' { shared = shared } in
      settle_others pid q running r c2 differs
      ∙ lookup-insert pid q starting c.states
      ∙ rw differs refl

  pub start_plugins :
      (pid : String) (p : Plugin W) (c : ServiceContainer W)
      → (start_plugin pid p c).1.plugins ≡ c.plugins
  unfolding start_plugin set_state
  start_plugins pid p c =
      let c' = set_state pid starting c in
      let (r, shared) = p.start c'.shared in
      let c2 : ServiceContainer W = record c' { shared = shared } in settle_plugins pid running r c2

  pub stop-Is :
      (pid : String) (p : Plugin W) (c : ServiceContainer W)
      → Is stopped (state_of pid (stop_plugin pid p c).1)
  unfolding stop_plugin set_state
  stop-Is pid p c =
      let c' = set_state pid stopping c in
      let (r, shared) = p.stop c'.shared in
      let c2 : ServiceContainer W = record c' { shared = shared } in settle-Is pid stopped r c2

  pub stop_others :
      (pid q : String) (p : Plugin W) (c : ServiceContainer W)
      → pid == q ≡ false
      → state_of q (stop_plugin pid p c).1 ≡ state_of q c
  unfolding stop_plugin set_state
  stop_others pid q p c differs =
      let c' = set_state pid stopping c in
      let (r, shared) = p.stop c'.shared in
      let c2 : ServiceContainer W = record c' { shared = shared } in
      settle_others pid q stopped r c2 differs
      ∙ lookup-insert pid q stopping c.states
      ∙ rw differs refl

  pub stop_plugins :
      (pid : String) (p : Plugin W) (c : ServiceContainer W)
      → (stop_plugin pid p c).1.plugins ≡ c.plugins
  unfolding stop_plugin set_state
  stop_plugins pid p c =
      let c' = set_state pid stopping c in
      let (r, shared) = p.stop c'.shared in
      let c2 : ServiceContainer W = record c' { shared = shared } in settle_plugins pid stopped r c2
