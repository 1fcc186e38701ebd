-- ===== src/Container/Lifecycle/States.antt =====
-- The states that the lifecycle of system/container/service_container.py leads plugins to.
use mathlib.Core.Bool.{false≢true}
use capability_os.Base.{
  String, true, false, Option, some, List, [], ◌∷◌, contains, ◌≡◌, ◌⊎◌, inl, inr, refl, sym, subst,
  ap, ◌∙◌, arith, Bool-cases, Option-cases, Dict, lookup, keys,
}
use capability_os.Container.{
  PluginState, initialized, running, stopped, Plugin, ServiceContainer, resolve_order,
}
use capability_os.Container.Once.{contains-snoc}
use capability_os.Container.Resolved.{resolve_order-has}
use capability_os.Container.Lifecycle.Loops.{Is, state_of, found, Leads, reaches, for_each-kept}
use capability_os.Container.Lifecycle.Single.{
  initialize-Is, initialize_others, initialize_plugins, start-Is, start_others, start_plugins,
  stop-Is, stop_others, stop_plugins,
}
use capability_os.Container.Lifecycle.{
  initialize_one, is_initialized, is_running, start_one, stop_one, initialize_all, start_all,
  stop_all, reversed,
}

-- The plugins that are passed over.
not_started :
    (o : Option PluginState)
    → (o ≡ some initialized) ⊎ Is running o
    → is_initialized o ≡ false
    → Is running o
unfolding is_initialized
not_started o (inl e) idle = absurd (false≢true (sym idle ∙ ap is_initialized e))
not_started o (inr h) idle = h

not_stopped :
    (o : Option PluginState)
    → (o ≡ some running) ⊎ Is stopped o
    → is_running o ≡ false
    → Is stopped o
unfolding is_running
not_stopped o (inl e) idle = absurd (false≢true (sym idle ∙ ap is_running e))
not_stopped o (inr h) idle = h

started_from : (o : Option PluginState) → Is initialized o → (o ≡ some initialized) ⊎ Is running o
started_from o (inl e) = inl e
started_from o (inr e) = inr (inr e)

stopped_from : (o : Option PluginState) → Is running o → (o ≡ some running) ⊎ Is stopped o
stopped_from o (inl e) = inl e
stopped_from o (inr e) = inr (inr e)

contains-reversed : (xs : List String) (x : String) → contains (reversed xs) x ≡ contains xs x
contains-reversed [] x = refl
contains-reversed (y ∷ xs) x =
    rw (contains-snoc (reversed xs) y x, contains-reversed xs x) (ground arith)

module _ {W : Type 0} where
  initialize_Leads :
      (plugins : Dict (Plugin W)) → Leads plugins (λ o. Unit) (Is initialized) initialize_one
  unfolding initialize_one
  initialize_Leads plugins = record {
    own = λ pid c same known _.
        let (p, e) =
          found pid c.plugins (subst (λ d. contains (keys d) pid ≡ true) (sym same) known) in
        rw (e, initialize_one) (initialize-Is pid p c);
    others = λ pid q c differs. elim (Option-cases (lookup pid c.plugins)) [
      | inl absent ↦ rw (absent, initialize_one) refl
      | inr (p, e) ↦ rw (e, initialize_one) (initialize_others pid q p c differs)
    ];
    kept = λ pid c. elim (Option-cases (lookup pid c.plugins)) [
      | inl absent ↦ rw (absent, initialize_one) refl
      | inr (p, e) ↦ rw (e, initialize_one) (initialize_plugins pid p c)
    ];
    again = λ o h. tt;
  }

  start_Leads :
      (plugins : Dict (Plugin W))
      → Leads plugins (λ o. (o ≡ some initialized) ⊎ Is running o) (Is running) start_one
  unfolding start_one
  start_Leads plugins = record {
    own = λ pid c same known pre. elim (Bool-cases (is_initialized (state_of pid c))) [
      | inl due ↦
          let (p, e) =
            found pid c.plugins (subst (λ d. contains (keys d) pid ≡ true) (sym same) known) in
          rw (due, e, start_one) (start-Is pid p c)
      | inr idle ↦ rw (idle, start_one) (not_started _ pre idle)
    ];
    others = λ pid q c differs. elim (Bool-cases (is_initialized (state_of pid c))) [
      | inr idle ↦ rw (idle, start_one) refl
      | inl due ↦ elim (Option-cases (lookup pid c.plugins)) [
        | inl absent ↦ rw (due, absent, start_one) refl
        | inr (p, e) ↦ rw (due, e, start_one) (start_others pid q p c differs)
      ]
    ];
    kept = λ pid c. elim (Bool-cases (is_initialized (state_of pid c))) [
      | inr idle ↦ rw (idle, start_one) refl
      | inl due ↦ elim (Option-cases (lookup pid c.plugins)) [
        | inl absent ↦ rw (due, absent, start_one) refl
        | inr (p, e) ↦ rw (due, e, start_one) (start_plugins pid p c)
      ]
    ];
    again = λ o h. inr h;
  }

  stop_Leads :
      (plugins : Dict (Plugin W))
      → Leads plugins (λ o. (o ≡ some running) ⊎ Is stopped o) (Is stopped) stop_one
  unfolding stop_one
  stop_Leads plugins = record {
    own = λ pid c same known pre. elim (Bool-cases (is_running (state_of pid c))) [
      | inl due ↦
          let (p, e) =
            found pid c.plugins (subst (λ d. contains (keys d) pid ≡ true) (sym same) known) in
          rw (due, e, stop_one) (stop-Is pid p c)
      | inr idle ↦ rw (idle, stop_one) (not_stopped _ pre idle)
    ];
    others = λ pid q c differs. elim (Bool-cases (is_running (state_of pid c))) [
      | inr idle ↦ rw (idle, stop_one) refl
      | inl due ↦ elim (Option-cases (lookup pid c.plugins)) [
        | inl absent ↦ rw (due, absent, stop_one) refl
        | inr (p, e) ↦ rw (due, e, stop_one) (stop_others pid q p c differs)
      ]
    ];
    kept = λ pid c. elim (Bool-cases (is_running (state_of pid c))) [
      | inr idle ↦ rw (idle, stop_one) refl
      | inl due ↦ elim (Option-cases (lookup pid c.plugins)) [
        | inl absent ↦ rw (due, absent, stop_one) refl
        | inr (p, e) ↦ rw (due, e, stop_one) (stop_plugins pid p c)
      ]
    ];
    again = λ o h. inr h;
  }

  -- A plugin's state after each of the three phases of a container.
  abbrev pub IsPhased : String → ServiceContainer W → Type 0
  IsPhased pid c =
      let c1 = (initialize_all c).1 in
      let c2 = (start_all c1).1 in
      Is initialized (state_of pid c1)
      × Is running (state_of pid c2)
      × Is stopped (state_of pid (stop_all c2))

  initialized_plugins : (c : ServiceContainer W) → (initialize_all c).1.plugins ≡ c.plugins
  unfolding initialize_all
  initialized_plugins c =
      for_each-kept initialize_one (initialize_Leads c.plugins).kept (resolve_order c.plugins) c

  started_plugins : (c : ServiceContainer W) → (start_all c).1.plugins ≡ c.plugins
  unfolding start_all
  started_plugins c =
      for_each-kept start_one (start_Leads c.plugins).kept (resolve_order c.plugins) c

  initialize_all-Is :
      (pid : String) (c : ServiceContainer W)
      → contains (keys c.plugins) pid ≡ true
      → Is initialized (state_of pid (initialize_all c).1)
  unfolding initialize_all
  initialize_all-Is pid c known =
      reaches (initialize_Leads c.plugins) pid known (resolve_order c.plugins) c
        (resolve_order-has c.plugins pid known) refl tt

  start_all-Is :
      (pid : String) (c : ServiceContainer W)
      → contains (keys c.plugins) pid ≡ true
      → (state_of pid c ≡ some initialized) ⊎ Is running (state_of pid c)
      → Is running (state_of pid (start_all c).1)
  unfolding start_all
  start_all-Is pid c known h =
      reaches (start_Leads c.plugins) pid known (resolve_order c.plugins) c
        (resolve_order-has c.plugins pid known) refl h

  stop_all-Is :
      (pid : String) (c : ServiceContainer W)
      → contains (keys c.plugins) pid ≡ true
      → (state_of pid c ≡ some running) ⊎ Is stopped (state_of pid c)
      → Is stopped (state_of pid (stop_all c))
  unfolding stop_all
  stop_all-Is pid c known h =
      reaches (stop_Leads c.plugins) pid known (reversed (resolve_order c.plugins)) c
        (contains-reversed (resolve_order c.plugins) pid ∙ resolve_order-has c.plugins pid known)
        refl h

  -- Whatever the plugins do, and whatever their dependencies: after `initialize_all` each plugin is
  -- initialized or in error; after `start_all` on top of that, each is running or in error; and
  -- after `stop_all` on top of that, each has stopped or is in error.
  pub lifecycle-IsPhased :
      (pid : String) (c : ServiceContainer W)
      → contains (keys c.plugins) pid ≡ true
      → IsPhased pid c
  lifecycle-IsPhased pid c known =
      let c1 = (initialize_all c).1 in
      let known1 = subst (λ d. contains (keys d) pid ≡ true) (sym (initialized_plugins c)) known in
      let known2 = subst (λ d. contains (keys d) pid ≡ true) (sym (started_plugins c1)) known1 in
      let first = initialize_all-Is pid c known in
      let second = start_all-Is pid c1 known1 (started_from _ first) in
      (first, second, stop_all-Is pid (start_all c1).1 known2 (stopped_from _ second))
