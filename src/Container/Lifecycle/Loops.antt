-- ===== src/Container/Lifecycle/Loops.antt =====
-- The loops over the order in system/container/service_container.py: a rule for the state that each
-- plugin is led to.
use mathlib.Core.Bool.{false≢true}
use capability_os.Base.{
  String, true, false, ◌||◌, Option, some, List, [], ◌∷◌, contains, ◌≡◌, ◌⊎◌, inl, inr, refl, sym,
  subst, ◌∙◌, eq_iff, ◌==◌, Bool-cases, Dict, lookup, keys,
}
use capability_os.Container.{PluginState, error, Plugin, ServiceContainer}
use capability_os.Container.Lifecycle.{for_each}

-- The state is that one, or it is the error.
abbrev pub Is : PluginState → Option PluginState → Type 0
Is s o = (o ≡ some s) ⊎ (o ≡ some error)

pub found :
    {V : Type 0} (k : String) (d : Dict V)
    → contains (keys d) k ≡ true
    → (v : V) × (lookup k d ≡ some v)
unfolding keys lookup
found k [] h = absurd (false≢true h)
found k ((j, v) ∷ d) h = elim (Bool-cases (j == k)) [
  | inl same ↦ (v, rw same refl)
  | inr differs ↦
      let (w, e) = found k d (subst (λ b. b || contains (keys d) k ≡ true) differs h) in
      (w, rw differs e)
]

module _ {W : Type 0} where
  abbrev pub state_of : String → ServiceContainer W → Option PluginState
  state_of pid c = lookup pid c.states

  -- A step on one plugin, in a container of these plugins: it leads the plugin's own state from `Pre`
  -- to `Good`, and leaves the others'.
  pub record Leads (plugins : Dict (Plugin W)) (Pre Good : Option PluginState → Type 0)
      (step : String → ServiceContainer W → Option String × ServiceContainer W) : Type 0 where
    pub own :
        (pid : String) (c : ServiceContainer W)
        → c.plugins ≡ plugins
        → contains (keys plugins) pid ≡ true
        → Pre (state_of pid c)
        → Good (state_of pid (step pid c).1)
    pub others :
        (pid q : String) (c : ServiceContainer W)
        → pid == q ≡ false
        → state_of q (step pid c).1 ≡ state_of q c
    pub kept : (pid : String) (c : ServiceContainer W) → (step pid c).1.plugins ≡ c.plugins
    pub again : (o : Option PluginState) → Good o → Pre o

  module _ {plugins : Dict (Plugin W)} {Pre Good : Option PluginState → Type 0}
      {step : String → ServiceContainer W → Option String × ServiceContainer W}
      (leads : Leads plugins Pre Good step) (q : String)
      (known : contains (keys plugins) q ≡ true) where
    stays :
        (pids : List String) (c : ServiceContainer W)
        → c.plugins ≡ plugins
        → Good (state_of q c)
        → Good (state_of q (for_each step pids c).1)
    unfolding for_each
    stays [] c same h = h
    stays (pid ∷ pids) c same h =
        stays pids (step pid c).1 (leads.kept pid c ∙ same) (elim (Bool-cases (pid == q)) [
          | inr differs ↦ subst Good (sym (leads.others pid q c differs)) h
          | inl own ↦
              let e = (eq_iff pid q).0 own in
              subst (λ x. Good (state_of q (step x c).1)) (sym e)
                (leads.own q c same known (leads.again _ h))
        ])

    pub reaches :
        (pids : List String) (c : ServiceContainer W)
        → contains pids q ≡ true
        → c.plugins ≡ plugins
        → Pre (state_of q c)
        → Good (state_of q (for_each step pids c).1)
    unfolding for_each
    reaches [] c there same h = absurd (false≢true there)
    reaches (pid ∷ pids) c there same h = elim (Bool-cases (pid == q)) [
      | inr differs ↦
          reaches pids (step pid c).1 (subst (λ b. b || contains pids q ≡ true) differs there)
            (leads.kept pid c ∙ same) (subst Pre (sym (leads.others pid q c differs)) h)
      | inl own ↦
          let e = (eq_iff pid q).0 own in
          stays pids (step pid c).1 (leads.kept pid c ∙ same)
            (subst (λ x. Good (state_of q (step x c).1)) (sym e) (leads.own q c same known h))
    ]

  pub for_each-kept :
      (step : String → ServiceContainer W → Option String × ServiceContainer W)
      → ((pid : String) (c : ServiceContainer W) → (step pid c).1.plugins ≡ c.plugins)
      → (pids : List String) (c : ServiceContainer W) → (for_each step pids c).1.plugins ≡ c.plugins
  unfolding for_each
  for_each-kept step kept [] c = refl
  for_each-kept step kept (pid ∷ pids) c = for_each-kept step kept pids (step pid c).1 ∙ kept pid c
