-- ===== src/Planning/Plans/Valid.antt =====
-- Which plans system/core/planning/plan_validator.py takes for valid.
use capability_os.Base.{
  ℕ, ◌+◌, String, true, false, Option, none, some, List, [], ◌∷◌, ◌++◌, contains, ◌==◌, eq_iff, ◌≡◌,
  ◌↔◌, ◌⊎◌, inl, inr, refl, ap, ◌∙◌, subst, Bool-cases, Option-cases, same_iff, append-nil_iff,
  complaint_iff,
}
use capability_os.Value.{Value, null, bool, text, list, dict, Items, nil, cons, Fields, get}
use capability_os.Exec.{Failure, Result, ok, err}
use capability_os.Planning.Plans.{
  nonblank, is_step_id, pattern_errors, check_step, check_steps, step_ref, report, validate_steps,
  validate_typed, validate,
}
use capability_os.Planning.Plans.Inputs.{Names, nonblank_iff}
use capability_os.Planning.Plans.Capabilities.{HasCapability, capability_errors_iff, cons-ne-nil}

pattern_errors_iff :
    (step_id : String) → (pattern_errors step_id ≡ []) ↔ (is_step_id step_id ≡ true)
unfolding pattern_errors
pattern_errors_iff step_id = complaint_iff _ (same_iff (is_step_id step_id))

append-nil {ℓ} : {A : Type ℓ} (xs ys : List A) → xs ++ ys ≡ [] → (xs ≡ []) × (ys ≡ [])
append-nil [] ys h = (refl, h)
append-nil (x ∷ xs) ys h = absurd (cons-ne-nil h)

-- The report says that the plan is valid.
abbrev pub Accepts : Result Fields → Type 0
Accepts r = (d : Fields) × (r ≡ ok d) × (get "valid" d ≡ some (bool true))

abbrev said : Result Fields → Option Value
said (ok d) = get "valid" d
said (err e) = none

Accepts-said : (r : Result Fields) → Accepts r → said r ≡ some (bool true)
Accepts-said r (d, is, valid) = rw is valid

not_complained : (e : Fields) (es : List Fields) → ¬ Accepts (ok (report (e ∷ es)))
unfolding get
not_complained e es h =
    let no : some (bool false) ≡ some (bool true) = Accepts-said (ok (report (e ∷ es))) h in cc

not_raised : (f : Failure) → ¬ Accepts (err f)
not_raised f h = let no = Accepts-said (err f) h in cc

report-nil : (es : List Fields) → Accepts (ok (report es)) → es ≡ []
report-nil [] h = refl
report-nil (e ∷ es) h = absurd (not_complained e es h)

empty_report : Accepts (ok (report []))
unfolding get
empty_report = (report [], refl, refl)

module _ (registry : String → Option Fields) (resolver : Option (String → Option String)) where
  -- A step, behind steps with the ids that are seen: it has an id that none of them has, which matches
  -- the canon, and a capability.
  pub record IsStep (seen : List String) (v : Value) : Type 0 where
    pub step : Fields
    pub is : v ≡ dict step
    pub id : String
    pub named : Names (get "step_id" step) id
    pub new : contains seen id ≡ false
    pub canonical : is_step_id id ≡ true
    pub has : HasCapability registry resolver step

  pub data AreSteps : List String → Items → Type 0 where
    nothing : {seen : List String} → AreSteps seen nil
    step :
        {seen : List String} {v : Value} {l : Items} (s : IsStep seen v)
        → AreSteps (s.id ∷ seen) l
        → AreSteps seen (cons v l)

  check_step-IsStep :
      (ref : String) (seen : List String) (v : Value)
      → (check_step registry resolver ref seen v).1 ≡ []
      → (s : IsStep seen v) × ((check_step registry resolver ref seen v).0 ≡ s.id ∷ seen)
  unfolding check_step
  check_step-IsStep ref seen (dict d) h = elim (Option-cases (nonblank (get "step_id" d))) [
    | inl unnamed ↦ absurd (cons-ne-nil (rw (unnamed, check_step) at h))
    | inr (id, named) ↦
        let h' = rw (named, check_step) at h in
        elim (Bool-cases (contains seen id)) [
          | inl double ↦ absurd (cons-ne-nil (rw (double, check_step) at h'))
          | inr new ↦
              let parts =
                (append-nil_iff (pattern_errors_iff id)
                    (capability_errors_iff registry resolver id d)).0
                  (rw (new, check_step) at h') in
              (
                record {
                  step = d;
                  is = refl;
                  id = id;
                  named = (nonblank_iff (get "step_id" d) id).0 named;
                  new = new;
                  canonical = parts.0;
                  has = parts.1;
                },
                rw (named, check_step) (rw (new, check_step) refl),
              )
        ]
  ]
  check_step-IsStep ref seen null h = absurd (cons-ne-nil h)
  check_step-IsStep ref seen v h = absurd (cons-ne-nil h)

  IsStep-check_step :
      (ref : String) (seen : List String) (v : Value) (s : IsStep seen v)
      → check_step registry resolver ref seen v ≡ (s.id ∷ seen, [])
  unfolding check_step
  IsStep-check_step ref seen v s = rw s.is (
      rw ((nonblank_iff (get "step_id" s.step) s.id).1 s.named, check_step)
        (rw (s.new, check_step)
          (rw
            ((append-nil_iff (pattern_errors_iff s.id)
                (capability_errors_iff registry resolver s.id s.step)).1
              (s.canonical, s.has))
            refl)))

  check_steps-AreSteps :
      (index : ℕ) (seen : List String) (l : Items)
      → check_steps registry resolver index seen l ≡ []
      → AreSteps seen l
  unfolding check_steps
  check_steps-AreSteps index seen nil h = nothing
  check_steps-AreSteps index seen (cons v l) h =
      let (here, later) = append-nil _ _ h in
      let (s, seen') = check_step-IsStep (step_ref index) seen v here in
      step s (
        check_steps-AreSteps (index + 1) (s.id ∷ seen) l
          (subst (λ k. check_steps registry resolver (index + 1) k l ≡ []) seen' later))

  AreSteps-check_steps :
      (index : ℕ) (seen : List String) (l : Items)
      → AreSteps seen l
      → check_steps registry resolver index seen l ≡ []
  unfolding check_steps
  AreSteps-check_steps index seen _ nothing = refl
  AreSteps-check_steps index seen _ (step {v} {l} s rest) =
      rw (IsStep-check_step (step_ref index) seen v s)
        (AreSteps-check_steps (index + 1) (s.id ∷ seen) l rest)

  -- A plan of capabilities: its type is "capability" or "sequence", and it has steps, each of them with
  -- an id of its own and a registered capability whose contract it fits.
  pub record IsExecutable (plan : Value) : Type 0 where
    pub fields : Fields
    pub is : plan ≡ dict fields
    pub kind :
        (get "type" fields ≡ some (text "capability"))
        ⊎ (get "type" fields ≡ some (text "sequence"))
    pub first : Value
    pub rest : Items
    pub has_steps : get "steps" fields ≡ some (list (cons first rest))
    pub all_steps : AreSteps [] (cons first rest)

  -- What is said of the steps of a plan.
  abbrev HasSteps : Option Value → Type 0
  HasSteps o =
      (first : Value) × ((rest : Items) × (o ≡ some (list (cons first rest)))
        × AreSteps [] (cons first rest))

  validate_steps-HasSteps :
      (o : Option Value) → Accepts (ok (validate_steps registry resolver o)) → HasSteps o
  unfolding validate_steps
  validate_steps-HasSteps (some (list (cons first rest))) h = (
    first,
    (
      rest,
      refl,
      check_steps-AreSteps 0 [] (cons first rest)
          (report-nil (check_steps registry resolver 0 [] (cons first rest)) h),
    ),
  )
  validate_steps-HasSteps none h = absurd (not_complained _ [] h)
  validate_steps-HasSteps o h = absurd (not_complained _ [] h)

  abbrev IsRunnable : Option Value → Type 0
  IsRunnable o = (o ≡ some (text "capability")) ⊎ (o ≡ some (text "sequence"))

  validate_typed-HasSteps :
      (o : Option Value) (plan : Fields)
      → Accepts (validate_typed registry resolver o plan)
      → IsRunnable o × HasSteps (get "steps" plan)
  unfolding validate_typed
  validate_typed-HasSteps (some (text t)) plan h = elim (Bool-cases (t == "capability")) [
    | inl single ↦ (
      inl (ap (λ s. some (text s)) ((eq_iff t "capability").0 single)),
      validate_steps-HasSteps (get "steps" plan) (rw (single, validate_typed) at h),
    )
    | inr other ↦
        let h' = rw (other, validate_typed) at h in
        elim (Bool-cases (t == "sequence")) [
          | inl chain ↦ (
            inr (ap (λ s. some (text s)) ((eq_iff t "sequence").0 chain)),
            validate_steps-HasSteps (get "steps" plan) (rw (chain, validate_typed) at h'),
          )
          | inr neither ↦
              let h2 = rw (neither, validate_typed) at h' in
              elim (Bool-cases (t == "unknown")) [
                | inl unknown ↦ absurd (not_complained _ [] (rw (unknown, validate_typed) at h2))
                | inr wrong ↦ absurd (not_complained _ [] (rw (wrong, validate_typed) at h2))
              ]
        ]
  ]
  validate_typed-HasSteps none plan h = absurd (not_complained _ [] h)
  validate_typed-HasSteps (some (list _)) plan h = absurd (not_raised _ h)
  validate_typed-HasSteps (some (dict _)) plan h = absurd (not_raised _ h)
  validate_typed-HasSteps o plan h = absurd (not_complained _ [] h)

  validate-IsExecutable : (v : Value) → Accepts (validate registry resolver v) → IsExecutable v
  unfolding validate
  validate-IsExecutable (dict plan) h =
      let (kind, (first, (rest, has_steps, all_steps))) =
        validate_typed-HasSteps (get "type" plan) plan h in
      record {
        fields = plan;
        is = refl;
        kind = kind;
        first = first;
        rest = rest;
        has_steps = has_steps;
        all_steps = all_steps;
      }
  validate-IsExecutable null h = absurd (not_complained _ [] h)
  validate-IsExecutable v h = absurd (not_complained _ [] h)

  runs :
      (o : Option Value) (plan : Fields)
      → IsRunnable o
      → validate_typed registry resolver o plan
        ≡ ok (validate_steps registry resolver (get "steps" plan))
  unfolding validate_typed
  runs o plan (inl single) = rw single refl
  runs o plan (inr chain) = rw chain refl

  IsExecutable-validate :
      (v : Value) → IsExecutable v → validate registry resolver v ≡ ok (report [])
  unfolding validate validate_steps
  IsExecutable-validate v h = rw h.is (
      runs (get "type" h.fields) h.fields h.kind
      ∙ rw h.has_steps (rw (AreSteps-check_steps 0 [] (cons h.first h.rest) h.all_steps) refl))

  -- A plan is reported valid exactly when it is executable: an object of type "capability" or
  -- "sequence" with one step at least, where each step has an id that no earlier step has and that
  -- matches the canon, and a capability that is registered; its inputs are fields of the capability's
  -- contract, with a value for each that the contract requires; and each integration that the contract
  -- names is enabled, where there is a resolver.
  pub validate_iff : (v : Value) → Accepts (validate registry resolver v) ↔ IsExecutable v
  validate_iff v = (validate-IsExecutable v, λ h. rw (IsExecutable-validate v h) empty_report)
