-- ===== src/Planning/Plans/Capabilities.antt =====
-- What the errors of a step's capability mean, for system/core/planning/plan_validator.py.
use capability_os.Base.{
  String, Bool, true, false, not, Option, none, some, List, [], ◌∷◌, contains, eq_iff, All, ◌≡◌,
  ◌≢◌, ◌↔◌, inl, inr, refl, sym, ap, ◌∙◌, subst, Option-cases, or_iff, append-nil_iff,
  complaint_iff, keep-nil_iff,
}
use capability_os.Value.{
  Value, null, text, dict, Items, nil, cons, Fields, end, get, get_or, field_keys,
}
use capability_os.Planning.Plans.{
  missing_required, listed, unknown_fields, validate_inputs, nonblank, is_enabled, not_enabled,
  integration, integrations, required_integrations, validate_integrations, step_inputs,
  contract_errors, capability_errors,
}
use capability_os.Planning.Plans.Inputs.{
  Names, nonblank_iff, InputsAre, step_inputs-InputsAre, InputsAre-step_inputs, AllGiven,
  missing_required_iff,
}

listed_iff {ℓ} :
    {P : Type ℓ} (error_code said step_id capability_id : String) (fields : List String)
    → (fields ≡ []) ↔ P
    → (listed error_code said step_id capability_id fields ≡ []) ↔ P
unfolding listed
listed_iff error_code said step_id capability_id [] p = ((λ h. p.0 refl), λ h. refl)
listed_iff error_code said step_id capability_id (f ∷ fs) p =
    ((λ h. absurd (cc)), λ h. let e = p.1 h in absurd (cc))

-- Each field that is given is one of the contract's.
abbrev pub AllKnown : Fields → Fields → Type 0
AllKnown contract_inputs inputs =
    All (λ f. contains (field_keys contract_inputs) f ≡ true) (field_keys inputs)

-- The inputs are those that the contract has, where the contract says what they are.
abbrev pub InputsFit : Value → Fields → Type 0
InputsFit (dict contract_inputs) inputs =
    AllKnown contract_inputs inputs × AllGiven contract_inputs inputs
InputsFit _ inputs = Unit

denied_iff : (b : Bool) → (not b ≡ false) ↔ (b ≡ true)
denied_iff true = ((λ h. refl), λ h. refl)
denied_iff false = ((λ h. absurd (cc)), λ h. absurd (cc))

validate_inputs_iff :
    (step_id capability_id : String) (v : Value) (inputs : Fields)
    → (validate_inputs step_id capability_id v inputs ≡ []) ↔ InputsFit v inputs
unfolding validate_inputs unknown_fields
validate_inputs_iff step_id capability_id (dict ci) inputs =
    append-nil_iff
      (listed_iff "unknown_input_fields" "Unknown input fields" step_id capability_id
        (unknown_fields ci inputs)
        (keep-nil_iff (λ f. not (contains (field_keys ci) f))
          (λ f. denied_iff (contains (field_keys ci) f)) (field_keys inputs)))
      (listed_iff "missing_required_inputs" "Missing required inputs" step_id capability_id
        (missing_required ci inputs) (missing_required_iff ci inputs))
validate_inputs_iff step_id capability_id null inputs = ((λ h. tt), λ h. refl)
validate_inputs_iff step_id capability_id v inputs = ((λ h. tt), λ h. refl)

-- An integration that a contract names is enabled.
abbrev pub Enabled : (String → Option String) → Value → Type 0
Enabled status_of v = (i : String) → v ≡ text i → i ≢ "" → status_of i ≡ some "enabled"

abbrev pub AllEnabled : (String → Option String) → Items → Type 0
AllEnabled status_of nil = Unit
AllEnabled status_of (cons v l) = Enabled status_of v × AllEnabled status_of l

is_enabled_iff : (o : Option String) → (is_enabled o ≡ true) ↔ (o ≡ some "enabled")
is_enabled_iff none = ((λ h. absurd (cc)), λ h. absurd (cc))
is_enabled_iff (some s) =
    ((λ h. ap some ((eq_iff s "enabled").0 h)), λ h. (eq_iff s "enabled").1 (cc))

Enabled-text : {i j : String} → text i ≡ text j → j ≡ i
Enabled-text h = cc

pub cons-ne-nil {ℓ} : {A : Type ℓ} {x : A} {xs : List A} → x ∷ xs ≢ []
cons-ne-nil h = cc

module _ (step_id capability_id : String) (status_of : String → Option String) where
  integration_iff :
      (v : Value) → (integration step_id capability_id status_of v ≡ []) ↔ Enabled status_of v
  unfolding integration
  integration_iff (text i) =
      let tests = or_iff (eq_iff i "") (is_enabled_iff (status_of i)) in
      complaint_iff (not_enabled step_id capability_id i (status_of i)) (
        (λ h j e filled.
            let same = Enabled-text e in
            subst (λ k. status_of k ≡ some "enabled") (sym same)
              (tests.0 h (λ blank. filled (same ∙ blank)))),
        λ h. tests.1 (h i refl),
      )
  integration_iff null = ((λ h i e. absurd (cc)), λ h. refl)
  integration_iff v = ((λ h i e. absurd (cc)), λ h. refl)

  integrations_iff :
      (l : Items) → (integrations step_id capability_id status_of l ≡ []) ↔ AllEnabled status_of l
  unfolding integrations
  integrations_iff nil = ((λ h. tt), λ h. refl)
  integrations_iff (cons v l) = append-nil_iff (integration_iff v) (integrations_iff l)

abbrev pub IntegrationsEnabled : Fields → Option (String → Option String) → Type 0
IntegrationsEnabled contract none = Unit
IntegrationsEnabled contract (some status_of) =
    AllEnabled status_of (required_integrations (get_or "requirements" (dict end) contract))

validate_integrations_iff :
    (step_id capability_id : String) (contract : Fields)
    (resolver : Option (String → Option String))
    → (validate_integrations step_id capability_id contract resolver ≡ [])
      ↔ IntegrationsEnabled contract resolver
unfolding validate_integrations
validate_integrations_iff step_id capability_id contract none = ((λ h. tt), λ h. refl)
validate_integrations_iff step_id capability_id contract (some status_of) =
    integrations_iff step_id capability_id status_of
      (required_integrations (get_or "requirements" (dict end) contract))

module _ (registry : String → Option Fields) (resolver : Option (String → Option String)) where
  -- The inputs of a step fit a contract, whose integrations are enabled.
  pub record Fits (contract step : Fields) : Type 0 where
    pub inputs : Fields
    pub given : InputsAre (get "inputs" step) inputs
    pub fit : InputsFit (get_or "inputs" (dict end) contract) inputs
    pub enabled : IntegrationsEnabled contract resolver

  contract_errors_iff :
      (step_id capability_id : String) (contract step : Fields)
      → (contract_errors registry resolver step_id capability_id contract step ≡ [])
        ↔ Fits contract step
  unfolding contract_errors
  contract_errors_iff step_id capability_id contract step =
      let both = λ (inputs : Fields).
        append-nil_iff
          (validate_inputs_iff step_id capability_id (get_or "inputs" (dict end) contract) inputs)
          (validate_integrations_iff step_id capability_id contract resolver) in
      (
        (λ h. elim (Option-cases (step_inputs (get "inputs" step))) [
          | inl wrong ↦ absurd (cons-ne-nil (rw (wrong, contract_errors) at h))
          | inr (inputs, found) ↦
              let parts = (both inputs).0 (rw (found, contract_errors) at h) in
              record {
                inputs = inputs;
                given = step_inputs-InputsAre (get "inputs" step) inputs found;
                fit = parts.0;
                enabled = parts.1;
              }
        ]),
        λ h.
            rw (InputsAre-step_inputs (get "inputs" step) h.inputs h.given, contract_errors)
              ((both h.inputs).1 (h.fit, h.enabled)),
      )

  -- A step has a capability that is registered, and whose contract it fits.
  pub record HasCapability (step : Fields) : Type 0 where
    pub capability : String
    pub named : Names (get "capability" step) capability
    pub contract : Fields
    pub registered : registry capability ≡ some contract
    pub fits : Fits contract step

  pub capability_errors_iff :
      (step_id : String) (step : Fields)
      → (capability_errors registry resolver step_id step ≡ []) ↔ HasCapability step
  unfolding capability_errors
  capability_errors_iff step_id step = (
    (λ h. elim (Option-cases (nonblank (get "capability" step))) [
      | inl unnamed ↦ absurd (cons-ne-nil (rw (unnamed, capability_errors) at h))
      | inr (capability, named) ↦
          let h' = rw (named, capability_errors) at h in
          elim (Option-cases (registry capability)) [
            | inl unknown ↦ absurd (cons-ne-nil (rw (unknown, capability_errors) at h'))
            | inr (contract, registered) ↦ record {
              capability = capability;
              named = (nonblank_iff (get "capability" step) capability).0 named;
              contract = contract;
              registered = registered;
              fits =
                  (contract_errors_iff step_id capability contract step).0
                    (rw (registered, capability_errors) at h');
            }
          ]
    ]),
    λ h.
        rw ((nonblank_iff (get "capability" step) h.capability).1 h.named, capability_errors)
          (rw (h.registered, capability_errors)
            ((contract_errors_iff step_id h.capability h.contract step).1 h.fits)),
  )
