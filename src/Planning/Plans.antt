-- ===== src/Planning/Plans.antt =====
-- system/core/planning/plan_validator.py: the errors of a plan, in the order in which they are found.
-- `registry` is `capability_registry.get`, and `resolver` the resolver of the status of integrations.
pub mod Inputs
pub mod Capabilities
pub mod Valid
mod Tests
use Prim.Native.Char.{code}
use Prim.Native.String
use capability_os.Base.{
  ℕ, suc, ◌+◌, String, Bool, true, false, not, ◌&&◌, ◌||◌, Option, none, some, List, [], ◌∷◌, ◌++◌,
  keep, contains, eqb, ◌==◌, if◌then◌else◌, ◌⋯◌, strip, sorted, join_comma, show_int, pos, is_digit,
}
use capability_os.Value.{
  Value, null, bool, text, list, dict, Items, nil, cons, Fields, end, field, get, get_or,
  field_keys,
}
use capability_os.State.Scan.{is_lower}
use capability_os.Exec.{Result, ok, raise, ErrorKind}

-- An error's code and message, and its further fields.
abbrev problem : String → String → Fields → Fields
problem error_code message rest =
    field "code" (text error_code) (field "message" (text message) rest)

abbrev at_step : String → Fields
at_step step_id = field "step_id" (text step_id) end

abbrev at_capability : String → String → Fields → Fields
at_capability step_id capability_id rest =
    field "step_id" (text step_id) (field "capability" (text capability_id) rest)

abbrev text_items : List String → Items
text_items [] = nil
text_items (s ∷ ss) = cons (text s) (text_items ss)

abbrev dict_items : List Fields → Items
dict_items [] = nil
dict_items (d ∷ ds) = cons (dict d) (dict_items ds)

-- A text that is not blank, stripped.
unfoldable pub nonblank : Option Value → Option String
unfolding strip
nonblank (some (text s)) = if strip s == "" then none else some (strip s)
nonblank _ = none

abbrev is_id_rest : String → Bool
unfolding is_lower is_digit
is_id_rest String.[] = true
is_id_rest (String.◌∷◌ c s) =
    (is_lower (code c) || is_digit (code c) || eqb (code c) b'_') && is_id_rest s

-- `_STEP_ID_PATTERN` matches; a stripped text has no newline at its end.
unfoldable pub is_step_id : String → Bool
unfolding is_lower is_digit
is_step_id String.[] = false
is_step_id (String.◌∷◌ c s) = is_lower (code c) && is_id_rest s

-- The test `is True`.
abbrev pub is_true : Option Value → Bool
is_true (some (bool b)) = b
is_true _ = false

unfoldable pub is_required : Value → Bool
unfolding get
is_required (dict c) = is_true (get "required" c)
is_required _ = false

-- inputs.get(field) is None
unfoldable pub is_none : Option Value → Bool
is_none none = true
is_none (some null) = true
is_none (some _) = false

-- The loop that collects the required fields that have no value.
unfoldable pub missing_required : Fields → Fields → List String
unfolding is_required is_none get
missing_required end inputs = []
missing_required (field name c d) inputs =
    let rest = missing_required d inputs in
    if is_required c && is_none (get name inputs) then name ∷ rest else rest

-- The error that lists some fields, if there are any.
unfoldable pub listed : String → String → String → String → List String → List Fields
unfolding sorted join_comma
listed error_code said step_id capability_id [] = []
listed error_code said step_id capability_id (f ∷ fs) =
    problem error_code
      (said ⋯ " for '" ⋯ capability_id ⋯ "': " ⋯ join_comma (sorted (f ∷ fs)) ⋯ ".")
      (at_capability step_id capability_id
        (field "fields" (list (text_items (sorted (f ∷ fs)))) end))
    ∷ []

unfoldable pub unknown_fields : Fields → Fields → List String
unfolding field_keys
unknown_fields contract_inputs inputs =
    keep (λ f. not (contains (field_keys contract_inputs) f)) (field_keys inputs)

-- What `_validate_inputs` appends.
unfoldable pub validate_inputs : String → String → Value → Fields → List Fields
unfolding unknown_fields missing_required listed
validate_inputs step_id capability_id (dict contract_inputs) inputs =
    listed "unknown_input_fields" "Unknown input fields" step_id capability_id
      (unknown_fields contract_inputs inputs)
    ++ listed "missing_required_inputs" "Missing required inputs" step_id capability_id
        (missing_required contract_inputs inputs)
validate_inputs step_id capability_id _ inputs = []

abbrev shown : Option String → String
shown none = "None"
shown (some s) = s

abbrev optional : Option String → Value
optional none = null
optional (some s) = text s

abbrev is_enabled : Option String → Bool
is_enabled none = false
is_enabled (some s) = s == "enabled"

unfoldable pub not_enabled : String → String → String → Option String → Fields
not_enabled step_id capability_id integration_id status =
    problem "integration_not_enabled"
      ("Required integration '"
        ⋯ integration_id
        ⋯ "' is not enabled (status='"
        ⋯ shown status
        ⋯ "').")
      (at_capability step_id capability_id
        (field "integration_id" (text integration_id) (field "status" (optional status) end)))

-- One round of the loop over the integrations.
unfoldable pub integration : String → String → (String → Option String) → Value → List Fields
unfolding not_enabled
integration step_id capability_id status_of (text i) =
    if i == "" || is_enabled (status_of i)
    then []
    else not_enabled step_id capability_id i (status_of i) ∷ []
integration step_id capability_id status_of _ = []

unfoldable pub integrations : String → String → (String → Option String) → Items → List Fields
unfolding integration
integrations step_id capability_id status_of nil = []
integrations step_id capability_id status_of (cons v l) =
    integration step_id capability_id status_of v ++ integrations step_id capability_id status_of l

-- requirements.get("integrations", []), where both are of the type that is wanted.
unfoldable pub required_integrations : Value → Items
unfolding get_or
required_integrations (dict requirements) = elim (get_or "integrations" (list nil) requirements) [
  | list l ↦ l
  | _ ↦ nil
]
required_integrations _ = nil

-- What `_validate_integrations` appends.
unfoldable pub validate_integrations :
    String → String → Fields → Option (String → Option String) → List Fields
unfolding integrations required_integrations get_or
validate_integrations step_id capability_id contract none = []
validate_integrations step_id capability_id contract (some status_of) =
    integrations step_id capability_id status_of
      (required_integrations (get_or "requirements" (dict end) contract))

-- step.get("inputs", {}), with an empty dict for None.
unfoldable pub step_inputs : Option Value → Option Fields
step_inputs none = some end
step_inputs (some null) = some end
step_inputs (some (dict d)) = some d
step_inputs (some _) = none

unfoldable pub pattern_errors : String → List Fields
unfolding is_step_id
pattern_errors step_id =
    if is_step_id step_id
    then []
    else problem "invalid_step_id"
        ("step_id '" ⋯ step_id ⋯ "' must match naming canon [a-z][a-z0-9_]*.") (at_step step_id)
      ∷ []

abbrev report : List Fields → Fields
report [] = field "valid" (bool true) (field "errors" (list nil) end)
report (e ∷ errors) =
    field "valid" (bool false) (field "errors" (list (dict_items (e ∷ errors))) end)

abbrev rejection : String → String → Fields
rejection error_code message = report (problem error_code message end ∷ [])

unfoldable pub step_ref : ℕ → String
unfolding show_int
step_ref index = "step_" ⋯ show_int (pos (index + 1))

module _ (registry : String → Option Fields) (resolver : Option (String → Option String)) where
  -- The part of a step's round from "inputs" on.
  unfoldable pub contract_errors : String → String → Fields → Fields → List Fields
  unfolding step_inputs validate_inputs validate_integrations get get_or
  contract_errors step_id capability_id contract step = elim (step_inputs (get "inputs" step)) [
    | none ↦
        problem "invalid_inputs" "Step 'inputs' must be an object."
          (at_capability step_id capability_id end)
        ∷ []
    | some inputs ↦
        validate_inputs step_id capability_id (get_or "inputs" (dict end) contract) inputs
        ++ validate_integrations step_id capability_id contract resolver
  ]

  -- The part from "capability" on.
  unfoldable pub capability_errors : String → Fields → List Fields
  unfolding nonblank contract_errors get
  capability_errors step_id step = elim (nonblank (get "capability" step)) [
    | none ↦
        problem "missing_capability" "Step requires non-empty 'capability'." (at_step step_id) ∷ []
    | some capability_id ↦ elim (registry capability_id) [
      | none ↦
          problem "capability_not_found" ("Capability '" ⋯ capability_id ⋯ "' is not registered.")
            (at_capability step_id capability_id end)
          ∷ []
      | some contract ↦ contract_errors step_id capability_id contract step
    ]
  ]

  -- One round of the loop over the steps: the step ids seen after it, and the errors that it appends.
  unfoldable pub check_step : String → List String → Value → List String × List Fields
  unfolding nonblank pattern_errors capability_errors get
  check_step ref seen (dict step) = elim (nonblank (get "step_id" step)) [
    | none ↦ (
      seen,
      problem "missing_step_id" "Each step requires non-empty 'step_id'." (at_step ref) ∷ [],
    )
    | some step_id ↦
        if contains seen step_id
        then (
          seen,
          problem "duplicate_step_id" ("Duplicate step_id '" ⋯ step_id ⋯ "'.") (at_step step_id)
              ∷ [],
        )
        else (step_id ∷ seen, pattern_errors step_id ++ capability_errors step_id step)
  ]
  check_step ref seen _ =
      (seen, problem "invalid_step" "Each plan step must be an object." (at_step ref) ∷ [])

  unfoldable pub check_steps : ℕ → List String → Items → List Fields
  unfolding check_step
  check_steps index seen nil = []
  check_steps index seen (cons step steps) =
      let (seen', errors) = check_step (step_ref index) seen step in
      errors ++ check_steps (index + 1) seen' steps

  unfoldable pub validate_steps : Option Value → Fields
  unfolding check_steps
  validate_steps (some (list (cons step steps))) = report (check_steps 0 [] (cons step steps))
  validate_steps _ = rejection "missing_steps" "Plan must include at least one step."

  -- What follows the test of the plan's type. A list or a dict is not hashable, so that to look for it
  -- in a set raises a TypeError.
  unfoldable pub validate_typed : Option Value → Fields → Result Fields
  unfolding validate_steps get
  validate_typed (some (list _)) plan = raise ErrorKind.other "unhashable type: 'list'"
  validate_typed (some (dict _)) plan = raise ErrorKind.other "unhashable type: 'dict'"
  validate_typed (some (text t)) plan =
      if t == "capability" || t == "sequence"
      then ok (validate_steps (get "steps" plan))
      else if t == "unknown"
      then ok (rejection "unknown_intent" "Intent could not be mapped to executable capabilities.")
      else ok (rejection "invalid_plan_type" "Plan type must be capability, sequence, or unknown.")
  validate_typed _ plan =
      ok (rejection "invalid_plan_type" "Plan type must be capability, sequence, or unknown.")

  unfoldable pub validate : Value → Result Fields
  unfolding validate_typed get
  validate (dict plan) = validate_typed (get "type" plan) plan
  validate _ = ok (rejection "invalid_plan" "Plan must be an object.")
