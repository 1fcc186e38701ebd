-- ===== src/Planning/Plans/Tests.antt =====
-- Runs of system/core/planning/plan_validator.py.
use capability_os.Base.{
  String, Option, none, some, ◌≡◌, ◌↔◌, refl, true, false, if◌then◌else◌, ◌==◌,
}
use capability_os.Value.{Value, bool, text, list, dict, nil, cons, Fields, end, field, get}
use capability_os.Exec.{Result, ok, err, ErrorKind}
use capability_os.Planning.Plans.{validate}
use capability_os.Planning.Plans.Valid.{Accepts, IsExecutable, validate_iff}

-- One capability, which requires a path.
abbrev contract : Fields
contract =
    field "inputs" (dict (field "path" (dict (field "required" (bool true) end)) end))
      (field "requirements" (dict (field "integrations" (list (cons (text "disk") nil)) end)) end)

abbrev registry : String → Option Fields
registry c = if c == "read_file" then some contract else none

abbrev resolver : Option (String → Option String)
resolver = some (λ i. if i == "disk" then some "enabled" else none)

abbrev step : String → Fields → Value
step id inputs = dict (
    field "step_id" (text id)
      (field "capability" (text " read_file") (field "inputs" (dict inputs) end)))

abbrev plan : Value
plan = dict (
    field "type" (text "sequence") (
      field "steps"
        (list (
          cons (step "first " (field "path" (text "/a") end))
            (cons (step "second" (field "path" (text "/b") end)) nil)))
        end))

abbrev valid : Result Fields → Option Value
valid (ok d) = get "valid" d
valid (err e) = none

two_steps_accepted : valid (validate registry resolver plan) ≡ some (bool true)
unfolding get validate
two_steps_accepted = refl

missing_input :
    valid (
      validate registry resolver (
        dict (
          field "type"
            (text "capability")
            (field "steps" (list (cons (step "first" end) nil)) end))))
    ≡ some (bool false)
unfolding get validate
missing_input = refl

-- A type that is a list is no error of the plan: the validator raises.
unhashable :
    validate registry resolver (dict (field "type" (list nil) end))
    ≡ err (record { kind = ErrorKind.other; message = "unhashable type: 'list'" })
unfolding get validate
unhashable = refl

validate_iff_example :
    Accepts (validate registry resolver plan) ↔ IsExecutable registry resolver plan
validate_iff_example = validate_iff registry resolver plan
