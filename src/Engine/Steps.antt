-- ===== src/Engine/Steps.antt =====
-- One step of a strategy, with its retries: `_run_single_step` of
-- system/core/capability_engine/capability_engine.py.
pub mod Frame
pub mod Retries
use capability_os.Base.{
  ℕ, zero, suc, ◌+◌, ◌-◌, String, Bool, true, false, Option, none, some, List, [], ◌∷◌, ◌==◌,
  if◌then◌else◌, ◌⋯◌, ℤ, pos, negsuc, pos_part,
}
use capability_os.Value.{
  Value, null, bool, int, text, list, dict, other, Items, nil, cons, Fields, end, field, get,
}
use capability_os.State
use capability_os.State.{
  StateManager, Resolved, unresolved, update_state, record_step_output, resolve_fields,
}
use capability_os.Observation.{
  Runtime, Logger, mark_step_started, mark_step_succeeded, mark_step_failed, get_runtime_model,
}
use capability_os.Exec.{
  ErrorKind, variable_resolution, tool_execution, capability_input, schema_validation, condition,
  Failure, Result, ok, err, raise, Exec, pure, throw, modify, lift, ◌>>=◌, ◌>>◌, catch,
}
use capability_os.ToolRuntime
use capability_os.ToolRuntime.{ToolRuntime}

-- What the engine is given. `clock` and `iso` are the environment's; `evaluate_condition` is that
-- of system/core/strategy, over the runtime model and the state manager.
pub record Services (W : Type 0) : Type 0 where
  pub tool_runtime : ToolRuntime W
  pub clock : ℕ → ℕ
  pub iso : ℕ → String
  pub evaluate_condition : Fields → StateManager → Value → Result Bool
  -- `validate_contract` of the capability registry: the contract's id.
  pub validate_contract : Fields → Result String
  -- The hits of the semantic memory for the text of the inputs: none where there is no memory or no
  -- text, or where the search raises.
  pub recall_semantic : Fields → List Fields

-- The objects that one execution changes; `step_ref` is the step that is current for the error
-- handler, and the world is what the tools act on.
pub record Engine (W : Type 0) : Type 0 where
  pub manager : StateManager
  pub logger : Logger
  pub step_ref : Option String
  pub world : W

unfoldable pub error_code : ErrorKind → String
error_code variable_resolution = "variable_resolution_error"
error_code tool_execution = "tool_execution_error"
error_code capability_input = "input_validation_error"
error_code schema_validation = "contract_validation_error"
error_code condition = "condition_evaluation_error"
error_code ErrorKind.other = "execution_error"

-- A VariableResolutionError, as an exception of the engine.
pub resolved {ℓ} : {A : Type ℓ} → Resolved A → Result A
resolved (State.ok a) = ok a
resolved (unresolved m) = raise variable_resolution m

-- A field that is read as a dict; anything else has no `get`.
unfoldable pub fields_of : Option Value → Result Fields
fields_of none = ok end
fields_of (some (dict d)) = ok d
fields_of (some _) = raise ErrorKind.other "the value has no attribute 'get'"

-- A field that is iterated over as a list.
unfoldable pub items_of : Option Value → Result Items
items_of none = ok nil
items_of (some (list l)) = ok l
items_of (some _) = raise ErrorKind.other "the value is no list"

-- not isinstance(action, str) or not action; so also for the step's id, which a contract's schema
-- makes a text.
text_of : Option Value → Option String
text_of (some (text s)) = if s == "" then none else some s
text_of _ = none

-- int(v), of a number or a boolean. A contract's schema admits integers only.
to_int : Value → Result ℤ
to_int (int n) = ok n
to_int (bool true) = ok (pos 1)
to_int (bool false) = ok (pos 0)
to_int _ = raise ErrorKind.other "int() argument must be a number"

-- max(1, int(cfg.get("max_attempts", 1))) attempts: the number of attempts after the first.
unfoldable pub retries : Fields → Result ℕ
unfolding to_int get
retries cfg = elim (get "max_attempts" cfg) [
  | none ↦ ok 0
  | some v ↦ elim (to_int v) [ ok n ↦ ok (pos_part n - 1) | err e ↦ err e ]
]

-- max(0, int(cfg.get("backoff_ms", 0))): only that it is a number matters, since the pause changes
-- no object.
unfoldable pub backoff : Fields → Result ℕ
unfolding to_int get
backoff cfg = elim (get "backoff_ms" cfg) [
  | none ↦ ok 0
  | some v ↦ elim (to_int v) [ ok n ↦ ok (pos_part n) | err e ↦ err e ]
]

-- The per-step retry configuration, where it is a dict.
step_retries : Option Value → Result ℕ
unfolding retries backoff
step_retries (some (dict cfg)) = elim (retries cfg) [
  | err e ↦ err e
  | ok n ↦ elim (backoff cfg) [ err e ↦ err e | ok _ ↦ ok n ]
]
step_retries _ = ok 0

params_of : String → Option Value → Result Fields
params_of id none = ok end
params_of id (some (dict d)) = ok d
params_of id (some _) = raise schema_validation ("Step '" ⋯ id ⋯ "' params must be an object.")

unfoldable pub normalize_output : Value → Fields
normalize_output (dict d) = d
normalize_output v = field "result" v end

module _ {W : Type 0} (services : Services W) where
  open services use {tool_runtime, clock, iso}

  call_tool : String → Fields → Exec (Engine W) Value
  call_tool action params e =
      let (r, w) = ToolRuntime.execute tool_runtime action params 1 e.world in
      (r, record e { world = w })

  store_result : String → Value → Exec (Engine W) Unit
  unfolding record_step_output
  store_result step_id v =
      modify (λ e. record e { manager = record_step_output step_id v e.manager })

  -- Only a dict patches the state.
  patch_state : Value → Exec (Engine W) Unit
  unfolding update_state resolved
  patch_state (dict d) e = elim (resolved (update_state (dict d) e.manager)) [
    | ok m ↦ (ok tt, record e { manager = m })
    | err f ↦ (err f, e)
  ]
  patch_state null e = (ok tt, e)
  patch_state _ e = (ok tt, e)

  succeeded : String → Value → Exec (Engine W) Unit
  unfolding mark_step_succeeded
  succeeded step_id v =
      modify
        (λ e. record e { logger = mark_step_succeeded clock step_id v e.manager.state e.logger })

  unfoldable pub note_failure : String → Failure → Exec (Engine W) Unit
  unfolding mark_step_failed error_code
  note_failure step_id f = modify (λ e. record e {
    logger = mark_step_failed clock step_id (error_code f.kind) f.message e.manager.state e.logger;
  })

  started : String → Fields → Exec (Engine W) Unit
  unfolding mark_step_started
  started step_id params =
      modify (λ e. record e { logger = mark_step_started clock step_id params e.logger })

  -- The body of the `try`.
  try_step : String → String → Fields → Exec (Engine W) Fields
  unfolding call_tool store_result patch_state succeeded
  try_step step_id action params = do
    result ← call_tool action params
    store_result step_id result
    patch_state result
    succeeded step_id result
    pure (normalize_output result)

  -- The loop over the attempts, by the number of attempts that are left after this one.
  unfoldable pub attempts : ℕ → String → String → Fields → Exec (Engine W) Fields
  unfolding try_step note_failure started
  attempts zero step_id action params = started step_id params >> try_step step_id action params
  attempts (suc left) step_id action params =
      started step_id params
      >> catch (try_step step_id action params)
          (λ f. note_failure step_id f >> attempts left step_id action params)

  unfoldable pub set_step_ref : Option String → Exec (Engine W) Unit
  set_step_ref r = modify (λ e. record e { step_ref = r })

  resolve_params : Fields → Exec (Engine W) Fields
  unfolding resolve_fields resolved get_runtime_model
  resolve_params params e =
      (resolved (resolve_fields (get_runtime_model iso e.logger.runtime) e.manager params), e)

  run_action : String → Fields → Option String → Exec (Engine W) Fields
  unfolding attempts set_step_ref resolve_params step_retries params_of get
  run_action step_id step none = throw (record {
    kind = schema_validation;
    message = "Step '" ⋯ step_id ⋯ "' has invalid 'action'.";
  })
  run_action step_id step (some action) = do
    params ← lift (params_of step_id (get "params" step))
    left ← lift (step_retries (get "retry" step))
    set_step_ref (some step_id)
    resolved_params ← resolve_params params
    attempts left step_id action resolved_params

  run_identified : Fields → Option String → Exec (Engine W) Fields
  unfolding run_action text_of get
  run_identified step none =
      throw (record { kind = schema_validation; message = "Strategy steps require 'step_id'." })
  run_identified step (some step_id) = run_action step_id step (text_of (get "action" step))

  unfoldable pub run_single_step : Fields → Exec (Engine W) Fields
  unfolding run_identified text_of get
  run_single_step step = run_identified step (text_of (get "step_id" step))
