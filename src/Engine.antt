-- ===== src/Engine.antt =====
-- system/core/capability_engine/capability_engine.py: the strategies of a capability, over the
-- state manager, the observation logger and the tool runtime.
pub mod Steps
pub mod Strategies
pub mod Frame
pub mod Log
mod Tests
use capability_os.Base.{
  ℕ, zero, suc, ◌+◌, String, Bool, true, false, Option, none, some, List, [], ◌∷◌, map, keep, any,
  ◌==◌, if◌then◌else◌, ◌⋯◌, not, is_some, sorted, join_comma, pos,
}
use capability_os.Value.{
  Value, null, bool, int, text, list, dict, Items, nil, cons, Fields, end, field, get, put,
  set_default, show,
}
use capability_os.State
use capability_os.State.{StateManager, init, update_state}
use capability_os.Observation.{
  Runtime, Logger, Finish, initialize, mark_capability_resolved, mark_validation_passed,
  mark_step_failed, finish,
}
use capability_os.Exec.{
  Failure, ErrorKind, Result, ok, err, raise, capability_input, Exec, lift, ◌>>=◌,
}
use capability_os.Engine.Steps.{Services, Engine, items_of, fields_of, error_code}
use capability_os.Engine.Strategies.{
  run_steps_sequential, run_conditional, run_retry_policy, run_fallback,
}

pub record Response : Type 0 where
  pub execution_id : String
  pub capability_id : String
  pub final_output : Fields
  pub runtime : Runtime
  pub step_outputs : Fields

-- How `execute` ends: it returns; it raises before there is a runtime model; or it raises a
-- CapabilityExecutionError, with its message, its runtime model and its error code.
pub data Outcome : Type 0 where
  success : Response → Outcome
  rejected : Failure → Outcome
  failed : String → Runtime → String → Outcome

-- contract.get("inputs", {}).items(), with the fields that are required.
required_fields : Fields → List String
unfolding get
required_fields end = []
required_fields (field name (dict c) d) =
    let rest = required_fields d in
    elim (get "required" c) [ some (bool true) ↦ name ∷ rest | _ ↦ rest ]
required_fields (field name _ d) = required_fields d

-- field not in inputs or inputs[field] is None
is_missing : Fields → String → Bool
unfolding get
is_missing inputs name = elim (get name inputs) [ none ↦ true | some null ↦ true | some _ ↦ false ]

validate_required_inputs : Fields → Value → Result Fields
unfolding required_fields is_missing sorted join_comma
validate_required_inputs contract_inputs (dict inputs) =
    elim (keep (is_missing inputs) (required_fields contract_inputs)) [
      | [] ↦ ok inputs
      | name ∷ names ↦
          raise capability_input ("Missing required inputs: " ⋯ join_comma (sorted (name ∷ names)))
    ]
validate_required_inputs contract_inputs _ =
    raise capability_input "Engine inputs must be an object."

-- normalized.setdefault(field_name, None), for each field of the contract.
normalize_inputs : Fields → Fields → Fields
unfolding set_default
normalize_inputs end inputs = inputs
normalize_inputs (field name _ d) inputs = normalize_inputs d (set_default name null inputs)

pub data Mode : Type 0 where
  sequential conditional retry_policy fallback : Mode

mode_named : String → Option Mode
mode_named m =
    if m == "sequential"
    then some sequential
    else if m == "conditional"
    then some conditional
    else if m == "retry_policy"
    then some retry_policy
    else if m == "fallback"
    then some fallback
    else none

-- The mode of a strategy, if it is one of SUPPORTED_MODES.
supported_mode : Option Value → Option Mode
unfolding mode_named
supported_mode (some (text m)) = mode_named m
supported_mode _ = none

-- How the message names an unsupported mode.
mode_text : Option Value → String
unfolding show
mode_text none = "None"
mode_text (some v) = show v

get_default : String → Value → Fields → Value
unfolding get
get_default k v d = elim (get k d) [ some w ↦ w | none ↦ v ]

memory_item : Fields → Result Value
unfolding fields_of get get_default
memory_item h = elim (fields_of (get "memory" h)) [
  | err f ↦ err f
  | ok memory ↦ ok (
      dict (
        field "text" (get_default "text" (text "") h) (
          field "score" (get_default "score" (int (pos 0)) h)
            (field "type" (get_default "memory_type" (text "") memory) end))))
]

memory_items : List Fields → Result Items
unfolding memory_item
memory_items [] = ok nil
memory_items (h ∷ hs) =
    let rest = memory_items hs in
    elim (memory_item h) [
      | err f ↦ err f
      | ok v ↦ elim rest [ err f ↦ err f | ok l ↦ ok (cons v l) ]
    ]

-- The memories that are put into the state; an exception here is dropped.
inject_memories : List Fields → StateManager → StateManager
unfolding memory_items update_state
inject_memories [] m = m
inject_memories (h ∷ hs) m = elim (memory_items (h ∷ hs)) [
  | err f ↦ m
  | ok l ↦ elim (update_state (dict (field "relevant_memories" (list l) end)) m) [
    | State.ok m' ↦ m'
    | State.unresolved e ↦ m
  ]
]

module _ {W : Type 0} (services : Services W) where
  open services use {clock, validate_contract, recall_semantic}

  run_sequential : Fields → Exec (Engine W) Fields
  unfolding items_of run_steps_sequential
  run_sequential strategy = do
    steps ← lift (items_of (get "steps" strategy))
    run_steps_sequential services steps

  unfoldable pub run_mode : Mode → Fields → Exec (Engine W) Fields
  unfolding run_sequential run_conditional run_retry_policy run_fallback
  run_mode sequential = run_sequential
  run_mode conditional = run_conditional services
  run_mode retry_policy = run_retry_policy services
  run_mode fallback = run_fallback services

  -- The objects with which the strategy starts.
  unfoldable pub start_engine : String → String → Fields → W → Engine W
  unfolding initialize mark_capability_resolved mark_validation_passed init inject_memories
  start_engine execution_id contract_id inputs world = record {
    manager = inject_memories (recall_semantic inputs) (init inputs);
    logger =
        mark_validation_passed clock
          (mark_capability_resolved clock (initialize clock execution_id contract_id end 0));
    step_ref = none;
    world = world;
  }

  -- The logger when the error handler calls `finish`.
  log_failed_step : Option String → Failure → Engine W → Logger
  unfolding mark_step_failed error_code
  log_failed_step none f e = e.logger
  log_failed_step (some step_id) f e =
      mark_step_failed clock step_id (error_code f.kind) f.message e.manager.state e.logger

  -- `except Exception as exc`
  unfoldable pub fail : Failure → Engine W → Outcome
  unfolding log_failed_step finish error_code
  fail f e =
      let last : Finish = record {
        status = "error";
        final_output = end;
        state_snapshot = e.manager.state;
        error_code = some (error_code f.kind);
        error_message = some f.message;
        failed_step = e.step_ref;
      } in
      elim (finish clock last (log_failed_step e.step_ref f e)) [
        | some l ↦ failed f.message l.runtime (error_code f.kind)
        | none ↦ rejected (record {
          kind = ErrorKind.other;
          message = "error_code is required when status is 'error'.";
        })
      ]

  -- What follows the strategy.
  unfoldable pub conclude : String → Result Fields → Engine W → Outcome
  unfolding fail finish
  conclude contract_id (err f) e = fail f e
  conclude contract_id (ok final_output) e =
      let last : Finish = record {
        status = "ready";
        final_output = final_output;
        state_snapshot = e.manager.state;
        error_code = none;
        error_message = none;
        failed_step = none;
      } in
      elim (finish clock last e.logger) [
        | some l ↦ success (record {
          execution_id = l.runtime.execution_id;
          capability_id = contract_id;
          final_output = l.runtime.final_output;
          runtime = l.runtime;
          step_outputs = e.manager.step_outputs;
        })
        | none ↦
            fail
              (record {
                kind = ErrorKind.other;
                message = "error_code is required when status is 'error'.";
              })
              e
      ]

  unfoldable pub run_strategy : String → String → Mode → Fields → Fields → W → Outcome × W
  unfolding start_engine run_mode conclude
  run_strategy execution_id contract_id mode strategy inputs world =
      let (r, e) = run_mode mode strategy (start_engine execution_id contract_id inputs world) in
      (conclude contract_id r e, e.world)

  -- The checks before the runtime model is made, and the strategy.
  unfoldable pub execute : String → Fields → Value → W → Outcome × W
  unfolding run_strategy fields_of validate_required_inputs normalize_inputs supported_mode
      mode_text
  execute execution_id contract inputs world = elim (validate_contract contract) [
    | err f ↦ (rejected f, world)
    | ok contract_id ↦ elim (fields_of (get "inputs" contract)) [
      | err f ↦ (rejected f, world)
      | ok contract_inputs ↦ elim (validate_required_inputs contract_inputs inputs) [
        | err f ↦ (rejected f, world)
        | ok given ↦ elim (fields_of (get "strategy" contract)) [
          | err f ↦ (rejected f, world)
          | ok strategy ↦ elim (supported_mode (get "mode" strategy)) [
            | none ↦ (
              rejected (record {
                kind = capability_input;
                message = "Unsupported strategy mode '" ⋯ mode_text (get "mode" strategy) ⋯ "'.";
              }),
              world,
            )
            | some mode ↦
                run_strategy execution_id contract_id mode strategy
                  (normalize_inputs contract_inputs given) world
          ]
        ]
      ]
    ]
  ]
