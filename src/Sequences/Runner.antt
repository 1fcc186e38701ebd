-- ===== src/Sequences/Runner.antt =====
-- system/core/sequences/runner.py: a sequence runs its capabilities one after another, over the state
-- manager and the observation logger. The registries of sequences and of capabilities, and what executes
-- a capability, are arguments.
pub mod Logged
pub mod Ended
mod Tests
use capability_os.Base.{
  ℕ, String, Bool, true, false, ◌&&◌, if◌then◌else◌, Option, none, some, List, [], ◌∷◌, ◌⋯◌,
}
use capability_os.Value.{Value, null, text, dict, Fields, end, field, get, get_or, put}
use capability_os.State
use capability_os.State.{StateManager, init, update_state, record_step_output, resolve_fields}
use capability_os.Observation.{
  Runtime, Logger, Finish, initialize, mark_capability_resolved, mark_validation_passed,
  mark_step_started, mark_step_succeeded, mark_step_failed, finish, get_runtime_model,
}
use capability_os.Exec.{err, ok}
use capability_os.Sequences.{SequenceStep, SequenceDefinition, to_dict, parse_sequence_definition}

-- The classes of exception that `_error_code_from_exception` tells apart.
pub data ErrorClass : Type 0 where
  variable_resolution capability_execution capability_input phase7_execution sequence_validation
        sequence_storage other :
      ErrorClass

pub record Raised : Type 0 where
  pub class : ErrorClass
  pub message : String

-- `_error_code_from_exception`
unfoldable pub error_code : ErrorClass → String
error_code variable_resolution = "variable_resolution_error"
error_code capability_execution = "capability_execution_error"
error_code capability_input = "capability_execution_error"
error_code phase7_execution = "capability_execution_error"
error_code sequence_validation = "sequence_validation_error"
error_code sequence_storage = "sequence_storage_error"
error_code other = "sequence_execution_error"

pub data Tried (A : Type 0) : Type 0 where
  raised : Raised → Tried A
  done : A → Tried A

-- A call of a capability: it changes the world, and returns a result or raises.
abbrev pub Executor : Type 0 → Type 0
Executor W = Fields → W → Tried Fields × W

pub record Services (W : Type 0) : Type 0 where
  pub clock : ℕ → ℕ
  pub iso : ℕ → String
  -- The executor that is set, if one is.
  pub capability_executor : Option (String → Executor W)
  pub capability_registry : String → Option Fields
  pub engine_execute : Fields → Executor W

pub record Run (W : Type 0) : Type 0 where
  pub manager : StateManager
  pub logger : Logger
  pub current_step : Option String
  pub aggregated_steps : Fields
  pub last_output : Fields
  pub world : W

abbrev optional : Option String → Value
optional none = null
optional (some s) = text s

-- A step's output as the last one.
abbrev as_last : Value → Fields
as_last (dict d) = d
as_last v = field "result" v end

unfoldable pub step_summary : String → Fields → Value → Fields
unfolding get_or
step_summary capability step_result step_output = field "capability" (text capability) (
    field "status" (get_or "status" null step_result) (
      field "execution_id" (get_or "execution_id" null step_result)
        (field "output" step_output end)))

-- if isinstance(step_output, dict): state_manager.update_state(step_output)
unfoldable pub merge_output : Value → StateManager → State.Resolved StateManager
unfolding update_state
merge_output (dict d) m = update_state (dict d) m
merge_output v m = State.ok m

module _ {W : Type 0} (services : Services W) where
  open services use {clock, iso, capability_executor, capability_registry, engine_execute}

  unfoldable pub execute_step_capability : String → Executor W
  execute_step_capability capability_id inputs w = elim capability_executor [
    | some execute ↦ execute capability_id inputs w
    | none ↦ elim (capability_registry capability_id) [
      | none ↦ (
        raised (record {
          class = sequence_validation;
          message = "Unknown capability '" ⋯ capability_id ⋯ "'.";
        }),
        w,
      )
      | some contract ↦ engine_execute contract inputs w
    ]
  ]

  -- What follows the call of a step's capability, where it has returned.
  unfoldable pub finish_step : SequenceStep → Fields → Run W → Option Raised × Run W
  unfolding get_or record_step_output merge_output step_summary put mark_step_succeeded
  finish_step step step_result r =
      let step_output = get_or "final_output" (dict end) step_result in
      let recorded = record_step_output step.step_id step_output r.manager in
      elim (merge_output step_output recorded) [
        | State.unresolved e ↦ (
          some (record { class = variable_resolution; message = e }),
          record r { manager = recorded },
        )
        | State.ok manager ↦
            let summary = step_summary step.capability step_result step_output in
            (
              none,
              record r {
                manager = manager;
                aggregated_steps = put step.step_id (dict summary) r.aggregated_steps;
                last_output = as_last step_output;
                logger =
                    mark_step_succeeded clock step.step_id (dict summary) manager.state r.logger;
              },
            )
      ]

  unfoldable pub after_call : SequenceStep → Tried Fields × W → Run W → Option Raised × Run W
  unfolding finish_step
  after_call step (raised e, w) r = (some e, record r { world = w })
  after_call step (done step_result, w) r = finish_step step step_result (record r { world = w })

  unfoldable pub run_step : SequenceStep → Run W → Option Raised × Run W
  unfolding resolve_fields get_runtime_model mark_step_started execute_step_capability after_call
  run_step step r =
      let entered = record r { current_step = some step.step_id } in
      elim (resolve_fields (get_runtime_model iso r.logger.runtime) r.manager step.inputs) [
        | State.unresolved e ↦ (some (record { class = variable_resolution; message = e }), entered)
        | State.ok resolved_inputs ↦
            let params =
              field "capability" (text step.capability)
                (field "inputs" (dict resolved_inputs) end) in
            after_call step (execute_step_capability step.capability resolved_inputs r.world)
              (record entered { logger = mark_step_started clock step.step_id params r.logger })
      ]

  -- The loop over the steps, as far as the first exception.
  unfoldable pub run_steps : List SequenceStep → Run W → Option Raised × Run W
  unfolding run_step
  run_steps [] r = (none, r)
  run_steps (step ∷ steps) r =
      let (e, r') = run_step step r in
      elim e [ some error ↦ (some error, r') | none ↦ run_steps steps r' ]

-- How `run` ends: it returns; it raises before there is a runtime model; or it raises a
-- SequenceRunError, with its message, its runtime model and its error code.
pub data Outcome : Type 0 where
  success : Runtime → Fields → Outcome
  rejected : Raised → Outcome
  failed : String → Runtime → String → Outcome

module _ {W : Type 0} (services : Services W) where
  open services use {clock}

  -- The objects with which the loop starts; `execution_id` is the new id of the run.
  unfoldable pub start_run : String → Fields → W → Run W
  unfolding initialize mark_capability_resolved mark_validation_passed init
  start_run execution_id sequence_inputs w = record {
    manager = init sequence_inputs;
    logger =
        mark_validation_passed clock
          (mark_capability_resolved clock (initialize clock execution_id "run_sequence" end 0));
    current_step = none;
    aggregated_steps = end;
    last_output = end;
    world = w;
  }

  abbrev pub note_failed : Raised → Run W → Option String → Logger
  unfolding mark_step_failed error_code
  note_failed e r none = r.logger
  note_failed e r (some step_id) =
      mark_step_failed clock step_id (error_code e.class) e.message r.manager.state r.logger

  -- `except Exception as exc`
  unfoldable pub fail : Raised → Run W → Outcome
  unfolding note_failed finish error_code
  fail e r =
      let last : Finish = record {
        status = "error";
        final_output = end;
        state_snapshot = r.manager.state;
        error_code = some (error_code e.class);
        error_message = some e.message;
        failed_step = r.current_step;
      } in
      elim (finish clock last (note_failed e r r.current_step)) [
        | none ↦
            rejected
              (record { class = other; message = "error_code is required when status is 'error'." })
        | some l ↦ failed e.message l.runtime (error_code e.class)
      ]

  unfoldable pub final_output_of : SequenceDefinition → Run W → Fields
  final_output_of definition r = field "sequence_id" (text definition.sequence_id) (
      field "steps" (dict r.aggregated_steps) (
        field "last_step" (optional r.current_step) (field "last_output" (dict r.last_output) end)))

  unfoldable pub conclude : SequenceDefinition → Option Raised → Run W → Outcome
  unfolding fail final_output_of finish
  conclude definition (some e) r = fail e r
  conclude definition none r =
      let final_output = final_output_of definition r in
      let last : Finish = record {
        status = "ready";
        final_output = final_output;
        state_snapshot = r.manager.state;
        error_code = none;
        error_message = none;
        failed_step = none;
      } in
      elim (finish clock last r.logger) [
        | none ↦
            fail
              (record { class = other; message = "error_code is required when status is 'error'." })
              r
        | some l ↦ success l.runtime final_output
      ]

  -- `run`, from the creation of the logger on.
  unfoldable pub run_definition : String → SequenceDefinition → Fields → W → Outcome × W
  unfolding start_run run_steps conclude
  run_definition execution_id definition sequence_inputs w =
      let (e, r) = run_steps services definition.steps (start_run execution_id sequence_inputs w) in
      (conclude definition e r, r.world)

-- SequenceRegistry.validate
unfoldable pub validated : Value → Tried SequenceDefinition
unfolding parse_sequence_definition
validated v = elim (parse_sequence_definition v) [
  | err f ↦ raised (record { class = sequence_validation; message = f.message })
  | ok d ↦ done d
]

abbrev validated_again : Tried SequenceDefinition → Tried SequenceDefinition
unfolding validated to_dict
validated_again (raised e) = raised e
validated_again (done d) = validated (to_dict d)

unfoldable pub validated_value : Tried Value → Tried SequenceDefinition
unfolding validated
validated_value (raised e) = raised e
validated_value (done v) = validated v

abbrev or_blank : Option String → String
or_blank none = ""
or_blank (some s) = s

-- A definition that is given, or the stored one of an id; `load_stored` is the storage's `load`.
unfoldable pub resolve_definition :
    (String → Tried Value) → Option String → Option Value → Tried SequenceDefinition
unfolding validated validated_again validated_value
resolve_definition load_stored sequence_id (some v) = validated v
resolve_definition load_stored sequence_id none =
    validated_again (validated_value (load_stored (or_blank sequence_id)))

-- sequence_inputs or {}, where it is an object or None.
abbrev inputs_of : Option Value → Option Fields
inputs_of none = some end
inputs_of (some (dict d)) = some d
inputs_of (some v) = none

abbrev is_none {ℓ} : {A : Type ℓ} → Option A → Bool
is_none none = true
is_none (some a) = false

invalid : String → Outcome
invalid message = rejected (record { class = sequence_validation; message = message })

module _ {W : Type 0} (services : Services W) (load_stored : String → Tried Value) where
  unfoldable pub run : String → Option String → Option Value → Option Value → W → Outcome × W
  unfolding resolve_definition run_definition invalid
  run execution_id sequence_id sequence_definition sequence_inputs w =
      if is_none sequence_id && is_none sequence_definition
      then (invalid "run_sequence requires 'sequence_id' or 'sequence_definition'.", w)
      else elim (inputs_of sequence_inputs) [
        | none ↦ (invalid "'inputs' for run_sequence must be an object when provided.", w)
        | some inputs ↦ elim (resolve_definition load_stored sequence_id sequence_definition) [
          | raised e ↦ (rejected e, w)
          | done definition ↦ run_definition services execution_id definition inputs w
        ]
      ]
