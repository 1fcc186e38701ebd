-- ===== src/Observation.antt =====
-- system/core/observation/observation_logger.py: the runtime model of one execution and its event
-- log. `initialize` is the only way to a logger here, so the guards on a missing runtime model are
-- not written out. Times are milliseconds; `clock n` is the n-th reading of the clock.
pub mod Told
use capability_os.Base.{
  ℕ, ◌+◌, ◌-◌, String, Bool, true, ◌&&◌, Option, none, some, List, [], ◌∷◌, ◌++◌, ◌==◌,
  if◌then◌else◌, pos,
}
use capability_os.Value.{Value, null, int, text, list, dict, Items, nil, cons, Fields, end, field}

pub data Event : Type 0 where
  execution_started capability_resolved validation_passed step_started step_succeeded step_failed
        execution_finished :
      Event

pub record Entry : Type 0 where
  pub event : Event
  pub timestamp : ℕ
  pub payload : Fields

pub record Runtime : Type 0 where
  pub execution_id : String
  pub capability_id : String
  pub status : String
  pub current_step : Option String
  pub state : Fields
  pub logs : List Entry
  pub started_at : ℕ
  pub ended_at : Option ℕ
  pub duration_ms : ℕ
  pub retry_count : ℕ
  pub error_code : Option String
  pub error_message : Option String
  pub last_completed_step : Option String
  pub failed_step : Option String
  pub final_output : Fields

pub record Logger : Type 0 where
  pub runtime : Runtime
  -- How often the clock has been read.
  pub reads : ℕ

abbrev pub optional : Option String → Value
optional none = null
optional (some s) = text s

-- The arguments of `finish`.
pub record Finish : Type 0 where
  pub status : String
  pub final_output : Fields
  pub state_snapshot : Fields
  pub error_code : Option String
  pub error_message : Option String
  pub failed_step : Option String

-- not error_code
unfoldable pub is_blank : Option String → Bool
is_blank none = true
is_blank (some s) = s == ""

module _ (clock : ℕ → ℕ) where
  unfoldable pub emit : Event → Fields → Logger → Logger
  emit event payload l = record {
    runtime = record l.runtime {
      logs =
          l.runtime.logs
          ++ record { event = event; timestamp = clock l.reads; payload = payload } ∷ [];
    };
    reads = l.reads + 1;
  }

  unfoldable pub initialize : String → String → Fields → ℕ → Logger
  unfolding emit
  initialize execution_id capability_id initial_state reads =
      emit execution_started (field "capability_id" (text capability_id) end) (record {
        runtime = record {
          execution_id = execution_id;
          capability_id = capability_id;
          status = "running";
          current_step = none;
          state = initial_state;
          logs = [];
          started_at = clock reads;
          ended_at = none;
          duration_ms = 0;
          retry_count = 0;
          error_code = none;
          error_message = none;
          last_completed_step = none;
          failed_step = none;
          final_output = end;
        };
        reads = reads + 1;
      })

  unfoldable pub mark_capability_resolved : Logger → Logger
  unfolding emit
  mark_capability_resolved = emit capability_resolved end

  unfoldable pub mark_validation_passed : Logger → Logger
  unfolding emit
  mark_validation_passed = emit validation_passed end

  unfoldable pub mark_step_started : String → Fields → Logger → Logger
  unfolding emit
  mark_step_started step_id resolved_params l =
      emit step_started (field "step_id" (text step_id) (field "params" (dict resolved_params) end))
        (record l { runtime = record l.runtime { current_step = some step_id } })

  unfoldable pub mark_step_succeeded : String → Value → Fields → Logger → Logger
  unfolding emit
  mark_step_succeeded step_id output state_snapshot l =
      emit step_succeeded (field "step_id" (text step_id) (field "output" output end)) (record l {
        runtime = record l.runtime { last_completed_step = some step_id; state = state_snapshot };
      })

  unfoldable pub mark_step_failed : String → String → String → Fields → Logger → Logger
  unfolding emit
  mark_step_failed step_id error_code error_message state_snapshot l =
      emit step_failed
        (field "step_id" (text step_id)
          (field "error_code" (text error_code) (field "error_message" (text error_message) end)))
        (record l {
          runtime = record l.runtime {
            failed_step = some step_id;
            error_code = some error_code;
            error_message = some error_message;
            state = state_snapshot;
          };
        })

  -- `none` is the ValueError for a missing error code.
  unfoldable pub finish : Finish → Logger → Option Logger
  unfolding emit is_blank
  finish f l =
      if f.status == "error" && is_blank f.error_code
      then none
      else some (
          emit execution_finished
            (field "status" (text f.status) (
              field "final_output" (dict f.final_output) (
                field "error_code" (optional f.error_code) (
                  field "error_message" (optional f.error_message)
                    (field "failed_step" (optional f.failed_step) end)))))
            (record {
              runtime = record l.runtime {
                status = f.status;
                ended_at = some (clock l.reads);
                duration_ms = clock l.reads - l.runtime.started_at;
                state = f.state_snapshot;
                final_output = f.final_output;
                failed_step = f.failed_step;
                error_code = f.error_code;
                error_message = f.error_message;
              };
              reads = l.reads + 1;
            }))

event_name : Event → String
event_name execution_started = "execution_started"
event_name capability_resolved = "capability_resolved"
event_name validation_passed = "validation_passed"
event_name step_started = "step_started"
event_name step_succeeded = "step_succeeded"
event_name step_failed = "step_failed"
event_name execution_finished = "execution_finished"

-- How a time is written in the model is the environment's: `iso` is `isoformat`.
module _ (iso : ℕ → String) where
  entry_items : List Entry → Items
  unfolding event_name
  entry_items [] = nil
  entry_items (e ∷ es) =
      cons
        (dict (
          field "event" (text (event_name e.event))
            (field "timestamp" (text (iso e.timestamp)) (field "payload" (dict e.payload) end))))
        (entry_items es)

  ended : Option ℕ → Value
  ended none = null
  ended (some t) = text (iso t)

  -- The runtime model as the dict that templates read.
  unfoldable pub get_runtime_model : Runtime → Fields
  unfolding entry_items ended
  get_runtime_model r = field "execution_id" (text r.execution_id) (
      field "capability_id" (text r.capability_id) (
        field "status" (text r.status) (
          field "current_step" (optional r.current_step) (
            field "state" (dict r.state) (
              field "logs" (list (entry_items r.logs)) (
                field "started_at" (text (iso r.started_at)) (
                  field "ended_at" (ended r.ended_at) (
                    field "duration_ms" (int (pos r.duration_ms)) (
                      field "retry_count" (int (pos r.retry_count)) (
                        field "error_code" (optional r.error_code) (
                          field "error_message" (optional r.error_message) (
                            field "last_completed_step" (optional r.last_completed_step) (
                              field "failed_step" (optional r.failed_step)
                                (field "final_output" (dict r.final_output) end))))))))))))))
