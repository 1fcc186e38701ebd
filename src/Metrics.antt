-- ===== src/Metrics.antt =====
-- system/core/metrics/metrics_collector.py: the counters of the executions, kept in a file, and the
-- traces. The executions are runtime models of Observation. Writing a file does not fail here.
pub mod Summary
pub mod Counting
pub mod History
pub mod Bounded
mod Tests
use capability_os.Base.{
  ℕ, ◌+◌, String, Bool, true, false, ◌||◌, Option, none, some, List, [], ◌∷◌, eqb, ◌==◌,
  if◌then◌else◌, Dict, lookup, insert,
}
use capability_os.Value.{text, Fields, get_or, is_text}
use capability_os.Observation.{
  Event, execution_started, capability_resolved, validation_passed, step_started, step_succeeded,
  step_failed, execution_finished, Entry, Runtime, get_runtime_model,
}

-- `_data`
pub record Data : Type 0 where
  pub total_executions : ℕ
  pub successful_executions : ℕ
  pub total_duration_ms : ℕ
  pub errors_by_capability : Dict ℕ
  pub tool_calls_total : ℕ
  pub tool_calls_failed : ℕ

-- What a file holds that has been read: a value for each key that is there.
pub record Stored : Type 0 where
  pub total_executions : Option ℕ
  pub successful_executions : Option ℕ
  pub total_duration_ms : Option ℕ
  pub errors_by_capability : Option (Dict ℕ)
  pub tool_calls_total : Option ℕ
  pub tool_calls_failed : Option ℕ

pub data File : Type 0 where
  missing : File
  -- It cannot be read, is no JSON or no object.
  unreadable : File
  stored : Stored → File

pub record Collector : Type 0 where
  pub counters : Data
  pub file : File
  -- The traces folder: a runtime model for each file's stem.
  pub traces : Dict Fields

-- `_EMPTY_DATA`
abbrev pub empty_data : Data
empty_data = record {
  total_executions = 0;
  successful_executions = 0;
  total_duration_ms = 0;
  errors_by_capability = [];
  tool_calls_total = 0;
  tool_calls_failed = 0;
}

abbrev default {ℓ} : {A : Type ℓ} → A → Option A → A
default a none = a
default a (some b) = b

-- {**_EMPTY_DATA, **raw}
abbrev merged : Stored → Data
merged raw = record {
  total_executions = default 0 raw.total_executions;
  successful_executions = default 0 raw.successful_executions;
  total_duration_ms = default 0 raw.total_duration_ms;
  errors_by_capability = default [] raw.errors_by_capability;
  tool_calls_total = default 0 raw.tool_calls_total;
  tool_calls_failed = default 0 raw.tool_calls_failed;
}

unfoldable pub load : File → Data
load (stored raw) = merged raw
load _ = empty_data

-- What `_save_locked` writes.
unfoldable pub save_locked : Data → File
save_locked d = stored (record {
  total_executions = some d.total_executions;
  successful_executions = some d.successful_executions;
  total_duration_ms = some d.total_duration_ms;
  errors_by_capability = some d.errors_by_capability;
  tool_calls_total = some d.tool_calls_total;
  tool_calls_failed = some d.tool_calls_failed;
})

-- A collector on what a process before it has left behind.
unfoldable pub open_collector : File → Dict Fields → Collector
unfolding load
open_collector file traces = record { counters = load file; file = file; traces = traces }

-- errors.get(capability_id, 0)
unfoldable pub errors_of : String → Dict ℕ → ℕ
unfolding lookup
errors_of capability_id errors = elim (lookup capability_id errors) [ none ↦ 0 | some n ↦ n ]

abbrev pub is_success : Runtime → Bool
is_success r = (r.status == "ready") || (r.status == "success")

abbrev pub is_error : Runtime → Bool
is_error r = r.status == "error"

abbrev count_status : Runtime → Data → Data
unfolding errors_of insert
count_status r d =
    if is_success r
    then record d { successful_executions = d.successful_executions + 1 }
    else if is_error r
    then record d {
      errors_by_capability =
          insert r.capability_id (errors_of r.capability_id d.errors_by_capability + 1)
            d.errors_by_capability;
    }
    else d

unfoldable pub is_tool_error : Fields → Bool
unfolding get_or is_text
is_tool_error payload = is_text "tool_execution_error" (get_or "error_code" (text "") payload)

-- One entry of the event log.
unfoldable pub count_entry : Entry → Data → Data
unfolding is_tool_error
count_entry entry d = elim entry.event [
  | step_succeeded ↦ record d { tool_calls_total = d.tool_calls_total + 1 }
  | step_failed ↦
      if is_tool_error entry.payload
      then record d {
        tool_calls_total = d.tool_calls_total + 1;
        tool_calls_failed = d.tool_calls_failed + 1;
      }
      else d
  | execution_started ↦ d
  | capability_resolved ↦ d
  | validation_passed ↦ d
  | step_started ↦ d
  | execution_finished ↦ d
]

unfoldable pub count_tool_calls : List Entry → Data → Data
unfolding count_entry
count_tool_calls [] d = d
count_tool_calls (entry ∷ logs) d = count_tool_calls logs (count_entry entry d)

-- The counters after an execution.
unfoldable pub counted : Runtime → Data → Data
unfolding count_status count_tool_calls
counted r d = count_tool_calls r.logs (
    count_status r (record d {
      total_executions = d.total_executions + 1;
      total_duration_ms = d.total_duration_ms + r.duration_ms;
    }))

module _ (iso : ℕ → String) where
  unfoldable pub persist_trace : Runtime → Dict Fields → Dict Fields
  unfolding insert
  persist_trace r traces =
      if r.execution_id == ""
      then traces
      else insert r.execution_id (get_runtime_model iso r) traces

  unfoldable pub record_execution : Runtime → Collector → Collector
  unfolding counted persist_trace save_locked
  record_execution r c =
      let counters = counted r c.counters in
      record { counters = counters; file = save_locked counters; traces = persist_trace r c.traces }

-- The file of a trace, where there is one.
unfoldable pub get_trace : String → Collector → Option Fields
unfolding lookup
get_trace execution_id c = lookup execution_id c.traces

pub record Metrics {ℓ} (Float : Type ℓ) : Type ℓ where
  pub execution_success_rate : Float
  pub avg_execution_time_ms : Float
  pub error_rate_by_capability : Dict ℕ
  pub tool_failure_rate : Float
  pub total_executions : ℕ
  pub successful_executions : ℕ
  pub total_duration_ms : ℕ
  pub tool_calls_total : ℕ
  pub tool_calls_failed : ℕ

-- `percent a b` is round(a / b * 100, 2), and `mean a b` is round(a / b, 2).
module _ {ℓ} {Float : Type ℓ} (percent mean : ℕ → ℕ → Float) (float_zero : Float) where
  unfoldable pub get_metrics : Collector → Metrics Float
  get_metrics c = record {
    execution_success_rate =
        if eqb c.counters.total_executions 0
        then float_zero
        else percent c.counters.successful_executions c.counters.total_executions;
    avg_execution_time_ms =
        if eqb c.counters.total_executions 0
        then float_zero
        else mean c.counters.total_duration_ms c.counters.total_executions;
    error_rate_by_capability = c.counters.errors_by_capability;
    tool_failure_rate =
        if eqb c.counters.tool_calls_total 0
        then float_zero
        else percent c.counters.tool_calls_failed c.counters.tool_calls_total;
    total_executions = c.counters.total_executions;
    successful_executions = c.counters.successful_executions;
    total_duration_ms = c.counters.total_duration_ms;
    tool_calls_total = c.counters.tool_calls_total;
    tool_calls_failed = c.counters.tool_calls_failed;
  }
