-- ===== src/Metrics/Summary.antt =====
-- What the collector of system/core/metrics/metrics_collector.py promises: its counters and traces are
-- a summary of all the executions that have been recorded, over any number of restarts.
use capability_os.Base.{
  ℕ, ◌+◌, String, Bool, true, false, ◌&&◌, Option, none, some, List, [], ◌∷◌, length, keep,
  if◌then◌else◌, ◌==◌, ◌≡◌, ◌≢◌,
}
use capability_os.Value.{Fields}
use capability_os.Observation.{
  Event, step_succeeded, step_failed, Entry, Runtime, get_runtime_model,
}
use capability_os.Metrics.{
  Data, Collector, load, open_collector, errors_of, is_success, is_error, is_tool_error,
  record_execution, get_trace,
}

-- What happens to a collector: an execution is recorded, or the process ends and another one opens
-- the same files.
pub data Op : Type 0 where
  executed : Runtime → Op
  restarted : Op

unfoldable pub step : (ℕ → String) → Op → Collector → Collector
unfolding record_execution open_collector
step iso (executed r) c = record_execution iso r c
step iso restarted c = open_collector c.file c.traces

unfoldable pub run : (ℕ → String) → List Op → Collector → Collector
unfolding step
run iso [] c = c
run iso (op ∷ ops) c = run iso ops (step iso op c)

-- The executions, the latest first.
abbrev pub remember : Op → List Runtime → List Runtime
remember (executed r) h = r ∷ h
remember restarted h = h

unfoldable pub history : List Op → List Runtime → List Runtime
history [] h = h
history (op ∷ ops) h = history ops (remember op h)

-- A tool has been called, and a call has failed.
abbrev pub is_call : Event → Fields → Bool
is_call step_succeeded payload = true
is_call step_failed payload = is_tool_error payload
is_call _ payload = false

abbrev pub is_failed_call : Event → Fields → Bool
is_failed_call step_failed payload = is_tool_error payload
is_failed_call _ payload = false

abbrev pub calls : List Entry → ℕ
calls logs = length (keep (λ e. is_call e.event e.payload) logs)

abbrev pub failed_calls : List Entry → ℕ
failed_calls logs = length (keep (λ e. is_failed_call e.event e.payload) logs)

abbrev pub total : (Runtime → ℕ) → List Runtime → ℕ
total f [] = 0
total f (r ∷ h) = total f h + f r

abbrev pub last_model : (ℕ → String) → String → List Runtime → Option Fields
last_model iso id [] = none
last_model iso id (r ∷ h) =
    if r.execution_id == id then some (get_runtime_model iso r) else last_model iso id h

abbrev pub failed_in : String → Runtime → Bool
failed_in c r = is_error r && (r.capability_id == c)

-- The counters of a history.
pub record IsSummary (h : List Runtime) (d : Data) : Type 0 where
  pub executions : d.total_executions ≡ length h
  pub successes : d.successful_executions ≡ length (keep is_success h)
  pub duration : d.total_duration_ms ≡ total (λ r. r.duration_ms) h
  pub errors : (c : String) → errors_of c d.errors_by_capability ≡ length (keep (failed_in c) h)
  pub tool_calls : d.tool_calls_total ≡ total (λ r. calls r.logs) h
  pub tool_failures : d.tool_calls_failed ≡ total (λ r. failed_calls r.logs) h

-- A collector that represents a history: also in its file and in its traces.
pub record Represents (iso : ℕ → String) (h : List Runtime) (c : Collector) : Type 0 where
  pub counters : IsSummary h c.counters
  pub saved : load c.file ≡ c.counters
  pub traces : (id : String) → id ≢ "" → get_trace id c ≡ last_model iso id h
