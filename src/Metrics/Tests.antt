-- ===== src/Metrics/Tests.antt =====
-- Runs of system/core/metrics/metrics_collector.py.
use capability_os.Base.{
  ℕ, String, Option, none, some, List, [], ◌∷◌, ◌≡◌, refl, arith, show_int, pos,
}
use capability_os.Value.{text, end, field}
use capability_os.Observation.{
  Event, step_started, step_succeeded, step_failed, Entry, Runtime, get_runtime_model,
}
use capability_os.Metrics.{
  Data, missing, unreadable, stored, Collector, load, open_collector, record_execution, get_trace,
  get_metrics,
}
use capability_os.Metrics.Summary.{Op, executed, restarted, run, history, Represents}
use capability_os.Metrics.History.{run-history}
use capability_os.Metrics.Bounded.{IsBounded, record_execution-IsBounded}

abbrev iso : ℕ → String
iso t = show_int (pos t)

abbrev entry : Event → String → Entry
entry event code = record {
  event = event;
  timestamp = 0;
  payload = field "error_code" (text code) end;
}

abbrev runtime : String → String → List Entry → Runtime
runtime id status logs = record {
  execution_id = id;
  capability_id = "read_file";
  status = status;
  current_step = none;
  state = end;
  logs = logs;
  started_at = 0;
  ended_at = none;
  duration_ms = 5;
  retry_count = 0;
  error_code = none;
  error_message = none;
  last_completed_step = none;
  failed_step = none;
  final_output = end;
}

-- A success, a failure of the tool, and an input that is refused before a tool is called.
abbrev good : Runtime
good = runtime "exec_1" "ready" (entry step_started "" ∷ entry step_succeeded "" ∷ [])

abbrev broken : Runtime
broken =
    runtime "exec_2" "error"
      (entry step_succeeded "" ∷ entry step_failed "tool_execution_error" ∷ [])

abbrev refused : Runtime
refused = runtime "exec_2" "error" (entry step_failed "validation_error" ∷ [])

abbrev ops : List Op
ops = executed good ∷ executed broken ∷ restarted ∷ executed refused ∷ []

abbrev counters : Data
counters = record {
  total_executions = 3;
  successful_executions = 1;
  total_duration_ms = 15;
  errors_by_capability = ("read_file", 2) ∷ [];
  tool_calls_total = 3;
  tool_calls_failed = 1;
}

after_ops : (run iso ops (open_collector missing [])).counters ≡ counters
unfolding run open_collector
after_ops = refl

last_trace :
    get_trace "exec_2" (run iso ops (open_collector missing []))
    ≡ some (get_runtime_model iso refused)
unfolding run open_collector get_trace
last_trace = refl

rates :
    (get_metrics {Float = Option (ℕ × ℕ)}
      (λ a b. some (a, b))
      (λ a b. none)
      none
      (run iso ops (open_collector missing []))).tool_failure_rate
    ≡ some (1, 3)
unfolding run open_collector get_metrics
rates = refl

-- A file that lacks a key, and one that is no object.
old_file :
    (load (
      stored (record {
        total_executions = some 4;
        successful_executions = none;
        total_duration_ms = none;
        errors_by_capability = none;
        tool_calls_total = none;
        tool_calls_failed = none;
      }))).total_executions
    ≡ 4
unfolding load
old_file = refl

unreadable_file : (load unreadable).total_executions ≡ 0
unfolding load
unreadable_file = refl

run-history_example : Represents iso (history ops []) (run iso ops (open_collector missing []))
run-history_example = run-history iso ops

collector : Collector
collector = record { counters = counters; file = missing; traces = [] }

collector-IsBounded : IsBounded collector.counters
unfolding collector
collector-IsBounded = record { tool_calls = omega arith; outcomes = omega arith }

record_execution-IsBounded_example : IsBounded (record_execution iso broken collector).counters
record_execution-IsBounded_example =
    record_execution-IsBounded iso broken collector collector-IsBounded
