-- ===== src/Metrics/Bounded.antt =====
-- The counters of system/core/metrics/metrics_collector.py against each other.
use capability_os.Base.{
  ℕ, ◌+◌, ◌≤◌, String, List, [], ◌∷◌, ◌==◌, Dict, lookup, insert, ◌≡◌, sym, subst, arith,
  Bool-cases, inl, inr,
}
use capability_os.Value.{Fields}
use capability_os.Observation.{
  Event, execution_started, step_succeeded, step_failed, Entry, Runtime,
}
use capability_os.Metrics.{Data, Collector, errors_of, is_success, is_error, record_execution}
use capability_os.Metrics.Summary.{is_call, is_failed_call, calls, failed_calls}
use capability_os.Metrics.Counting.{one_if, length-keep-cons, errors_after, counted-added, added}

abbrev pub sum : Dict ℕ → ℕ
sum [] = 0
sum ((k, n) ∷ d) = n + sum d

-- No more failed calls than calls, and no more outcomes than executions.
pub record IsBounded (d : Data) : Type 0 where
  pub tool_calls : d.tool_calls_failed ≤ d.tool_calls_total
  pub outcomes : d.successful_executions + sum d.errors_by_capability ≤ d.total_executions

pub sum-insert :
    (k : String) (m : ℕ) (errors : Dict ℕ)
    → sum (insert k m errors) + errors_of k errors ≡ sum errors + m
unfolding insert errors_of lookup
sum-insert k m [] = omega arith
sum-insert k m ((j, n) ∷ errors) = elim (Bool-cases (j == k)) [
  | inl same ↦ rw (same, errors_of) (omega arith)
  | inr differs ↦ let rest = sum-insert k m errors in rw (differs, errors_of) (omega arith)
]

failed_call_is_call :
    (e : Event) (payload : Fields) → one_if (is_failed_call e payload) ≤ one_if (is_call e payload)
unfolding one_if
failed_call_is_call step_succeeded payload = omega arith
failed_call_is_call step_failed payload = omega arith
failed_call_is_call execution_started payload = omega arith
failed_call_is_call e payload = omega arith

failed_calls-le-calls : (logs : List Entry) → failed_calls logs ≤ calls logs
failed_calls-le-calls [] = omega arith
failed_calls-le-calls (e ∷ logs) =
    let first = failed_call_is_call e.event e.payload in
    let rest = failed_calls-le-calls logs in
    let failed = length-keep-cons (λ e. is_failed_call e.event e.payload) e logs in
    let called = length-keep-cons (λ e. is_call e.event e.payload) e logs in omega arith

outcome_lem :
    (r : Runtime) (errors : Dict ℕ)
    → one_if (is_success r) + sum (errors_after r errors) ≤ sum errors + 1
unfolding errors_after one_if
outcome_lem r errors = elim (Bool-cases (is_success r)) [
  | inl success ↦ rw success (omega arith)
  | inr other ↦ elim (Bool-cases (is_error r)) [
    | inl error ↦
        let more = sum-insert r.capability_id (errors_of r.capability_id errors + 1) errors in
        rw (other, error) (omega arith)
    | inr neither ↦ rw (other, neither) (omega arith)
  ]
]

-- Of a collector whose failed calls are no more than its calls, and whose successes and errors, over
-- all capabilities, are no more than its executions, the same holds when it has recorded an execution.
pub record_execution-IsBounded :
    (iso : ℕ → String) (r : Runtime) (c : Collector)
    → IsBounded c.counters
    → IsBounded (record_execution iso r c).counters
unfolding record_execution added one_if errors_after
record_execution-IsBounded iso r c b = subst IsBounded (sym (counted-added r c.counters)) (record {
  tool_calls =
      let calls_bound = failed_calls-le-calls r.logs in let old = b.tool_calls in omega arith;
  outcomes =
      let more = outcome_lem r c.counters.errors_by_capability in
      let old = b.outcomes in omega arith;
})
