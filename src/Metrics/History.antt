-- ===== src/Metrics/History.antt =====
-- What the collector of system/core/metrics/metrics_collector.py keeps over any number of executions
-- and restarts.
use capability_os.Base.{
  ℕ, String, some, List, [], ◌∷◌, if◌then◌else◌, ◌==◌, eq_iff, lookup-insert, ◌≡◌, ◌≢◌, refl, sym,
  subst, ap, ◌∙◌, Bool-cases, inl, inr,
}
use capability_os.Observation.{Runtime, get_runtime_model}
use capability_os.Metrics.{
  missing, Collector, load, save_locked, open_collector, errors_of, persist_trace, record_execution,
  get_trace,
}
use capability_os.Metrics.Summary.{
  Op, executed, restarted, step, run, remember, history, last_model, IsSummary, Represents,
}
use capability_os.Metrics.Counting.{counted-added, IsSummary-added}

traces-record :
    (iso : ℕ → String) (r : Runtime) (h : List Runtime) (c : Collector) (id : String)
    → id ≢ ""
    → get_trace id c ≡ last_model iso id h
    → get_trace id (record_execution iso r c) ≡ last_model iso id (r ∷ h)
unfolding get_trace record_execution persist_trace
traces-record iso r h c id filled old = elim (Bool-cases (r.execution_id == "")) [
  | inl blank ↦
      rw (blank, persist_trace)
        (elim (Bool-cases (r.execution_id == id)) [
          | inl same ↦ absurd (
              filled (sym ((eq_iff r.execution_id id).0 same) ∙ (eq_iff r.execution_id "").0 blank))
          | inr differs ↦ rw differs old
        ])
  | inr named ↦
      rw (named, persist_trace)
        (lookup-insert r.execution_id id _ c.traces
          ∙ ap (λ o. if r.execution_id == id then some (get_runtime_model iso r) else o) old)
]

step-Represents :
    (iso : ℕ → String) (op : Op) (h : List Runtime) (c : Collector)
    → Represents iso h c
    → Represents iso (remember op h) (step iso op c)
unfolding step record_execution open_collector load save_locked get_trace
step-Represents iso (executed r) h c s = record {
  counters =
      subst (IsSummary (r ∷ h)) (sym (counted-added r c.counters))
        (IsSummary-added r h c.counters s.counters);
  saved = refl;
  traces = λ id filled. traces-record iso r h c id filled (s.traces id filled);
}
step-Represents iso restarted h c s = record {
  counters = subst (IsSummary h) (sym s.saved) s.counters;
  saved = refl;
  traces = s.traces;
}

run-Represents :
    (iso : ℕ → String) (ops : List Op) (h : List Runtime) (c : Collector)
    → Represents iso h c
    → Represents iso (history ops h) (run iso ops c)
unfolding run history
run-Represents iso [] h c s = s
run-Represents iso (op ∷ ops) h c s =
    run-Represents iso ops (remember op h) (step iso op c) (step-Represents iso op h c s)

-- Whatever executions are recorded, with whatever restarts between them, from a first start without
-- files: each counter is that of all the executions so far, counted one by one, and for each capability
-- the number of its failed executions; the file holds the same counters; and the trace of an execution
-- id is the runtime model that was recorded last with it.
pub run-history :
    (iso : ℕ → String) (ops : List Op)
    → Represents iso (history ops []) (run iso ops (open_collector missing []))
unfolding open_collector load errors_of get_trace
run-history iso ops = run-Represents iso ops [] (open_collector missing []) (record {
  counters = record {
    executions = refl;
    successes = refl;
    duration = refl;
    errors = λ c. refl;
    tool_calls = refl;
    tool_failures = refl;
  };
  saved = refl;
  traces = λ id filled. refl;
})
