-- ===== src/Metrics/Counting.antt =====
-- The counters of system/core/metrics/metrics_collector.py after one execution more.
use capability_os.Base.{
  ℕ, ◌+◌, String, Bool, true, false, List, [], ◌∷◌, length, keep, if◌then◌else◌, ◌||◌, ◌==◌, eq_iff,
  Dict, insert, lookup-insert, ◌≡◌, refl, sym, ap, ◌∙◌, arith, Bool-cases, inl, inr,
}
use capability_os.Value.{Fields}
use capability_os.Observation.{
  Event, execution_started, step_succeeded, step_failed, Entry, Runtime,
}
use capability_os.Metrics.{
  Data, errors_of, is_success, is_error, is_tool_error, count_status, count_entry, count_tool_calls,
  counted,
}
use capability_os.Metrics.Summary.{
  is_call, is_failed_call, calls, failed_calls, failed_in, IsSummary,
}

abbrev with_calls : ℕ → ℕ → Data → Data
with_calls n m d = record d { tool_calls_total = n; tool_calls_failed = m }

same_calls : (d : Data) {n n' m m' : ℕ} → n ≡ n' → m ≡ m' → with_calls n m d ≡ with_calls n' m' d
same_calls d {n} {n'} {m} {m'} p q = ap (λ k. with_calls k m d) p ∙ ap (λ k. with_calls n' k d) q

no_calls : (d : Data) → d ≡ with_calls (d.tool_calls_total + 0) (d.tool_calls_failed + 0) d
no_calls d =
    same_calls d {n = d.tool_calls_total} {m = d.tool_calls_failed} (omega arith) (omega arith)

called-called :
    (d : Data) (k l n m : ℕ)
    → with_calls
        (d.tool_calls_total + k + n)
        (d.tool_calls_failed + l + m)
        (with_calls (d.tool_calls_total + k) (d.tool_calls_failed + l) d)
      ≡ with_calls (d.tool_calls_total + (k + n)) (d.tool_calls_failed + (l + m)) d
called-called d k l n m = same_calls d (omega arith) (omega arith)

unfoldable pub one_if : Bool → ℕ
one_if true = 1
one_if false = 0

pub length-keep-cons {ℓ} :
    {A : Type ℓ} (p : A → Bool) (x : A) (xs : List A)
    → length (keep p (x ∷ xs)) ≡ one_if (p x) + length (keep p xs)
unfolding one_if
length-keep-cons p x xs = elim (Bool-cases (p x)) [
  | inl kept ↦ rw kept (omega arith)
  | inr dropped ↦ rw dropped (omega arith)
]

count_entry_lem :
    (e : Event) (t : ℕ) (payload : Fields) (d : Data)
    → count_entry (record { event = e; timestamp = t; payload = payload }) d
      ≡ with_calls
          (d.tool_calls_total + one_if (is_call e payload))
          (d.tool_calls_failed + one_if (is_failed_call e payload))
          d
unfolding count_entry one_if
count_entry_lem step_succeeded t payload d = same_calls d refl (omega arith)
count_entry_lem step_failed t payload d = elim (Bool-cases (is_tool_error payload)) [
  | inl tool ↦ rw (tool, count_entry) refl
  | inr other ↦ rw (other, count_entry) (no_calls d)
]
count_entry_lem execution_started t payload d = no_calls d
count_entry_lem e t payload d = no_calls d

count_tool_calls_lem :
    (logs : List Entry) (d : Data)
    → count_tool_calls logs d
      ≡ with_calls (d.tool_calls_total + calls logs) (d.tool_calls_failed + failed_calls logs) d
unfolding count_tool_calls
count_tool_calls_lem [] d = no_calls d
count_tool_calls_lem (entry ∷ logs) d =
    rw (count_entry_lem entry.event entry.timestamp entry.payload d) (
      count_tool_calls_lem logs _
      ∙ called-called d _ _ _ _
      ∙ same_calls d
          (ap (λ n. d.tool_calls_total + n)
            (sym (length-keep-cons (λ e. is_call e.event e.payload) entry logs)))
          (ap (λ n. d.tool_calls_failed + n)
            (sym (length-keep-cons (λ e. is_failed_call e.event e.payload) entry logs))))

abbrev with_status : ℕ → Dict ℕ → Data → Data
with_status n errors d = record d { successful_executions = n; errors_by_capability = errors }

-- The errors after an execution.
unfoldable pub errors_after : Runtime → Dict ℕ → Dict ℕ
errors_after r errors =
    if is_success r
    then errors
    else if is_error r
    then insert r.capability_id (errors_of r.capability_id errors + 1) errors
    else errors

count_status_lem :
    (r : Runtime) (d : Data)
    → count_status r d
      ≡ with_status
          (d.successful_executions + one_if (is_success r))
          (errors_after r d.errors_by_capability)
          d
unfolding one_if errors_after count_status
count_status_lem r d = elim (Bool-cases (is_success r)) [
  | inl success ↦ rw success refl
  | inr other ↦ elim (Bool-cases (is_error r)) [
    | inl error ↦
        rw (other, error)
          (ap
            (λ n.
              with_status n
                (insert r.capability_id (errors_of r.capability_id d.errors_by_capability + 1)
                  d.errors_by_capability)
                d)
            (omega arith))
    | inr neither ↦
        rw (other, neither) (ap (λ n. with_status n d.errors_by_capability d) (omega arith))
  ]
]

pub error_is_no_success : (r : Runtime) → is_error r ≡ true → is_success r ≡ false
error_is_no_success r h =
    ap (λ s. (s == "ready") || (s == "success")) ((eq_iff r.status "error").0 h)

errors_of-insert :
    (c k : String) (n : ℕ) (errors : Dict ℕ)
    → errors_of c (insert k n errors) ≡ (if k == c then n else errors_of c errors)
unfolding errors_of
errors_of-insert c k n errors = elim (Bool-cases (k == c)) [
  | inl same ↦ rw (lookup-insert k c n errors, errors_of) (rw same refl)
  | inr differs ↦ rw (lookup-insert k c n errors, errors_of) (rw differs refl)
]

errors_after_lem :
    (c : String) (r : Runtime) (errors : Dict ℕ)
    → errors_of c (errors_after r errors) ≡ one_if (failed_in c r) + errors_of c errors
unfolding errors_after one_if
errors_after_lem c r errors = elim (Bool-cases (is_error r)) [
  | inl error ↦ elim (Bool-cases (r.capability_id == c)) [
    | inl same ↦
        rw (error_is_no_success r error, error, same)
          (errors_of-insert c r.capability_id _ errors
            ∙ rw same (
                ap (λ k. errors_of k errors + 1) ((eq_iff r.capability_id c).0 same) ∙ omega arith))
    | inr differs ↦
        rw (error_is_no_success r error, error, differs)
          (errors_of-insert c r.capability_id _ errors ∙ rw differs (omega arith))
  ]
  | inr fine ↦ elim (Bool-cases (is_success r)) [
    | inl success ↦ rw (fine, success) (omega arith)
    | inr other ↦ rw (fine, other) (omega arith)
  ]
]

-- The counters after an execution, field by field.
unfoldable pub added : Runtime → Data → Data
unfolding one_if errors_after
added r d = record {
  total_executions = d.total_executions + 1;
  successful_executions = d.successful_executions + one_if (is_success r);
  total_duration_ms = d.total_duration_ms + r.duration_ms;
  errors_by_capability = errors_after r d.errors_by_capability;
  tool_calls_total = d.tool_calls_total + calls r.logs;
  tool_calls_failed = d.tool_calls_failed + failed_calls r.logs;
}

pub counted-added : (r : Runtime) (d : Data) → counted r d ≡ added r d
unfolding counted added
counted-added r d =
    count_tool_calls_lem r.logs _
    ∙ ap
        (λ x.
          with_calls (x.tool_calls_total + calls r.logs) (x.tool_calls_failed + failed_calls r.logs)
            x)
        (count_status_lem r _)

pub IsSummary-added :
    (r : Runtime) (h : List Runtime) (d : Data) → IsSummary h d → IsSummary (r ∷ h) (added r d)
unfolding added
IsSummary-added r h d s = record {
  executions = let same = s.executions in omega arith;
  successes =
      ap (λ n. n + one_if (is_success r)) s.successes
      ∙ sym (length-keep-cons is_success r h ∙ omega arith);
  duration = ap (λ n. n + r.duration_ms) s.duration;
  errors = λ c.
      errors_after_lem c r d.errors_by_capability
      ∙ ap (λ n. one_if (failed_in c r) + n) (s.errors c)
      ∙ sym (length-keep-cons (failed_in c) r h);
  tool_calls = ap (λ n. n + calls r.logs) s.tool_calls;
  tool_failures = ap (λ n. n + failed_calls r.logs) s.tool_failures;
}
