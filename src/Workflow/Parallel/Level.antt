-- ===== src/Workflow/Parallel/Level.antt =====
-- One level of a parallel execution by system/core/workflow/workflow_executor.py.
use capability_os.Base.{
  ℕ, ◌+◌, ◌*◌, ◌≤◌, String, Bool, List, [], ◌∷◌, length, ltb, contains, Dict, insert, keys, All,
  ◌≡◌, refl, subst, arith, Bool-cases, inl, inr,
}
use capability_os.Value.{Value}
use capability_os.ToolRuntime.{returned, raised}
use capability_os.Workflow.{Node}
use capability_os.Workflow.Executor.{execute_node}
use capability_os.Workflow.Executor.Runs.{reply_cases}
use capability_os.Workflow.Parallel.{
  Threads, BatchEnd, completed, broken, run_each, run_threads, then_each,
}
use capability_os.Workflow.Parallel.Runs.{AllRun}
use capability_os.Workflow.Parallel.Moves.{held, present, Picks-first}
use capability_os.Workflow.Parallel.Batch.{
  Pool, IsBatchEnd, started, taken, run_batch-End, taken_new,
}
use capability_os.Workflow.Parallel.Broken.{Has, MayRun, HasReplied, break_at_node}

module _ {W : Type 0} (threads : Threads W) (nodes : Dict Node)
    (sources : String → List String) where
  run_each-End :
      (N : String → ℕ) (single : (x : String) → N x ≤ 1) (xs : List (String × Node))
      (results : Dict Value) (w : W)
      → Pool threads nodes sources N single xs [] results
      → IsBatchEnd threads nodes sources N single (run_each threads xs results w)
  unfolding run_each
  run_each-End N single [] results w pool = (λ x. omega (arith, pool.balance x), pool.all_run)
  run_each-End N single ((id, node) ∷ xs) results w pool =
      let out = execute_node threads.services node results w in
      let first =
        started threads nodes sources N single id node xs ((id, node) ∷ xs) [] results w out
          (inl refl) (Picks-first (MayRun threads nodes sources results) (id, node) xs) pool in
      elim (reply_cases out.0) [
        | inl (v, ran) ↦
            let replied =
              subst (λ r. Pool threads nodes sources N single xs ((id, r) ∷ []) results) ran
                first in
            rw (ran, run_each)
              (run_each-End N single xs (insert id v results) out.1 (
                taken threads nodes sources N single id v xs [] ((id, returned v) ∷ []) results
                  (Picks-first (HasReplied threads nodes sources results) (id, returned v) [])
                  replied))
        | inr (e, ran) ↦
            let replied =
              subst (λ r. Pool threads nodes sources N single xs ((id, r) ∷ []) results) ran
                first in
            rw (ran, run_each)
              (break_at_node threads nodes sources results id e
                (taken_new threads nodes sources N single id (raised e) xs [] ((id, raised e) ∷ [])
                  results (Picks-first (HasReplied threads nodes sources results) (id, raised e) [])
                  replied)
                replied.replied.0 replied.all_run)
      ]

  run_threads-End :
      (N : String → ℕ) (single : (x : String) → N x ≤ 1) (schedule : ℕ → Bool × ℕ)
      (par : List (String × Node)) (results : Dict Value) (w : W)
      → Pool threads nodes sources N single par [] results
      → IsBatchEnd threads nodes sources N single (run_threads threads schedule par results w)
  unfolding run_threads
  run_threads-End N single schedule par results w pool = elim (Bool-cases (ltb 1 (length par))) [
    | inl several ↦
        rw (several, run_threads)
          (run_batch-End threads nodes sources N single schedule (2 * length par) par [] results w
            (omega arith) pool)
    | inr one ↦ rw (one, run_threads) (run_each-End N single par results w pool)
  ]

  abbrev pub AllMayRun : Dict Value → List (String × Node) → Type 0
  AllMayRun r xs = All (MayRun threads nodes sources r) xs

  Has-more :
      (r r' : Dict Value) (ms : List String)
      → ((x : String) → present x r ≤ present x r')
      → Has r ms
      → Has r' ms
  Has-more r r' [] more h = tt
  Has-more r r' (m ∷ ms) more h = (
    elim (Bool-cases (contains (keys r') m)) [
      | inl there ↦ there
      | inr absent ↦
          let none_there : present m r' ≡ 0 = rw absent refl in
          let one : present m r ≡ 1 = rw h.0 refl in let less = more m in absurd (omega arith)
    ],
    Has-more r r' ms more h.1,
  )

  AllMayRun-more :
      (r r' : Dict Value) (xs : List (String × Node))
      → ((x : String) → present x r ≤ present x r')
      → AllMayRun r xs
      → AllMayRun r' xs
  AllMayRun-more r r' [] more h = tt
  AllMayRun-more r r' ((id, node) ∷ xs) more h =
      ((h.0.0, Has-more r r' (sources id) more h.0.1), AllMayRun-more r r' xs more h.1)

  then_each-End :
      (N N1 : String → ℕ) (single : (x : String) → N x ≤ 1) (single1 : (x : String) → N1 x ≤ 1)
      (seq : List (String × Node)) (results : Dict Value) (last : BatchEnd × W)
      → ((x : String) → held x seq + N1 x ≡ N x)
      → ((x : String) → present x results ≤ N1 x)
      → AllMayRun results seq
      → IsBatchEnd threads nodes sources N1 single1 last
      → IsBatchEnd threads nodes sources N single (then_each threads seq last)
  unfolding then_each run_each
  then_each-End N N1 single single1 seq results (broken r id e, w) balance more may ended = ended
  then_each-End N N1 single single1 seq results (completed r, w) balance more may ended =
      run_each-End N single seq r w (record {
        balance = λ x. omega (arith, balance x, ended.0 x);
        may_run = AllMayRun-more results r seq (λ x. omega (arith, more x, ended.0 x)) may;
        replied = tt;
        all_run = ended.1;
      })

  -- The conditions of a level run behind its threads.
  pub level-End :
      (N : String → ℕ) (single : (x : String) → N x ≤ 1) (schedule : ℕ → Bool × ℕ)
      (par seq : List (String × Node)) (results : Dict Value) (w : W)
      → ((x : String) → held x par + held x seq + present x results ≡ N x)
      → AllMayRun results par
      → AllMayRun results seq
      → AllRun threads nodes sources results
      → IsBatchEnd threads nodes sources N single
          (then_each threads seq (run_threads threads schedule par results w))
  level-End N single schedule par seq results w balance may_par may_seq all =
      let N1 : String → ℕ = λ x. held x par + present x results in
      let single1 : (x : String) → N1 x ≤ 1 = λ x. omega (arith, balance x, single x) in
      then_each-End N N1 single single1 seq results (run_threads threads schedule par results w)
        (λ x. omega (arith, balance x)) (λ x. omega arith) may_seq
        (run_threads-End N1 single1 schedule par results w
          (record { balance = λ x. omega arith; may_run = may_par; replied = tt; all_run = all }))
