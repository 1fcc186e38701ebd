-- ===== src/Workflow/Parallel/Batch.antt =====
-- A batch of nodes on threads, of system/core/workflow/workflow_executor.py, under every schedule.
use capability_os.Base.{
  inr, ℕ, zero, suc, ◌+◌, ◌*◌, ◌≤◌, String, Bool, false, List, [], ◌∷◌, ◌++◌, length, length-append,
  contains, if◌then◌else◌, eq_refl, Dict, insert, keys, All, All-append, ◌≡◌, refl, subst, arith,
}
use capability_os.Value.{Value}
use capability_os.ToolRuntime.{Reply, returned, raised}
use capability_os.Workflow.{Node}
use capability_os.Workflow.Parallel.{
  Threads, Move, idle, run, collect, choose, BatchEnd, completed, broken, run_batch,
}
use capability_os.Workflow.Parallel.Runs.{IsRun, AllRun, AllRun-insert}
use capability_os.Workflow.Parallel.Moves.{
  held, present, held-append, present-insert, Picks, IsMove, choose-IsMove,
}
use capability_os.Workflow.Parallel.Broken.{
  absent_of, MayRun, HasReplied, IsBroken, MayRun-insert, HasReplied-insert, now_run, break_at_node,
}

module _ {W : Type 0} (threads : Threads W) (nodes : Dict Node) (sources : String → List String)
    (N : String → ℕ) (single : (x : String) → N x ≤ 1) where
  -- `N` says which names have a result in the end.
  pub record Pool (waiting : List (String × Node)) (finished : List (String × Reply))
      (results : Dict Value) : Type 0 where
    pub balance : (x : String) → held x waiting + held x finished + present x results ≡ N x
    pub may_run : All (MayRun threads nodes sources results) waiting
    pub replied : All (HasReplied threads nodes sources results) finished
    pub all_run : AllRun threads nodes sources results

  abbrev pub IsBatchEnd : BatchEnd × W → Type 0
  IsBatchEnd (completed r, w) = ((x : String) → present x r ≡ N x) × AllRun threads nodes sources r
  IsBatchEnd (broken r id e, w) = IsBroken threads nodes sources r id e

  pub taken_new :
      (id : String) (y : Reply) (waiting : List (String × Node))
      (rest finished : List (String × Reply)) (results : Dict Value)
      → Picks (HasReplied threads nodes sources results) (id, y) rest finished
      → Pool waiting finished results
      → contains (keys results) id ≡ false
  taken_new id y waiting rest finished results p pool =
      let once = single id in
      let total = pool.balance id in
      let one =
        subst (λ b. (if b then 1 else 0) + held id rest ≡ held id finished) (eq_refl id)
          (p.same id) in
      absent_of id results (omega arith)

  pub started :
      (id : String) (node : Node) (rest waiting : List (String × Node))
      (finished : List (String × Reply)) (results : Dict Value) (w : W) (out : Reply × W)
      → IsRun threads node results w out
      → Picks (MayRun threads nodes sources results) (id, node) rest waiting
      → Pool waiting finished results
      → Pool rest (finished ++ (id, out.0) ∷ []) results
  started id node rest waiting finished results w out ran p pool =
      let (may, others) = p.all pool.may_run in
      let reply = out.0 in
      record {
        balance =
            λ x. omega (arith, p.same x, pool.balance x, held-append x finished ((id, reply) ∷ []));
        may_run = others;
        replied =
            All-append (HasReplied threads nodes sources results) finished ((id, reply) ∷ [])
              pool.replied (now_run threads nodes sources results id node w out ran may, tt);
        all_run = pool.all_run;
      }

  pub taken :
      (id : String) (v : Value) (waiting : List (String × Node))
      (rest finished : List (String × Reply)) (results : Dict Value)
      → Picks (HasReplied threads nodes sources results) (id, returned v) rest finished
      → Pool waiting finished results
      → Pool waiting rest (insert id v results)
  taken id v waiting rest finished results p pool =
      let (reply, others) = p.all pool.replied in
      let new = taken_new id (returned v) waiting rest finished results p pool in
      record {
        balance = λ x. omega (arith, p.same x, pool.balance x, present-insert id x v results new);
        may_run = MayRun-insert threads nodes sources id v results waiting pool.may_run;
        replied = HasReplied-insert threads nodes sources id v results rest new others;
        all_run = AllRun-insert threads nodes sources id v results new reply pool.all_run;
      }

  emptied :
      (results : Dict Value) → Pool [] [] results → (w : W) → IsBatchEnd (completed results, w)
  emptied results pool w = (λ x. omega (arith, pool.balance x), pool.all_run)

  module _ (schedule : ℕ → Bool × ℕ) where
    -- What follows a move.
    moved :
        (f : ℕ) (m : Move) (waiting : List (String × Node)) (finished : List (String × Reply))
        (results : Dict Value) (w : W)
        → choose (schedule f) waiting finished ≡ m
        → IsMove
            (MayRun threads nodes sources results)
            (HasReplied threads nodes sources results)
            m
            waiting
            finished
        → 2 * length waiting + length finished ≤ suc f
        → Pool waiting finished results
        → ((ws : List (String × Node)) (fs : List (String × Reply)) (r : Dict Value) (u : W)
            → 2 * length ws + length fs ≤ f
            → Pool ws fs r
            → IsBatchEnd (run_batch threads f schedule ws fs r u))
        → IsBatchEnd (run_batch threads (suc f) schedule waiting finished results w)
    unfolding run_batch
    moved f idle waiting finished results w e (no_one, nothing) fuel pool later =
        rw (e, run_batch)
          (emptied results
            (subst (λ xs. Pool xs [] results) no_one
              (subst (λ ys. Pool waiting ys results) nothing pool))
            w)
    moved f (run (id, node) rest) waiting finished results w e p fuel pool later =
        let out = threads.threaded node results w in
        let reply = out.0 in
        let one = length-append finished ((id, reply) ∷ []) in
        let size = p.size in
        rw (e, run_batch)
          (later rest (finished ++ (id, reply) ∷ []) results out.1 (omega arith)
            (started id node rest waiting finished results w out (inr refl) p pool))
    moved f (collect (id, returned v) rest) waiting finished results w e p fuel pool later =
        let size = p.size in
        rw (e, run_batch)
          (later waiting rest (insert id v results) w (omega arith)
            (taken id v waiting rest finished results p pool))
    moved f (collect (id, raised message) rest) waiting finished results w e p fuel pool later =
        let (reply, others) = p.all pool.replied in
        rw (e, run_batch)
          (break_at_node threads nodes sources results id message
            (taken_new id (raised message) waiting rest finished results p pool) reply pool.all_run)

    pub run_batch-End :
        (f : ℕ) (waiting : List (String × Node)) (finished : List (String × Reply))
        (results : Dict Value) (w : W)
        → 2 * length waiting + length finished ≤ f
        → Pool waiting finished results
        → IsBatchEnd (run_batch threads f schedule waiting finished results w)
    unfolding run_batch
    run_batch-End zero [] [] results w fuel pool = emptied results pool w
    run_batch-End zero [] (y ∷ ys) results w fuel pool = absurd (omega arith)
    run_batch-End zero (x ∷ xs) finished results w fuel pool = absurd (omega arith)
    run_batch-End (suc f) waiting finished results w fuel pool =
        moved f (choose (schedule f) waiting finished) waiting finished results w refl
          (choose-IsMove (MayRun threads nodes sources results)
            (HasReplied threads nodes sources results) (schedule f) waiting finished)
          fuel pool (run_batch-End f)
