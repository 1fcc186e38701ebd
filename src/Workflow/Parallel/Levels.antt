-- ===== src/Workflow/Parallel/Levels.antt =====
-- The levels of a parallel execution by system/core/workflow/workflow_executor.py, one after another.
use capability_os.Base.{
  ℕ, zero, suc, ◌+◌, ◌≤◌, String, Bool, true, false, Option, none, some, List, [], ◌∷◌, ◌++◌,
  length, contains, if◌then◌else◌, Dict, keys, ℤ, All, AllValues, ◌≡◌, refl, sym, subst, ◌∙◌, arith,
}
use mathlib.Core.List.{append_assoc, append-nil}
use capability_os.Value.{Value}
use capability_os.Container.{list_at}
use capability_os.Container.Order.{Known, waiting}
use capability_os.Container.Edges.{count}
use capability_os.Container.Progress.{Progress, Progress-met}
use capability_os.Workflow.{Node}
use capability_os.Workflow.Executor.{Report, success, failed, unsorted, key_error}
use capability_os.Workflow.Parallel.{
  Threads, Schedule, BatchEnd, completed, broken, release, run_threads, then_each, run_levels,
}
use capability_os.Workflow.Parallel.Runs.{AllRun}
use capability_os.Workflow.Parallel.Moves.{present}
use capability_os.Workflow.Parallel.Batch.{IsBatchEnd}
use capability_os.Workflow.Parallel.Broken.{Has, IsBroken}
use capability_os.Workflow.Parallel.Level.{level-End}
use capability_os.Workflow.Parallel.Released.{
  among, among-append, partition-IsLevel, release-Progress, release-le,
}

abbrev pub flag : Bool → ℕ
flag b = if b then 1 else 0

pub flag-inj : (a b : Bool) → flag a ≡ flag b → a ≡ b
flag-inj true true h = refl
flag-inj false false h = refl
flag-inj true false h = absurd (omega arith)
flag-inj false true h = absurd (omega arith)

Has-among :
    (r : Dict Value) (order ms : List String)
    → ((x : String) → present x r ≡ among x order)
    → All (λ m. contains order m ≡ true) ms
    → Has r ms
Has-among r order [] same met = tt
Has-among r order (m ∷ ms) same met = (
  flag-inj (contains (keys r) m) (contains order m) (same m) ∙ met.0,
  Has-among r order ms same met.1,
)

-- Every node of the queue has its sources in the order.
queue_met :
    (ids : List String) (needs : String → List String) (d : Dict ℤ) (r : Dict Value)
    (front queue order : List String)
    → ((x : String) → present x r ≡ among x order)
    → Progress ids needs d (front ++ queue) order
    → All (λ x. Has r (needs x)) queue
queue_met ids needs d r front [] order same p = tt
queue_met ids needs d r front (x ∷ queue) order same p = (
  Has-among r order (needs x) same (Progress-met ids needs d x front queue order p),
  queue_met ids needs d r (front ++ x ∷ []) queue order same
      (subst (λ q. Progress ids needs d q order) (sym (append_assoc front (x ∷ []) queue)) p),
)

All-behind : {A : Type 0} (P : A → Type 0) (xs ys : List A) → All P (xs ++ ys) → All P ys
All-behind P [] ys h = h
All-behind P (x ∷ xs) ys h = All-behind P xs ys h.1

among-le : (x : String) (xs : List String) → among x xs ≤ 1
among-le x xs = at_most (contains xs x)
  where
    at_most : (b : Bool) → (if b then 1 else 0) ≤ 1
    at_most true = omega arith
    at_most false = omega arith

module _ {W : Type 0} (threads : Threads W) (schedule : Schedule) (nodes : Dict Node)
    (sources : String → List String) where
  -- Where the levels end: behind an order, or at a node that fails.
  abbrev pub IsLevelsEnd : Option (Report × W) → Type 0
  IsLevelsEnd none = ⊥
  IsLevelsEnd (some (success r, w)) =
      (d : Dict ℤ) × (order : List String) × (Progress (keys nodes) sources d [] order)
      × ((x : String) → present x r ≡ among x order)
      × AllRun threads nodes sources r
  IsLevelsEnd (some (failed r id e, w)) = IsBroken threads nodes sources r id e
  IsLevelsEnd (some (unsorted message, w)) = ⊥
  IsLevelsEnd (some (key_error id, w)) = ⊥

module _ {W : Type 0} (threads : Threads W) (schedule : Schedule) (nodes : Dict Node)
    (sources : String → List String) (graph : Dict (List String))
    (edges : AllValues (Known (keys nodes)) graph)
    (edge : (x m : String) → count x (list_at m graph) ≡ count m (sources x)) where
  -- What follows a level.
  followed :
      (f : ℕ) (d : Dict ℤ) (nid : String) (ids order : List String) (N : String → ℕ)
      (single : (x : String) → N x ≤ 1) (l : BatchEnd × W)
      → ((x : String) → N x ≡ among x (order ++ nid ∷ ids))
      → waiting d + length (nid ∷ ids) ≤ suc f
      → Progress (keys nodes) sources d (nid ∷ ids) order
      → ((d' : Dict ℤ) (ready order' : List String) (r : Dict Value) (u : W)
          → waiting d' + length ready ≤ f
          → Progress (keys nodes) sources d' ready order'
          → ((x : String) → present x r ≡ among x order')
          → AllRun threads nodes sources r
          → IsLevelsEnd threads schedule nodes sources
              (run_levels threads f schedule nodes graph d' ready r u))
      → IsBatchEnd threads nodes sources N single l
      → IsLevelsEnd threads schedule nodes sources (elim l.0 [
        | broken results' bad e ↦ some (failed results' bad e, l.1)
        | completed results' ↦
            let out = release (nid ∷ ids) graph d [] in
            run_levels threads f schedule nodes graph out.0 out.1 results' l.1
      ])
  followed f d nid ids order N single (broken r bad e, w) total fuel p later ended = ended
  followed f d nid ids order N single (completed r, w) total fuel p later ended =
      let out = release (nid ∷ ids) graph d [] in
      later out.0 out.1 (order ++ nid ∷ ids) r w (omega (arith, release-le (nid ∷ ids) graph d []))
        (release-Progress (keys nodes) sources graph (nid ∷ ids) d [] order edges edge
          (subst (λ q. Progress (keys nodes) sources d q order) (sym (append-nil (nid ∷ ids))) p))
        (λ x. ended.0 x ∙ total x) ended.1

  -- The levels end, and no node is missing.
  pub run_levels-End :
      (f : ℕ) (d : Dict ℤ) (ready order : List String) (r : Dict Value) (w : W)
      → waiting d + length ready ≤ f
      → Progress (keys nodes) sources d ready order
      → ((x : String) → present x r ≡ among x order)
      → AllRun threads nodes sources r
      → IsLevelsEnd threads schedule nodes sources
          (run_levels threads f schedule nodes graph d ready r w)
  unfolding run_levels
  run_levels-End f d [] order r w fuel p same all = (d, order, p, same, all)
  run_levels-End zero d (nid ∷ ids) order r w fuel p same all = absurd (omega arith)
  run_levels-End (suc f) d (nid ∷ ids) order r w fuel p same all =
      let known = All-behind (λ x. contains (keys nodes) x ≡ true) order (nid ∷ ids) p.once.2 in
      let level =
        partition-IsLevel threads nodes sources r (nid ∷ ids) known
          (queue_met (keys nodes) sources d r [] (nid ∷ ids) order same p) in
      let N : String → ℕ = λ x. among x (order ++ nid ∷ ids) in
      let single : (x : String) → N x ≤ 1 = λ x. among-le x (order ++ nid ∷ ids) in
      let last = then_each threads level.seq (run_threads threads (schedule f) level.par r w) in
      rw (level.parted, run_levels)
        (followed f d nid ids order N single last (λ x. refl) fuel p (run_levels-End f)
          (level-End threads nodes sources N single (schedule f) level.par level.seq r w
            (λ x. omega (arith, level.balance x, same x, among-append x order (nid ∷ ids) p.once.0))
            level.may_par level.may_seq all))
