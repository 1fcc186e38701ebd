-- ===== src/Workflow/Parallel.antt =====
-- `_execute_parallel` of system/core/workflow/workflow_executor.py: level by level, and the nodes of a
-- level on threads. Which thread is next to reply, and when the main thread takes a result, is up to a
-- schedule; that no more than eight threads run only takes schedules away. What a handler on a thread replies
-- is an argument. The event at the end is left out.
pub mod Runs
pub mod Moves
pub mod Broken
pub mod Batch
pub mod Level
pub mod Released
pub mod Levels
pub mod Ends
pub mod Serial
pub mod Local
pub mod Same
pub mod Alike
mod Tests
use capability_os.Base.{
  ℕ, zero, suc, ◌+◌, ◌*◌, String, Bool, true, false, Option, none, some, List, [], ◌∷◌, ◌++◌,
  length, ltb, ◌==◌, if◌then◌else◌, Dict, lookup, insert, keys, ℤ,
}
use capability_os.Value.{Value, text, dict, end, field}
use capability_os.Exec.{err, ok}
use capability_os.ToolRuntime.{Reply, returned, raised}
use capability_os.Container.{list_at, relax, ready}
use capability_os.Workflow.{Node, Workflow, nodes_by_id, edge_graph, topological_sort}
use capability_os.Workflow.Nodes.{Services}
use capability_os.Workflow.Executor.{execute_node, Report, success, failed, unsorted, key_error}

-- The services, and what the handler of a node that is started on a thread replies, and how it leaves
-- the world. That need not be what `execute_node` says: a thread reads the dict of results, to which the main
-- thread adds (to go through it may then raise a RuntimeError), and works on the world, as others do.
pub record Threads (W : Type 0) : Type 0 where
  pub services : Services W
  pub threaded : Node → Dict Value → W → Reply × W

-- For each level and each moment of it: whether a thread goes on, and which one; otherwise the main
-- thread takes a result, and this number says which one of those that are there.
abbrev pub Schedule : Type 0
Schedule = ℕ → ℕ → Bool × ℕ

-- The element at a place, or the last one, and the others.
unfoldable pub take_out {ℓ} : {A : Type ℓ} → ℕ → A → List A → A × List A
take_out i x [] = (x, [])
take_out zero x (y ∷ ys) = (x, y ∷ ys)
take_out (suc i) x (y ∷ ys) = let (z, rest) = take_out i y ys in (z, x ∷ rest)

-- What happens next to a batch.
pub data Move : Type 0 where
  idle : Move
  run : String × Node → List (String × Node) → Move
  collect : String × Reply → List (String × Reply) → Move

abbrev pub run_out : (String × Node) × List (String × Node) → Move
run_out (x, rest) = run x rest

abbrev pub collect_out : (String × Reply) × List (String × Reply) → Move
collect_out (x, rest) = collect x rest

unfoldable pub choose : Bool × ℕ → List (String × Node) → List (String × Reply) → Move
unfolding take_out
choose (b, i) [] [] = idle
choose (b, i) (x ∷ xs) [] = run_out (take_out i x xs)
choose (b, i) [] (y ∷ ys) = collect_out (take_out i y ys)
choose (true, i) (x ∷ xs) (y ∷ ys) = run_out (take_out i x xs)
choose (false, i) (x ∷ xs) (y ∷ ys) = collect_out (take_out i y ys)

-- How a batch ends: with the results so far, or at a node that fails.
pub data BatchEnd : Type 0 where
  completed : Dict Value → BatchEnd
  broken : Dict Value → String → String → BatchEnd

abbrev pub error_value : String → Value
error_value e = dict (field "error" (text e) end)

-- A level of the graph: the nodes that run on threads, and the conditions.
pub data Partition : Type 0 where
  unknown : String → Partition
  batches : List (String × Node) → List (String × Node) → Partition

abbrev pub place : String → Node → Partition → Partition
place nid node (unknown bad) = unknown bad
place nid node (batches par seq) =
    if node.kind == "condition"
    then batches par ((nid, node) ∷ seq)
    else batches ((nid, node) ∷ par) seq

unfoldable pub partition : Dict Node → List String → Partition
unfolding lookup
partition nodes [] = batches [] []
partition nodes (nid ∷ ids) =
    let rest = partition nodes ids in
    elim (lookup nid nodes) [ none ↦ unknown nid | some node ↦ place nid node rest ]

-- The decrements behind a level; the nodes that are then free.
unfoldable pub release :
    List String → Dict (List String) → Dict ℤ → List String → Dict ℤ × List String
unfolding relax list_at
release [] graph degrees next_ready = (degrees, next_ready)
release (nid ∷ ids) graph degrees next_ready =
    let (degrees', next_ready') = relax (list_at nid graph) degrees next_ready in
    release ids graph degrees' next_ready'

module _ {W : Type 0} (threads : Threads W) where
  -- The threads that are left when a node fails run to their end, too; nobody takes their results.
  unfoldable pub run_left : ℕ → (ℕ → Bool × ℕ) → List (String × Node) → Dict Value → W → W
  unfolding take_out
  run_left zero schedule waiting results w = w
  run_left (suc f) schedule [] results w = w
  run_left (suc f) schedule (x ∷ xs) results w =
      let (next, rest) = take_out (schedule f).1 x xs in
      run_left f schedule rest results (threads.threaded next.1 results w).1

  -- The nodes that wait for a thread, and the replies that the main thread has not taken.
  unfoldable pub run_batch :
      ℕ
      → (ℕ → Bool × ℕ)
      → List (String × Node)
      → List (String × Reply)
      → Dict Value
      → W
      → BatchEnd × W
  unfolding choose insert run_left
  run_batch zero schedule waiting finished results w = (completed results, w)
  run_batch (suc f) schedule waiting finished results w =
      elim (choose (schedule f) waiting finished) [
        | idle ↦ (completed results, w)
        | run (nid, node) rest ↦
            let (reply, w') = threads.threaded node results w in
            run_batch f schedule rest (finished ++ (nid, reply) ∷ []) results w'
        | collect (nid, returned v) rest ↦
            run_batch f schedule waiting rest (insert nid v results) w
        | collect (nid, raised e) rest ↦
            let results' = insert nid (error_value e) results in
            (broken results' nid e, run_left f schedule waiting results' w)
      ]

  -- One node after another.
  unfoldable pub run_each : List (String × Node) → Dict Value → W → BatchEnd × W
  unfolding execute_node insert
  run_each [] results w = (completed results, w)
  run_each ((nid, node) ∷ xs) results w =
      let (reply, w') = execute_node threads.services node results w in
      elim reply [
        | raised e ↦ (broken (insert nid (error_value e) results) nid e, w')
        | returned v ↦ run_each xs (insert nid v results) w'
      ]

  unfoldable pub run_threads : (ℕ → Bool × ℕ) → List (String × Node) → Dict Value → W → BatchEnd × W
  unfolding run_batch run_each
  run_threads schedule par results w =
      if ltb 1 (length par)
      then run_batch (2 * length par) schedule par [] results w
      else run_each par results w

  abbrev pub then_each : List (String × Node) → BatchEnd × W → BatchEnd × W
  unfolding run_each
  then_each seq (completed results, w) = run_each seq results w
  then_each seq (broken results nid e, w) = (broken results nid e, w)

  -- The loop over the levels; `none` where the fuel is used up.
  unfoldable pub run_levels :
      ℕ
      → Schedule
      → Dict Node
      → Dict (List String)
      → Dict ℤ
      → List String
      → Dict Value
      → W
      → Option (Report × W)
  unfolding partition run_threads then_each release
  run_levels f schedule nodes graph degrees [] results w = some (success results, w)
  run_levels zero schedule nodes graph degrees (nid ∷ ids) results w = none
  run_levels (suc f) schedule nodes graph degrees (nid ∷ ids) results w =
      elim (partition nodes (nid ∷ ids)) [
        | unknown bad ↦ some (key_error bad, w)
        | batches par seq ↦
            let (last, w') = then_each seq (run_threads (schedule f) par results w) in
            elim last [
              | broken results' bad e ↦ some (failed results' bad e, w')
              | completed results' ↦
                  let (degrees', next_ready) = release (nid ∷ ids) graph degrees [] in
                  run_levels f schedule nodes graph degrees' next_ready results' w'
            ]
      ]

  -- `execute`, where the workflow is parallel.
  unfoldable pub execute_parallel : Schedule → Workflow → W → Option (Report × W)
  unfolding nodes_by_id topological_sort edge_graph ready keys run_levels
  execute_parallel schedule workflow w =
      let nodes = nodes_by_id workflow.nodes [] in
      elim (topological_sort (keys nodes) workflow.edges) [
        | err f ↦ some (unsorted f.message, w)
        | ok order ↦
            let g = edge_graph (keys nodes) workflow.edges in
            run_levels (length (keys g.in_degree)) schedule nodes g.graph g.in_degree
              (ready g.in_degree) [] w
      ]
