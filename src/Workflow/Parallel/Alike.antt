-- ===== src/Workflow/Parallel/Alike.antt =====
-- A parallel execution by system/core/workflow/workflow_executor.py ends like one that is not parallel.
use mathlib.Core.Bool.{false≢true}
use capability_os.Base.{
  false, ◌==◌, String, Option, none, some, List, [], contains, Dict, lookup, keys, ◌≡◌, refl, sym,
  subst, ap, ◌∙◌, inl, inr, length,
}
use capability_os.Value.{Value}
use capability_os.Container.Once.{IsOrderOf}
use capability_os.Container.{ready}
use capability_os.Container.Order.{Known-self}
use capability_os.Container.Waits.{Follows}
use capability_os.Workflow.{Workflow, nodes_by_id, edge_graph, topological_sort}
use capability_os.Workflow.Sorting.{sources, Inward, IsSorting, topological_sort-IsSorting}
use capability_os.Workflow.Executor.{
  execute, execute_order, Report, success, failed, unsorted, key_error,
}
use capability_os.Workflow.Executor.Runs.{Ends, execute_order-Ends}
use capability_os.Workflow.Executor.Ends.{node_ids, nodes_by_id-Distinct, sort_cases, Fresh_start}
use capability_os.Workflow.Parallel.{Threads, Schedule, run_levels, execute_parallel}
use capability_os.Workflow.Parallel.Ends.{IsSortedEnd, levels_end, same_names}
use capability_os.Workflow.Parallel.Serial.{Runs-AllRun, Fails-IsBroken}
use capability_os.Workflow.Parallel.Local.{IsLocal, every_has, found-Known}
use capability_os.Workflow.Parallel.Same.{Apart-along, broken_no_more, same_results}

-- How an execution that is not parallel ends, and how a parallel one does.
abbrev pub IsSameEnd : {W : Type 0} → Report × W → Option (Report × W) → Type 0
IsSameEnd (success r', u) (some (success r, z)) = (x : String) → lookup x r ≡ lookup x r'
IsSameEnd (failed r' id' message', u) (some (failed r id message, z)) =
    (x : String) (v v' : Value)
    → id == x ≡ false
    → id' == x ≡ false
    → lookup x r ≡ some v
    → lookup x r' ≡ some v'
    → v ≡ v'
IsSameEnd (unsorted message', u) (some (unsorted message, z)) = message ≡ message'
IsSameEnd end last = ⊥

module _ {W : Type 0} (threads : Threads W) (workflow : Workflow)
    (inward : Inward (node_ids workflow) workflow.edges)
    (local : IsLocal threads (nodes_by_id workflow.nodes []) (sources workflow.edges)) where
  order_end :
      (order : List String) (w : W) (last : Report × W)
      → IsOrderOf (node_ids workflow) order × Follows (sources workflow.edges) [] order
      → Ends threads.services (nodes_by_id workflow.nodes []) order [] w last
      → IsSortedEnd threads workflow (some last)
  unfolding keys lookup
  order_end order w (success r, z) is h =
      let (all, names) =
        Runs-AllRun threads (nodes_by_id workflow.nodes []) (sources workflow.edges) h is.0.0
          (Fresh_start order) is.1 (λ k v there. cc) in
      let ids = node_ids workflow in
      (
        λ x.
            ap (λ xs. contains xs x) names
            ∙ same_names ids order order is.0.1 (Known-self order) is.0.2 x,
        all,
      )
  order_end order w (failed r id message, z) is h =
      Fails-IsBroken threads (nodes_by_id workflow.nodes []) (sources workflow.edges) h is.0.0
        (Fresh_start order) is.1
  order_end order w (unsorted message, z) is h = h
  order_end order w (key_error id, z) is h = h

  not_both :
      (order : List String) (r r' : Dict Value) (id message : String) (u z : W)
      → IsOrderOf (node_ids workflow) order × Follows (sources workflow.edges) [] order
      → IsSortedEnd threads workflow (some (success r', u))
      → IsSortedEnd threads workflow (some (failed r id message, z))
      → ⊥
  not_both order r r' id message u z is good bad =
      broken_no_more threads (nodes_by_id workflow.nodes []) (sources workflow.edges) local r r'
        order id message is.0.0 is.1
        (is.0.2 id (found-Known id bad.run.node (nodes_by_id workflow.nodes []) bad.run.found))
        good.1 (every_has r' (node_ids workflow) order good.0 is.0.1) bad

  same_end :
      (order : List String) (one : Report × W) (last : Option (Report × W))
      → IsOrderOf (node_ids workflow) order × Follows (sources workflow.edges) [] order
      → IsSortedEnd threads workflow (some one)
      → IsSortedEnd threads workflow last
      → IsSameEnd one last
  same_end order (success r', u) (some (success r, z)) is h' h =
      let ids = node_ids workflow in
      let names : (x : String) → contains order x ≡ contains ids x =
        same_names ids order order is.0.1 (Known-self order) is.0.2 in
      same_results threads (nodes_by_id workflow.nodes []) (sources workflow.edges) local r r' order
        is.1 h.1 h'.1 (λ x. h.0 x ∙ sym (names x)) (λ x. h'.0 x ∙ sym (names x))
  same_end order (success r', u) (some (failed r id message, z)) is h' h =
      not_both order r r' id message u z is h' h
  same_end order (failed r' id' message', u) (some (success r, z)) is h' h =
      not_both order r' r id' message' z u is h h'
  same_end order (failed r' id' message', u) (some (failed r id message, z)) is h' h =
      λ x v v' other other' there there'.
        let nodes = nodes_by_id workflow.nodes [] in
        let run = h.others x v other there in
        Apart-along threads nodes (sources workflow.edges) local r r' id id' message message' h h'
          [] order (λ m a a' inside. absurd (false≢true inside)) is.1 x v v'
          (is.0.2 x (found-Known x run.node nodes run.found)) other other' there there'
  same_end order one none is h' h = absurd h
  same_end order one (some (unsorted message, z)) is h' h = absurd h
  same_end order one (some (key_error id, z)) is h' h = absurd h
  same_end order (unsorted message', u) last is h' h = absurd h'
  same_end order (key_error id', u) last is h' h = absurd h'

  -- Where each edge leads to a node, and what a node's handler replies, on a thread as well as not,
  -- depends on the results of the node's sources only (so that no thread is disturbed by another one):
  -- whatever the schedule, and whatever the handlers change elsewhere, a parallel execution succeeds
  -- where one that is not parallel does, and then every node has the same result in both; a node fails
  -- in it where a node fails in the other, and then every further node with a result in both has the
  -- same in both; and where the nodes have no order, both give the same error.
  pub execute_parallel-IsSameEnd :
      (schedule : Schedule) (w u : W)
      → IsSameEnd
          (execute threads.services workflow w)
          (execute_parallel threads schedule workflow u)
  unfolding execute execute_parallel nodes_by_id
  execute_parallel-IsSameEnd schedule w u =
      let nodes = nodes_by_id workflow.nodes [] in
      let ids = node_ids workflow in
      let once = nodes_by_id-Distinct workflow.nodes [] tt in
      let sorting = topological_sort-IsSorting ids workflow.edges once inward in
      let g = edge_graph ids workflow.edges in
      elim (sort_cases (topological_sort ids workflow.edges)) [
        | inl (order, e) ↦
            let is = subst (IsSorting ids workflow.edges) e sorting in
            let one = execute_order threads.services nodes order [] w in
            rw (e, execute, execute_parallel)
              (same_end order one
                (run_levels threads (length (keys g.in_degree)) schedule nodes g.graph g.in_degree
                  (ready g.in_degree) [] u)
                is
                (order_end order w one is (
                  execute_order-Ends threads.services nodes order [] w is.0.0 is.0.1
                    (Fresh_start order)))
                (levels_end threads workflow inward schedule u order is))
        | inr (f, e) ↦ rw (e, execute, execute_parallel) refl
      ]
