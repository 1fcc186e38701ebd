-- ===== src/Workflow/Executor/Ends.antt =====
-- How `execute` of system/core/workflow/workflow_executor.py ends.
use capability_os.Base.{
  String, false, List, [], ◌∷◌, contains, Dict, insert, keys, Distinct, Distinct-insert, ◌≡◌, ◌⊎◌,
  refl, subst, inl, inr, All,
}
use capability_os.Value.{Value}
use capability_os.Exec.{Failure, Result, ok, err}
use capability_os.Container.Once.{IsOrderOf}
use capability_os.Container.Waits.{Follows}
use capability_os.Workflow.{Node, Workflow, nodes_by_id, topological_sort}
use capability_os.Workflow.Sorting.{sources, Inward, IsStuck, IsSorting, topological_sort-IsSorting}
use capability_os.Workflow.Nodes.{Services}
use capability_os.Workflow.Executor.{
  execute, execute_order, Report, success, failed, unsorted, key_error,
}
use capability_os.Workflow.Executor.Runs.{Runs, Fails, Ends, execute_order-Ends}

abbrev pub node_ids : Workflow → List String
node_ids workflow = keys (nodes_by_id workflow.nodes [])

-- Each node once, and each behind the sources of its edges.
abbrev pub IsNodeOrder : Workflow → List String → Type 0
IsNodeOrder workflow order =
    IsOrderOf (node_ids workflow) order × Follows (sources workflow.edges) [] order

pub nodes_by_id-Distinct :
    (ns : List Node) (d : Dict Node) → Distinct (keys d) → Distinct (keys (nodes_by_id ns d))
unfolding nodes_by_id
nodes_by_id-Distinct [] d h = h
nodes_by_id-Distinct (n ∷ ns) d h =
    nodes_by_id-Distinct ns (insert n.id n d) (Distinct-insert n.id n d h)

pub Fresh_start : (order : List String) → All (λ x. contains (keys {V = Value} []) x ≡ false) order
unfolding keys
Fresh_start [] = tt
Fresh_start (x ∷ order) = (refl, Fresh_start order)

pub sort_cases :
    (r : Result (List String))
    → ((order : List String) × (r ≡ ok order)) ⊎ ((f : Failure) × (r ≡ err f))
sort_cases (ok order) = inl (order, refl)
sort_cases (err f) = inr (f, refl)

module _ {W : Type 0} (services : Services W) (workflow : Workflow) where
  -- How an execution ends: all nodes have run in an order of theirs; or one of them failed in such an
  -- order; or the nodes have no order.
  abbrev pub IsEnd : W → Report × W → Type 0
  IsEnd w (success r, z) =
      (order : List String) × IsNodeOrder workflow order
      × Runs services (nodes_by_id workflow.nodes []) order [] w r z
  IsEnd w (failed r id message, z) =
      (order : List String) × IsNodeOrder workflow order
      × Fails services (nodes_by_id workflow.nodes []) order [] w r id message z
  IsEnd w (unsorted message, z) = (r : List String) × IsStuck (node_ids workflow) workflow.edges r
  IsEnd w (key_error id, z) = ⊥

module _ {W : Type 0} (services : Services W) (workflow : Workflow)
    (inward : Inward (node_ids workflow) workflow.edges) where
  ordered :
      (order : List String) (w : W) (last : Report × W)
      → IsNodeOrder workflow order
      → Ends services (nodes_by_id workflow.nodes []) order [] w last
      → IsEnd services workflow w last
  ordered order w (success r, z) is h = (order, is, h)
  ordered order w (failed r id message, z) is h = (order, is, h)
  ordered order w (unsorted message, z) is h = absurd h
  ordered order w (key_error id, z) is h = h

  -- Where each edge leads to a node, an execution ends in one of three ways, and no KeyError leaves it.
  -- With success, all nodes have run, each once, behind the sources of its edges and on the results so
  -- far, and the results are theirs. With a failed node, the nodes in front of it in such an order have
  -- run, none behind it has, and the results are theirs and the node's error. With neither, nothing has
  -- run, and there are nodes each of which has an edge from one of them, or from no node at all.
  pub execute-IsEnd : (w : W) → IsEnd services workflow w (execute services workflow w)
  unfolding execute nodes_by_id
  execute-IsEnd w =
      let ids = node_ids workflow in
      let once = nodes_by_id-Distinct workflow.nodes [] tt in
      let sorting = topological_sort-IsSorting ids workflow.edges once inward in
      elim (sort_cases (topological_sort ids workflow.edges)) [
        | inl (order, e) ↦
            let is = subst (IsSorting ids workflow.edges) e sorting in
            rw (e, execute)
              (ordered order w (execute_order services (nodes_by_id workflow.nodes []) order [] w)
                is
                (execute_order-Ends services (nodes_by_id workflow.nodes []) order [] w is.0.0
                  is.0.1 (Fresh_start order)))
        | inr (f, e) ↦ rw (e, execute) (subst (IsSorting ids workflow.edges) e sorting)
      ]
