-- ===== src/Workflow/Parallel/Ends.antt =====
-- How `_execute_parallel` of system/core/workflow/workflow_executor.py ends, under every schedule.
use mathlib.Core.Bool.{false≢true}
use mathlib.Core.List.{append-nil}
use capability_os.Base.{
  String, true, Option, none, some, List, [], ◌∷◌, ◌++◌, length, contains, lookup, keys, All, ◌≡◌,
  refl, sym, subst, ◌∙◌, arith, Bool-cases, inl, inr, ◌==◌, eq_iff,
}
use capability_os.Container.{ready}
use capability_os.Container.Once.{IsOrderOf, contains-snoc}
use capability_os.Container.Order.{Known, waiting_or_ready}
use capability_os.Container.Waits.{Follows}
use capability_os.Container.Dependencies.{Sorted, Progress-Sorted}
use capability_os.Workflow.{Workflow, nodes_by_id, edge_graph, topological_sort}
use capability_os.Workflow.Sorting.{
  sources, Inward, IsStuck, IsSorting, topological_sort-IsSorting, edge_graph-Known,
  edge_graph-count, edge_graph-Progress,
}
use capability_os.Workflow.Executor.{Report, success, failed, unsorted, key_error}
use capability_os.Workflow.Executor.Ends.{node_ids, nodes_by_id-Distinct, sort_cases}
use capability_os.Workflow.Parallel.{Threads, Schedule, run_levels, execute_parallel}
use capability_os.Workflow.Parallel.Runs.{AllRun}
use capability_os.Workflow.Parallel.Broken.{IsBroken}
use capability_os.Workflow.Parallel.Levels.{flag-inj, IsLevelsEnd, run_levels-End}

-- A name of a list whose names all stand in another stands there.
pub among_all :
    (order ms : List String) (m : String)
    → All (λ x. contains order x ≡ true) ms
    → contains ms m ≡ true
    → contains order m ≡ true
among_all order [] m all h = absurd (false≢true h)
among_all order (x ∷ ms) m all h = elim (Bool-cases (x == m)) [
  | inl same ↦ subst (λ y. contains order y ≡ true) ((eq_iff x m).0 same) all.0
  | inr differs ↦ among_all order ms m all.1 (ground arith)
]

-- What is outside `r` has something it needs outside `r`: then nothing is, since there is an order.
reached :
    (ids : List String) (needs : String → List String) (r seen rest : List String)
    → Sorted ids needs r
    → Known ids rest
    → ((x : String) → contains seen x ≡ true → contains r x ≡ true)
    → Follows needs seen rest
    → All (λ x. contains r x ≡ true) rest
reached ids needs r seen [] sorted known inside follows = tt
reached ids needs r seen (x ∷ rest) sorted known inside follows =
    let here : contains r x ≡ true = elim (Bool-cases (contains r x)) [
      | inl there ↦ there
      | inr absent ↦
          let (m, needed, out) = sorted.1 x known.0 absent in
          absurd (false≢true (sym out ∙ inside m (among_all seen (needs x) m follows.0 needed)))
    ] in
    (
      here,
      reached ids needs r (seen ++ x ∷ []) rest sorted known.1
          (λ y h. elim (Bool-cases (x == y)) [
            | inl same ↦ subst (λ z. contains r z ≡ true) ((eq_iff x y).0 same) here
            | inr differs ↦
                inside y (ground (arith, contains-snoc seen x y, eq_iff x y, eq_iff y x))
          ])
          follows.1,
    )

pub same_names :
    (ids r order : List String)
    → Known ids r
    → All (λ x. contains r x ≡ true) order
    → ((x : String) → contains ids x ≡ true → contains order x ≡ true)
    → (x : String) → contains r x ≡ contains ids x
same_names ids r order known all has x = elim (Bool-cases (contains ids x)) [
  | inl there ↦ among_all r order x all (has x there) ∙ sym there
  | inr absent ↦ elim (Bool-cases (contains r x)) [
    | inr out ↦ out ∙ sym absent
    | inl inside ↦ absurd (false≢true (sym absent ∙ among_all ids r x known inside))
  ]
]

module _ {W : Type 0} (threads : Threads W) (workflow : Workflow) where
  -- How an execution ends, where the nodes have an order: every node has a result, that of a run on the
  -- results of its sources; or one has failed, and the other results are those of runs.
  abbrev pub IsSortedEnd : Option (Report × W) → Type 0
  IsSortedEnd none = ⊥
  IsSortedEnd (some (success r, z)) =
      ((x : String) → contains (keys r) x ≡ contains (node_ids workflow) x)
      × AllRun threads (nodes_by_id workflow.nodes []) (sources workflow.edges) r
  IsSortedEnd (some (failed r id message, z)) =
      IsBroken threads (nodes_by_id workflow.nodes []) (sources workflow.edges) r id message
  IsSortedEnd (some (unsorted message, z)) = ⊥
  IsSortedEnd (some (key_error id, z)) = ⊥

  -- And where they may have none.
  abbrev pub IsParallelEnd : Option (Report × W) → Type 0
  IsParallelEnd none = ⊥
  IsParallelEnd (some (success r, z)) = IsSortedEnd (some (success r, z))
  IsParallelEnd (some (failed r id message, z)) = IsSortedEnd (some (failed r id message, z))
  IsParallelEnd (some (unsorted message, z)) =
      (r : List String) × IsStuck (node_ids workflow) workflow.edges r
  IsParallelEnd (some (key_error id, z)) = ⊥

  unsorted_or_not : (last : Option (Report × W)) → IsSortedEnd last → IsParallelEnd last
  unsorted_or_not none h = h
  unsorted_or_not (some (success r, z)) h = h
  unsorted_or_not (some (failed r id message, z)) h = h
  unsorted_or_not (some (unsorted message, z)) h = absurd h
  unsorted_or_not (some (key_error id, z)) h = h

  finished :
      (schedule : Schedule) (order : List String) (last : Option (Report × W))
      → IsOrderOf (node_ids workflow) order × Follows (sources workflow.edges) [] order
      → IsLevelsEnd threads schedule (nodes_by_id workflow.nodes []) (sources workflow.edges) last
      → IsSortedEnd last
  finished schedule order none is ended = ended
  finished schedule order (some (success r, z)) is (d, behind, p, same, all) =
      let ids = node_ids workflow in
      let inside =
        reached ids (sources workflow.edges) behind [] order
          (Progress-Sorted ids (sources workflow.edges) d behind p) is.0.1
          (λ x h. absurd (false≢true h)) is.1 in
      let known = subst (Known ids) (append-nil behind) p.once.2 in
      (
        λ x.
            flag-inj (contains (keys r) x) (contains behind x) (same x)
            ∙ same_names ids behind order known inside is.0.2 x,
        all,
      )
  finished schedule order (some (failed r id e, z)) is ended = ended
  finished schedule order (some (unsorted message, z)) is ended = ended
  finished schedule order (some (key_error id, z)) is ended = ended

module _ {W : Type 0} (threads : Threads W) (workflow : Workflow)
    (inward : Inward (node_ids workflow) workflow.edges) where
  -- The levels of the graph of a workflow whose nodes have an order.
  pub levels_end :
      (schedule : Schedule) (w : W) (order : List String)
      → IsOrderOf (node_ids workflow) order × Follows (sources workflow.edges) [] order
      → IsSortedEnd threads workflow (
          let g = edge_graph (node_ids workflow) workflow.edges in
          run_levels threads
            (length (keys g.in_degree))
            schedule
            (nodes_by_id workflow.nodes [])
            g.graph
            g.in_degree
            (ready g.in_degree)
            []
            w)
  unfolding keys lookup
  levels_end schedule w order is =
      let nodes = nodes_by_id workflow.nodes [] in
      let ids = node_ids workflow in
      let once = nodes_by_id-Distinct workflow.nodes [] tt in
      let g = edge_graph ids workflow.edges in
      finished threads workflow schedule order
        (run_levels threads (length (keys g.in_degree)) schedule nodes g.graph g.in_degree
          (ready g.in_degree) [] w)
        is
        (run_levels-End threads schedule nodes (sources workflow.edges) g.graph
          (edge_graph-Known ids workflow.edges once inward)
          (edge_graph-count ids workflow.edges once inward) (length (keys g.in_degree)) g.in_degree
          (ready g.in_degree) [] [] w (waiting_or_ready g.in_degree)
          (edge_graph-Progress ids workflow.edges once inward) (λ x. refl) (λ id v there. cc))

  -- Where each edge leads to a node, a parallel execution ends, whatever the schedule and whatever the
  -- handlers on threads reply, and no KeyError leaves it. With success, the names with a result are those of the nodes, and every result is what the
  -- node's handler returned when it ran, on a thread or not, from results in which each source of an edge to
  -- the node had the result that it has in the end. With a failed node, this node has its error as its result, its handler
  -- raised it when it ran from such results, all other results are what handlers returned, and no node with
  -- an edge from this one has a result. With neither, there are nodes each of which has an edge from one of
  -- them, or from no node at all.
  pub execute_parallel-IsParallelEnd :
      (schedule : Schedule) (w : W)
      → IsParallelEnd threads workflow (execute_parallel threads schedule workflow w)
  unfolding execute_parallel nodes_by_id
  execute_parallel-IsParallelEnd schedule w =
      let ids = node_ids workflow in
      let once = nodes_by_id-Distinct workflow.nodes [] tt in
      let sorting = topological_sort-IsSorting ids workflow.edges once inward in
      let g = edge_graph ids workflow.edges in
      elim (sort_cases (topological_sort ids workflow.edges)) [
        | inl (order, e) ↦
            rw (e, execute_parallel)
              (unsorted_or_not threads workflow
                (run_levels threads (length (keys g.in_degree)) schedule
                  (nodes_by_id workflow.nodes []) g.graph g.in_degree (ready g.in_degree) [] w)
                (levels_end schedule w order (subst (IsSorting ids workflow.edges) e sorting)))
        | inr (f, e) ↦ rw (e, execute_parallel) (subst (IsSorting ids workflow.edges) e sorting)
      ]
