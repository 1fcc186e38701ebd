-- ===== src/Workflow/Sorting.antt =====
-- The order that `_topological_sort` of system/core/workflow/workflow_executor.py makes.
use capability_os.Base.{
  ℕ, ◌+◌, ◌≤◌, String, true, false, none, some, List, [], ◌∷◌, ◌++◌, length, eqb, contains, ◌≡◌,
  ◌≢◌, sym, subst, ap, ◌∙◌, arith, ◌==◌, Bool-cases, Option-cases, inl, inr, All-append,
  if◌then◌else◌, insert, keys, pos, pos_part, AllValues, AllValues-insert, Distinct,
}
use capability_os.Exec.{Result, ok, err}
use capability_os.Container.{Graph, list_at, degree_at, succ, no_edges, ready}
use capability_os.Container.Order.{
  Known, keys-insert, keys-no_edges, drain-ne-none, waiting_or_ready,
}
use capability_os.Container.Once.{IsOrderOf, Once, ready-Once, list_at-Known, drain-Once}
use capability_os.Container.Edges.{count, edge-count, succ-degree, no_edges-degree}
use capability_os.Container.Progress.{Progress}
use capability_os.Container.Waits.{Follows}
use capability_os.Container.Dependencies.{Sorted, drained, left-nil, ready_or_busy}
use capability_os.Workflow.{connect, edge_graph, queue_order, topological_sort}
use capability_os.Workflow.Cover.{contains_all, lacks_one, length-Known-le}

-- The nodes with an edge to a node.
abbrev pub sources : List (String × String) → String → List String
sources [] x = []
sources ((src, tgt) ∷ edges) x = let rest = sources edges x in if tgt == x then src ∷ rest else rest

-- Every edge leads to one of the nodes.
abbrev pub Inward : List String → List (String × String) → Type 0
Inward ids [] = Unit
Inward ids ((src, tgt) ∷ edges) = (contains ids tgt ≡ true) × Inward ids edges

connect-count :
    (x m : String) (edges : List (String × String)) (g : Graph)
    → count x (list_at m (connect edges g).graph)
      ≡ count x (list_at m g.graph) + count m (sources edges x)
unfolding connect
connect-count x m [] g = omega arith
connect-count x m ((src, tgt) ∷ edges) g =
    let g' : Graph = record {
      graph = insert src (list_at src g.graph ++ tgt ∷ []) g.graph;
      in_degree = insert tgt (succ (degree_at tgt g.in_degree)) g.in_degree;
    } in
    let one = edge-count x m src tgt g.graph in
    let rest = connect-count x m edges g' in
    elim (Bool-cases (tgt == x)) [
      | inl same ↦ rw same (omega (arith, rest, rw same at one))
      | inr differs ↦ rw differs (omega (arith, rest, rw differs at one))
    ]

connect-degree :
    (x : String) (edges : List (String × String)) (g : Graph) (k : ℕ)
    → degree_at x g.in_degree ≡ pos k
    → degree_at x (connect edges g).in_degree ≡ pos (k + length (sources edges x))
unfolding connect
connect-degree x [] g k h = h ∙ ap pos (omega arith)
connect-degree x ((src, tgt) ∷ edges) g k h =
    let g' : Graph = record {
      graph = insert src (list_at src g.graph ++ tgt ∷ []) g.graph;
      in_degree = insert tgt (succ (degree_at tgt g.in_degree)) g.in_degree;
    } in
    let one = succ-degree x tgt g.in_degree k h in
    elim (Bool-cases (tgt == x)) [
      | inl same ↦
          rw same (connect-degree x edges g' (k + 1) (rw same at one) ∙ ap pos (omega arith))
      | inr differs ↦
          rw differs (connect-degree x edges g' (k + 0) (rw differs at one) ∙ ap pos (omega arith))
    ]

connect-keys :
    (ids : List String) (edges : List (String × String)) (g : Graph)
    → Inward ids edges
    → keys g.in_degree ≡ ids
    → keys (connect edges g).in_degree ≡ ids
unfolding connect
connect-keys ids [] g inward h = h
connect-keys ids ((src, tgt) ∷ edges) g inward h =
    connect-keys ids edges _ inward.1
      (keys-insert tgt _ g.in_degree (subst (λ xs. contains xs tgt ≡ true) (sym h) inward.0) ∙ h)

connect-Known :
    (ids : List String) (edges : List (String × String)) (g : Graph)
    → Inward ids edges
    → AllValues (Known ids) g.graph
    → AllValues (Known ids) (connect edges g).graph
unfolding connect
connect-Known ids [] g inward h = h
connect-Known ids ((src, tgt) ∷ edges) g inward h = connect-Known ids edges _ inward.1 (
    AllValues-insert (Known ids) src (list_at src g.graph ++ tgt ∷ []) g.graph
      (All-append (λ x. contains ids x ≡ true) (list_at src g.graph) (tgt ∷ [])
        (list_at-Known ids src g.graph h) (inward.0, tt))
      h)

-- The loop ends, whatever the edges: cycles, and edges to nodes that do not exist, included.
queue_order-ne-none :
    (ids : List String) (edges : List (String × String)) → queue_order ids edges ≢ none
unfolding queue_order
queue_order-ne-none ids edges =
    let g = edge_graph ids edges in
    drain-ne-none (length (keys g.in_degree)) g.graph g.in_degree (ready g.in_degree) []
      (waiting_or_ready g.in_degree)

-- The nodes outside a list: there is one, and each has an edge from outside it.
abbrev pub IsStuck : List String → List (String × String) → List String → Type 0
IsStuck ids edges r =
    ((x : String) × (contains ids x ≡ true) × (contains r x ≡ false))
    × ((x : String)
        → contains ids x ≡ true
        → contains r x ≡ false
        → (m : String) × (contains (sources edges x) m ≡ true) × (contains r m ≡ false))

-- What the sort has to show.
abbrev pub IsSorting : List String → List (String × String) → Result (List String) → Type 0
IsSorting ids edges (ok order) = IsOrderOf ids order × Follows (sources edges) [] order
IsSorting ids edges (err f) = (r : List String) × IsStuck ids edges r

module _ (ids : List String) (edges : List (String × String)) (once : Distinct ids)
    (inward : Inward ids edges) where
  pub edge_graph-keys : keys (edge_graph ids edges).in_degree ≡ ids
  unfolding edge_graph
  edge_graph-keys = connect-keys ids edges _ inward (keys-no_edges ids)

  pub edge_graph-Known : AllValues (Known ids) (edge_graph ids edges).graph
  unfolding edge_graph
  edge_graph-Known = connect-Known ids edges _ inward tt

  pub edge_graph-count :
      (x m : String) → count x (list_at m (edge_graph ids edges).graph) ≡ count m (sources edges x)
  unfolding edge_graph list_at
  edge_graph-count x m =
      let start : Graph = record { graph = []; in_degree = no_edges ids } in
      omega (arith, connect-count x m edges start)

  edge_graph-degree :
      (x : String) → degree_at x (edge_graph ids edges).in_degree ≡ pos (length (sources edges x))
  unfolding edge_graph
  edge_graph-degree x = connect-degree x edges _ 0 (no_edges-degree x ids) ∙ ap pos (omega arith)

  edge_graph-Once :
      Once ids (edge_graph ids edges).in_degree (ready (edge_graph ids edges).in_degree)
  edge_graph-Once =
      let d = (edge_graph ids edges).in_degree in
      subst (λ xs. Once xs d (ready d)) edge_graph-keys
        (ready-Once d (subst Distinct (sym edge_graph-keys) once))

  pub edge_graph-Progress :
      Progress ids
        (sources edges)
        (edge_graph ids edges).in_degree
        (ready (edge_graph ids edges).in_degree)
        []
  edge_graph-Progress =
      let g = edge_graph ids edges in
      record {
        once = edge_graph-Once;
        degrees = λ x. edge_graph-degree x ∙ ap pos (sym (left-nil (sources edges x)));
        follows = tt;
        awaits = λ x known.
            let degree = edge_graph-degree x in
            elim (ready_or_busy g.in_degree x (length (sources edges x))
              (subst (λ xs. contains xs x ≡ true) (sym edge_graph-keys) known) degree) [
                | inl there ↦ inl there
                | inr busy ↦ inr (subst (λ v. 1 ≤ pos_part v) (sym degree) busy)
              ];
      }

  queue_order-Sorted :
      (r : List String) → queue_order ids edges ≡ some r → Sorted ids (sources edges) r
  unfolding queue_order
  queue_order-Sorted r e =
      let g = edge_graph ids edges in
      drained ids (sources edges) g.graph (length (keys g.in_degree)) g.in_degree
        (ready g.in_degree) [] r edge_graph-Known edge_graph-count edge_graph-Progress e

  queue_order-Once : (r : List String) → queue_order ids edges ≡ some r → Distinct r × Known ids r
  unfolding queue_order
  queue_order-Once r e =
      let g = edge_graph ids edges in
      drain-Once ids (length (keys g.in_degree)) g.graph g.in_degree (ready g.in_degree) [] r
        edge_graph-Known edge_graph-Once e

  -- Where the names of the nodes are distinct and each edge leads to one of them: an order that is
  -- returned has each node once, behind the source of every edge to it; where there is an error, it is
  -- because of nodes, one at least, each of which has an edge from one of them, or from no node at all.
  pub topological_sort-IsSorting : IsSorting ids edges (topological_sort ids edges)
  unfolding topological_sort
  topological_sort-IsSorting = elim (Option-cases (queue_order ids edges)) [
    | inl out ↦ absurd (queue_order-ne-none ids edges out)
    | inr (r, e) ↦
        let sorted = queue_order-Sorted r e in
        let (distinct, known) = queue_order-Once r e in
        elim (Bool-cases (eqb (length r) (length ids))) [
          | inl full ↦
              let has = contains_all r ids distinct known (ground arith) in
              rw (e, topological_sort)
                (rw (full, topological_sort) ((distinct, known, has), sorted.0))
          | inr partial ↦
              let fewer = length-Known-le r ids distinct known in
              rw (e, topological_sort)
                (rw (partial, topological_sort)
                  (r, (lacks_one r ids once (ground arith), sorted.1)))
        ]
  ]
