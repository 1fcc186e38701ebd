-- ===== src/Workflow.antt =====
-- system/core/workflow/workflow_executor.py: the graph of a workflow and the order of its nodes. The
-- queue's loop is that of the plugins' order.
pub mod Sorting
pub mod Cover
pub mod Nodes
pub mod Handlers
pub mod External
pub mod Executor
pub mod Parallel
use capability_os.Base.{
  ℕ, ◌+◌, String, Option, none, some, List, [], ◌∷◌, ◌++◌, length, eqb, if◌then◌else◌, Dict, insert,
  keys, pos,
}
use capability_os.Value.{Fields}
use capability_os.Exec.{Result, ok, raise, ErrorKind}
use capability_os.Container.{Graph, list_at, degree_at, succ, no_edges, ready, drain}

pub record Node : Type 0 where
  pub id : String
  pub kind : String
  pub fields : Fields

-- A workflow's nodes, and its edges from source to target.
pub record Workflow : Type 0 where
  pub nodes : List Node
  pub edges : List (String × String)

-- {n["id"]: n for n in nodes}
unfoldable pub nodes_by_id : List Node → Dict Node → Dict Node
unfolding insert
nodes_by_id [] d = d
nodes_by_id (n ∷ ns) d = nodes_by_id ns (insert n.id n d)

-- The loop over the edges.
unfoldable pub connect : List (String × String) → Graph → Graph
unfolding insert list_at degree_at
connect [] g = g
connect ((src, tgt) ∷ edges) g = connect edges (record {
  graph = insert src (list_at src g.graph ++ tgt ∷ []) g.graph;
  in_degree = insert tgt (succ (degree_at tgt g.in_degree)) g.in_degree;
})

unfoldable pub edge_graph : List String → List (String × String) → Graph
unfolding connect no_edges
edge_graph ids edges = connect edges (record { graph = []; in_degree = no_edges ids })

-- The order in which nodes leave the queue; a round for each key of the in-degrees is enough.
unfoldable pub queue_order : List String → List (String × String) → Option (List String)
unfolding edge_graph drain keys ready
queue_order ids edges =
    let g = edge_graph ids edges in
    drain (length (keys g.in_degree)) g.graph g.in_degree (ready g.in_degree) []

unfoldable pub topological_sort : List String → List (String × String) → Result (List String)
unfolding queue_order
topological_sort ids edges = elim (queue_order ids edges) [
  | none ↦ raise ErrorKind.other "no fuel"
  | some order ↦
      if eqb (length order) (length ids)
      then ok order
      else raise ErrorKind.other "Workflow contains a cycle — cannot determine execution order"
]
