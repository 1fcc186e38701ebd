-- ===== src/Container.antt =====
-- system/container/service_container.py: plugins, their order and their lifecycle, and the services
-- that they register. Services are known by the name of their contract; what a plugin does to the
-- services and the world is an argument.
pub mod Order
pub mod Once
pub mod Resolved
pub mod Edges
pub mod Waits
pub mod Progress
pub mod Dependencies
pub mod Lifecycle
pub mod Reports
mod Tests
use capability_os.Base.{
  ℕ, zero, suc, String, Bool, true, false, ◌&&◌, ◌||◌, Option, none, some, List, [], ◌∷◌, ◌++◌,
  length, contains, keep, if◌then◌else◌, ◌⋯◌, Dict, lookup, insert, has, keys, ℤ, pos, negsuc,
}
use capability_os.Exec.{Result, ok, err, Failure, raise, ErrorKind}

pub data PluginState : Type 0 where
  registered initializing initialized starting running stopping stopped error : PluginState

-- The implementations by their contracts, and all else that plugins act on.
pub record Shared (W : Type 0) : Type 0 where
  pub services : Dict String
  pub world : W

pub record Health : Type 0 where
  pub healthy : Bool
  pub message : String

pub record Plugin (W : Type 0) : Type 0 where
  pub dependencies : List String
  -- The tags of the manifest are in the context.
  pub initialize : List String → Shared W → Result (Unit {0}) × Shared W
  pub name : String
  pub version : String
  -- Absent where the plugin has no such method.
  pub health_check : Option (Shared W → Result Health × Shared W)
  pub register_routes : Option (Shared W → Result (Unit {0}) × Shared W)
  pub start : Shared W → Result (Unit {0}) × Shared W
  pub stop : Shared W → Result (Unit {0}) × Shared W

pub record ServiceContainer (W : Type 0) : Type 0 where
  pub plugins : Dict (Plugin W)
  -- The tags of the manifests.
  pub manifests : Dict (List String)
  pub states : Dict PluginState
  pub init_errors : Dict String
  pub shared : Shared W

-- The edges and the in-degrees of the plugins.
pub record Graph : Type 0 where
  pub graph : Dict (List String)
  pub in_degree : Dict ℤ

unfoldable pub list_at : String → Dict (List String) → List String
unfolding lookup
list_at k d = elim (lookup k d) [ none ↦ [] | some xs ↦ xs ]

unfoldable pub degree_at : String → Dict ℤ → ℤ
unfolding lookup
degree_at k d = elim (lookup k d) [ none ↦ pos 0 | some n ↦ n ]

abbrev pub succ : ℤ → ℤ
succ (pos n) = pos (suc n)
succ (negsuc zero) = pos zero
succ (negsuc (suc n)) = negsuc n

abbrev pub pred : ℤ → ℤ
pred (pos zero) = negsuc zero
pred (pos (suc n)) = pos n
pred (negsuc n) = negsuc (suc n)

unfoldable pub add_edges : List String → String → List String → Graph → Graph
unfolding insert list_at degree_at
add_edges ids pid [] g = g
add_edges ids pid (dep ∷ deps) g =
    let g' : Graph = record {
      graph = insert dep (list_at dep g.graph ++ pid ∷ []) g.graph;
      in_degree = insert pid (succ (degree_at pid g.in_degree)) g.in_degree;
    } in
    add_edges ids pid deps (if contains ids dep then g' else g)

unfoldable pub no_edges : List String → Dict ℤ
no_edges [] = []
no_edges (pid ∷ ids) = (pid, pos 0) ∷ no_edges ids

unfoldable pub build : {W : Type 0} → List String → Dict (Plugin W) → Graph → Graph
unfolding add_edges
build ids [] g = g
build ids ((pid, p) ∷ ps) g = build ids ps (add_edges ids pid p.dependencies g)

abbrev pub is_zero : ℤ → Bool
is_zero (pos zero) = true
is_zero _ = false

-- The plugins that wait for nothing.
unfoldable pub ready : Dict ℤ → List String
ready [] = []
ready ((pid, n) ∷ d) = let rest = ready d in if is_zero n then pid ∷ rest else rest

-- A node has come before one of its neighbors.
unfoldable pub relax : List String → Dict ℤ → List String → Dict ℤ × List String
unfolding insert degree_at
relax [] degrees queue = (degrees, queue)
relax (n ∷ ns) degrees queue =
    let d = pred (degree_at n degrees) in
    relax ns (insert n d degrees) (if is_zero d then queue ++ n ∷ [] else queue)

-- The queue, with the order so far; none where the fuel is used up.
unfoldable pub drain :
    ℕ → Dict (List String) → Dict ℤ → List String → List String → Option (List String)
unfolding relax list_at
drain f graph degrees [] order = some order
drain zero graph degrees (node ∷ queue) order = none
drain (suc f) graph degrees (node ∷ queue) order =
    let (degrees', queue') = relax (list_at node graph) degrees queue in
    drain f graph degrees' queue' (order ++ node ∷ [])

-- The plugins that are not in the order yet, at its end.
unfoldable pub append_rest : List String → List String → List String
append_rest [] order = order
append_rest (pid ∷ ids) order =
    append_rest ids (if contains order pid then order else order ++ pid ∷ [])

-- A round for each plugin is enough.
unfoldable pub kahn : {W : Type 0} → Dict (Plugin W) → Option (List String)
unfolding keys build no_edges drain ready
kahn plugins =
    let ids = keys plugins in
    let g = build ids plugins (record { graph = []; in_degree = no_edges ids }) in
    drain (length ids) g.graph g.in_degree (ready g.in_degree) []

unfoldable pub resolve_order : {W : Type 0} → Dict (Plugin W) → List String
unfolding kahn append_rest keys
resolve_order plugins = elim (kahn plugins) [
  | none ↦ []
  | some order ↦ append_rest (keys plugins) order
]
