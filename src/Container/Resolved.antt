-- ===== src/Container/Resolved.antt =====
-- Each plugin stands once in the order that `_resolve_order` of system/container/service_container.py
-- makes.
use mathlib.Core.Bool.{false≢true}
use capability_os.Base.{
  String, true, some, List, [], ◌∷◌, ◌++◌, length, contains, ◌≡◌, refl, sym, subst, arith, eq_iff,
  ◌==◌, Bool-cases, Option-cases, if_both, inl, inr, All-append, Dict, keys, AllValues,
  AllValues-insert, Distinct,
}
use capability_os.Container.{
  Plugin, Graph, list_at, add_edges, no_edges, build, ready, append_rest, kahn, resolve_order,
}
use capability_os.Container.Order.{Known, Known-self, keys-build, keys-no_edges, kahn-ne-none}
use capability_os.Container.Once.{
  contains-snoc, Distinct-snoc, Once, start_graph, list_at-Known, drain-Once, ready-Once, IsOrderOf,
}

edges-Known :
    (ids : List String) (pid : String) (deps : List String) (g : Graph)
    → contains ids pid ≡ true
    → AllValues (Known ids) g.graph
    → AllValues (Known ids) (add_edges ids pid deps g).graph
unfolding add_edges
edges-Known ids pid [] g known h = h
edges-Known ids pid (dep ∷ deps) g known h = edges-Known ids pid deps _ known (
    if_both (λ (x : Graph). AllValues (Known ids) x.graph) (contains ids dep)
      (AllValues-insert (Known ids) dep (list_at dep g.graph ++ pid ∷ []) g.graph
        (All-append (λ x. contains ids x ≡ true) (list_at dep g.graph) (pid ∷ [])
          (list_at-Known ids dep g.graph h) (known, tt))
        h)
      h)

pub graph-Known :
    {W : Type 0} (ids : List String) (ps : Dict (Plugin W)) (g : Graph)
    → Known ids (keys ps)
    → AllValues (Known ids) g.graph
    → AllValues (Known ids) (build ids ps g).graph
unfolding build keys
graph-Known ids [] g known h = h
graph-Known ids ((pid, p) ∷ ps) g known h =
    graph-Known ids ps (add_edges ids pid p.dependencies g) known.1
      (edges-Known ids pid p.dependencies g known.0 h)

rest-Distinct : (ids order : List String) → Distinct order → Distinct (append_rest ids order)
unfolding append_rest
rest-Distinct [] order h = h
rest-Distinct (pid ∷ ids) order h = elim (Bool-cases (contains order pid)) [
  | inl there ↦ rw there (rest-Distinct ids order h)
  | inr new ↦ rw new (rest-Distinct ids (order ++ pid ∷ []) (Distinct-snoc order pid h new))
]

rest-Known :
    (all ids order : List String)
    → Known all ids
    → Known all order
    → Known all (append_rest ids order)
unfolding append_rest
rest-Known all [] order known h = h
rest-Known all (pid ∷ ids) order known h = rest-Known all ids _ known.1 (
    if_both (Known all) (contains order pid) h
      (All-append (λ x. contains all x ≡ true) order (pid ∷ []) h (known.0, tt)))

rest_keeps :
    (ids order : List String) (x : String)
    → contains order x ≡ true
    → contains (append_rest ids order) x ≡ true
unfolding append_rest
rest_keeps [] order x h = h
rest_keeps (pid ∷ ids) order x h = rest_keeps ids _ x (
    if_both (λ xs. contains xs x ≡ true) (contains order pid) h
      (rw (contains-snoc order pid x, h) refl))

rest_has :
    (ids order : List String) (x : String)
    → contains ids x ≡ true
    → contains (append_rest ids order) x ≡ true
unfolding append_rest
rest_has [] order x h = absurd (false≢true h)
rest_has (pid ∷ ids) order x h = elim (Bool-cases (pid == x)) [
  | inl same ↦ elim (Bool-cases (contains order pid)) [
    | inl there ↦ rw there (
        rest_keeps ids order x (subst (λ y. contains order y ≡ true) ((eq_iff pid x).0 same) there))
    | inr new ↦
        rw new (
          rest_keeps ids (order ++ pid ∷ []) x
            (rw (contains-snoc order pid x, same) (ground arith)))
  ]
  | inr differs ↦ rest_has ids _ x (ground arith)
]

-- The queue as the loop starts with it.
pub start-Once :
    {W : Type 0} (plugins : Dict (Plugin W))
    → Distinct (keys plugins)
    → Once (keys plugins) (start_graph plugins).in_degree (ready (start_graph plugins).in_degree)
start-Once plugins h =
    let ids = keys plugins in
    let start : Graph = record { graph = []; in_degree = no_edges ids } in
    let d = (start_graph plugins).in_degree in
    let same = keys-build ids plugins start (Known-self ids) (keys-no_edges ids) in
    subst (λ xs. Once xs d (ready d)) same (ready-Once d (subst Distinct (sym same) h))

pub start-Known :
    {W : Type 0} (plugins : Dict (Plugin W))
    → AllValues (Known (keys plugins)) (start_graph plugins).graph
start-Known plugins =
    graph-Known (keys plugins) plugins (record { graph = []; in_degree = no_edges (keys plugins) })
      (Known-self (keys plugins)) tt

resolved-IsOrderOf :
    {W : Type 0} (plugins : Dict (Plugin W)) (r : List String)
    → Distinct (keys plugins)
    → kahn plugins ≡ some r
    → IsOrderOf (keys plugins) (append_rest (keys plugins) r)
unfolding kahn
resolved-IsOrderOf plugins r h e =
    let ids = keys plugins in
    let g = start_graph plugins in
    let (a, b) =
      drain-Once ids (length ids) g.graph g.in_degree (ready g.in_degree) [] r (start-Known plugins)
        (start-Once plugins h) e in
    (rest-Distinct ids r a, rest-Known ids ids r (Known-self ids) b, rest_has ids r)

-- Where the names of the plugins are distinct, as the keys of a dict are, the order holds each
-- plugin once, and nothing else, whatever the dependencies, cycles and missing ones included.
pub resolve_order-IsOrderOf :
    {W : Type 0} (plugins : Dict (Plugin W))
    → Distinct (keys plugins)
    → IsOrderOf (keys plugins) (resolve_order plugins)
unfolding resolve_order
resolve_order-IsOrderOf plugins h = elim (Option-cases (kahn plugins)) [
  | inl out ↦ absurd (kahn-ne-none plugins out)
  | inr (r, e) ↦ rw (e, resolve_order) (resolved-IsOrderOf plugins r h e)
]

pub resolve_order-has :
    {W : Type 0} (plugins : Dict (Plugin W)) (x : String)
    → contains (keys plugins) x ≡ true
    → contains (resolve_order plugins) x ≡ true
unfolding resolve_order
resolve_order-has plugins x h = elim (Option-cases (kahn plugins)) [
  | inl out ↦ absurd (kahn-ne-none plugins out)
  | inr (r, e) ↦ rw (e, resolve_order) (rest_has (keys plugins) r x h)
]
