-- ===== src/Container/Edges.antt =====
-- The graph that `_resolve_order` of system/container/service_container.py builds, by what each plugin
-- needs.
use capability_os.Base.{Distinct}
use capability_os.Base.{
  ℕ, zero, suc, ◌+◌, String, Bool, true, false, Option, none, some, List, [], ◌∷◌, ◌++◌, length,
  contains, keep, ◌≡◌, refl, sym, subst, ap, ◌∙◌, arith, eq_iff, ◌==◌, Bool-cases, inl, inr,
  if◌then◌else◌, Dict, lookup, insert, keys, lookup-insert, ℤ, pos,
}
use capability_os.Container.{Plugin, Graph, list_at, degree_at, succ, add_edges, no_edges, build}
use capability_os.Container.Once.{degree-insert, start_graph}

-- How often a name stands in a list.
abbrev pub count : String → List String → ℕ
count y [] = 0
count y (x ∷ xs) = (if x == y then 1 else 0) + count y xs

pub count-snoc :
    (y : String) (xs : List String) (z : String)
    → count y (xs ++ z ∷ []) ≡ count y xs + (if z == y then 1 else 0)
count-snoc y [] z = omega arith
count-snoc y (x ∷ xs) z = omega (arith, count-snoc y xs z)

-- The dependencies that are plugins.
unfoldable pub need_of : {W : Type 0} → List String → Option (Plugin W) → List String
need_of ids none = []
need_of ids (some p) = keep (contains ids) p.dependencies

abbrev pub need : {W : Type 0} → List String → Dict (Plugin W) → String → List String
need ids ps x = need_of ids (lookup x ps)

if_plus :
    (b : Bool) (m n : ℕ) → (if b then m + n else 0) ≡ (if b then m else 0) + (if b then n else 0)
if_plus true m n = refl
if_plus false m n = refl

if_suc : (b : Bool) (n : ℕ) → (if b then suc n else 0) ≡ (if b then 1 else 0) + (if b then n else 0)
if_suc true n = omega arith
if_suc false n = refl

if_zero : (b : Bool) → (if b then zero else zero) ≡ zero
if_zero true = refl
if_zero false = refl

list_at-insert :
    (k m : String) (xs : List String) (d : Dict (List String))
    → list_at m (insert k xs d) ≡ (if k == m then xs else list_at m d)
unfolding list_at
list_at-insert k m xs d = elim (Bool-cases (k == m)) [
  | inl same ↦ rw (lookup-insert k m xs d, same, list_at) refl
  | inr differs ↦ rw (lookup-insert k m xs d, differs, list_at) refl
]

pub edge-count :
    (x m dep pid : String) (graph : Dict (List String))
    → count x (list_at m (insert dep (list_at dep graph ++ pid ∷ []) graph))
      ≡ count x (list_at m graph) + (if pid == x then (if dep == m then 1 else 0) else 0)
edge-count x m dep pid graph = elim (Bool-cases (dep == m)) [
  | inl same ↦
      rw (list_at-insert dep m (list_at dep graph ++ pid ∷ []) graph, same)
        (count-snoc x (list_at dep graph) pid
          ∙ ap (λ y. count x (list_at y graph) + (if pid == x then 1 else 0))
              ((eq_iff dep m).0 same))
  | inr differs ↦
      rw (list_at-insert dep m (list_at dep graph ++ pid ∷ []) graph, differs)
        (elim (Bool-cases (pid == x)) [ inl e ↦ rw e (omega arith) | inr e ↦ rw e (omega arith) ])
]

add_edges-count :
    (x m : String) (ids : List String) (pid : String) (deps : List String) (g : Graph)
    → count x (list_at m (add_edges ids pid deps g).graph)
      ≡ count x (list_at m g.graph) + (if pid == x then count m (keep (contains ids) deps) else 0)
unfolding add_edges
add_edges-count x m ids pid [] g = omega (arith, if_zero (pid == x))
add_edges-count x m ids pid (dep ∷ deps) g = elim (Bool-cases (contains ids dep)) [
  | inl registered ↦
      let g' : Graph = record {
        graph = insert dep (list_at dep g.graph ++ pid ∷ []) g.graph;
        in_degree = insert pid (succ (degree_at pid g.in_degree)) g.in_degree;
      } in
      rw (registered, add_edges)
        (omega (
          arith,
          add_edges-count x m ids pid deps g',
          edge-count x m dep pid g.graph,
          if_plus (pid == x) (if dep == m then 1 else 0) (count m (keep (contains ids) deps)),
        ))
  | inr absent ↦ rw (absent, add_edges) (add_edges-count x m ids pid deps g)
]

pub succ-degree :
    (x pid : String) (d : Dict ℤ) (k : ℕ)
    → degree_at x d ≡ pos k
    → degree_at x (insert pid (succ (degree_at pid d)) d) ≡ pos (k + (if pid == x then 1 else 0))
succ-degree x pid d k h = elim (Bool-cases (pid == x)) [
  | inl same ↦
      rw (degree-insert pid x (succ (degree_at pid d)) d, same)
        (subst (λ y. succ (degree_at y d) ≡ pos (k + 1)) (sym ((eq_iff pid x).0 same))
          (ap succ h ∙ ap pos (omega arith)))
  | inr differs ↦
      rw (degree-insert pid x (succ (degree_at pid d)) d, differs) (h ∙ ap pos (omega arith))
]

add_edges-degree :
    (x : String) (ids : List String) (pid : String) (deps : List String) (g : Graph) (k : ℕ)
    → degree_at x g.in_degree ≡ pos k
    → degree_at x (add_edges ids pid deps g).in_degree
      ≡ pos (k + (if pid == x then length (keep (contains ids) deps) else 0))
unfolding add_edges
add_edges-degree x ids pid [] g k h = h ∙ ap pos (omega (arith, if_zero (pid == x)))
add_edges-degree x ids pid (dep ∷ deps) g k h = elim (Bool-cases (contains ids dep)) [
  | inr absent ↦ rw (absent, add_edges) (add_edges-degree x ids pid deps g k h)
  | inl registered ↦
      let g' : Graph = record {
        graph = insert dep (list_at dep g.graph ++ pid ∷ []) g.graph;
        in_degree = insert pid (succ (degree_at pid g.in_degree)) g.in_degree;
      } in
      let up = succ-degree x pid g.in_degree k h in
      rw (registered, add_edges)
        (add_edges-degree x ids pid deps g' (k + (if pid == x then 1 else 0)) up
          ∙ ap pos (omega (arith, if_suc (pid == x) (length (keep (contains ids) deps)))))
]

not_a_key : {V : Type 0} (x : String) (d : Dict V) → contains (keys d) x ≡ false → lookup x d ≡ none
unfolding keys lookup
not_a_key x [] h = refl
not_a_key x ((k, v) ∷ d) h =
    let apart : k == x ≡ false = ground arith in rw apart (not_a_key x d (ground arith))

-- What the graph holds of the plugins of a dict, besides what it held before.
build-count :
    {W : Type 0} (x m : String) (ids : List String) (ps : Dict (Plugin W)) (g : Graph)
    → Distinct (keys ps)
    → count x (list_at m (build ids ps g).graph)
      ≡ count x (list_at m g.graph) + count m (need ids ps x)
unfolding build keys lookup need_of
build-count x m ids [] g h = omega arith
build-count x m ids ((pid, p) ∷ ps) g h =
    let g' = add_edges ids pid p.dependencies g in
    let one = add_edges-count x m ids pid p.dependencies g in
    let rest = build-count x m ids ps g' h.1 in
    elim (Bool-cases (pid == x)) [
      | inr differs ↦
          let one' =
            subst
              (λ b.
                count x (list_at m g'.graph)
                ≡ count x (list_at m g.graph)
                  + (if b then count m (keep (contains ids) p.dependencies) else 0))
              differs one in
          rw differs (omega (arith, one', rest))
      | inl same ↦
          let one' =
            subst
              (λ b.
                count x (list_at m g'.graph)
                ≡ count x (list_at m g.graph)
                  + (if b then count m (keep (contains ids) p.dependencies) else 0))
              same one in
          let alone =
            not_a_key x ps
              (subst (λ y. contains (keys ps) y ≡ false) ((eq_iff pid x).0 same) h.0) in
          let rest' =
            subst
              (λ o.
                count x (list_at m (build ids ps g').graph)
                ≡ count x (list_at m g'.graph) + count m (need_of ids o))
              alone rest in
          rw same (omega (arith, one', rest'))
    ]

build-degree :
    {W : Type 0} (x : String) (ids : List String) (ps : Dict (Plugin W)) (g : Graph) (k : ℕ)
    → Distinct (keys ps)
    → degree_at x g.in_degree ≡ pos k
    → degree_at x (build ids ps g).in_degree ≡ pos (k + length (need ids ps x))
unfolding build keys lookup need_of
build-degree x ids [] g k h e = e ∙ ap pos (omega arith)
build-degree x ids ((pid, p) ∷ ps) g k h e =
    let g' = add_edges ids pid p.dependencies g in
    let n = length (keep (contains ids) p.dependencies) in
    let one = add_edges-degree x ids pid p.dependencies g k e in
    elim (Bool-cases (pid == x)) [
      | inr differs ↦
          let one' =
            subst (λ b. degree_at x g'.in_degree ≡ pos (k + (if b then n else 0))) differs one in
          rw differs (build-degree x ids ps g' (k + 0) h.1 one' ∙ ap pos (omega arith))
      | inl same ↦
          let one' =
            subst (λ b. degree_at x g'.in_degree ≡ pos (k + (if b then n else 0))) same one in
          let alone =
            not_a_key x ps
              (subst (λ y. contains (keys ps) y ≡ false) ((eq_iff pid x).0 same) h.0) in
          let rest = build-degree x ids ps g' (k + n) h.1 one' in
          rw same (
            subst
              (λ o. degree_at x (build ids ps g').in_degree ≡ pos (k + n + length (need_of ids o)))
              alone rest
            ∙ ap pos (omega arith))
    ]

pub no_edges-degree : (x : String) (ids : List String) → degree_at x (no_edges ids) ≡ pos 0
unfolding no_edges degree_at lookup
no_edges-degree x [] = refl
no_edges-degree x (pid ∷ ids) = elim (Bool-cases (pid == x)) [
  | inl same ↦ rw (same, degree_at) refl
  | inr differs ↦ rw (differs, degree_at) (no_edges-degree x ids)
]

-- A plugin is a neighbor of another as often as it needs it.
pub start_count :
    {W : Type 0} (x m : String) (ps : Dict (Plugin W))
    → Distinct (keys ps)
    → count x (list_at m (start_graph ps).graph) ≡ count m (need (keys ps) ps x)
unfolding list_at lookup
start_count x m ps h =
    let start : Graph = record { graph = []; in_degree = no_edges (keys ps) } in
    omega (arith, build-count x m (keys ps) ps start h)

-- The in-degree of a plugin is the number of dependencies that it needs.
pub start_degree :
    {W : Type 0} (x : String) (ps : Dict (Plugin W))
    → Distinct (keys ps)
    → degree_at x (start_graph ps).in_degree ≡ pos (length (need (keys ps) ps x))
start_degree x ps h =
    let start : Graph = record { graph = []; in_degree = no_edges (keys ps) } in
    build-degree x (keys ps) ps start 0 h (no_edges-degree x (keys ps)) ∙ ap pos (omega arith)
