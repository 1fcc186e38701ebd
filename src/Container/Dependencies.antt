-- ===== src/Container/Dependencies.antt =====
-- In the order that `_resolve_order` of system/container/service_container.py makes, dependencies come
-- first, as far as they can.
use mathlib.Core.Bool.{false≢true}
use mathlib.Core.List.{append_assoc, append-nil}
use capability_os.Base.{Distinct}
use capability_os.Base.{
  ℕ, zero, suc, ◌≤◌, String, true, false, ◌||◌, some, List, [], ◌∷◌, ◌++◌, length, contains, ◌≡◌,
  ◌⊎◌, refl, sym, subst, ap, ◌∙◌, arith, ◌==◌, Bool-cases, Option-cases, inl, inr, if◌then◌else◌,
  Dict, keys, ℤ, pos, pos_part, AllValues,
}
use capability_os.Container.{
  Plugin, no_edges, list_at, degree_at, is_zero, ready, drain, append_rest, kahn, resolve_order,
}
use capability_os.Container.Order.{
  Known, keys-build, keys-no_edges, Known-self, kahn-ne-none, degree-here, degree-there,
}
use capability_os.Container.Once.{start_graph}
use capability_os.Container.Resolved.{start-Once, start-Known}
use capability_os.Container.Progress.{Progress, Progress-next}
use capability_os.Container.Edges.{count, need, start_count, start_degree}
use capability_os.Container.Waits.{left, left-pos, Follows, Awaits}

-- In the list dependencies come first, and a plugin that is not in it needs one that is not.
abbrev pub Sorted : List String → (String → List String) → List String → Type 0
Sorted ids needs r =
    Follows needs [] r
    × ((x : String)
        → contains ids x ≡ true
        → contains r x ≡ false
        → (m : String) × (contains (needs x) m ≡ true) × (contains r m ≡ false))

blocked :
    (needs : String → List String) (d : Dict ℤ) (order : List String) (x : String)
    → degree_at x d ≡ pos (left order (needs x))
    → Awaits d (order ++ []) x
    → contains order x ≡ false
    → (m : String) × (contains (needs x) m ≡ true) × (contains order m ≡ false)
blocked needs d order x degree (inl there) absent =
    let there' = subst (λ zs. contains zs x ≡ true) (append-nil order) there in
    absurd (false≢true (sym absent ∙ there'))
blocked needs d order x degree (inr busy) absent =
    left-pos order (needs x) (subst (λ v. 1 ≤ pos_part v) degree busy)

-- Where the queue is empty.
pub Progress-Sorted :
    (ids : List String) (needs : String → List String) (d : Dict ℤ) (order : List String)
    → Progress ids needs d [] order
    → Sorted ids needs order
Progress-Sorted ids needs d order p =
    (p.follows, λ x known absent. blocked needs d order x (p.degrees x) (p.awaits x known) absent)

pub drained :
    (ids : List String) (needs : String → List String) (graph : Dict (List String)) (f : ℕ)
    (d : Dict ℤ) (queue order r : List String)
    → AllValues (Known ids) graph
    → ((x m : String) → count x (list_at m graph) ≡ count m (needs x))
    → Progress ids needs d queue order
    → drain f graph d queue order ≡ some r
    → Sorted ids needs r
unfolding drain
drained ids needs graph f d [] order r edges edge p e =
    let same : order ≡ r = cc in subst (Sorted ids needs) same (Progress-Sorted ids needs d order p)
drained ids needs graph zero d (node ∷ queue) order r edges edge p e = cc
drained ids needs graph (suc f) d (node ∷ queue) order r edges edge p e =
    drained ids needs graph f _ _ (order ++ node ∷ []) r edges edge
      (Progress-next ids needs graph d node queue order edges edge p) e

pub left-nil : (ns : List String) → left [] ns ≡ length ns
unfolding left
left-nil [] = refl
left-nil (n ∷ ns) = omega (arith, left-nil ns)

pub ready_or_busy :
    (d : Dict ℤ) (x : String) (k : ℕ)
    → contains (keys d) x ≡ true
    → degree_at x d ≡ pos k
    → (contains (ready d) x ≡ true) ⊎ (1 ≤ k)
unfolding keys ready
ready_or_busy [] x k h e = absurd (false≢true h)
ready_or_busy ((j, v) ∷ d) x (suc k) h e = inr (omega arith)
ready_or_busy ((j, v) ∷ d) x zero h e = elim (Bool-cases (j == x)) [
  | inl same ↦
      let zeroed = sym (degree-here x j v d same) ∙ e in
      inl (
        subst (λ w. contains (if is_zero w then j ∷ ready d else ready d) x ≡ true) (sym zeroed)
          (rw same refl))
  | inr differs ↦
      elim (ready_or_busy d x zero (subst (λ b. b || contains (keys d) x ≡ true) differs h)
        (sym (degree-there x j v d differs) ∙ e)) [
          | inr busy ↦ inr busy
          | inl there ↦ elim (Bool-cases (is_zero v)) [
            | inl free ↦ rw free (inl (rw there (ground arith)))
            | inr waits ↦ rw waits (inl there)
          ]
        ]
]

append_rest-prefix :
    (ids order : List String) → (rest : List String) × (append_rest ids order ≡ order ++ rest)
unfolding append_rest
append_rest-prefix [] order = ([], sym (append-nil order))
append_rest-prefix (pid ∷ ids) order = elim (Bool-cases (contains order pid)) [
  | inl there ↦ rw there (append_rest-prefix ids order)
  | inr new ↦
      let (rest, e) = append_rest-prefix ids (order ++ pid ∷ []) in
      rw new (pid ∷ rest, e ∙ append_assoc order (pid ∷ []) rest)
]

-- The order begins with plugins whose registered dependencies all come before them; the plugins
-- that are not among these need a plugin that is not among these.
abbrev pub IsDependencyOrder : {W : Type 0} → Dict (Plugin W) → List String → Type 0
IsDependencyOrder plugins order =
    (r : List String) × (rest : List String) × (order ≡ r ++ rest)
    × Sorted (keys plugins) (need (keys plugins) plugins) r

kahn-Sorted :
    {W : Type 0} (plugins : Dict (Plugin W)) (r : List String)
    → Distinct (keys plugins)
    → kahn plugins ≡ some r
    → Sorted (keys plugins) (need (keys plugins) plugins) r
unfolding kahn
kahn-Sorted plugins r h e =
    let ids = keys plugins in
    let g = start_graph plugins in
    let needs = need ids plugins in
    let same =
      keys-build ids plugins (record { graph = []; in_degree = no_edges ids }) (Known-self ids)
        (keys-no_edges ids) in
    drained ids needs g.graph (length ids) g.in_degree (ready g.in_degree) [] r
      (start-Known plugins) (λ x m. start_count x m plugins h)
      (record {
        once = start-Once plugins h;
        degrees = λ x. start_degree x plugins h ∙ ap pos (sym (left-nil (needs x)));
        follows = tt;
        awaits = λ x known.
            let degree = start_degree x plugins h in
            elim (ready_or_busy g.in_degree x (length (needs x))
              (subst (λ xs. contains xs x ≡ true) (sym same) known) degree) [
                | inl there ↦ inl there
                | inr busy ↦ inr (subst (λ v. 1 ≤ pos_part v) (sym degree) busy)
              ];
      })
      e

-- Where the names of the plugins are distinct, as the keys of a dict are, the order begins with
-- plugins whose registered dependencies all come before them, and every plugin that is not among
-- these needs a registered plugin that is not among these either.
pub resolve_order-IsDependencyOrder :
    {W : Type 0} (plugins : Dict (Plugin W))
    → Distinct (keys plugins)
    → IsDependencyOrder plugins (resolve_order plugins)
unfolding resolve_order
resolve_order-IsDependencyOrder plugins h = elim (Option-cases (kahn plugins)) [
  | inl out ↦ absurd (kahn-ne-none plugins out)
  | inr (r, e) ↦
      let (rest, split) = append_rest-prefix (keys plugins) r in
      rw (e, resolve_order) (r, rest, split, kahn-Sorted plugins r h e)
]
