-- ===== src/Workflow/Parallel/Serial.antt =====
-- The runs of one node after another, by `execute` of system/core/workflow/workflow_executor.py, as runs
-- on the results of their sources.
use mathlib.Core.List.{append_assoc, append-nil}
use capability_os.Base.{
  refl, inl, String, true, false, List, [], ◌∷◌, ◌++◌, contains, Dict, lookup, keys, All, Distinct,
  ◌≡◌, sym, subst, ap, ◌∙◌, arith,
}
use capability_os.Value.{Value}
use capability_os.Container.Waits.{Follows, contains-append, not_in_front}
use capability_os.Workflow.{Node}
use capability_os.Workflow.Executor.Runs.{
  Runs, nothing, next, Fails, insert-absent, keys-append-one, Fresh, Fresh-append,
}
use capability_os.Workflow.Executor.Ends.{Fresh_start}
use capability_os.Workflow.Executor.{execute_node}
use capability_os.Workflow.Parallel.{Threads, error_value}
use capability_os.Workflow.Parallel.Runs.{HasRun, AllRun, AllRun-insert}
use capability_os.Workflow.Parallel.Broken.{IsBroken, now_run, break_at_node}

-- What an order has in front of one of its names.
pub Follows-front :
    (needs : String → List String) (seen front : List String) (y : String) (rest : List String)
    → Follows needs seen (front ++ y ∷ rest)
    → Follows needs seen front × All (λ m. contains (seen ++ front) m ≡ true) (needs y)
Follows-front needs seen [] y rest h =
    (tt, subst (λ xs. All (λ m. contains xs m ≡ true) (needs y)) (sym (append-nil seen)) h.0)
Follows-front needs seen (x ∷ front) y rest h =
    let (front_follows, met) = Follows-front needs (seen ++ x ∷ []) front y rest h.1 in
    (
      (h.0, front_follows),
      subst (λ xs. All (λ m. contains xs m ≡ true) (needs y)) (append_assoc seen (x ∷ []) front)
          met,
    )

Distinct-front : (xs ys : List String) → Distinct (xs ++ ys) → Distinct xs
Distinct-front [] ys h = tt
Distinct-front (x ∷ xs) ys h =
    (ground (arith, h.0, contains-append xs ys x), Distinct-front xs ys h.1)

module _ {W : Type 0} (threads : Threads W) (nodes : Dict Node)
    (sources : String → List String) where
  -- Runs in an order in which the sources of each node come first.
  pub Runs-AllRun :
      {order : List String} {results r : Dict Value} {w z : W}
      → Runs threads.services nodes order results w r z
      → Distinct order
      → Fresh results order
      → Follows sources (keys results) order
      → AllRun threads nodes sources results
      → AllRun threads nodes sources r × (keys r ≡ keys results ++ order)
  Runs-AllRun {results = results} nothing once fresh follows all =
      (all, sym (append-nil (keys results)))
  Runs-AllRun {order = id ∷ order} {results = results} {r = r} {w = w} (next node v found ran more)
        once fresh follows all =
      let first =
        subst (λ y. HasRun threads nodes sources results id y) (ap (λ o. o.0) ran)
          (now_run threads nodes sources results id node w
            (execute_node threads.services node results w) (inl refl) (found, follows.0)) in
      let all' =
        subst (AllRun threads nodes sources) (insert-absent id v results fresh.0)
          (AllRun-insert threads nodes sources id v results fresh.0 first all) in
      let names = keys-append-one results id v in
      let (every, same) =
        Runs-AllRun more once.1 (Fresh-append results id v order once.0 fresh.1)
          (subst (λ xs. Follows sources xs order) (sym names) follows.1) all' in
      (every, same ∙ ap (λ xs. xs ++ order) names ∙ append_assoc (keys results) (id ∷ []) order)

  -- The node that fails in such an order.
  pub Fails-IsBroken :
      {order : List String} {w z : W} {r : Dict Value} {id message : String}
      → Fails threads.services nodes order [] w r id message z
      → Distinct order
      → Fresh [] order
      → Follows sources [] order
      → IsBroken threads nodes sources r id message
  unfolding keys lookup
  Fails-IsBroken {order = order} {r = r} {id = id} {message = message} h once fresh follows =
      let once' = subst Distinct h.split once in
      let (front_follows, met) =
        Follows-front sources [] h.front id h.rest (subst (Follows sources []) h.split follows) in
      let (all, names) =
        Runs-AllRun h.returns (Distinct-front h.front (id ∷ h.rest) once') (Fresh_start h.front)
          front_follows (λ k v there. cc) in
      let new =
        subst (λ xs. contains xs id ≡ false) (sym names) (not_in_front h.front h.rest id once') in
      let has = subst (λ xs. All (λ m. contains xs m ≡ true) (sources id)) (sym names) met in
      let failure =
        subst (λ y. HasRun threads nodes sources h.before id y) (ap (λ o. o.0) h.fails)
          (now_run threads nodes sources h.before id h.node h.world
            (execute_node threads.services h.node h.before h.world) (inl refl) (h.found, has)) in
      subst (λ d. IsBroken threads nodes sources d id message)
        (insert-absent id (error_value message) h.before new ∙ sym h.reports)
        (break_at_node threads nodes sources h.before id message new failure all)
