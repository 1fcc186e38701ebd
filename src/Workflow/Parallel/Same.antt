-- ===== src/Workflow/Parallel/Same.antt =====
-- The results of two executions by system/core/workflow/workflow_executor.py, where every reply depends on
-- the results of the node's sources.
use mathlib.Core.Bool.{false≢true}
use mathlib.Core.List.{append_assoc, append-nil}
use capability_os.Base.{
  false, String, true, some, List, [], ◌∷◌, ◌++◌, contains, ◌==◌, eq_iff, eq_refl, Dict, lookup,
  keys, All, Distinct, ◌≡◌, refl, sym, subst, ap, ◌∙◌, arith, Bool-cases, inl, inr,
}
use capability_os.Value.{Value}
use capability_os.ToolRuntime.{returned, raised}
use capability_os.Container.Once.{contains-snoc}
use capability_os.Container.Order.{Known-self}
use capability_os.Workflow.Cover.{apart_of_new}
use capability_os.Container.Waits.{Follows, not_in_front}
use capability_os.Workflow.{Node}
use capability_os.Workflow.Parallel.{Threads}
use capability_os.Workflow.Executor.Runs.{lookup-key}
use capability_os.Workflow.Parallel.Runs.{HasRun, AllRun, lookup-absent}
use capability_os.Workflow.Parallel.Broken.{IsBroken}
use capability_os.Workflow.Parallel.Ends.{among_all}
use capability_os.Workflow.Parallel.Serial.{Follows-front}
use capability_os.Workflow.Parallel.Local.{
  IsLocal, Kept, All-split, every_has, first_of, matched_reply, same_reply,
}

module _ {W : Type 0} (threads : Threads W) (nodes : Dict Node) (sources : String → List String)
    (local : IsLocal threads nodes sources) where
  -- Along an order, the results are the same.
  Kept-along :
      (r r' : Dict Value) (seen order : List String)
      → Kept r r' seen
      → Follows sources seen order
      → ((x : String) (v : Value)
          → contains order x ≡ true
          → lookup x r ≡ some v
          → HasRun threads nodes sources r x (returned v))
      → AllRun threads nodes sources r'
      → All (λ x. contains (keys r') x ≡ true) order
      → Kept r r' (seen ++ order)
  Kept-along r r' seen [] kept follows run run' has = subst (Kept r r') (sym (append-nil seen)) kept
  Kept-along r r' seen (x ∷ order) kept follows run run' has =
      let (v', there') = lookup-key x r' has.0 in
      let here : (v : Value) → lookup x r ≡ some v → lookup x r' ≡ some v = λ v there.
        (let same =
            same_reply threads nodes sources local r r' seen x (returned v) (returned v') kept
              follows.0 (run x v (rw (eq_refl x) refl) there) (run' x v' there') in
          let value : v' ≡ v = cc in there' ∙ ap some value) in
      subst (Kept r r') (append_assoc seen (x ∷ []) order) (
        Kept-along r r' (seen ++ x ∷ []) order
          (λ m v inside there. elim (Bool-cases (x == m)) [
            | inl same ↦
                let e = (eq_iff x m).0 same in
                subst (λ z. lookup z r' ≡ some v) e
                  (here v (subst (λ z. lookup z r ≡ some v) (sym e) there))
            | inr differs ↦
                kept m v (ground (arith, contains-snoc seen x m, eq_iff x m, eq_iff m x)) there
          ])
          follows.1 (λ m v inside there. run m v (rw inside (ground arith)) there) run' has.1)

  -- Where every node has returned in one execution, none fails in another.
  pub broken_no_more :
      (r r' : Dict Value) (order : List String) (id message : String)
      → Distinct order
      → Follows sources [] order
      → contains order id ≡ true
      → AllRun threads nodes sources r'
      → All (λ x. contains (keys r') x ≡ true) order
      → IsBroken threads nodes sources r id message
      → ⊥
  broken_no_more r r' order id message once follows known run' has b =
      let (front, rest, e) = first_of id order known in
      let new = not_in_front front rest id (subst Distinct e once) in
      let (front_follows, met) =
        Follows-front sources [] front id rest (subst (Follows sources []) e follows) in
      let (has_front, has_behind) =
        All-split (λ x. contains (keys r') x ≡ true) front (id ∷ rest)
          (subst (All (λ x. contains (keys r') x ≡ true)) e has) in
      let (v', there') = lookup-key id r' has_behind.0 in
      let kept =
        Kept-along r r' [] front (λ m v inside there. absurd (false≢true inside)) front_follows
          (λ x v inside there. b.others x v (apart_of_new id x front new inside) there) run'
          has_front in
      let wrong =
        same_reply threads nodes sources local r r' front id (raised message) (returned v') kept met
          b.run (run' id v' there') in
      cc

  -- Two executions in which every node has returned.
  pub same_results :
      (r r' : Dict Value) (order : List String)
      → Follows sources [] order
      → AllRun threads nodes sources r
      → AllRun threads nodes sources r'
      → ((x : String) → contains (keys r) x ≡ contains order x)
      → ((x : String) → contains (keys r') x ≡ contains order x)
      → (x : String) → lookup x r ≡ lookup x r'
  same_results r r' order follows run run' names names' x =
      let has = every_has r' order order names' (Known-self order) in
      let kept =
        Kept-along r r' [] order (λ m v inside there. absurd (false≢true inside)) follows
          (λ y v inside there. run y v there) run' has in
      elim (Bool-cases (contains order x)) [
        | inl inside ↦
            let (v, there) = lookup-key x r (names x ∙ inside) in
            there ∙ sym (kept x v inside there)
        | inr absent ↦
            lookup-absent x r (names x ∙ absent) ∙ sym (lookup-absent x r' (names' x ∙ absent))
      ]

  module _ (r r' : Dict Value) (id id' message message' : String)
      (b : IsBroken threads nodes sources r id message)
      (b' : IsBroken threads nodes sources r' id' message') where
    -- Two executions in which a node has failed, as far as an order.
    abbrev pub Apart : List String → Type 0
    Apart seen =
        (m : String) (v v' : Value)
        → contains seen m ≡ true
        → id == m ≡ false
        → id' == m ≡ false
        → lookup m r ≡ some v
        → lookup m r' ≡ some v'
        → v ≡ v'

    returned_match :
        (x : String) (v v' : Value) (seen : List String)
        → Apart seen
        → All (λ m. contains seen m ≡ true) (sources x)
        → id == x ≡ false
        → id' == x ≡ false
        → lookup x r ≡ some v
        → lookup x r' ≡ some v'
        → v ≡ v'
    returned_match x v v' seen apart inside other other' there there' =
        let same =
          matched_reply threads nodes sources local r r' x (returned v) (returned v')
            (λ m a a' needed.
              apart m a a' (among_all seen (sources x) m inside needed)
                (apart_of_new id m (sources x) (b.unneeded x v other there) needed)
                (apart_of_new id' m (sources x) (b'.unneeded x v' other' there') needed))
            (b.others x v other there) (b'.others x v' other' there') in
        cc

    pub Apart-along :
        (seen order : List String) → Apart seen → Follows sources seen order → Apart (seen ++ order)
    Apart-along seen [] apart follows = subst Apart (sym (append-nil seen)) apart
    Apart-along seen (x ∷ order) apart follows = subst Apart (append_assoc seen (x ∷ []) order) (
        Apart-along (seen ++ x ∷ []) order
          (λ m v v' inside other other' there there'. elim (Bool-cases (x == m)) [
            | inl same ↦
                let e = sym ((eq_iff x m).0 same) in
                returned_match x v v' seen apart follows.0 (subst (λ z. id == z ≡ false) e other)
                  (subst (λ z. id' == z ≡ false) e other')
                  (subst (λ z. lookup z r ≡ some v) e there)
                  (subst (λ z. lookup z r' ≡ some v') e there')
            | inr differs ↦
                apart m v v' (ground (arith, contains-snoc seen x m, eq_iff x m, eq_iff m x)) other
                  other' there there'
          ])
          follows.1)
