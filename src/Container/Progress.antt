-- ===== src/Container/Progress.antt =====
-- What the loop of `_resolve_order` of system/container/service_container.py keeps, a round at a time.
use mathlib.Core.List.{append_assoc}
use capability_os.Base.{
  String, true, List, [], ◌∷◌, ◌++◌, contains, ◌≡◌, sym, subst, ap, ◌∙◌, arith, All, Dict, ℤ, pos,
  pos_part, AllValues,
}
use capability_os.Container.{list_at, degree_at, relax}
use capability_os.Container.Order.{Known}
use capability_os.Container.Once.{Once, relax-Once, list_at-Known}
use capability_os.Container.Edges.{count}
use capability_os.Container.Waits.{
  left, left-snoc, left-zero, relax-degree, Follows, Follows-snoc, not_in_front, Awaits,
  relax-Awaits,
}

All-mid :
    {A : Type 0} (P : A → Type 0) (xs : List A) (y : A) (ys : List A) → All P (xs ++ y ∷ ys) → P y
All-mid P [] y ys h = h.0
All-mid P (x ∷ xs) y ys h = All-mid P xs y ys h.1

-- The queue's names wait for nothing outside the order; the in-degrees count what is not in it yet.
pub record Progress (ids : List String) (needs : String → List String) (d : Dict ℤ)
    (queue order : List String) : Type 0 where
  pub once : Once ids d (order ++ queue)
  pub degrees : (x : String) → degree_at x d ≡ pos (left order (needs x))
  pub follows : Follows needs [] order
  pub awaits : (x : String) → contains ids x ≡ true → Awaits d (order ++ queue) x

-- The first one of the queue has what it needs.
pub Progress-met :
    (ids : List String) (needs : String → List String) (d : Dict ℤ) (node : String)
    (front queue order : List String)
    → Progress ids needs d (front ++ node ∷ queue) order
    → All (λ m. contains order m ≡ true) (needs node)
Progress-met ids needs d node front queue order p = left-zero order (needs node) (
    sym (ap pos_part (p.degrees node))
    ∙ All-mid (λ x. pos_part (degree_at x d) ≡ 0) (order ++ front) node queue
        (subst (λ xs. All (λ x. pos_part (degree_at x d) ≡ 0) xs)
          (sym (append_assoc order front (node ∷ queue))) p.once.1))

pub Progress-next :
    (ids : List String) (needs : String → List String) (graph : Dict (List String)) (d : Dict ℤ)
    (node : String) (queue order : List String)
    → AllValues (Known ids) graph
    → ((x m : String) → count x (list_at m graph) ≡ count m (needs x))
    → Progress ids needs d (node ∷ queue) order
    → Progress ids needs
        (relax (list_at node graph) d queue).0
        (relax (list_at node graph) d queue).1
        (order ++ node ∷ [])
Progress-next ids needs graph d node queue order edges edge p =
    let ns = list_at node graph in
    let new = not_in_front order queue node p.once.0 in
    let moved = sym (append_assoc order (node ∷ []) queue) in
    record {
      once =
          relax-Once ids ns d queue (order ++ node ∷ []) (list_at-Known ids node graph edges)
            (subst (Once ids d) moved p.once);
      degrees = λ x.
          relax-degree x ns d queue (left (order ++ node ∷ []) (needs x))
            (p.degrees x ∙ ap pos (omega (arith, left-snoc order node (needs x) new, edge x node)));
      follows =
          Follows-snoc needs [] order node p.follows
            (Progress-met ids needs d node [] queue order p);
      awaits = λ x known.
          relax-Awaits ns d queue (order ++ node ∷ []) x
            (subst (λ zs. Awaits d zs x) moved (p.awaits x known));
    }
