-- ===== src/Workflow/Parallel/Released.antt =====
-- The nodes that a level of system/core/workflow/workflow_executor.py sets free.
use mathlib.Core.List.{append_assoc, append-nil}
use capability_os.Base.{
  ℕ, ◌+◌, ◌≤◌, String, false, some, List, [], ◌∷◌, ◌++◌, length, contains, if◌then◌else◌, ◌==◌,
  eq_iff, Dict, lookup, keys, ℤ, All, AllValues, Distinct, ◌≡◌, refl, sym, subst, ap, ◌∙◌, arith,
  Bool-cases, inl, inr, insert,
}
use capability_os.Value.{Value}
use capability_os.Container.{list_at, degree_at, pred, is_zero, relax}
use capability_os.Container.Order.{Known, waiting, relax-le}
use capability_os.Container.Edges.{count}
use capability_os.Container.Progress.{Progress, Progress-next}
use capability_os.Workflow.{Node}
use capability_os.Workflow.Executor.Runs.{lookup-key}
use capability_os.Workflow.Parallel.{Threads, batches, partition, release}
use capability_os.Workflow.Parallel.Moves.{held}
use capability_os.Workflow.Parallel.Broken.{Has}
use capability_os.Workflow.Parallel.Level.{AllMayRun}

-- A queue only grows at its end.
relax-append :
    (ns : List String) (d : Dict ℤ) (front queue : List String)
    → relax ns d (front ++ queue) ≡ ((relax ns d queue).0, front ++ (relax ns d queue).1)
unfolding relax
relax-append [] d front queue = refl
relax-append (n ∷ ns) d front queue =
    let v = pred (degree_at n d) in
    elim (Bool-cases (is_zero v)) [
      | inl free ↦
          rw (free, relax)
            (ap (relax ns (insert n v d)) (append_assoc front queue (n ∷ []))
              ∙ relax-append ns (insert n v d) front (queue ++ n ∷ []))
      | inr waits ↦ rw (waits, relax) (relax-append ns (insert n v d) front queue)
    ]

-- A level's decrements, all of them.
pub release-Progress :
    (ids : List String) (needs : String → List String) (graph : Dict (List String))
    (xs : List String) (d : Dict ℤ) (next order : List String)
    → AllValues (Known ids) graph
    → ((x m : String) → count x (list_at m graph) ≡ count m (needs x))
    → Progress ids needs d (xs ++ next) order
    → Progress ids needs (release xs graph d next).0 (release xs graph d next).1 (order ++ xs)
unfolding release
release-Progress ids needs graph [] d next order edges edge p =
    subst (λ o. Progress ids needs d next o) (sym (append-nil order)) p
release-Progress ids needs graph (x ∷ xs) d next order edges edge p =
    let out = relax (list_at x graph) d next in
    let one =
      subst (λ r. Progress ids needs r.0 r.1 (order ++ x ∷ []))
        (relax-append (list_at x graph) d xs next)
        (Progress-next ids needs graph d x (xs ++ next) order edges edge p) in
    subst
      (λ o. Progress ids needs (release xs graph out.0 out.1).0 (release xs graph out.0 out.1).1 o)
      (append_assoc order (x ∷ []) xs)
      (release-Progress ids needs graph xs out.0 out.1 (order ++ x ∷ []) edges edge one)

pub release-le :
    (xs : List String) (graph : Dict (List String)) (d : Dict ℤ) (next : List String)
    → waiting (release xs graph d next).0 + length (release xs graph d next).1
      ≤ waiting d + length next
unfolding release
release-le [] graph d next = omega arith
release-le (x ∷ xs) graph d next =
    let out = relax (list_at x graph) d next in
    omega (arith, release-le xs graph out.0 out.1, relax-le (list_at x graph) d next)

-- Whether a name stands in a list, as a number.
abbrev pub among : String → List String → ℕ
among x xs = if contains xs x then 1 else 0

count-Distinct : (x : String) (xs : List String) → Distinct xs → count x xs ≡ among x xs
count-Distinct x [] once = refl
count-Distinct x (y ∷ xs) once =
    let rest = count-Distinct x xs once.1 in
    elim (Bool-cases (y == x)) [
      | inl same ↦
          let out = subst (λ z. contains xs z ≡ false) ((eq_iff y x).0 same) once.0 in
          let none_left : count x xs ≡ 0 = rest ∙ rw out refl in rw (same, none_left) refl
      | inr differs ↦ rw differs (omega (arith, rest))
    ]

-- In a list without repetitions.
pub among-append :
    (x : String) (xs ys : List String)
    → Distinct (xs ++ ys)
    → count x ys + among x xs ≡ among x (xs ++ ys)
among-append x [] ys once = omega (arith, count-Distinct x ys once)
among-append x (y ∷ xs) ys once =
    let rest = among-append x xs ys once.1 in
    elim (Bool-cases (y == x)) [
      | inl same ↦
          let out = subst (λ z. contains (xs ++ ys) z ≡ false) ((eq_iff y x).0 same) once.0 in
          let none_left : count x ys + among x xs ≡ 0 = rest ∙ rw out refl in rw same (omega arith)
      | inr differs ↦ rw differs rest
    ]

module _ {W : Type 0} (threads : Threads W) (nodes : Dict Node)
    (sources : String → List String) where
  -- A level whose nodes are there, and may run.
  pub record IsLevel (results : Dict Value) (ids : List String) : Type 0 where
    pub par : List (String × Node)
    pub seq : List (String × Node)
    pub parted : partition nodes ids ≡ batches par seq
    pub balance : (x : String) → held x par + held x seq ≡ count x ids
    pub may_par : AllMayRun threads nodes sources results par
    pub may_seq : AllMayRun threads nodes sources results seq

  placed :
      (results : Dict Value) (id : String) (node : Node) (ids : List String)
      → lookup id nodes ≡ some node
      → Has results (sources id)
      → IsLevel results ids
      → IsLevel results (id ∷ ids)
  unfolding partition
  placed results id node ids found has l = elim (Bool-cases (node.kind == "condition")) [
    | inl is ↦ record {
      par = l.par;
      seq = (id, node) ∷ l.seq;
      parted = rw (found, partition) (rw (l.parted, is) refl);
      balance = λ x. omega (arith, l.balance x);
      may_par = l.may_par;
      may_seq = ((found, has), l.may_seq);
    }
    | inr no_condition ↦ record {
      par = (id, node) ∷ l.par;
      seq = l.seq;
      parted = rw (found, partition) (rw (l.parted, no_condition) refl);
      balance = λ x. omega (arith, l.balance x);
      may_par = ((found, has), l.may_par);
      may_seq = l.may_seq;
    }
  ]

  pub partition-IsLevel :
      (results : Dict Value) (ids : List String)
      → Known (keys nodes) ids
      → All (λ x. Has results (sources x)) ids
      → IsLevel results ids
  unfolding partition
  partition-IsLevel results [] known met = record {
    par = [];
    seq = [];
    parted = refl;
    balance = λ x. refl;
    may_par = tt;
    may_seq = tt;
  }
  partition-IsLevel results (id ∷ ids) known met =
      let (node, found) = lookup-key id nodes known.0 in
      placed results id node ids found met.0 (partition-IsLevel results ids known.1 met.1)
