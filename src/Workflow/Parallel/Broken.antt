-- ===== src/Workflow/Parallel/Broken.antt =====
-- The results behind a node that fails, of system/core/workflow/workflow_executor.py.
use capability_os.Base.{
  eq_iff, String, true, false, some, List, [], ◌∷◌, contains, ◌==◌, Dict, lookup, insert, keys,
  lookup-insert, lookup-own, contains-keys-insert, All, ◌≡◌, refl, sym, subst, ◌∙◌, arith,
  Bool-cases, inl, inr,
}
use capability_os.Value.{Value}
use capability_os.ToolRuntime.{Reply, returned, raised}
use capability_os.Workflow.{Node}
use capability_os.Workflow.Executor.Runs.{lookup-key}
use capability_os.Workflow.Parallel.{Threads, error_value}
use capability_os.Workflow.Parallel.Runs.{
  lookup-absent, Agree, IsRun, HasRun, AllRun, insert-Extends, HasRun-Extends,
}
use capability_os.Workflow.Parallel.Moves.{present}

-- All names have a result.
abbrev pub Has : Dict Value → List String → Type 0
Has results ms = All (λ m. contains (keys results) m ≡ true) ms

pub Has-insert :
    (k : String) (v : Value) (r : Dict Value) (ms : List String) → Has r ms → Has (insert k v r) ms
Has-insert k v r [] h = tt
Has-insert k v r (m ∷ ms) h = (contains-keys-insert k m v r ∙ rw h.0 refl, Has-insert k v r ms h.1)

pub Agree-Has : (r : Dict Value) (ms : List String) → Has r ms → Agree r r ms
Agree-Has r [] h = tt
Agree-Has r (m ∷ ms) h =
    let (v, found) = lookup-key m r h.0 in ((v, (found, found)), Agree-Has r ms h.1)

-- A name without a result is none of the names that have one.
pub Agree-absent :
    (before r : Dict Value) (id : String) (ms : List String)
    → contains (keys r) id ≡ false
    → Agree before r ms
    → contains ms id ≡ false
Agree-absent before r id [] new h = refl
Agree-absent before r id (m ∷ ms) new h = elim (Bool-cases (m == id)) [
  | inr differs ↦ rw differs (Agree-absent before r id ms new h.1)
  | inl same ↦
      let (v, both) = h.0 in
      let found = both.1 in
      let gone =
        lookup-absent m r
          (subst (λ x. contains (keys r) x ≡ false) (sym ((eq_iff m id).0 same)) new) in
      cc
]

pub absent_of : (x : String) (r : Dict Value) → present x r ≡ 0 → contains (keys r) x ≡ false
absent_of x r h = elim (Bool-cases (contains (keys r) x)) [
  | inr absent ↦ absent
  | inl there ↦ let one : present x r ≡ 1 = rw there refl in absurd (omega arith)
]

module _ {W : Type 0} (threads : Threads W) (nodes : Dict Node)
    (sources : String → List String) where
  -- A node that may run on these results.
  abbrev pub MayRun : Dict Value → String × Node → Type 0
  MayRun results (id, node) = (lookup id nodes ≡ some node) × Has results (sources id)

  abbrev pub HasReplied : Dict Value → String × Reply → Type 0
  HasReplied results (id, reply) = HasRun threads nodes sources results id reply

  -- The results with the error of one node, beside those of runs.
  pub record IsBroken (r : Dict Value) (id e : String) : Type 0 where
    pub error : lookup id r ≡ some (error_value e)
    pub run : HasRun threads nodes sources r id (raised e)
    pub others :
        (k : String) (v : Value)
        → id == k ≡ false
        → lookup k r ≡ some v
        → HasRun threads nodes sources r k (returned v)
    -- No node that needs this one has a result.
    pub unneeded :
        (k : String) (v : Value)
        → id == k ≡ false
        → lookup k r ≡ some v
        → contains (sources k) id ≡ false

  pub MayRun-insert :
      (k : String) (v : Value) (r : Dict Value) (xs : List (String × Node))
      → All (MayRun r) xs
      → All (MayRun (insert k v r)) xs
  MayRun-insert k v r [] h = tt
  MayRun-insert k v r ((id, node) ∷ xs) h =
      ((h.0.0, Has-insert k v r (sources id) h.0.1), MayRun-insert k v r xs h.1)

  pub HasReplied-insert :
      (k : String) (v : Value) (r : Dict Value) (ys : List (String × Reply))
      → contains (keys r) k ≡ false
      → All (HasReplied r) ys
      → All (HasReplied (insert k v r)) ys
  HasReplied-insert k v r [] new h = tt
  HasReplied-insert k v r ((id, reply) ∷ ys) new h = (
    HasRun-Extends threads nodes sources r (insert k v r) id reply (insert-Extends k v r new) h.0,
    HasReplied-insert k v r ys new h.1,
  )

  pub now_run :
      (r : Dict Value) (id : String) (node : Node) (w : W) (out : Reply × W)
      → IsRun threads node r w out
      → MayRun r (id, node)
      → HasRun threads nodes sources r id out.0
  now_run r id node w out ran h = record {
    node = node;
    found = h.0;
    before = r;
    world = w;
    after = out.1;
    ran = ran;
    met = Agree-Has r (sources id) h.1;
  }

  pub break_at_node :
      (r : Dict Value) (id e : String)
      → contains (keys r) id ≡ false
      → HasRun threads nodes sources r id (raised e)
      → AllRun threads nodes sources r
      → IsBroken (insert id (error_value e) r) id e
  break_at_node r id e new failure all =
      let more = insert-Extends id (error_value e) r new in
      let old : (k : String) (v : Value)
          → id == k ≡ false
          → lookup k (insert id (error_value e) r) ≡ some v
          → lookup k r ≡ some v =
        λ k v other there. sym (lookup-insert id k (error_value e) r ∙ rw other refl) ∙ there in
      record {
        error = lookup-own id (error_value e) r;
        run =
            HasRun-Extends threads nodes sources r (insert id (error_value e) r) id (raised e) more
              failure;
        others = λ k v other there.
            HasRun-Extends threads nodes sources r (insert id (error_value e) r) k (returned v) more
              (all k v (old k v other there));
        unneeded = λ k v other there.
            let run = all k v (old k v other there) in
            Agree-absent run.before r id (sources k) new run.met;
      }
