-- ===== src/Workflow/Parallel/Runs.antt =====
-- The results of a parallel execution by system/core/workflow/workflow_executor.py, as runs of nodes.
use capability_os.Base.{
  String, false, none, some, List, [], ◌∷◌, contains, ◌==◌, eq_iff, Dict, lookup, insert, keys,
  lookup-insert, All, ◌≡◌, ◌⊎◌, refl, sym, subst, ap, ◌∙◌, arith, Bool-cases, inl, inr,
}
use capability_os.Value.{Value}
use capability_os.ToolRuntime.{Reply, returned}
use capability_os.Workflow.{Node}
use capability_os.Workflow.Parallel.{Threads}
use capability_os.Workflow.Executor.{execute_node}

-- What the first holds, the second holds, too.
abbrev pub Extends : Dict Value → Dict Value → Type 0
Extends r r' = (k : String) (v : Value) → lookup k r ≡ some v → lookup k r' ≡ some v

-- Each name has one and the same result in both.
abbrev pub Agree : Dict Value → Dict Value → List String → Type 0
Agree before r ms = All (λ m. (v : Value) × ((lookup m before ≡ some v) × (lookup m r ≡ some v))) ms

-- The handler of a node has run so, on a thread or not.
abbrev pub IsRun : {W : Type 0} → Threads W → Node → Dict Value → W → Reply × W → Type 0
IsRun threads node before w out =
    (execute_node threads.services node before w ≡ out) ⊎ (threads.threaded node before w ≡ out)

-- A run of a node, on results that hold what its sources have in `r`.
pub record HasRun {W : Type 0} (threads : Threads W) (nodes : Dict Node)
    (sources : String → List String) (r : Dict Value) (id : String) (reply : Reply) : Type 0 where
  pub node : Node
  pub found : lookup id nodes ≡ some node
  pub before : Dict Value
  pub world : W
  pub after : W
  pub ran : IsRun threads node before world (reply, after)
  pub met : Agree before r (sources id)

-- Every result is that of a run.
abbrev pub AllRun :
    {W : Type 0} → Threads W → Dict Node → (String → List String) → Dict Value → Type 0
AllRun threads nodes sources r =
    (id : String) (v : Value)
    → lookup id r ≡ some v
    → HasRun threads nodes sources r id (returned v)

pub lookup-absent :
    {V : Type 0} (k : String) (d : Dict V) → contains (keys d) k ≡ false → lookup k d ≡ none
unfolding lookup keys
lookup-absent k [] h = refl
lookup-absent k ((i, w) ∷ d) h =
    let differs : i == k ≡ false = ground arith in rw differs (lookup-absent k d (ground arith))

pub insert-Extends :
    (k : String) (v : Value) (r : Dict Value)
    → contains (keys r) k ≡ false
    → Extends r (insert k v r)
insert-Extends k v r new j w there = elim (Bool-cases (k == j)) [
  | inr differs ↦ lookup-insert k j v r ∙ rw differs there
  | inl same ↦
      let gone = lookup-absent k r new in
      let bad : none ≡ some w = sym gone ∙ ap (λ x. lookup x r) ((eq_iff k j).0 same) ∙ there in cc
]

Agree-Extends :
    (before r r' : Dict Value) (ms : List String)
    → Extends r r'
    → Agree before r ms
    → Agree before r' ms
Agree-Extends before r r' [] more h = tt
Agree-Extends before r r' (m ∷ ms) more h =
    let (v, both) = h.0 in ((v, (both.0, more m v both.1)), Agree-Extends before r r' ms more h.1)

module _ {W : Type 0} (threads : Threads W) (nodes : Dict Node)
    (sources : String → List String) where
  pub HasRun-Extends :
      (r r' : Dict Value) (id : String) (reply : Reply)
      → Extends r r'
      → HasRun threads nodes sources r id reply
      → HasRun threads nodes sources r' id reply
  HasRun-Extends r r' id reply more h = record {
    node = h.node;
    found = h.found;
    before = h.before;
    world = h.world;
    after = h.after;
    ran = h.ran;
    met = Agree-Extends h.before r r' (sources id) more h.met;
  }

  -- A result that is new.
  pub AllRun-insert :
      (id : String) (v : Value) (r : Dict Value)
      → contains (keys r) id ≡ false
      → HasRun threads nodes sources r id (returned v)
      → AllRun threads nodes sources r
      → AllRun threads nodes sources (insert id v r)
  AllRun-insert id v r new run all j w there = elim (Bool-cases (id == j)) [
    | inr differs ↦
        HasRun-Extends r (insert id v r) j (returned w) (insert-Extends id v r new)
          (all j w (sym (lookup-insert id j v r ∙ rw differs refl) ∙ there))
    | inl same ↦
        let stored : some v ≡ some w = sym (lookup-insert id j v r ∙ rw same refl) ∙ there in
        let value : v ≡ w = cc in
        subst (λ x. HasRun threads nodes sources (insert id v r) j (returned x)) value
          (subst (λ x. HasRun threads nodes sources (insert id v r) x (returned v))
            ((eq_iff id j).0 same)
            (HasRun-Extends r (insert id v r) id (returned v) (insert-Extends id v r new) run))
  ]
