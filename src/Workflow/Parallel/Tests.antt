-- ===== src/Workflow/Parallel/Tests.antt =====
-- Parallel runs of system/core/workflow/workflow_executor.py.
use capability_os.Base.{
  ap, ◌∙◌, ℕ, ◌+◌, ◌-◌, String, none, some, [], ◌∷◌, ◌≡◌, refl, sym, subst, true, false, pos, keys,
  lookup, Bool-cases, ◌==◌, eq_iff, ◌⊎◌, inl, inr, if◌then◌else◌, Dict,
}
use capability_os.Value.{Value, null, bool, int, text, dict, end, field}
use capability_os.ToolRuntime.{Reply, returned, raised}
use capability_os.Workflow.{Node, Workflow, nodes_by_id}
use capability_os.Workflow.Sorting.{Inward, sources}
use capability_os.Workflow.Nodes.{Services}
use capability_os.Workflow.Executor.{execute, execute_node, success, failed}
use capability_os.Workflow.Executor.Ends.{node_ids}
use capability_os.Workflow.Parallel.{Threads, Schedule, execute_parallel}
use capability_os.Workflow.Parallel.Runs.{Agree, IsRun}
use capability_os.Workflow.Parallel.Ends.{IsParallelEnd, execute_parallel-IsParallelEnd}
use capability_os.Workflow.Parallel.Local.{IsLocal}
use capability_os.Workflow.Parallel.Alike.{IsSameEnd, execute_parallel-IsSameEnd}

-- The tool counts its calls, and fails at the name "bad".
abbrev services : Services ℕ
services = record {
  tool = some (λ id params w. elim id [
    | text s ↦ if s == "bad" then (raised "bad", w + 1) else (returned (dict params), w + 1)
    | _ ↦ (returned null, w)
  ]);
  agent = none;
  chat = none;
  safe_eval = λ e vars. some (bool true);
  str = λ v. "?";
  int_of = λ v. none;
  float_of = λ v. some v;
  is_positive = λ v. false;
  sleep = λ v w. w;
  emit = λ t d w. w;
  loads = λ v. none;
  as_dict = λ v. none;
  request_error = λ m u h. some "unknown url type";
  urlopen = λ m u h b w. (raised "offline", w);
  exec_python = λ c w. (raised "no", w);
  path_text = λ p. p;
  read_text = λ p w. (raised "no file", w);
  write_text = λ p c w. (returned (int (pos 0)), w);
  append_text = λ p c w. (returned (int (pos 0)), w);
  list_dir = λ p w. (returned null, w);
}

-- No thread is disturbed by another one.
abbrev threads : Threads ℕ
unfolding execute_node
threads = record { services = services; threaded = execute_node services }

abbrev output : String → Node
output id = record { id = id; kind = "output"; fields = field "template" (text "a$n1") end }

abbrev tool : String → String → Node
tool id name = record { id = id; kind = "tool"; fields = field "tool_id" (text name) end }

abbrev trigger : Node
trigger = record { id = "n1"; kind = "trigger"; fields = end }

-- One level of one node, and one of two.
abbrev fork : Workflow
fork = record {
  nodes = trigger ∷ output "n2" ∷ output "n3" ∷ [];
  edges = ("n1", "n2") ∷ ("n1", "n3") ∷ [];
}

-- Two nodes that fail.
abbrev failing : Workflow
failing = record {
  nodes = trigger ∷ tool "n2" "bad" ∷ tool "n3" "bad" ∷ [];
  edges = ("n1", "n2") ∷ ("n1", "n3") ∷ [];
}

-- The last thread runs first and its result is taken first; or a result is taken as soon as it is there.
abbrev last_first : Schedule
last_first = λ level moment. (true, moment - 2)

abbrev front_first : Schedule
front_first = λ level moment. (false, 0)

into_fork : Inward (node_ids fork) fork.edges
unfolding keys nodes_by_id
into_fork = (refl, (refl, tt))

execute_parallel-IsParallelEnd_example :
    IsParallelEnd threads fork (execute_parallel threads last_first fork 0)
execute_parallel-IsParallelEnd_example =
    execute_parallel-IsParallelEnd threads fork into_fork last_first 0

-- Both outputs use the result of the trigger, and no other.
output_local :
    (id : String) (b b' : Dict Value) (w w' : ℕ)
    → Agree b b' ("n1" ∷ [])
    → (execute_node services (output id) b w).0 ≡ (execute_node services (output id) b' w').0
unfolding execute_node
output_local id b b' w w' agree = let (v, (there, there')) = agree.0 in rw there (rw there' refl)

fork_node :
    (id : String) (node : Node)
    → lookup id (nodes_by_id fork.nodes []) ≡ some node
    → ((id ≡ "n1") × (node ≡ trigger)) ⊎ ((node ≡ output id) × (sources fork.edges id ≡ "n1" ∷ []))
unfolding nodes_by_id lookup
fork_node id node found = elim (Bool-cases ("n1" == id)) [
  | inl same ↦
      let e = (eq_iff "n1" id).0 same in
      let found' : some trigger ≡ some node =
        subst (λ x. lookup x (nodes_by_id fork.nodes []) ≡ some node) (sym e) found in
      let is : node ≡ trigger = cc in inl (sym e, is)
  | inr first ↦ elim (Bool-cases ("n2" == id)) [
    | inl same ↦
        let e = (eq_iff "n2" id).0 same in
        let found' : some (output "n2") ≡ some node =
          subst (λ x. lookup x (nodes_by_id fork.nodes []) ≡ some node) (sym e) found in
        let is : node ≡ output "n2" = cc in
        inr (subst (λ x. (node ≡ output x) × (sources fork.edges x ≡ "n1" ∷ [])) e (is, refl))
    | inr second ↦ elim (Bool-cases ("n3" == id)) [
      | inl same ↦
          let e = (eq_iff "n3" id).0 same in
          let found' : some (output "n3") ≡ some node =
            subst (λ x. lookup x (nodes_by_id fork.nodes []) ≡ some node) (sym e) found in
          let is : node ≡ output "n3" = cc in
          inr (subst (λ x. (node ≡ output x) × (sources fork.edges x ≡ "n1" ∷ [])) e (is, refl))
      | inr third ↦
          let gone : lookup id (nodes_by_id fork.nodes []) ≡ none =
            rw (first, second, third) refl in
          cc
    ]
  ]
]

fork_reply :
    (id : String) (node : Node) (b b' : Dict Value) (w w' : ℕ)
    → lookup id (nodes_by_id fork.nodes []) ≡ some node
    → Agree b b' (sources fork.edges id)
    → (execute_node services node b w).0 ≡ (execute_node services node b' w').0
unfolding execute_node
fork_reply id node b b' w w' found agree = elim (fork_node id node found) [
  | inl (e, is) ↦ rw is refl
  | inr (is, from) ↦ rw is (output_local id b b' w w' (subst (Agree b b') from agree))
]

undisturbed :
    (node : Node) (b : Dict Value) (w : ℕ) (out : Reply × ℕ)
    → IsRun threads node b w out
    → (execute_node services node b w).0 ≡ out.0
unfolding threads
undisturbed node b w out (inl e) = ap (λ o. o.0) e
undisturbed node b w out (inr e) = ap (λ o. o.0) e

fork-IsLocal : IsLocal threads (nodes_by_id fork.nodes []) (sources fork.edges)
fork-IsLocal id node b b' w w' out out' found agree ran ran' =
    sym (undisturbed node b w out ran)
    ∙ fork_reply id node b b' w w' found agree
    ∙ undisturbed node b' w' out' ran'

execute_parallel-IsSameEnd_example :
    IsSameEnd (execute services fork 0) (execute_parallel threads last_first fork 0)
unfolding threads
execute_parallel-IsSameEnd_example =
    execute_parallel-IsSameEnd threads fork into_fork fork-IsLocal last_first 0 0

abbrev triggered : Value
triggered = dict (field "triggered" (bool true) (field "schedule" (text "") end))

abbrev said : Value
said = dict (field "text" (text "a?") end)

-- The order of the results is that in which they are taken.
last_taken_first :
    execute_parallel threads last_first fork 0
    ≡ some (success (("n1", triggered) ∷ ("n3", said) ∷ ("n2", said) ∷ []), 0)
unfolding execute_parallel threads
last_taken_first = refl

front_taken_first :
    execute_parallel threads front_first fork 0
    ≡ some (success (("n1", triggered) ∷ ("n2", said) ∷ ("n3", said) ∷ []), 0)
unfolding execute_parallel threads
front_taken_first = refl

-- Where two nodes fail, the schedule says which one is reported; the thread that is left runs, too.
last_reported :
    execute_parallel threads last_first failing 0
    ≡ some (
      failed (("n1", triggered) ∷ ("n3", dict (field "error" (text "bad") end)) ∷ []) "n3" "bad",
      2,
    )
unfolding execute_parallel threads
last_reported = refl

front_reported :
    execute_parallel threads front_first failing 0
    ≡ some (
      failed (("n1", triggered) ∷ ("n2", dict (field "error" (text "bad") end)) ∷ []) "n2" "bad",
      2,
    )
unfolding execute_parallel threads
front_reported = refl
