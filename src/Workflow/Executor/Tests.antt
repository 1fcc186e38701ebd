-- ===== src/Workflow/Executor/Tests.antt =====
-- Runs of system/core/workflow/workflow_executor.py.
use capability_os.Base.{ℕ, none, some, [], ◌∷◌, ◌≡◌, refl, true, false, pos, keys}
use capability_os.Value.{null, bool, int, text, dict, end, field}
use capability_os.ToolRuntime.{returned, raised}
use capability_os.Exec.{ok}
use capability_os.Workflow.{Node, Workflow, nodes_by_id, topological_sort}
use capability_os.Workflow.Sorting.{Inward, IsSorting, topological_sort-IsSorting}
use capability_os.Workflow.Nodes.{Services, apply_template}
use capability_os.Workflow.Executor.{execute, success, failed, key_error}
use capability_os.Workflow.Executor.Ends.{node_ids, IsEnd, execute-IsEnd}

-- One tool, which returns its parameters.
abbrev services : Services ℕ
services = record {
  tool = some (λ id params w. (returned (dict params), w));
  agent = none;
  chat = none;
  safe_eval = λ e vars. some (bool true);
  str = λ v. "?";
  int_of = λ v. none;
  float_of = λ v. some v;
  is_positive = λ v. false;
  sleep = λ v w. w;
  emit = λ t d w. w;
  loads = λ v. none;
  as_dict = λ v. none;
  request_error = λ m u h. some "unknown url type";
  urlopen = λ m u h b w. (raised "offline", w);
  exec_python = λ c w. (raised "no", w);
  path_text = λ p. p;
  read_text = λ p w. (raised "no file", w);
  write_text = λ p c w. (returned (int (pos 0)), w);
  append_text = λ p c w. (returned (int (pos 0)), w);
  list_dir = λ p w. (returned null, w);
}

abbrev output : Node
output = record {
  id = "n2";
  kind = "output";
  fields = field "template" (text "<$n1> and $nothing, $$5") end;
}

abbrev prompt : Node
prompt = record { id = "n1"; kind = "agent"; fields = field "message" (text "hi") end }

abbrev trigger : Node
trigger = record { id = "n1"; kind = "trigger"; fields = end }

-- The edge goes against the order in which the nodes are listed.
abbrev workflow : Workflow
workflow = record { nodes = output ∷ trigger ∷ []; edges = ("n1", "n2") ∷ [] }

abbrev without_agent : Workflow
without_agent = record { nodes = output ∷ prompt ∷ []; edges = ("n1", "n2") ∷ [] }

filled_in :
    apply_template (λ v. "?") (("n1", text "x") ∷ []) (text "<$n1> and ${n1}y $nothing, $$5")
    ≡ text "<x> and xy $nothing, $5"
unfolding apply_template
filled_in = refl

sorted_edge : topological_sort ("n2" ∷ "n1" ∷ []) (("n1", "n2") ∷ []) ≡ ok ("n1" ∷ "n2" ∷ [])
unfolding topological_sort
sorted_edge = refl

both_run :
    (execute services workflow 0).0
    ≡ success (
        ("n1", dict (field "triggered" (bool true) (field "schedule" (text "") end)))
        ∷ ("n2", dict (field "text" (text "<?> and $nothing, $5") end))
        ∷ [])
unfolding execute
both_run = refl

first_fails :
    (execute services without_agent 0).0
    ≡ failed
        (("n1", dict (field "error" (text "AgentLoop not available") end)) ∷ [])
        "n1"
        "AgentLoop not available"
unfolding execute
first_fails = refl

-- A cycle goes unnoticed where an edge leads to a node that is not there: a KeyError leaves `execute`.
cycle_unnoticed :
    (execute services
      (record { nodes = output ∷ trigger ∷ []; edges = ("n2", "n2") ∷ ("n1", "gone") ∷ [] })
      0).0
    ≡ key_error "gone"
unfolding execute
cycle_unnoticed = refl

one_edge : Inward (node_ids workflow) workflow.edges
unfolding keys nodes_by_id
one_edge = (refl, tt)

execute-IsEnd_example : IsEnd services workflow 0 (execute services workflow 0)
execute-IsEnd_example = execute-IsEnd services workflow one_edge 0

topological_sort-IsSorting_example :
    IsSorting
      ("a" ∷ "b" ∷ [])
      (("b", "a") ∷ [])
      (topological_sort ("a" ∷ "b" ∷ []) (("b", "a") ∷ []))
topological_sort-IsSorting_example =
    topological_sort-IsSorting ("a" ∷ "b" ∷ []) (("b", "a") ∷ []) (refl, (refl, tt)) (refl, tt)
