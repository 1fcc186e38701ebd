-- ===== src/Workflow/Executor.antt =====
-- The sequential execution of a workflow, of system/core/workflow/workflow_executor.py. Times are left
-- out of the reports, and so are log messages.
pub mod Runs
pub mod Ends
mod Tests
use capability_os.Base.{
  ℕ, String, Bool, true, false, not, ◌||◌, Option, none, some, List, [], ◌∷◌, ◌==◌, if◌then◌else◌,
  ◌⋯◌, Dict, lookup, insert, keys, pos, pos_part,
}
use capability_os.Value.{
  Value, null, bool, int, text, list, dict, Items, nil, Fields, end, field, get, get_or, truthy,
  is_text, set_default,
}
use capability_os.Exec.{Result, ok, err}
use capability_os.ToolRuntime.{Reply, returned, raised}
use capability_os.Workflow.{Node, Workflow, nodes_by_id, topological_sort}
use capability_os.Workflow.Nodes.{Services, exec_trigger, exec_transform, exec_output}
use capability_os.Workflow.Handlers.{
  exec_tool, exec_agent, exec_condition, exec_delay, exec_loop, exec_notification, exec_script,
  exec_prompt,
}
use capability_os.Workflow.External.{exec_http, exec_file}

module _ {W : Type 0} (services : Services W) where
  -- `_execute_node`.
  unfoldable pub execute_node : Node → Dict Value → W → Reply × W
  unfolding exec_tool exec_agent exec_condition exec_delay exec_loop exec_http exec_notification
      exec_script exec_prompt exec_file exec_trigger exec_transform exec_output
  execute_node node results w =
      if node.kind == "trigger"
      then (returned (exec_trigger node.fields), w)
      else if node.kind == "tool"
      then exec_tool services results node.fields w
      else if node.kind == "agent"
      then exec_agent services results node.fields w
      else if node.kind == "condition"
      then (exec_condition services results node.fields, w)
      else if node.kind == "delay"
      then exec_delay services node.fields w
      else if node.kind == "transform"
      then (exec_transform results node.fields, w)
      else if node.kind == "output"
      then (returned (exec_output services.str results node.fields), w)
      else if node.kind == "loop"
      then (exec_loop services node.fields, w)
      else if node.kind == "http"
      then exec_http services results node.fields w
      else if node.kind == "notification"
      then exec_notification services results node.fields w
      else if node.kind == "script"
      then exec_script services node.fields w
      else if node.kind == "prompt"
      then exec_prompt services results node.fields w
      else if node.kind == "file"
      then exec_file services results node.fields w
      else (
        returned (
            dict (
              field "skipped" (bool true)
                (field "reason" (text ("unknown type '" ⋯ node.kind ⋯ "'")) end))),
        w,
      )

-- How `execute` ends: it returns a report, or a KeyError leaves it, for a node that is not there.
pub data Report : Type 0 where
  success : Dict Value → Report
  failed : Dict Value → String → String → Report
  unsorted : String → Report
  key_error : String → Report

module _ {W : Type 0} (services : Services W) (nodes : Dict Node) where
  -- The loop over the order.
  unfoldable pub execute_order : List String → Dict Value → W → Report × W
  unfolding insert lookup execute_node
  execute_order [] results w = (success results, w)
  execute_order (node_id ∷ order) results w = elim (lookup node_id nodes) [
    | none ↦ (key_error node_id, w)
    | some node ↦
        let (r, w') = execute_node services node results w in
        elim r [
          | raised e ↦
              (failed (insert node_id (dict (field "error" (text e) end)) results) node_id e, w')
          | returned v ↦ execute_order order (insert node_id v results) w'
        ]
  ]

module _ {W : Type 0} (services : Services W) where
  -- `execute`, where the workflow is not parallel; the event at its end, which carries the time, is left out.
  unfoldable pub execute : Workflow → W → Report × W
  unfolding nodes_by_id topological_sort execute_order keys
  execute workflow w =
      let nodes = nodes_by_id workflow.nodes [] in
      elim (topological_sort (keys nodes) workflow.edges) [
        | err f ↦ (unsorted f.message, w)
        | ok order ↦ execute_order services nodes order [] w
      ]
