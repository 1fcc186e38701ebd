-- ===== src/Workflow/Handlers.antt =====
-- The handlers of nodes that call the tools, the agent loop and the model, and of those that decide, of
-- system/core/workflow/workflow_executor.py.
use capability_os.Base.{
  String, Bool, true, false, not, Option, none, some, if◌then◌else◌, ◌⋯◌, Dict, lookup, pos,
  pos_part,
}
use capability_os.Value.{
  Value, null, bool, int, text, list, dict, nil, Fields, end, field, get_or, truthy, is_text,
}
use capability_os.ToolRuntime.{Reply, returned, raised}
use capability_os.Workflow.Nodes.{
  Services, apply_template, resolve_placeholders, dict_of, loop_result, iterated, range_items,
}

-- response.get("content") or response.get("text") or str(response)
abbrev response_text : (Value → String) → Fields → Value
response_text str response =
    if truthy (get_or "content" null response)
    then get_or "content" null response
    else if truthy (get_or "text" null response)
    then get_or "text" null response
    else text (str (dict response))

abbrev chat_reply : (Value → String) → Reply → Reply
chat_reply str (returned (dict response)) =
    returned (dict (field "response" (response_text str response) end))
chat_reply str (returned _) =
    returned (dict (field "error" (text "object has no attribute 'get'") end))
chat_reply str (raised e) = returned (dict (field "error" (text e) end))

-- local_vars.get("output", local_vars) or {"executed": True}
abbrev script_reply : Reply → Reply
script_reply (returned (dict locals)) =
    let out = get_or "output" (dict locals) locals in
    returned (if truthy out then out else dict (field "executed" (bool true) end))
script_reply (returned v) = returned v
script_reply (raised e) = returned (dict (field "error" (text e) end))

module _ {W : Type 0} (services : Services W) where
  unfoldable pub exec_tool : Dict Value → Fields → W → Reply × W
  unfolding get_or dict_of resolve_placeholders truthy
  exec_tool results fields w =
      let tool_id = get_or "tool_id" (text "") fields in
      elim (dict_of services.as_dict (get_or "params" (dict end) fields)) [
        | none ↦ (raised "cannot convert to a dict", w)
        | some params ↦
            if not (truthy tool_id)
            then (raised "Tool node missing 'tool_id'", w)
            else (elim services.tool [
              | none ↦ (raised "ToolRuntime not available", w)
              | some execute ↦ execute tool_id (resolve_placeholders results params) w
            ])
      ]

  unfoldable pub exec_agent : Dict Value → Fields → W → Reply × W
  unfolding get_or apply_template truthy
  exec_agent results fields w =
      let message = apply_template services.str results (get_or "message" (text "") fields) in
      if not (truthy message)
      then (raised "Agent node missing 'message'", w)
      else (elim services.agent [
        | none ↦ (raised "AgentLoop not available", w)
        | some run ↦ run message w
      ])

  -- bool(safe_eval(...)), with False where it raises.
  condition_outcome : Option Value → Bool
  unfolding truthy
  condition_outcome none = false
  condition_outcome (some v) = truthy v

  or_null : Option Value → Value
  or_null none = null
  or_null (some v) = v

  source_result : Dict Value → Value → Value
  unfolding lookup or_null
  source_result results (text id) = or_null (lookup id results)
  source_result results _ = null

  condition_result : Dict Value → Fields → Value
  unfolding get_or condition_outcome source_result
  condition_result results fields =
      let result = source_result results (get_or "source_node" (text "") fields) in
      let outcome = condition_outcome (
        services.safe_eval (get_or "expression" (text "True") fields)
          (dict (field "result" result end))) in
      dict (
        field "branch" (text (if outcome then "true_path" else "false_path"))
          (field "value" (bool outcome) end))

  -- A list or a dict is no key of a dict.
  unfoldable pub exec_condition : Dict Value → Fields → Reply
  unfolding get_or condition_result
  exec_condition results fields = elim (get_or "source_node" (text "") fields) [
    | list _ ↦ raised "unhashable type: 'list'"
    | dict _ ↦ raised "unhashable type: 'dict'"
    | _ ↦ returned (condition_result results fields)
  ]

  unfoldable pub exec_delay : Fields → W → Reply × W
  unfolding get_or
  exec_delay fields w = elim (services.float_of (get_or "seconds" (int (pos 0)) fields)) [
    | none ↦ (raised "could not convert to float", w)
    | some seconds ↦ (
      returned (dict (field "delayed" (bool true) (field "seconds" seconds end))),
      if services.is_positive seconds then services.sleep seconds w else w,
    )
  ]

  unfoldable pub exec_loop : Fields → Reply
  unfolding get_or truthy iterated loop_result range_items
  exec_loop fields =
      let iterations = get_or "iterations" null fields in
      let collection = get_or "collection" (text "") fields in
      if truthy collection
      then returned
          (loop_result (iterated (services.safe_eval collection (dict (field "result" null end)))))
      else if truthy iterations
      then (elim (services.int_of iterations) [
        | none ↦ raised "invalid literal for int()"
        | some n ↦ returned (loop_result (range_items (pos_part n) 0))
      ])
      else returned (loop_result nil)

  unfoldable pub exec_notification : Dict Value → Fields → W → Reply × W
  unfolding get_or apply_template truthy
  exec_notification results fields w =
      let channel = get_or "channel" (text "ui") fields in
      let message = apply_template services.str results (get_or "message" (text "") fields) in
      if not (truthy message)
      then (
        returned (dict (field "sent" (bool false) (field "reason" (text "empty message") end))),
        w,
      )
      else (
        returned (
            dict
              (field "sent" (bool true) (field "channel" channel (field "message" message end)))),
        services.emit "notification"
            (field "channel" channel
              (field "message" message (field "recipient" (get_or "recipient" null fields) end)))
            w,
      )

  unfoldable pub exec_script : Fields → W → Reply × W
  unfolding get_or truthy is_text
  exec_script fields w =
      let language = get_or "language" (text "python") fields in
      let script = get_or "code" (text "") fields in
      if not (truthy script)
      then (raised "Script node missing 'code'", w)
      else if is_text "python" language
      then (let (r, w') = services.exec_python script w in (script_reply r, w'))
      else (
        returned
            (dict (field "error" (text ("Unsupported language: " ⋯ services.str language)) end)),
        w,
      )

  unfoldable pub exec_prompt : Dict Value → Fields → W → Reply × W
  unfolding get_or apply_template truthy
  exec_prompt results fields w =
      let prompt = apply_template services.str results (get_or "prompt" (text "") fields) in
      if not (truthy prompt)
      then (raised "Prompt node missing 'prompt'", w)
      else (elim services.chat [
        | none ↦ (raised "LLM client not available", w)
        | some chat ↦
            let (r, w') =
              chat prompt (get_or "system_prompt" null fields) (get_or "model" null fields) w in
            (chat_reply services.str r, w')
      ])
