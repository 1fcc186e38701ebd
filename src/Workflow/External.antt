-- ===== src/Workflow/External.antt =====
-- The handlers of nodes that reach files and HTTP, of system/core/workflow/workflow_executor.py.
use capability_os.Base.{String, true, not, Option, none, some, if◌then◌else◌, ◌⋯◌, Dict, pos}
use capability_os.Value.{
  Value, null, bool, int, text, list, dict, Fields, end, field, get_or, truthy, is_text,
  set_default,
}
use capability_os.ToolRuntime.{Reply, returned, raised}
use capability_os.Workflow.Nodes.{Services, apply_template, count_items}

-- What an operation on a file returns: its own fields, or the error.
abbrev file_reply : (Value → Fields) → Reply → Reply
file_reply f (returned v) = returned (dict (f v))
file_reply f (raised e) = returned (dict (field "error" (text e) end))

-- The items of a folder, or what stands for a path that is none.
abbrev list_reply : (Value → String) → Value → Reply → Reply
list_reply str path (returned (list l)) = returned (
    dict
      (field "items" (list l) (field "count" (int (pos (count_items l))) (field "path" path end))))
list_reply str path (returned _) =
    returned (dict (field "error" (text ("Not a directory: " ⋯ str path)) end))
list_reply str path (raised e) = returned (dict (field "error" (text e) end))

module _ {W : Type 0} (services : Services W) where
  -- The headers that the text in "headers_json" stands for; `none` where they are no dict, which raises.
  header_fields : Value → Option Fields
  unfolding truthy
  header_fields v =
      if not (truthy v)
      then some end
      else (elim (services.loads v) [ none ↦ some end | some (dict d) ↦ some d | some _ ↦ none ])

  -- headers.setdefault("Content-Type", "application/json")
  with_type : Fields → Fields
  unfolding set_default
  with_type headers = set_default "Content-Type" (text "application/json") headers

  -- The answer of a request: its "status" and "content".
  http_reply : Reply → Reply
  unfolding get_or
  http_reply (returned (dict answer)) =
      let content = get_or "content" (text "") answer in
      returned (
        dict (
          field "status" (get_or "status" null answer)
            (field "body" (elim (services.loads content) [ none ↦ content | some v ↦ v ]) end)))
  http_reply (returned v) = returned v
  http_reply (raised e) =
      returned (dict (field "status" (int (pos 0)) (field "error" (text e) end)))

  -- `Request` stands outside the try, and `urlopen` inside.
  send : Fields → Value → Fields → Option Value → W → Reply × W
  unfolding get_or http_reply
  send fields url headers body w =
      let method = get_or "method" (text "GET") fields in
      elim (services.request_error method url (dict headers)) [
        | some e ↦ (raised e, w)
        | none ↦
            (let (r, w') = services.urlopen method url (dict headers) body w in (http_reply r, w'))
      ]

  -- The request, with the body that the template gives; a body that is no text cannot be encoded.
  request : Fields → Value → Value → Fields → W → Reply × W
  unfolding get_or with_type send truthy
  request fields url (text body) headers w =
      if truthy (get_or "body_json" null fields)
      then send fields url (with_type headers) (some (text body)) w
      else send fields url headers none w
  request fields url null headers w = send fields url headers none w
  request fields url body headers w =
      if truthy body
      then (raised "object has no attribute 'encode'", w)
      else send fields url headers none w

  unfoldable pub exec_http : Dict Value → Fields → W → Reply × W
  unfolding get_or apply_template truthy header_fields request
  exec_http results fields w =
      let url = apply_template services.str results (get_or "url" (text "") fields) in
      let body = apply_template services.str results (get_or "body_json" null fields) in
      if not (truthy url)
      then (raised "HTTP node missing 'url'", w)
      else (elim (header_fields (get_or "headers_json" null fields)) [
        | none ↦ (raised "headers are no dict", w)
        | some headers ↦ request fields url body headers w
      ])

  -- A path that is no text is no path.
  file_operation : Dict Value → Fields → Value → W → Reply × W
  unfolding get_or apply_template is_text
  file_operation results fields path w =
      let operation = get_or "operation" (text "read") fields in
      let content = apply_template services.str results (get_or "content" (text "") fields) in
      if is_text "read" operation
      then (let (r, w') = services.read_text path w in
          (file_reply (λ v. field "content" v (field "path" path end)) r, w'))
      else if is_text "write" operation
      then (let (r, w') = services.write_text path content w in
          (
            file_reply (λ n. field "written" (bool true) (field "path" path (field "bytes" n end)))
                r,
            w',
          ))
      else if is_text "append" operation
      then (let (r, w') = services.append_text path content w in
          (
            file_reply (λ n. field "appended" (bool true) (field "path" path (field "bytes" n end)))
                r,
            w',
          ))
      else if is_text "list" operation
      then (let (r, w') = services.list_dir path w in (list_reply services.str path r, w'))
      else (
        returned (dict (field "error" (text ("Unknown operation: " ⋯ services.str operation)) end)),
        w,
      )

  unfoldable pub exec_file : Dict Value → Fields → W → Reply × W
  unfolding get_or apply_template truthy file_operation
  exec_file results fields w =
      let path = apply_template services.str results (get_or "path" (text "") fields) in
      if not (truthy path) then (raised "File node missing 'path'", w) else (elim path [
        | text p ↦ file_operation results fields (text (services.path_text p)) w
        | _ ↦ (raised "argument should be a str", w)
      ])
