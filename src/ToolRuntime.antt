-- ===== src/ToolRuntime.antt =====
-- system/tools/runtime/tool_runtime.py: aliases, and the call of a tool's handler. The handlers
-- are code that is registered from outside: they act on a world `W`.
pub mod Aliases
mod Tests
use capability_os.Base.{
  ℕ, zero, suc, ◌+◌, String, ◌≡◌, Bool, true, false, Option, none, some, List, [], ◌∷◌, length,
  contains, ◌==◌, if◌then◌else◌, ◌⋯◌, Dict, lookup, insert,
}
use capability_os.Value.{Value, text, Fields, end, field}
use capability_os.Exec.{Result, ok, err, raise, tool_execution, Failure}

-- A handler returns a value, or raises an exception with this text.
pub data Reply : Type 0 where
  returned : Value → Reply
  raised : String → Reply

module _ (W : Type 0) where
  -- A handler by its arity: it takes the parameters, the contract of its tool, and the context.
  pub data Handler : Type 0 where
    unary : (Fields → W → Reply × W) → Handler
    binary : (Fields → Fields → W → Reply × W) → Handler
    ternary : (Fields → Fields → Fields → W → Reply × W) → Handler

  pub record ToolRuntime : Type 0 where
    -- The contracts of the tool registry.
    pub tool_registry : Dict Fields
    pub workspace_root : String
    pub handlers : Dict Handler
    pub aliases : Dict String
    -- The sandbox pool, if there is one: it runs the handler at a security level.
    pub pool : Option ((W → Reply × W) → ℕ → W → Reply × W)

module _ {W : Type 0} where
  -- Every handler is callable.
  unfoldable pub register_handler : String → Handler W → ToolRuntime W → ToolRuntime W
  unfolding insert
  register_handler tool_id handler t = record t { handlers = insert tool_id handler t.handlers }

  unfoldable pub register_alias : String → String → ToolRuntime W → Result (ToolRuntime W)
  unfolding insert
  register_alias alias_tool_id canonical_tool_id t =
      if alias_tool_id == ""
      then raise tool_execution "Alias tool id must be a non-empty string."
      else if canonical_tool_id == ""
      then raise tool_execution "Canonical tool id must be a non-empty string."
      else if alias_tool_id == canonical_tool_id
      then ok t
      else ok (record t { aliases = insert alias_tool_id canonical_tool_id t.aliases })

-- How the loop of `resolve_action` ends; `exhausted` stands for a loop that has not ended.
pub data Resolution : Type 0 where
  resolved : String → Resolution
  cycle : Resolution
  exhausted : Resolution

unfoldable pub resolve_loop : ℕ → Dict String → String → List String → Resolution
unfolding lookup
resolve_loop zero aliases action visited = exhausted
resolve_loop (suc f) aliases action visited = elim (lookup action aliases) [
  | none ↦ resolved action
  | some target ↦ elim (contains visited action) [
    | true ↦ cycle
    | false ↦ resolve_loop f aliases target (action ∷ visited)
  ]
]

-- A round for each alias, and one more, are enough.
unfoldable pub resolve_action : Dict String → String → Resolution
unfolding resolve_loop
resolve_action aliases action = resolve_loop (length aliases + 1) aliases action []

reply_result : String → Reply → Result Value
reply_result action (returned v) = ok v
reply_result action (raised e) = raise tool_execution ("Tool '" ⋯ action ⋯ "' failed: " ⋯ e)

module _ {W : Type 0} where
  call_handler : ToolRuntime W → Handler W → Fields → Fields → W → Reply × W
  call_handler t (unary h) params contract = h params
  call_handler t (binary h) params contract = h params contract
  call_handler t (ternary h) params contract =
      h params contract (field "workspace_root" (text t.workspace_root) end)

  submit : ToolRuntime W → (W → Reply × W) → ℕ → W → Reply × W
  submit t run level w = elim t.pool [ none ↦ run w | some pool ↦ pool run level w ]

  run_resolved : ToolRuntime W → String → Fields → ℕ → Resolution → W → Result Value × W
  unfolding call_handler submit reply_result lookup
  run_resolved t action params level (resolved name) w = elim (lookup name t.tool_registry) [
    | none ↦ (raise tool_execution ("Tool '" ⋯ action ⋯ "' is not registered."), w)
    | some contract ↦ elim (lookup name t.handlers) [
      | none ↦ (
        raise tool_execution ("Tool '" ⋯ action ⋯ "' has no registered handler in this phase."),
        w,
      )
      | some handler ↦
          let (reply, w') = submit t (call_handler t handler params contract) level w in
          (reply_result action reply, w')
    ]
  ]
  run_resolved t action params level cycle w =
      (raise tool_execution ("Alias cycle detected while resolving tool '" ⋯ action ⋯ "'."), w)
  run_resolved t action params level exhausted w = (raise tool_execution "", w)

  unfoldable pub execute : ToolRuntime W → String → Fields → ℕ → W → Result Value × W
  unfolding run_resolved resolve_action
  execute t action params level w =
      run_resolved t action params level (resolve_action t.aliases action) w
