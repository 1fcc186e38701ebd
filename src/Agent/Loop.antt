-- ===== src/Agent/Loop.antt =====
-- system/core/agent/agent_loop.py: the turns of the model and its tool calls. The language model,
-- the tools, identifiers and the clock belong to a world `W`; the security service is asked by the
-- name of the tool and its parameters.
use capability_os.Base.{
  ℕ, String, Bool, true, false, Option, none, some, List, [], ◌∷◌, ◌++◌, not, ◌==◌, if◌then◌else◌,
  ◌⋯◌,
}
use capability_os.Value.{Value, bool, text, dict, Fields, end, field, get, put, update}
use capability_os.Exec.{Result, ok, err}
use capability_os.Security.{SecurityLevel, free, level_value, classify_description}
use capability_os.Agent.{ToolCall, Message, Confirmation, Session, add_tool_result, set_pending}

pub record AgentResponse : Type 0 where
  pub reply_text : String
  pub tool_calls : List ToolCall
  pub stop_reason : String

pub data AgentEvent : Type 0 where
  agent_start : String → String → AgentEvent
  agent_thinking : ℕ → AgentEvent
  agent_error : String → AgentEvent
  agent_response : String → AgentEvent
  tool_call : String → Fields → ℕ → String → AgentEvent
  tool_result : String → Fields → Value → String → AgentEvent
  confirmation_wanted : Confirmation → AgentEvent

pub data ResultStatus : Type 0 where
  completed awaiting failed max_iterations : ResultStatus

pub record AgentResult : Type 0 where
  pub session_id : String
  pub status : ResultStatus
  pub final_text : Option String
  pub iteration_count : ℕ

pub record Services (W : Type 0) : Type 0 where
  -- run_agent_turn, on the tools and the prompt of the session.
  pub run_agent_turn : List String → String → List Message → W → Result AgentResponse × W
  pub classify : String → Fields → SecurityLevel
  pub is_registered : String → Bool
  -- ToolRuntime.execute
  pub run_tool : String → Fields → W → Result Value × W
  pub format_tool_error : String → String → Fields → Fields
  pub hex : W → String × W
  pub clock : W → ℕ
  pub dedup_text : String → String
  -- _auto_save and _try_compact, whose errors are dropped.
  pub auto_save : Session → String → W → W
  pub try_compact : List Message → W → List Message × W
  -- The store of a new session in the Redis cache.
  pub store_session : Session → W → W
  pub system_prompt : String → W → String

-- A run of the generator: what it has yielded, and the result that it builds.
pub record Loop (W : Type 0) : Type 0 where
  pub session : Session
  pub world : W
  pub yielded : List AgentEvent
  pub result : AgentResult

module _ {W : Type 0} where
  abbrev pub emit : AgentEvent → Loop W → Loop W
  emit ev l = record l { yielded = l.yielded ++ ev ∷ [] }

  abbrev pub at_session : (Session → Session) → Loop W → Loop W
  at_session f l = record l { session = f l.session }

  abbrev pub at_result : (AgentResult → AgentResult) → Loop W → Loop W
  at_result f l = record l { result = f l.result }

-- tool_result.get("_success", True)
unfoldable pub success_of : Fields → Value
unfolding get
success_of r = elim (get "_success" r) [ none ↦ bool true | some v ↦ v ]

-- result.get("status") != "error"
unfoldable pub is_success : Option Value → Bool
is_success (some (text s)) = not (s == "error")
is_success _ = true

-- The dict that `_execute_tool` makes of what the runtime gives.
unfoldable pub tool_reply :
    (String → String → Fields → Fields) → String → Fields → Result Value → Fields
unfolding get put update is_success
tool_reply format id params (ok (dict d)) = put "_success" (bool (is_success (get "status" d))) d
tool_reply format id params (ok v) = field "_success" (bool true) (field "output" v end)
tool_reply format id params (err e) =
    update (field "_success" (bool false) (field "error" (text e.message) end))
      (format id e.message params)

module _ {W : Type 0} (services : Services W) where
  open services use {
    run_agent_turn, classify, is_registered, run_tool, format_tool_error, hex, clock, dedup_text,
    auto_save,
  }

  unfoldable pub execute_tool : String → Fields → W → Fields × W
  unfolding tool_reply
  execute_tool tool_id params w =
      if is_registered tool_id
      then (let (r, w') = run_tool tool_id params w in
          (tool_reply format_tool_error tool_id params r, w'))
      else (
        field "_success" (bool false)
            (field "error" (text ("Tool '" ⋯ tool_id ⋯ "' not found")) end),
        w,
      )

  -- tc.call_id or f"call_{uuid.uuid4().hex[:8]}"
  unfoldable pub call_id_of : ToolCall → W → String × W
  call_id_of tc w =
      if tc.call_id == "" then (let (h, w') = hex w in ("call_" ⋯ h, w')) else (tc.call_id, w)

  unfoldable pub confirmation_of : ToolCall → SecurityLevel → String → ℕ → Confirmation
  unfolding level_value classify_description
  confirmation_of tc level h now = record {
    confirmation_id = "conf_" ⋯ h;
    tool_id = tc.tool_id;
    params = tc.params;
    security_level = level_value level;
    description = classify_description level;
    created_at = now;
    ttl_seconds = 120;
  }

  -- Run the tool, and tell the session and the caller.
  unfoldable pub run_call : String → Fields → String → Loop W → Loop W
  unfolding execute_tool add_tool_result success_of
  run_call tool_id params call_id l =
      let (r, w) = execute_tool tool_id params l.world in
      emit (tool_result tool_id r (success_of r) call_id) (
        at_session (add_tool_result tool_id call_id (dict r) (success_of r))
          (record l { world = w }))

  -- Ask the user. Only `run`, not the resumed loop, notes the number of iterations.
  unfoldable pub ask : Bool → ToolCall → SecurityLevel → Loop W → Loop W
  unfolding confirmation_of set_pending
  ask resumed tc level l =
      let (h, w) = hex l.world in
      let c = confirmation_of tc level h (clock w) in
      let count = if resumed then l.result.iteration_count else l.session.iteration in
      emit (confirmation_wanted c) (
        at_result (λ r. record r { status = awaiting; iteration_count = count })
          (at_session (set_pending c) (record l { world = w })))

  -- Run a free call; ask the user for any other. True where the generator returns.
  unfoldable pub act_on : Bool → ToolCall → SecurityLevel → String → Loop W → Bool × Loop W
  unfolding run_call ask
  act_on resumed tc free call_id l = (false, run_call tc.tool_id tc.params call_id l)
  act_on resumed tc level call_id l = (true, ask resumed tc level l)

  -- One call of the model's.
  unfoldable pub handle_call : Bool → ToolCall → Loop W → Bool × Loop W
  unfolding call_id_of act_on level_value
  handle_call resumed tc l =
      let (call_id, w) = call_id_of tc l.world in
      let level = classify tc.tool_id tc.params in
      act_on resumed tc level call_id
        (emit (tool_call tc.tool_id tc.params (level_value level) call_id) (record l { world = w }))

  unfoldable pub handle_calls : Bool → List ToolCall → Loop W → Bool × Loop W
  unfolding handle_call
  handle_calls resumed [] l = (false, l)
  handle_calls resumed (tc ∷ calls) l =
      let (stop, l') = handle_call resumed tc l in
      elim stop [ true ↦ (true, l') | false ↦ handle_calls resumed calls l' ]
