-- ===== src/Agent/Generators.antt =====
-- The generators `run` and `resume_after_confirmation` of system/core/agent/agent_loop.py, run to
-- their end. The Redis cache, and what `_auto_save` stores, belong to the world.
use capability_os.Base.{
  ℕ, zero, suc, ◌-◌, String, Bool, true, false, Option, none, some, List, [], ◌∷◌, ◌||◌, ◌==◌,
  if◌then◌else◌, ◌⋯◌, ltb, length, keep, contains, Dict, lookup, insert, map, ℤ, pos, negsuc,
}
use capability_os.Value.{bool, text, dict, Fields, end, field}
use capability_os.Agent.{
  recorded, Confirmation, Session, running, new_session, add_user_message, add_tool_result,
  resolve_confirmation,
}
use capability_os.Agent.Loop.{
  Services, AgentEvent, agent_start, agent_error, tool_result, AgentResult, completed, failed, Loop,
  emit, at_session, run_call,
}
use capability_os.Agent.Run.{is_empty, iterations}

pub record AgentConfig : Type 0 where
  pub name : String
  pub tool_ids : List String
  -- 0 where the configuration has none.
  pub max_iterations : ℤ

pub record AgentLoop : Type 0 where
  pub sessions : Dict Session
  pub all_tools : List String
  pub default_tools : List String
  pub max_iterations : ℕ
  pub workspace_root : String

-- _resolve_tools
unfoldable pub resolve_tools : AgentLoop → Option AgentConfig → List String
resolve_tools a none = a.default_tools
resolve_tools a (some config) =
    let filtered = keep (contains config.tool_ids) a.all_tools in
    if is_empty config.tool_ids || is_empty filtered then a.default_tools else filtered

-- (agent_config or {}).get("max_iterations") or self._max_iterations, as the length of a range.
unfoldable pub iteration_limit : AgentLoop → Option AgentConfig → ℕ
iteration_limit a none = a.max_iterations
iteration_limit a (some config) = elim config.max_iterations [
  | pos zero ↦ a.max_iterations
  | pos (suc n) ↦ suc n
  | negsuc n ↦ 0
]

abbrev agent_name : Option AgentConfig → String
agent_name none = "CapOS"
agent_name (some config) = config.name

-- Keep the last 20 sessions.
unfoldable pub prune : Dict Session → Dict Session
prune [] = []
prune (s ∷ sessions) = if ltb 20 (length (s ∷ sessions)) then sessions else s ∷ sessions

unfoldable pub started_session : String → List Fields → ℕ → Session
unfolding new_session
started_session id history now = record (new_session id now) { messages = map recorded history }

-- What a generator leaves when it has returned.
pub record Returned (W : Type 0) : Type 0 where
  pub yielded : List AgentEvent
  pub result : AgentResult
  pub agent : AgentLoop
  pub world : W

abbrev pub denial : Fields
denial = field "denied" (bool true) (field "message" (text "User denied this action") end)

-- max(1, remaining)
abbrev pub at_least_one : ℕ → ℕ
at_least_one zero = 1
at_least_one (suc n) = suc n

module _ {W : Type 0} (services : Services W) where
  open services use {hex, clock, try_compact, store_session, system_prompt}

  unfoldable pub get_or_create_session :
      String → List Fields → AgentLoop → W → Session × AgentLoop × W
  unfolding lookup insert prune started_session
  get_or_create_session session_id history a w = elim (lookup session_id a.sessions) [
    | some s ↦ (s, a, w)
    | none ↦
        let (id, w') =
          if session_id == ""
          then (let (h, w1) = hex w in ("agent_" ⋯ h, w1))
          else (session_id, w) in
        let s = started_session id history (clock w') in
        (s, record a { sessions = prune (insert id s a.sessions) }, store_session s w')
  ]

  -- The session is the caller's object too: what the loop did to it shows in the sessions.
  unfoldable pub returned : AgentLoop → Loop W → Returned W
  unfolding insert
  returned a l = record {
    yielded = l.yielded;
    result = l.result;
    agent = record a { sessions = insert l.session.session_id l.session a.sessions };
    world = l.world;
  }

  -- The loop as `run` enters it.
  unfoldable pub enter : String → Option AgentConfig → Session → W → Loop W
  unfolding add_user_message
  enter user_message config s w =
      let s' = record (add_user_message user_message s) { status = running } in
      let (messages, w') = try_compact s'.messages w in
      record {
        session = record s' { messages = messages };
        world = w';
        yielded = agent_start s.session_id (agent_name config) ∷ [];
        result = record {
          session_id = s.session_id;
          status = completed;
          final_text = none;
          iteration_count = 0;
        };
      }

  unfoldable pub run_loop : String → Option AgentConfig → String → Session → AgentLoop → W → Loop W
  unfolding enter iterations resolve_tools iteration_limit
  run_loop user_message config workspace_path s a w =
      let l = enter user_message config s w in
      let place = if workspace_path == "" then a.workspace_root else workspace_path in
      iterations services false (resolve_tools a config) (system_prompt place l.world)
        a.max_iterations (iteration_limit a config) 0 l

  unfoldable pub run :
      String → String → List Fields → Option AgentConfig → String → AgentLoop → W → Returned W
  unfolding get_or_create_session run_loop returned
  run user_message session_id history config workspace_path a w =
      let (s, a', w') = get_or_create_session session_id history a w in
      returned a' (run_loop user_message config workspace_path s a w')

  -- An error before the loop.
  unfoldable pub refused : String → String → String → AgentLoop → W → Returned W
  refused session_id final_text message a w = record {
    yielded = agent_error message ∷ [];
    result = record {
      session_id = session_id;
      status = failed;
      final_text = some final_text;
      iteration_count = 0;
    };
    agent = a;
    world = w;
  }

  -- What the user's decision leads to: the call is run, or the model is told of the denial.
  unfoldable pub decide : Bool → Confirmation → String → Loop W → Loop W
  unfolding run_call add_tool_result
  decide approved c id l =
      if approved
      then run_call services c.tool_id c.params id l
      else emit (tool_result c.tool_id (field "denied" (bool true) end) (bool false) id)
          (at_session (add_tool_result c.tool_id id (dict denial) (bool false)) l)

  abbrev pub resumed_loop : Session → W → Loop W
  resumed_loop s w = record {
    session = s;
    world = w;
    yielded = [];
    result = record {
      session_id = s.session_id;
      status = completed;
      final_text = none;
      iteration_count = 0;
    };
  }

  unfoldable pub resume_loop :
      Option AgentConfig → Bool → Confirmation → String → Session → AgentLoop → W → Loop W
  unfolding decide iterations resolve_tools
  resume_loop config approved c id s a w =
      let l = decide approved c id (resumed_loop s w) in
      iterations services true (resolve_tools a config) (system_prompt a.workspace_root l.world)
        a.max_iterations (at_least_one (a.max_iterations - s.iteration)) s.iteration l

  unfoldable pub resume_after_confirmation :
      String → String → Bool → Option AgentConfig → AgentLoop → W → Returned W
  unfolding lookup refused resolve_confirmation resume_loop returned
  resume_after_confirmation session_id confirmation_id approved config a w =
      elim (lookup session_id a.sessions) [
        | none ↦ refused session_id "Session not found" "Session not found" a w
        | some s ↦
            let (found, s') = resolve_confirmation (clock w) confirmation_id approved s in
            elim found [
              | none ↦
                  refused session_id "Confirmation not found" "Confirmation not found or expired" a
                    w
              | some c ↦ returned a (resume_loop config approved c confirmation_id s' a w)
            ]
      ]
