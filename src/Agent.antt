-- ===== src/Agent.antt =====
-- system/core/agent/agent_state.py: what an agent session holds, and the confirmations that it
-- waits for. Times are whole numbers of a unit of the clock.
mod Loop
mod Run
mod Generators
mod Guard
mod Safety
mod Outcomes
mod Persisted
mod Tests
use capability_os.Base.{
  ℕ, ◌+◌, ◌*◌, ◌-◌, String, Bool, true, false, Option, none, some, List, [], ◌∷◌, ◌++◌, ltb, not,
  ◌||◌, if◌then◌else◌, Dict, lookup, insert, erase, pos,
}
use capability_os.Value.{Value, int, Fields, set_default}

pub record Confirmation : Type 0 where
  pub confirmation_id : String
  pub tool_id : String
  pub params : Fields
  pub security_level : ℕ
  pub description : String
  pub created_at : ℕ
  pub ttl_seconds : ℕ

unfoldable pub expired : ℕ → Confirmation → Bool
expired now c = ltb (c.created_at + c.ttl_seconds) now

-- A call that the model asks for; an empty `call_id` stands for none.
pub record ToolCall : Type 0 where
  pub tool_id : String
  pub params : Fields
  pub call_id : String

-- `recorded` is a message of an earlier conversation.
pub data Message : Type 0 where
  user_message : String → Message
  assistant_message : String → List ToolCall → Message
  tool_message : String → String → Value → Value → Message
  recorded : Fields → Message

pub data Status : Type 0 where
  idle running awaiting_confirmation complete error : Status

pub record Session : Type 0 where
  pub session_id : String
  pub messages : List Message
  pub events : List Fields
  pub pending : Dict Confirmation
  pub iteration : ℕ
  pub status : Status
  pub created_at : ℕ
  pub final_text : Option String

unfoldable pub new_session : String → ℕ → Session
new_session id now = record {
  session_id = id;
  messages = [];
  events = [];
  pending = [];
  iteration = 0;
  status = idle;
  created_at = now;
  final_text = none;
}

abbrev pub add_message : Message → Session → Session
add_message m s = record s { messages = s.messages ++ m ∷ [] }

unfoldable pub add_user_message : String → Session → Session
add_user_message text s = add_message (user_message text) s

unfoldable pub add_assistant_message : String → List ToolCall → Session → Session
add_assistant_message text calls s = add_message (assistant_message text calls) s

unfoldable pub add_tool_result : String → String → Value → Value → Session → Session
add_tool_result tool_id call_id result success s =
    add_message (tool_message tool_id call_id result success) s

-- An event carries the time and the iteration, unless it has its own.
unfoldable pub add_event : ℕ → Fields → Session → Session
unfolding set_default
add_event now event s = record s {
  events =
      s.events
      ++ set_default "iteration" (int (pos s.iteration))
          (set_default "timestamp" (int (pos now)) event)
        ∷ [];
}

unfoldable pub set_pending : Confirmation → Session → Session
unfolding insert
set_pending c s = record s {
  pending = insert c.confirmation_id c s.pending;
  status = awaiting_confirmation;
}

-- The confirmation, taken out of the pending ones. Both branches of the source do the same.
unfoldable pub resolve_confirmation : ℕ → String → Bool → Session → Option Confirmation × Session
unfolding lookup erase expired
resolve_confirmation now id approved s = elim (lookup id s.pending) [
  | none ↦ (none, s)
  | some c ↦
      if not approved || expired now c
      then (some c, record s { pending = erase id s.pending; status = running })
      else (some c, record s { pending = erase id s.pending; status = running })
]
