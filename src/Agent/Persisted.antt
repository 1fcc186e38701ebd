-- ===== src/Agent/Persisted.antt =====
-- to_dict, to_persistable and from_persisted of system/core/agent/agent_state.py: what a session looks like
-- outside. Python's `str` is an argument, but for texts, which it leaves as they are.
pub mod Restored
mod Tests
use Prim.Native.String
use capability_os.Base.{
  ℕ, zero, suc, String, Bool, true, false, Option, none, some, List, [], ◌∷◌, ◌++◌, length, leb,
  if◌then◌else◌, ◌⋯◌, join_comma, Dict, pos,
}
use capability_os.Value.{
  Value, null, bool, int, text, list, dict, Items, nil, cons, Fields, end, field, get_or, truthy,
  is_text,
}
use capability_os.Agent.{
  Confirmation, expired, ToolCall, Message, user_message, assistant_message, tool_message, recorded,
  Status, idle, running, awaiting_confirmation, complete, error, Session, new_session,
}

abbrev status_text : Status → String
status_text idle = "idle"
status_text running = "running"
status_text awaiting_confirmation = "awaiting_confirmation"
status_text complete = "complete"
status_text error = "error"

unfoldable pub pending_items : ℕ → Dict Confirmation → Items
unfolding expired
pending_items now [] = nil
pending_items now ((id, c) ∷ d) =
    cons
      (dict (
        field "confirmation_id" (text c.confirmation_id) (
          field "tool_id" (text c.tool_id) (
            field "security_level" (int (pos c.security_level)) (
              field "description" (text c.description)
                (field "expired" (bool (expired now c)) end))))))
      (pending_items now d)

abbrev text_or_null : Option String → Value
text_or_null none = null
text_or_null (some s) = text s

unfoldable pub to_dict : ℕ → Session → Fields
unfolding pending_items
to_dict now s = field "session_id" (text s.session_id) (
    field "status" (text (status_text s.status)) (
      field "iteration" (int (pos s.iteration)) (
        field "message_count" (int (pos (length s.messages))) (
          field "event_count" (int (pos (length s.events))) (
            field "pending_confirmations" (list (pending_items now s.pending))
              (field "final_text" (text_or_null s.final_text) end))))))

-- s[:n]
unfoldable pub cut : ℕ → String → String
cut zero s = ""
cut (suc n) String.[] = ""
cut (suc n) (String.◌∷◌ c s) = String.◌∷◌ c (cut n s)

-- xs[-n:], for an `n` that is not zero.
unfoldable pub last_of {ℓ} : {A : Type ℓ} → ℕ → List A → List A
last_of n [] = []
last_of n (x ∷ xs) = let rest = last_of n xs in if leb (length (x ∷ xs)) n then x ∷ xs else rest

unfoldable pub compact : Value → String → String → Fields
compact role content kind =
    field "role" role (field "content" (text content) (field "type" (text kind) end))

abbrev pub push : Option Fields → Option (List Fields) → Option (List Fields)
push none rest = none
push (some m) none = none
push (some m) (some ms) = some (m ∷ ms)

abbrev call_ids : List ToolCall → List String
call_ids [] = []
call_ids (c ∷ cs) = c.tool_id ∷ call_ids cs

abbrev push_text : Value → Option (List String) → Option (List String)
push_text (text s) (some names) = some (s ∷ names)
push_text v rest = none

-- The tools of recorded calls, where each call is a dict, and each name a text.
unfoldable pub recorded_names : Items → Option (List String)
unfolding get_or
recorded_names nil = some []
recorded_names (cons (dict c) l) = push_text (get_or "tool_id" (text "?") c) (recorded_names l)
recorded_names (cons v l) = none

abbrev pub recorded_calls : Value → Option (List String)
unfolding recorded_names
recorded_calls (list l) = recorded_names l
recorded_calls v = none

unfoldable pub called : List String → Fields
unfolding compact join_comma
called names = compact (text "assistant") ("[Called: " ⋯ join_comma names ⋯ "]") "tool_call"

module _ (str : Value → String) where
  abbrev pub text_of : Value → String
  text_of (text s) = s
  text_of v = str v

  unfoldable pub tool_entry : Value → Value → Fields
  unfolding compact cut
  tool_entry tool_id content =
      compact (text "assistant") ("[Tool: " ⋯ text_of tool_id ⋯ "] " ⋯ cut 300 (text_of content))
        "tool_result"

  unfoldable pub recorded_entry : Fields → Option Fields
  unfolding get_or is_text truthy compact cut tool_entry called recorded_calls
  recorded_entry m =
      let role = get_or "role" (text "user") m in
      let calls = get_or "tool_calls" null m in
      if is_text "tool_result" role
      then some (tool_entry (get_or "tool_id" (text "?") m) (get_or "content" (dict end) m))
      else if truthy calls
      then elim (recorded_calls calls) [ none ↦ none | some names ↦ some (called names) ]
      else some (compact role (cut 500 (text_of (get_or "content" (text "") m))) "chat")

  -- `none` where a recorded call is no dict, or its tool no text, so that Python raises.
  unfoldable pub entry : Message → Option Fields
  unfolding recorded_entry tool_entry called compact cut
  entry (user_message s) = some (compact (text "user") (cut 500 s) "chat")
  entry (assistant_message s []) = some (compact (text "assistant") (cut 500 s) "chat")
  entry (assistant_message s (c ∷ cs)) = some (called (call_ids (c ∷ cs)))
  entry (tool_message tool_id call_id result success) = some (tool_entry (text tool_id) result)
  entry (recorded m) = recorded_entry m

  unfoldable pub entries : List Message → Option (List Fields)
  unfolding entry
  entries [] = some []
  entries (m ∷ ms) = push (entry m) (entries ms)

  unfoldable pub to_persistable : Session → Option (List Fields)
  unfolding entries last_of
  to_persistable s = entries (last_of 20 s.messages)

-- The messages of a session that is restored.
unfoldable pub restored_messages : List Fields → List Message
unfolding get_or
restored_messages [] = []
restored_messages (m ∷ ms) =
    recorded (
      field "role" (get_or "role" (text "user") m)
        (field "content" (get_or "content" (text "") m) end))
    ∷ restored_messages ms

unfoldable pub from_persisted : String → ℕ → List Fields → Session
unfolding restored_messages new_session
from_persisted session_id now ms = record (new_session session_id now) {
  messages = restored_messages ms;
  status = complete;
}
