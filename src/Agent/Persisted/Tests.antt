-- ===== src/Agent/Persisted/Tests.antt =====
-- Sessions that system/core/agent/agent_state.py persists and restores.
use capability_os.Base.{◌≤◌, String, true, none, some, List, [], ◌∷◌, length, ◌≡◌, refl, pos}
use capability_os.Value.{Value, null, bool, int, text, list, cons, nil, dict, Fields, end, field}
use capability_os.Agent.{
  Session, ToolCall, user_message, assistant_message, tool_message, recorded, new_session,
  add_event,
}
use capability_os.Agent.Persisted.{compact, last_of, to_dict, to_persistable, from_persisted}
use capability_os.Agent.Persisted.Restored.{chats, from_persisted-to_persistable}

abbrev str : Value → String
str v = "{}"

abbrev call : ToolCall
call = record { tool_id = "read"; params = end; call_id = "1" }

abbrev session : Session
session = record (new_session "s" 7) {
  messages =
      user_message "hi"
      ∷ assistant_message "" (call ∷ call ∷ [])
      ∷ tool_message "read" "1" (dict end) (bool true)
      ∷ [];
}

abbrev persisted : List Fields
unfolding compact
persisted =
    compact (text "user") "hi" "chat"
    ∷ compact (text "assistant") "[Called: read, read]" "tool_call"
    ∷ compact (text "assistant") "[Tool: read] {}" "tool_result"
    ∷ []

session_persisted : to_persistable str session ≡ some persisted
unfolding to_persistable
session_persisted = refl

-- A recorded call that is no dict.
bad_call :
    to_persistable str
      (record session { messages = recorded (field "tool_calls" (list (cons null nil)) end) ∷ [] })
    ≡ none
unfolding to_persistable
bad_call = refl

event_stamped :
    (add_event 9 (field "timestamp" (int (pos 3)) end) session).events
    ≡ field "timestamp" (int (pos 3)) (field "iteration" (int (pos 0)) end) ∷ []
unfolding add_event new_session
event_stamped = refl

rendered :
    to_dict 9 session
    ≡ field "session_id" (text "s") (
        field "status" (text "idle") (
          field "iteration" (int (pos 0)) (
            field "message_count" (int (pos 3)) (
              field "event_count"
                (int (pos 0))
                (field "pending_confirmations" (list nil) (field "final_text" null end))))))
unfolding to_dict new_session
rendered = refl

from_persisted-to_persistable_example :
    (length persisted ≡ length (last_of 20 session.messages))
    × (length persisted ≤ 20)
    × (to_persistable str (from_persisted "t" 9 persisted) ≡ some (chats persisted))
    × (to_persistable str (from_persisted "t" 9 (chats persisted)) ≡ some (chats persisted))
from_persisted-to_persistable_example =
    from_persisted-to_persistable str session "t" 9 persisted session_persisted
