-- ===== src/Agent/Persisted/Restored.antt =====
-- What from_persisted of system/core/agent/agent_state.py restores.
use capability_os.Base.{
  ℕ, zero, suc, ◌≤◌, String, true, false, some, List, [], ◌∷◌, length, leb, ◌≡◌, refl, sym, subst,
  ap, ◌∙◌, arith, Bool-cases, Option-cases, inl, inr,
}
use capability_os.Value.{Value, null, text, Fields, end, field, get_or, is_text, truthy}
use capability_os.Agent.{Message, user_message, assistant_message, tool_message, recorded, Session}
use capability_os.Agent.Persisted.{
  cut, last_of, compact, entry, entries, recorded_entry, to_persistable, restored_messages,
  from_persisted, tool_entry, called, recorded_calls,
}

-- An entry of a chat whose role is none of the tools'.
abbrev pub IsEntry : Fields → Type 0
IsEntry m =
    (role : Value) × (content : String) × (kind : String) × (m ≡ compact role content kind)
    × (is_text "tool_result" role ≡ false)

-- The same role and, cut, the same content.
abbrev plain : Value → String
plain (text s) = s
plain v = ""

unfoldable as_chat : Fields → Fields
unfolding get_or compact cut
as_chat m =
    compact (get_or "role" (text "user") m) (cut 500 (plain (get_or "content" (text "") m))) "chat"

unfoldable pub chats : List Fields → List Fields
unfolding as_chat
chats [] = []
chats (m ∷ ms) = as_chat m ∷ chats ms

some-inj : {a b : Fields} → some a ≡ some b → a ≡ b
some-inj h = cc

compact-IsEntry :
    (role : Value) (content kind : String)
    → is_text "tool_result" role ≡ false
    → IsEntry (compact role content kind)
compact-IsEntry role content kind h = (role, content, kind, refl, h)

module _ (str : Value → String) where
  recorded_entry-IsEntry : (m e : Fields) → recorded_entry str m ≡ some e → IsEntry e
  unfolding recorded_entry tool_entry called is_text
  recorded_entry-IsEntry m e h =
      let role = get_or "role" (text "user") m in
      let calls = get_or "tool_calls" null m in
      elim (Bool-cases (is_text "tool_result" role)) [
        | inl tool ↦
            subst IsEntry (some-inj (rw (tool, recorded_entry) at h))
              (compact-IsEntry (text "assistant") _ "tool_result" refl)
        | inr chat ↦ elim (Bool-cases (truthy calls)) [
          | inr none_called ↦
              subst IsEntry (some-inj (rw (chat, none_called, recorded_entry) at h))
                (compact-IsEntry role _ "chat" chat)
          | inl calls_some ↦ elim (Option-cases (recorded_calls calls)) [
            | inl bad ↦ let no = rw (chat, calls_some, bad, recorded_entry) at h in cc
            | inr (names, good) ↦
                subst IsEntry (some-inj (rw (chat, calls_some, good, recorded_entry) at h))
                  (compact-IsEntry (text "assistant") _ "tool_call" refl)
          ]
        ]
      ]

  entry-IsEntry : (m : Message) (e : Fields) → entry str m ≡ some e → IsEntry e
  unfolding entry tool_entry called is_text
  entry-IsEntry (user_message s) e h =
      subst IsEntry (some-inj h) (compact-IsEntry (text "user") _ "chat" refl)
  entry-IsEntry (assistant_message s []) e h =
      subst IsEntry (some-inj h) (compact-IsEntry (text "assistant") _ "chat" refl)
  entry-IsEntry (assistant_message s (c ∷ cs)) e h =
      subst IsEntry (some-inj h) (compact-IsEntry (text "assistant") _ "tool_call" refl)
  entry-IsEntry (tool_message tool_id call_id result success) e h =
      subst IsEntry (some-inj h) (compact-IsEntry (text "assistant") _ "tool_result" refl)
  entry-IsEntry (recorded m) e h = recorded_entry-IsEntry m e h

  again :
      (m : Fields) (role : Value) (content kind : String)
      → m ≡ compact role content kind
      → is_text "tool_result" role ≡ false
      → entry str (
          recorded (
            field "role"
              (get_or "role" (text "user") m)
              (field "content" (get_or "content" (text "") m) end)))
        ≡ some (as_chat m)
  unfolding entry recorded_entry get_or compact truthy as_chat
  again m role content kind e h =
      subst
        (λ x.
          entry str (
            recorded (
              field "role" (get_or "role" (text "user") x)
                (field "content" (get_or "content" (text "") x) end)))
          ≡ some (as_chat x))
        (sym e) (rw (h, recorded_entry) refl)

  -- What the entries of messages are restored to.
  entries-restored :
      (xs : List Message) (ms : List Fields)
      → entries str xs ≡ some ms
      → (entries str (restored_messages ms) ≡ some (chats ms)) × (length ms ≡ length xs)
  unfolding entries restored_messages chats
  entries-restored [] ms h =
      let e : [] ≡ ms = cc in
      subst (λ l. (entries str (restored_messages l) ≡ some (chats l)) × (length l ≡ 0)) e
        (refl, refl)
  entries-restored (x ∷ xs) ms h = elim (Option-cases (entry str x)) [
    | inl bad ↦ let no = rw (bad, entries) at h in cc
    | inr (m, one) ↦ elim (Option-cases (entries str xs)) [
      | inl bad ↦ let no = rw (one, bad, entries) at h in cc
      | inr (rest, others) ↦
          let (role, content, kind, e, chat) = entry-IsEntry x m one in
          let (same, size) = entries-restored xs rest others in
          let whole : some (m ∷ rest) ≡ some ms = rw (one, others, entries) at h in
          let list_same : m ∷ rest ≡ ms = cc in
          subst
            (λ l.
              (entries str (restored_messages l) ≡ some (chats l)) × (length l ≡ suc (length xs)))
            list_same (rw (again m role content kind e chat) (rw (same, entries) refl), ap suc size)
    ]
  ]

last_of-le {ℓ} : {A : Type ℓ} (n : ℕ) (xs : List A) → length (last_of n xs) ≤ n
unfolding last_of
last_of-le n [] = omega arith
last_of-le n (x ∷ xs) = elim (Bool-cases (leb (length (x ∷ xs)) n)) [
  | inl fits ↦ rw (fits, last_of) (ground arith)
  | inr longer ↦ rw (longer, last_of) (last_of-le n xs)
]

last_of-all {ℓ} : {A : Type ℓ} (n : ℕ) (xs : List A) → length xs ≤ n → last_of n xs ≡ xs
unfolding last_of
last_of-all n [] h = refl
last_of-all n (x ∷ xs) h =
    let fits : leb (length (x ∷ xs)) n ≡ true = ground arith in rw (fits, last_of) refl

cut-cut : (n : ℕ) (s : String) → cut n (cut n s) ≡ cut n s
unfolding cut
cut-cut zero s = refl
cut-cut (suc n) String.[] = refl
cut-cut (suc n) (String.◌∷◌ c s) = ap (String.◌∷◌ c) (cut-cut n s)

chats-chats : (ms : List Fields) → chats (chats ms) ≡ chats ms
unfolding chats as_chat get_or compact
chats-chats [] = refl
chats-chats (m ∷ ms) =
    let role = get_or "role" (text "user") m in
    rw (cut-cut 500 (plain (get_or "content" (text "") m)), chats-chats ms) refl

length-restored : (ms : List Fields) → length (restored_messages ms) ≡ length ms
unfolding restored_messages
length-restored [] = refl
length-restored (m ∷ ms) = ap suc (length-restored ms)

-- Of a session that can be persisted, the last twenty messages are, at most; the session that is restored
-- from them has as many, and is persisted to the same ones, of the same roles and in the same order, as
-- messages of a chat whose contents are cut; and to persist and to restore again changes nothing.
pub from_persisted-to_persistable :
    (str : Value → String) (s : Session) (session_id : String) (now : ℕ) (ms : List Fields)
    → to_persistable str s ≡ some ms
    → (length ms ≡ length (last_of 20 s.messages))
      × (length ms ≤ 20)
      × (to_persistable str (from_persisted session_id now ms) ≡ some (chats ms))
      × (to_persistable str (from_persisted session_id now (chats ms)) ≡ some (chats ms))
unfolding to_persistable from_persisted
from_persisted-to_persistable str s session_id now ms h =
    let (same, size) = entries-restored str (last_of 20 s.messages) ms h in
    let few : length ms ≤ 20 = omega (arith, size, last_of-le 20 s.messages) in
    let (second, size2) = entries-restored str (restored_messages ms) (chats ms) same in
    (
      size,
      few,
      ap (entries str)
            (last_of-all 20 (restored_messages ms) (omega (arith, length-restored ms, few)))
          ∙ same,
      ap (entries str) (
            last_of-all 20 (restored_messages (chats ms))
              (omega (arith, length-restored (chats ms), size2, length-restored ms, few)))
          ∙ second
          ∙ ap some (chats-chats ms),
    )
