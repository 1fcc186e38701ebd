-- ===== src/Agent/Outcomes.antt =====
-- How the loops of system/core/agent/agent_loop.py end.
use mathlib.Core.Bool.{false≢true}
use capability_os.Base.{
  ℕ, zero, suc, String, Bool, true, false, some, List, [], ◌∷◌, ◌++◌, ◌≡◌, refl, ◌&&◌, Bool-cases,
  inl, inr, lookup, lookup-own, if◌then◌else◌, ◌==◌, not, ◌⋯◌,
}
use capability_os.Exec.{Failure, Result, ok, err}
use capability_os.Security.{SecurityLevel, free, confirm, protected}
use capability_os.Agent.{Confirmation, ToolCall, awaiting_confirmation, complete, set_pending}
use capability_os.Agent.Loop.{
  Services, AgentResponse, AgentEvent, agent_thinking, agent_error, agent_response,
  confirmation_wanted, completed, awaiting, failed, ResultStatus, Loop, emit, at_session, ask,
  act_on, handle_call, handle_calls,
}
use capability_os.Agent.Run.{
  is_empty, is_final, answer, model_failed, model_error, use_tools, after_response, after_turn,
  iterate, run_out, iterations,
}

-- What is told where the model cannot be called: in the event, and in the result.
abbrev error_event : Bool → String → String
error_event true message = message
error_event false message = "LLM error: " ⋯ message

abbrev error_text : Bool → String → String
error_text true message = "LLM error: " ⋯ message
error_text false message = "Error calling LLM: " ⋯ message

abbrev or_llm_error : String → String
or_llm_error reply = if reply == "" then "LLM error" else reply

-- The fixed text behind the last iteration.
abbrev farewell : Bool → String
farewell true = "Task completed."
farewell false = "Reached maximum iterations. Please try a simpler request."

-- A confirmation is wanted: it is the last event, and is pending in the session.
pub record IsAsked {W : Type 0} (l : Loop W) : Type 0 where
  pub before : List AgentEvent
  pub wanted : Confirmation
  pub told : l.yielded ≡ before ++ confirmation_wanted wanted ∷ []
  pub status : l.result.status ≡ awaiting
  pub session_status : l.session.status ≡ awaiting_confirmation
  pub is_pending : lookup wanted.confirmation_id l.session.pending ≡ some wanted

abbrev AsksAtStop : {W : Type 0} → Bool × Loop W → Type 0
AsksAtStop (stop, l) = stop ≡ true → IsAsked l

module _ {W : Type 0} (services : Services W) (resumed : Bool) where
  open services use {run_agent_turn, dedup_text}

  -- A loop that is stopped by a turn with this outcome, by what the model said or by its failure.
  pub data Stopped : Result AgentResponse → Loop W → Type 0 where
    answered :
        {r : AgentResponse} {l : Loop W} (before : List AgentEvent)
        → is_final r ≡ true
        → l.yielded ≡ before ++ agent_response (dedup_text r.reply_text) ∷ []
        → l.result.status ≡ completed
        → l.result.final_text ≡ some (dedup_text r.reply_text)
        → l.session.status ≡ complete
        → l.session.final_text ≡ some (dedup_text r.reply_text)
        → Stopped (ok r) l
    asked : {r : AgentResponse} {l : Loop W} → is_final r ≡ false → IsAsked l → Stopped (ok r) l
    refused :
        {r : AgentResponse} {l : Loop W} (before : List AgentEvent)
        → resumed ≡ false
        → (r.stop_reason == "error") ≡ true
        → l.yielded ≡ before ++ agent_error (or_llm_error r.reply_text) ∷ []
        → l.result.status ≡ failed
        → l.result.final_text ≡ some (or_llm_error r.reply_text)
        → Stopped (ok r) l
    broke :
        {l : Loop W} (e : Failure) (before : List AgentEvent)
        → l.yielded ≡ before ++ agent_error (error_event resumed e.message) ∷ []
        → l.result.status ≡ failed
        → l.result.final_text ≡ some (error_text resumed e.message)
        → Stopped (err e) l

  -- A loop behind the call of the model in iteration i.
  abbrev pub turned : ℕ → Loop W → W → Loop W
  turned i l w = record (emit (agent_thinking i) (at_session (λ s. record s { iteration = i }) l)) {
    world = w;
  }

  abbrev Follows : Result AgentResponse → Loop W → Bool × Loop W → Type 0
  Follows r l (true, l') = Stopped r l'
  Follows (err e) l (false, l') = ⊥
  Follows (ok r) l (false, l') =
      (is_final r ≡ false) × (use_tools services resumed r l ≡ (false, l'))

  ask-IsAsked :
      (tc : ToolCall) (level : SecurityLevel) (l : Loop W)
      → IsAsked (ask services resumed tc level l)
  unfolding ask set_pending
  ask-IsAsked tc level l = record {
    before = l.yielded;
    wanted = _;
    told = refl;
    status = refl;
    session_status = refl;
    is_pending = lookup-own _ _ l.session.pending;
  }

  act_on-AsksAtStop :
      (tc : ToolCall) (level : SecurityLevel) (call_id : String) (l : Loop W)
      → AsksAtStop (act_on services resumed tc level call_id l)
  unfolding act_on
  act_on-AsksAtStop tc free call_id l h = absurd (false≢true h)
  act_on-AsksAtStop tc confirm call_id l h = ask-IsAsked tc confirm l
  act_on-AsksAtStop tc protected call_id l h = ask-IsAsked tc protected l

  handle_calls-AsksAtStop :
      (calls : List ToolCall) (l : Loop W) → AsksAtStop (handle_calls services resumed calls l)
  unfolding handle_calls handle_call
  handle_calls-AsksAtStop [] l = λ h. absurd (false≢true h)
  handle_calls-AsksAtStop (tc ∷ calls) l = elim (Bool-cases (handle_call services resumed tc l).0) [
    | inl stopped ↦
        rw (stopped, handle_calls)
          (λ _. act_on-AsksAtStop tc (services.classify tc.tool_id tc.params) _ _ stopped)
    | inr goes_on ↦
        rw (goes_on, handle_calls)
          (handle_calls-AsksAtStop calls (handle_call services resumed tc l).1)
  ]

  use_tools-AsksAtStop :
      (r : AgentResponse) (l : Loop W) → AsksAtStop (use_tools services resumed r l)
  unfolding use_tools
  use_tools-AsksAtStop r l = elim (Bool-cases (is_empty r.tool_calls)) [
    | inl none_called ↦ rw none_called (λ h. absurd (false≢true h))
    | inr called ↦ rw called (handle_calls-AsksAtStop r.tool_calls _)
  ]

  use_tools-Follows :
      (r : AgentResponse) (l : Loop W) (end_ : Bool × Loop W)
      → is_final r ≡ false
      → use_tools services resumed r l ≡ end_
      → AsksAtStop end_
      → Follows (ok r) l end_
  use_tools-Follows r l (true, l') unfinished same asks = asked unfinished (asks refl)
  use_tools-Follows r l (false, l') unfinished same asks = (unfinished, same)

answer-Stopped :
    {W : Type 0} (services : Services W) (resumed : Bool) (r : AgentResponse) (l : Loop W)
    → is_final r ≡ true
    → Stopped services resumed (ok r) (answer services resumed r.reply_text l)
unfolding answer
answer-Stopped services true r l final = answered l.yielded final refl refl refl refl refl
answer-Stopped services false r l final = answered l.yielded final refl refl refl refl refl

error_reply-Stopped :
    {W : Type 0} (services : Services W) (resumed : Bool) (r : AgentResponse) (l : Loop W)
    → (not resumed && r.stop_reason == "error") ≡ true
    → Stopped services resumed (ok r) (model_error services r.reply_text l)
unfolding model_error
error_reply-Stopped services true r l h = absurd (false≢true h)
error_reply-Stopped services false r l h = refused l.yielded refl h refl refl refl

after_turn-Follows :
    {W : Type 0} (services : Services W) (resumed : Bool) (r : Result AgentResponse) (l : Loop W)
    → Follows services resumed r l (after_turn services resumed r l)
unfolding after_turn after_response model_failed
after_turn-Follows services true (err e) l = broke e l.yielded refl refl refl
after_turn-Follows services false (err e) l = broke e l.yielded refl refl refl
after_turn-Follows services resumed (ok r) l = elim (Bool-cases (is_final r)) [
  | inl final ↦ rw final (answer-Stopped services resumed r l final)
  | inr unfinished ↦ elim (Bool-cases (not resumed && r.stop_reason == "error")) [
    | inl broken ↦ rw (unfinished, broken) (error_reply-Stopped services resumed r l broken)
    | inr sound ↦
        rw (unfinished, sound)
          (use_tools-Follows services resumed r l _ unfinished refl
            (use_tools-AsksAtStop services resumed r l))
  ]
]

module _ {W : Type 0} (services : Services W) (resumed : Bool) (tools : List String)
    (prompt : String) where
  -- One turn of the model, on what the loop has so far.
  abbrev pub turn : Loop W → Result AgentResponse × W
  turn l = services.run_agent_turn tools prompt l.session.messages l.world

  -- How a loop that has n iterations left behind the i-th one goes on to its end.
  pub data Ends : ℕ → ℕ → Loop W → Loop W → Type 0 where
    stopped :
        {n i : ℕ} {l l' : Loop W} (r : Result AgentResponse) (w : W)
        → turn l ≡ (r, w)
        → Stopped services resumed r l'
        → Ends (suc n) i l l'
    again :
        {n i : ℕ} {l l' : Loop W} (r : AgentResponse) (w : W) (next : Loop W)
        → turn l ≡ (ok r, w)
        → is_final r ≡ false
        → use_tools services resumed r (turned services resumed (suc i) l w) ≡ (false, next)
        → Ends n (suc i) next l'
        → Ends (suc n) i l l'
    ran_out :
        {i : ℕ} {l l' : Loop W}
        → l'.yielded ≡ l.yielded ++ agent_response (farewell resumed) ∷ []
        → l'.result.status ≡ (if resumed then completed else ResultStatus.max_iterations)
        → l'.result.final_text ≡ some (farewell resumed)
        → Ends zero i l l'

  Follows-Ends :
      (limit n i : ℕ) (l : Loop W) (r : Result AgentResponse) (w : W) (end_ : Bool × Loop W)
      → turn l ≡ (r, w)
      → Follows services resumed r (turned services resumed (suc i) l w) end_
      → ((next : Loop W)
          → Ends n (suc i) next (iterations services resumed tools prompt limit n (suc i) next))
      → Ends (suc n) i l (elim end_.0 [
        | true ↦ end_.1
        | false ↦ iterations services resumed tools prompt limit n (suc i) end_.1
      ])
  Follows-Ends limit n i l r w (true, l') called follows later = stopped r w called follows
  Follows-Ends limit n i l (ok r) w (false, next) called follows later =
      again r w next called follows.0 follows.1 (later next)
  Follows-Ends limit n i l (err e) w (false, next) called follows later = absurd follows

run_out-Ends :
    {W : Type 0} (services : Services W) (resumed : Bool) (tools : List String) (prompt : String)
    (limit i : ℕ) (l : Loop W)
    → Ends services resumed tools prompt zero i l (run_out services resumed limit l)
unfolding run_out
run_out-Ends services true tools prompt limit i l = ran_out refl refl refl
run_out-Ends services false tools prompt limit i l = ran_out refl refl refl

-- Whatever the model and the tools do, a loop with n iterations left calls the model once in each,
-- on the messages and the world that the iteration before has left, and goes on, behind the tools,
-- only where the reply is no final one. It ends in one of them: with the text of a final reply,
-- cleaned of repetition, which is the last event, the result's and the session's; with a confirmation that
-- is wanted, which is the last event and is pending in the session, whose status says so; with the
-- exception of the model's call, or, in `run`, with a reply that has stopped with "error", told
-- in the last event and in the result. Or all n are used, none of them has ended it, and a fixed text
-- is the last event and the result's.
pub iterations-Ends :
    {W : Type 0} (services : Services W) (resumed : Bool) (tools : List String) (prompt : String)
    (limit n i : ℕ) (l : Loop W)
    → Ends services resumed tools prompt n i l
        (iterations services resumed tools prompt limit n i l)
unfolding iterations iterate
iterations-Ends services resumed tools prompt limit zero i l =
    run_out-Ends services resumed tools prompt limit i l
iterations-Ends services resumed tools prompt limit (suc n) i l =
    let (r, w) = services.run_agent_turn tools prompt l.session.messages l.world in
    Follows-Ends services resumed tools prompt limit n i l r w _ refl
      (after_turn-Follows services resumed r _)
      (λ next. iterations-Ends services resumed tools prompt limit n (suc i) next)
