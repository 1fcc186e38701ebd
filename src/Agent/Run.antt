-- ===== src/Agent/Run.antt =====
-- The iterations of the loop in system/core/agent/agent_loop.py: a turn of the model, its errors, its
-- answer or its tool calls. `resumed` tells the loop of `resume_after_confirmation` from that of
-- `run`, which differ in what they note and in how they end.
use capability_os.Base.{
  ℕ, zero, suc, String, Bool, true, false, some, List, [], ◌∷◌, not, ◌&&◌, ◌||◌, ◌==◌,
  if◌then◌else◌, ◌⋯◌,
}
use capability_os.Exec.{Result, ok, err}
use capability_os.Agent.{complete, error, add_assistant_message}
use capability_os.Agent.Loop.{
  Services, AgentResponse, agent_thinking, agent_error, agent_response, ResultStatus, completed,
  failed, Loop, emit, at_session, at_result, handle_calls,
}

abbrev pub is_empty {ℓ} : {A : Type ℓ} → List A → Bool
is_empty [] = true
is_empty (x ∷ xs) = false

-- response.stop_reason == "end_turn" or (response.text and not response.tool_calls)
unfoldable pub is_final : AgentResponse → Bool
is_final r = r.stop_reason == "end_turn" || not (r.reply_text == "") && is_empty r.tool_calls

module _ {W : Type 0} (services : Services W) where
  open services use {run_agent_turn, hex, clock, dedup_text, auto_save, try_compact, system_prompt}

  -- The model has answered.
  unfoldable pub answer : Bool → String → Loop W → Loop W
  unfolding add_assistant_message
  answer resumed reply l =
      let said = dedup_text reply in
      let count = if resumed then l.result.iteration_count else l.session.iteration in
      let l' = emit (agent_response said) (
        at_result
          (λ r. record r { status = completed; final_text = some said; iteration_count = count })
          (at_session
            (λ s. record (add_assistant_message said [] s) {
              final_text = some said;
              status = complete;
            })
            l)) in
      if resumed then l' else record l' { world = auto_save l'.session said l'.world }

  -- The call of the model has raised an exception.
  unfoldable pub model_failed : Bool → String → Loop W → Loop W
  model_failed resumed message l =
      if resumed
      then emit (agent_error message) (
          at_result (λ r. record r { status = failed; final_text = some ("LLM error: " ⋯ message) })
            l)
      else at_session (λ s. record s { status = error })
          (at_result
            (λ r. record r { status = failed; final_text = some ("Error calling LLM: " ⋯ message) })
            (emit (agent_error ("LLM error: " ⋯ message)) l))

  -- response.stop_reason == "error", which only `run` tells apart.
  unfoldable pub model_error : String → Loop W → Loop W
  unfolding add_assistant_message
  model_error reply l =
      let said = if reply == "" then "LLM error" else reply in
      at_result (λ r. record r { status = failed; final_text = some said })
        (emit (agent_error said) (at_session (add_assistant_message said []) l))

  unfoldable pub use_tools : Bool → AgentResponse → Loop W → Bool × Loop W
  unfolding add_assistant_message handle_calls
  use_tools resumed response l =
      if is_empty response.tool_calls
      then (false, l)
      else handle_calls services resumed response.tool_calls
          (at_session (add_assistant_message response.reply_text response.tool_calls) l)

  unfoldable pub after_response : Bool → AgentResponse → Loop W → Bool × Loop W
  unfolding is_final answer model_error use_tools
  after_response resumed response l =
      if is_final response
      then (true, answer resumed response.reply_text l)
      else if not resumed && response.stop_reason == "error"
      then (true, model_error response.reply_text l)
      else use_tools resumed response l

  unfoldable pub after_turn : Bool → Result AgentResponse → Loop W → Bool × Loop W
  unfolding after_response model_failed
  after_turn resumed (ok response) l = after_response resumed response l
  after_turn resumed (err e) l = (true, model_failed resumed e.message l)

  -- One iteration, numbered from 1: true where the generator returns.
  unfoldable pub iterate : Bool → List String → String → ℕ → Loop W → Bool × Loop W
  unfolding after_turn
  iterate resumed tools prompt i l =
      let l' = emit (agent_thinking i) (at_session (λ s. record s { iteration = i }) l) in
      let (r, w) = run_agent_turn tools prompt l'.session.messages l'.world in
      after_turn resumed r (record l' { world = w })

  -- After the last iteration; `limit` is the loop's own `_max_iterations`.
  unfoldable pub run_out : Bool → ℕ → Loop W → Loop W
  run_out resumed limit l =
      if resumed
      then emit (agent_response "Task completed.")
          (at_result (λ r. record r { status = completed; final_text = some "Task completed." }) l)
      else emit (agent_response "Reached maximum iterations. Please try a simpler request.") (
          at_result
            (λ r. record r {
              status = ResultStatus.max_iterations;
              final_text = some "Reached maximum iterations. Please try a simpler request.";
              iteration_count = limit;
            })
            (at_session (λ s. record s { status = complete }) l))

  unfoldable pub iterations : Bool → List String → String → ℕ → ℕ → ℕ → Loop W → Loop W
  unfolding iterate run_out
  iterations resumed tools prompt limit zero i l = run_out resumed limit l
  iterations resumed tools prompt limit (suc n) i l =
      let (stop, l') = iterate resumed tools prompt (suc i) l in
      elim stop [ true ↦ l' | false ↦ iterations resumed tools prompt limit n (suc i) l' ]
