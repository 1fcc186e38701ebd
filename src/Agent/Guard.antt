-- ===== src/Agent/Guard.antt =====
-- What the loop of system/core/agent/agent_loop.py does to the world and to the pending
-- confirmations: a frame rule, by the single changes.
use capability_os.Base.{
  ℕ, zero, suc, String, Bool, true, false, List, [], ◌∷◌, ◌≡◌, ◌≢◌, refl, subst, sym, ◌∙◌,
  Bool-cases, inl, inr, ◌⋯◌, Dict, insert, ◌==◌, not, ◌&&◌,
}
use capability_os.Value.{Fields}
use capability_os.Exec.{Result, ok, err}
use capability_os.Security.{SecurityLevel, free, confirm, protected}
use capability_os.Agent.{Confirmation, ToolCall, Session, Message, set_pending}
use capability_os.Agent.Loop.{
  Services, AgentResponse, Loop, execute_tool, call_id_of, confirmation_of, run_call, ask, act_on,
  handle_call, handle_calls,
}
use capability_os.Agent.Run.{
  is_empty, is_final, answer, model_failed, model_error, use_tools, after_response, after_turn,
  iterate, run_out, iterations,
}

module _ {W : Type 0} (services : Services W) where
  open services use {run_agent_turn, classify, run_tool, hex, clock, auto_save, try_compact}

  -- A free tool, and no other, may be run; a call of any other tool becomes a confirmation.
  pub record Stable (Inv : W → Dict Confirmation → Type 0) : Type 0 where
    pub turn :
        (tools : List String) (prompt : String) (ms : List Message) (w : W) (p : Dict Confirmation)
        → Inv w p
        → Inv (run_agent_turn tools prompt ms w).1 p
    pub identifier : (w : W) (p : Dict Confirmation) → Inv w p → Inv (hex w).1 p
    pub save :
        (s : Session) (said : String) (w : W) (p : Dict Confirmation)
        → Inv w p
        → Inv (auto_save s said w) p
    pub free_tool :
        (tool_id : String) (params : Fields) (w : W) (p : Dict Confirmation)
        → classify tool_id params ≡ free
        → Inv w p
        → Inv (run_tool tool_id params w).1 p
    pub confirmation :
        (tc : ToolCall) (h : String) (now : ℕ) (w : W) (p : Dict Confirmation)
        → classify tc.tool_id tc.params ≢ free
        → Inv w p
        → Inv w (
            insert
              ("conf_" ⋯ h)
              (confirmation_of services tc (classify tc.tool_id tc.params) h now)
              p)

  module _ {Inv : W → Dict Confirmation → Type 0} (stable : Stable Inv) where
    -- What holds of a loop.
    abbrev pub Holds : Loop W → Type 0
    Holds l = Inv l.world l.session.pending

    pub execute_tool-Holds :
        (tool_id : String) (params : Fields) (w : W) (p : Dict Confirmation)
        → ((w' : W) → Inv w' p → Inv (run_tool tool_id params w').1 p)
        → Inv w p
        → Inv (execute_tool services tool_id params w).1 p
    unfolding execute_tool
    execute_tool-Holds tool_id params w p ran h =
        elim (Bool-cases (services.is_registered tool_id)) [
          | inl known ↦ rw known (ran w h)
          | inr unknown ↦ rw unknown h
        ]

    call_id_of-Holds :
        (tc : ToolCall) (w : W) (p : Dict Confirmation)
        → Inv w p
        → Inv (call_id_of services tc w).1 p
    unfolding call_id_of
    call_id_of-Holds tc w p h = elim (Bool-cases (tc.call_id == "")) [
      | inl unnamed ↦ rw unnamed (stable.identifier w p h)
      | inr named ↦ rw named h
    ]

    asked-Holds :
        (resumed : Bool) (tc : ToolCall) (level : SecurityLevel) (l : Loop W)
        → classify tc.tool_id tc.params ≡ level
        → level ≢ free
        → Holds l
        → Holds (ask services resumed tc level l)
    unfolding ask set_pending
    asked-Holds resumed tc level l e guarded h =
        let (x, w) = hex l.world in
        subst
          (λ v. Inv (hex l.world).1 (
            insert ("conf_" ⋯ (hex l.world).0)
              (confirmation_of services tc v (hex l.world).0 (clock (hex l.world).1))
              l.session.pending))
          e
          (stable.confirmation tc (hex l.world).0 (clock (hex l.world).1) (hex l.world).1
            l.session.pending (λ k. guarded (sym e ∙ k))
            (stable.identifier l.world l.session.pending h))

    act_on-Holds :
        (resumed : Bool) (tc : ToolCall) (level : SecurityLevel) (call_id : String) (l : Loop W)
        → classify tc.tool_id tc.params ≡ level
        → Holds l
        → Holds (act_on services resumed tc level call_id l).1
    unfolding act_on run_call
    act_on-Holds resumed tc free call_id l e h =
        execute_tool-Holds tc.tool_id tc.params l.world l.session.pending
          (λ w k. stable.free_tool tc.tool_id tc.params w l.session.pending e k) h
    act_on-Holds resumed tc confirm call_id l e h = asked-Holds resumed tc confirm l e (λ k. cc) h
    act_on-Holds resumed tc protected call_id l e h =
        asked-Holds resumed tc protected l e (λ k. cc) h

    handle_call-Holds :
        (resumed : Bool) (tc : ToolCall) (l : Loop W)
        → Holds l
        → Holds (handle_call services resumed tc l).1
    unfolding handle_call
    handle_call-Holds resumed tc l h =
        act_on-Holds resumed tc (classify tc.tool_id tc.params) _ _ refl
          (call_id_of-Holds tc l.world l.session.pending h)

    handle_calls-Holds :
        (resumed : Bool) (calls : List ToolCall) (l : Loop W)
        → Holds l
        → Holds (handle_calls services resumed calls l).1
    unfolding handle_calls
    handle_calls-Holds resumed [] l h = h
    handle_calls-Holds resumed (tc ∷ calls) l h =
        let first = handle_call-Holds resumed tc l h in
        elim (Bool-cases (handle_call services resumed tc l).0) [
          | inl stopped ↦ rw (stopped, handle_calls) first
          | inr goes_on ↦ rw (goes_on, handle_calls) (handle_calls-Holds resumed calls _ first)
        ]

    answer-Holds :
        (resumed : Bool) (reply : String) (l : Loop W)
        → Holds l
        → Holds (answer services resumed reply l)
    unfolding answer
    answer-Holds true reply l h = h
    answer-Holds false reply l h = stable.save _ _ l.world l.session.pending h

    after_response-Holds :
        (resumed : Bool) (r : AgentResponse) (l : Loop W)
        → Holds l
        → Holds (after_response services resumed r l).1
    unfolding after_response model_error use_tools
    after_response-Holds resumed r l h = elim (Bool-cases (is_final r)) [
      | inl final ↦ rw final (answer-Holds resumed r.reply_text l h)
      | inr unfinished ↦ elim (Bool-cases (not resumed && r.stop_reason == "error")) [
        | inl broken ↦ rw (unfinished, broken) h
        | inr sound ↦ elim (Bool-cases (is_empty r.tool_calls)) [
          | inl none_called ↦ rw (unfinished, sound, none_called) h
          | inr called ↦
              rw (unfinished, sound, called) (handle_calls-Holds resumed r.tool_calls _ h)
        ]
      ]
    ]

    after_turn-Holds :
        (resumed : Bool) (r : Result AgentResponse) (l : Loop W)
        → Holds l
        → Holds (after_turn services resumed r l).1
    unfolding after_turn model_failed
    after_turn-Holds resumed (ok r) l h = after_response-Holds resumed r l h
    after_turn-Holds true (err e) l h = h
    after_turn-Holds false (err e) l h = h

    run_out-Holds :
        (resumed : Bool) (limit : ℕ) (l : Loop W)
        → Holds l
        → Holds (run_out services resumed limit l)
    unfolding run_out
    run_out-Holds true limit l h = h
    run_out-Holds false limit l h = h

    pub iterations-Holds :
        (resumed : Bool) (tools : List String) (prompt : String) (limit n i : ℕ) (l : Loop W)
        → Holds l
        → Holds (iterations services resumed tools prompt limit n i l)
    unfolding iterations iterate
    iterations-Holds resumed tools prompt limit zero i l h = run_out-Holds resumed limit l h
    iterations-Holds resumed tools prompt limit (suc n) i l h =
        let once =
          after_turn-Holds resumed (run_agent_turn tools prompt l.session.messages l.world).0 _
            (stable.turn tools prompt l.session.messages l.world l.session.pending h) in
        elim (Bool-cases (iterate services resumed tools prompt (suc i) l).0) [
          | inl stopped ↦ rw (stopped, iterations) once
          | inr goes_on ↦
              rw (goes_on, iterations)
                (iterations-Holds resumed tools prompt limit n (suc i) _ once)
        ]
