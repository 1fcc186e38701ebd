-- ===== src/Agent/Safety.antt =====
-- What `run` and `resume_after_confirmation` of system/core/agent/agent_loop.py may do: which tools
-- are run, and which confirmations are left.
use capability_os.Base.{
  ℕ, String, Bool, true, false, Option, some, List, [], ◌∷◌, ◌≡◌, ◌≢◌, refl, Bool-cases,
  Option-cases, inl, inr, Dict, lookup, AllValues, AllValues-insert, AllValues-erase,
  AllValues-lookup, ◌==◌, not, ◌||◌, sym, ◌∙◌, ◌-◌, ltb, length,
}
use capability_os.Value.{Fields}
use capability_os.Security.{free, level_value, classify_description}
use capability_os.Agent.{Confirmation, Session, Message, resolve_confirmation, expired, new_session}
use capability_os.Agent.Loop.{Services, Loop, run_call, confirmation_of}
use capability_os.Agent.Generators.{
  AgentLoop, AgentConfig, prune, started_session, get_or_create_session, returned, enter, run_loop,
  run, refused, decide, at_least_one, resumed_loop, resume_loop, resume_after_confirmation,
}
use capability_os.Agent.Guard.{Stable, iterations-Holds, execute_tool-Holds}

module _ {W : Type 0} (services : Services W) where
  open services use {run_agent_turn, classify, run_tool, hex, auto_save, try_compact, store_session}

  -- What everything but a tool keeps, and every tool that is free.
  pub record IsGuarded (P : W → Type 0) : Type 0 where
    pub turn :
        (tools : List String) (prompt : String) (ms : List Message) (w : W)
        → P w
        → P (run_agent_turn tools prompt ms w).1
    pub identifier : (w : W) → P w → P (hex w).1
    pub save : (s : Session) (said : String) (w : W) → P w → P (auto_save s said w)
    pub store : (s : Session) (w : W) → P w → P (store_session s w)
    pub compact : (ms : List Message) (w : W) → P w → P (try_compact ms w).1
    pub free_tool :
        (tool_id : String) (params : Fields) (w : W)
        → classify tool_id params ≡ free
        → P w
        → P (run_tool tool_id params w).1

  -- A confirmation is asked for a call that is not free, and says its level.
  abbrev pub IsAsked : Confirmation → Type 0
  IsAsked c =
      (classify c.tool_id c.params ≢ free)
      × (c.security_level ≡ level_value (classify c.tool_id c.params))
      × (c.description ≡ classify_description (classify c.tool_id c.params))

  abbrev pub AllAsked : AgentLoop → Type 0
  AllAsked a = AllValues (λ s. AllValues IsAsked s.pending) a.sessions

  module _ {P : W → Type 0} (guarded : IsGuarded P) where
    stable : Stable services (λ w p. P w × AllValues IsAsked p)
    unfolding confirmation_of
    stable = record {
      turn = λ tools prompt ms w p h. (guarded.turn tools prompt ms w h.0, h.1);
      identifier = λ w p h. (guarded.identifier w h.0, h.1);
      save = λ s said w p h. (guarded.save s said w h.0, h.1);
      free_tool = λ tool_id params w p e h. (guarded.free_tool tool_id params w e h.0, h.1);
      confirmation =
          λ tc h now w p ne k. (k.0, AllValues-insert IsAsked _ _ p (ne, refl, refl) k.1);
    }

    prune-AllValues :
        (Q : Session → Type 0) (d : Dict Session) → AllValues Q d → AllValues Q (prune d)
    unfolding prune
    prune-AllValues Q [] h = tt
    prune-AllValues Q (s ∷ d) h = elim (Bool-cases (ltb 20 (length (s ∷ d)))) [
      | inl many ↦ rw many h.1
      | inr few ↦ rw few h
    ]

    created :
        (id : String) (history : List Fields) (a : AgentLoop) (w : W)
        → AllAsked a
        → P w
        → (P (get_or_create_session services id history a w).2)
          × AllAsked (get_or_create_session services id history a w).1
          × AllValues IsAsked (get_or_create_session services id history a w).0.pending
    unfolding get_or_create_session started_session new_session
    created id history a w asked h = elim (Option-cases (lookup id a.sessions)) [
      | inr (s, found) ↦
          rw (found, get_or_create_session)
            (h, asked, AllValues-lookup _ id s a.sessions found asked)
      | inl absent ↦ elim (Bool-cases (id == "")) [
        | inl unnamed ↦
            rw (absent, unnamed, get_or_create_session)
              (
                guarded.store _ _ (guarded.identifier w h),
                prune-AllValues _ _ (AllValues-insert _ _ _ a.sessions tt asked),
                tt,
              )
        | inr named ↦
            rw (absent, named, get_or_create_session)
              (
                guarded.store _ _ h,
                prune-AllValues _ _ (AllValues-insert _ _ _ a.sessions tt asked),
                tt,
              )
      ]
    ]

    returned-Holds :
        (a : AgentLoop) (l : Loop W)
        → AllAsked a
        → P l.world × AllValues IsAsked l.session.pending
        → P (returned services a l).world × AllAsked (returned services a l).agent
    unfolding returned
    returned-Holds a l asked h = (h.0, AllValues-insert _ _ _ a.sessions h.1 asked)

    run_loop-Holds :
        (message : String) (config : Option AgentConfig) (place : String) (s : Session)
        (a : AgentLoop) (w : W)
        → P w
        → AllValues IsAsked s.pending
        → P (run_loop services message config place s a w).world
          × AllValues IsAsked (run_loop services message config place s a w).session.pending
    unfolding run_loop enter
    run_loop-Holds message config place s a w h own =
        iterations-Holds services stable false _ _ _ _ _ (enter services message config s w)
          (guarded.compact _ w h, own)

    -- `run` runs free tools only, whatever the model asks for: what the services around the tools
    -- keep, and every tool that is free, holds after it if it held before. Each confirmation that it
    -- leaves pending, in any session, is for a call that is not free, with its level.
    pub run-IsGuarded :
        (message id : String) (history : List Fields) (config : Option AgentConfig) (place : String)
        (a : AgentLoop) (w : W)
        → AllAsked a
        → P w
        → P (run services message id history config place a w).world
          × AllAsked (run services message id history config place a w).agent
    unfolding run
    run-IsGuarded message id history config place a w asked h =
        let (held, others, own) = created id history a w asked h in
        let (s, a', w') = get_or_create_session services id history a w in
        returned-Holds a' (run_loop services message config place s a w') others
          (run_loop-Holds message config place s a w' held own)

    -- What the user's decision leads to.
    decide-Holds :
        (approved : Bool) (c : Confirmation) (id : String) (l : Loop W)
        → (approved ≡ true → (w : W) → P w → P (run_tool c.tool_id c.params w).1)
        → P l.world × AllValues IsAsked l.session.pending
        → P (decide services approved c id l).world
          × AllValues IsAsked (decide services approved c id l).session.pending
    unfolding decide run_call
    decide-Holds false c id l ran h = h
    decide-Holds true c id l ran h =
        execute_tool-Holds services stable c.tool_id c.params l.world l.session.pending
          (λ w k. (ran refl w k.0, k.1)) h

    resolved :
        (now : ℕ) (id : String) (approved : Bool) (s : Session)
        → AllValues IsAsked s.pending
        → AllValues IsAsked (resolve_confirmation now id approved s).1.pending
    unfolding resolve_confirmation
    resolved now id approved s h = elim (Option-cases (lookup id s.pending)) [
      | inl absent ↦ rw (absent, resolve_confirmation) h
      | inr (c, found) ↦ elim (Bool-cases (not approved || expired now c)) [
        | inl late ↦ rw (found, late, resolve_confirmation) (AllValues-erase _ id s.pending h)
        | inr due ↦ rw (found, due, resolve_confirmation) (AllValues-erase _ id s.pending h)
      ]
    ]

    resume_loop-Holds :
        (config : Option AgentConfig) (approved : Bool) (c : Confirmation) (id : String)
        (s : Session) (a : AgentLoop) (w : W)
        → (approved ≡ true → (w' : W) → P w' → P (run_tool c.tool_id c.params w').1)
        → P w
        → AllValues IsAsked s.pending
        → P (resume_loop services config approved c id s a w).world
          × AllValues IsAsked (resume_loop services config approved c id s a w).session.pending
    unfolding resume_loop
    resume_loop-Holds config approved c id s a w ran h own =
        iterations-Holds services stable true _ _ a.max_iterations
          (at_least_one (a.max_iterations - s.iteration)) s.iteration
          (decide services approved c id (resumed_loop services s w))
          (decide-Holds approved c id (resumed_loop services s w) ran (h, own))

    found_confirmation :
        (now : ℕ) (id : String) (approved : Bool) (s : Session)
        → (resolve_confirmation now id approved s).0 ≡ lookup id s.pending
    unfolding resolve_confirmation
    found_confirmation now id approved s = elim (Option-cases (lookup id s.pending)) [
      | inl absent ↦ rw (absent, resolve_confirmation) refl
      | inr (c, found) ↦ elim (Bool-cases (not approved || expired now c)) [
        | inl late ↦ rw (found, late, resolve_confirmation) refl
        | inr due ↦ rw (found, due, resolve_confirmation) refl
      ]
    ]

    -- `resume_after_confirmation` runs, besides free tools, at most the call of the confirmation
    -- that it is given, and that only where the user has approved it. Each confirmation that it
    -- leaves pending is for a call that is not free, with its level.
    pub resume-IsGuarded :
        (session_id id : String) (approved : Bool) (config : Option AgentConfig) (a : AgentLoop)
        (w : W)
        → ((s : Session) (c : Confirmation)
            → lookup session_id a.sessions ≡ some s
            → lookup id s.pending ≡ some c
            → approved ≡ true
            → (w' : W) → P w'
            → P (run_tool c.tool_id c.params w').1)
        → AllAsked a
        → P w
        → P (resume_after_confirmation services session_id id approved config a w).world
          × AllAsked (resume_after_confirmation services session_id id approved config a w).agent
    unfolding resume_after_confirmation refused
    resume-IsGuarded session_id id approved config a w ran asked h =
        elim (Option-cases (lookup session_id a.sessions)) [
          | inl absent ↦ rw (absent, resume_after_confirmation) (h, asked)
          | inr (s, here) ↦
              let own = AllValues-lookup _ session_id s a.sessions here asked in
              let now = services.clock w in
              elim (Option-cases (resolve_confirmation now id approved s).0) [
                | inl absent ↦ rw (here, absent, resume_after_confirmation) (h, asked)
                | inr (c, found) ↦
                    rw (here, found, resume_after_confirmation)
                      (returned-Holds a
                        (resume_loop services config approved c id
                          (resolve_confirmation now id approved s).1 a w)
                        asked
                        (resume_loop-Holds config approved c id _ a w
                          (ran s c here (sym (found_confirmation now id approved s) ∙ found)) h
                          (resolved now id approved s own)))
              ]
        ]
