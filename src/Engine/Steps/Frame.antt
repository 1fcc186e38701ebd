-- ===== src/Engine/Steps/Frame.antt =====
-- A frame rule for `_run_single_step` of system/core/capability_engine/capability_engine.py: what
-- survives each single change to the engine's objects survives a step with all its retries,
-- whatever the tools do and whether it raises or not.
use capability_os.Base.{ℕ, zero, suc, String, Option, none, some}
use capability_os.Value.{Value, null, dict, Fields}
use capability_os.Observation.{mark_step_started, mark_step_succeeded, mark_step_failed}
use capability_os.Exec.{Failure, Keeps, keeps_rules, modify}
use capability_os.Engine.Steps.{
  Services, Engine, error_code, call_tool, store_result, patch_state, succeeded, note_failure,
  started, try_step, attempts, set_step_ref, resolve_params, run_action, run_identified,
  run_single_step,
}

module _ {W : Type 0} (services : Services W) where
  open services use {clock}

  -- The single changes. A change to the state manager leaves its inputs alone.
  pub record Stable (P : Engine W → Type 0) : Type 0 where
    pub world : (e : Engine W) (w : W) → P e → P (record e { world = w })
    pub step_ref : (e : Engine W) (r : Option String) → P e → P (record e { step_ref = r })
    pub manager :
        (e : Engine W) (state step_outputs : Fields)
        → P e
        → P (record e { manager = record e.manager { state = state; step_outputs = step_outputs } })
    pub retry_count :
        (e : Engine W) (n : ℕ)
        → P e
        → P (record e {
          logger = record e.logger { runtime = record e.logger.runtime { retry_count = n } };
        })
    pub step_started :
        (e : Engine W) (step_id : String) (params : Fields)
        → P e
        → P (record e { logger = mark_step_started clock step_id params e.logger })
    pub step_succeeded :
        (e : Engine W) (step_id : String) (v : Value)
        → P e
        → P (record e { logger = mark_step_succeeded clock step_id v e.manager.state e.logger })
    pub step_failed :
        (e : Engine W) (step_id code message : String)
        → P e
        → P (record e {
          logger = mark_step_failed clock step_id code message e.manager.state e.logger;
        })

  module _ {P : Engine W → Type 0} (stable : Stable P) where
    call_tool-Keeps :
        (action : String) (params : Fields) → Keeps P (call_tool services action params)
    unfolding call_tool
    call_tool-Keeps action params = record { at = λ e h. stable.world e _ h }

    store_result-Keeps : (id : String) (v : Value) → Keeps P (store_result services id v)
    unfolding store_result modify
    store_result-Keeps id v = record { at = λ e h. stable.manager e _ _ h }

    patch_state-Keeps : (v : Value) → Keeps P (patch_state services v)
    unfolding patch_state
    patch_state-Keeps (dict d) = record { at = λ e h. stable.manager e _ _ h }
    patch_state-Keeps null = record { at = λ e h. h }
    patch_state-Keeps _ = record { at = λ e h. h }

    succeeded-Keeps : (id : String) (v : Value) → Keeps P (succeeded services id v)
    unfolding succeeded modify
    succeeded-Keeps id v = record { at = λ e h. stable.step_succeeded e id v h }

    pub note_failure-Keeps : (id : String) (f : Failure) → Keeps P (note_failure services id f)
    unfolding note_failure modify
    note_failure-Keeps id f = record {
      at = λ e h. stable.step_failed e id (error_code f.kind) f.message h;
    }

    started-Keeps : (id : String) (params : Fields) → Keeps P (started services id params)
    unfolding started modify
    started-Keeps id params = record { at = λ e h. stable.step_started e id params h }

    pub set_step_ref-Keeps : (r : Option String) → Keeps P (set_step_ref services r)
    unfolding set_step_ref modify
    set_step_ref-Keeps r = record { at = λ e h. stable.step_ref e r h }

    resolve_params-Keeps : (params : Fields) → Keeps P (resolve_params services params)
    unfolding resolve_params
    resolve_params-Keeps params = record { at = λ e h. h }

    try_step-Keeps :
        (id action : String) (params : Fields) → Keeps P (try_step services id action params)
    unfolding try_step
    try_step-Keeps id action params =
        search
          (keeps_rules, call_tool-Keeps, store_result-Keeps, patch_state-Keeps, succeeded-Keeps)
          depth 8

    attempts-Keeps :
        (n : ℕ) (id action : String) (params : Fields)
        → Keeps P (attempts services n id action params)
    unfolding attempts
    attempts-Keeps zero id action params = search (keeps_rules, started-Keeps, try_step-Keeps)
    attempts-Keeps (suc n) id action params =
        search (keeps_rules, started-Keeps, try_step-Keeps, note_failure-Keeps, attempts-Keeps n)
          depth 8

    run_action-Keeps :
        (id : String) (step : Fields) (action : Option String)
        → Keeps P (run_action services id step action)
    unfolding run_action
    run_action-Keeps id step none = search keeps_rules
    run_action-Keeps id step (some action) =
        search (keeps_rules, set_step_ref-Keeps, resolve_params-Keeps, attempts-Keeps) depth 8

    run_identified-Keeps :
        (step : Fields) (id : Option String) → Keeps P (run_identified services step id)
    unfolding run_identified
    run_identified-Keeps step none = search keeps_rules
    run_identified-Keeps step (some id) = search run_action-Keeps

    pub run_single_step-Keeps : (step : Fields) → Keeps P (run_single_step services step)
    unfolding run_single_step
    run_single_step-Keeps step = search run_identified-Keeps
