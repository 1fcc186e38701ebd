-- ===== src/Engine/Strategies/Frame.antt =====
-- The frame rule of a step, carried over to the four strategies of
-- system/core/capability_engine/capability_engine.py.
use capability_os.Base.{String, ℕ, zero, suc, Bool, true, false, Option, none, some}
use capability_os.Value.{Value, null, Items, nil, cons, Fields}
use capability_os.Exec.{Failure, ◌>>=◌, modify, Keeps, keeps_rules}
use capability_os.Engine.Steps.{Services, Engine}
use capability_os.Engine.Steps.Frame.{
  Stable, note_failure-Keeps, set_step_ref-Keeps, run_single_step-Keeps,
}
use capability_os.Engine.Strategies.{
  sequential_from, run_steps_sequential, condition_holds, conditional_step, conditional_from,
  run_conditional, clear_state, reset, log_step, log_current, retry_rounds, run_retry_policy,
  recover, run_fallback,
}

module _ {W : Type 0} (services : Services W) {P : Engine W → Type 0}
    (stable : Stable services P) where
  sequential_from-Keeps :
      (out : Fields) (steps : Items) → Keeps P (sequential_from services out steps)
  unfolding sequential_from
  sequential_from-Keeps out nil = search keeps_rules
  sequential_from-Keeps out (cons step steps) =
      search
        (
          keeps_rules,
          run_single_step-Keeps services stable,
          λ (o : Fields). sequential_from-Keeps o steps,
        )
        depth 8

  pub run_steps_sequential-Keeps : (steps : Items) → Keeps P (run_steps_sequential services steps)
  unfolding run_steps_sequential
  run_steps_sequential-Keeps steps = search sequential_from-Keeps

  condition_holds-Keeps : (v : Option Value) → Keeps P (condition_holds services v)
  unfolding condition_holds
  condition_holds-Keeps none = record { at = λ e h. h }
  condition_holds-Keeps (some null) = record { at = λ e h. h }
  condition_holds-Keeps (some _) = record { at = λ e h. h }

  conditional_step-Keeps :
      (holds : Bool) (fields out : Fields) → Keeps P (conditional_step services holds fields out)
  unfolding conditional_step
  conditional_step-Keeps true fields out = search (run_single_step-Keeps services stable)
  conditional_step-Keeps false fields out = search keeps_rules

  conditional_from-Keeps :
      (out : Fields) (steps : Items) → Keeps P (conditional_from services out steps)
  unfolding conditional_from
  conditional_from-Keeps out nil = search keeps_rules
  conditional_from-Keeps out (cons step steps) =
      search
        (
          keeps_rules,
          condition_holds-Keeps,
          conditional_step-Keeps,
          λ (o : Fields). conditional_from-Keeps o steps,
        )
        depth 8

  pub run_conditional-Keeps : (strategy : Fields) → Keeps P (run_conditional services strategy)
  unfolding run_conditional
  run_conditional-Keeps strategy = search (keeps_rules, conditional_from-Keeps)

  clear_state-Keeps : Keeps P (clear_state services)
  unfolding clear_state modify
  clear_state-Keeps = record { at = λ e h. stable.manager e _ _ h }

  reset-Keeps : (attempt : ℕ) → Keeps P (reset services attempt)
  unfolding reset clear_state ◌>>=◌
  reset-Keeps zero = record { at = λ e h. h }
  reset-Keeps (suc n) = record { at = λ e h. stable.retry_count _ (suc n) (stable.manager e _ _ h) }

  log_step-Keeps : (f : Failure) (r : Option String) → Keeps P (log_step services f r)
  unfolding log_step
  log_step-Keeps f none = search keeps_rules
  log_step-Keeps f (some id) = search (note_failure-Keeps services stable)

  log_current-Keeps : (f : Failure) → Keeps P (log_current services f)
  unfolding log_current
  log_current-Keeps f = record { at = λ e h. (log_step-Keeps f e.step_ref).at e h }

  retry_rounds-Keeps :
      (left attempt : ℕ) (steps : Items) → Keeps P (retry_rounds services left attempt steps)
  unfolding retry_rounds
  retry_rounds-Keeps zero attempt steps =
      search (keeps_rules, reset-Keeps, run_steps_sequential-Keeps)
  retry_rounds-Keeps (suc left) attempt steps =
      search
        (
          keeps_rules,
          reset-Keeps,
          run_steps_sequential-Keeps,
          log_current-Keeps,
          set_step_ref-Keeps services stable,
          retry_rounds-Keeps left,
        )
        depth 8

  pub run_retry_policy-Keeps : (strategy : Fields) → Keeps P (run_retry_policy services strategy)
  unfolding run_retry_policy
  run_retry_policy-Keeps strategy = search (keeps_rules, retry_rounds-Keeps) depth 9

  recover-Keeps : (steps : Items) (f : Failure) → Keeps P (recover services steps f)
  unfolding recover
  recover-Keeps nil f = search keeps_rules
  recover-Keeps (cons step steps) f =
      search
        (
          keeps_rules,
          log_current-Keeps,
          clear_state-Keeps,
          set_step_ref-Keeps services stable,
          run_steps_sequential-Keeps,
        )
        depth 8

  pub run_fallback-Keeps : (strategy : Fields) → Keeps P (run_fallback services strategy)
  unfolding run_fallback
  run_fallback-Keeps strategy =
      search (keeps_rules, run_steps_sequential-Keeps, recover-Keeps) depth 8
