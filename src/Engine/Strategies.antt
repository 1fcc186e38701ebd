-- ===== src/Engine/Strategies.antt =====
-- The four strategies of system/core/capability_engine/capability_engine.py. Lists of steps are
-- lists of dicts, as a contract's schema makes them; anything else raises where it is read.
pub mod Frame
use capability_os.Base.{
  ℕ, zero, suc, ◌+◌, String, Bool, true, false, Option, none, some, if◌then◌else◌,
}
use capability_os.Value.{Value, null, list, dict, Items, nil, cons, Fields, end, get}
use capability_os.Observation.{get_runtime_model}
use capability_os.Exec.{
  ErrorKind, Failure, Result, ok, err, raise, Exec, pure, throw, modify, lift, ◌>>=◌, ◌>>◌, catch,
}
use capability_os.Engine.Steps.{
  Services, Engine, fields_of, items_of, retries, backoff, note_failure, set_step_ref,
  run_single_step,
}

abbrev step_of : Value → Result Fields
step_of v = fields_of (some v)

module _ {W : Type 0} (services : Services W) where
  open services use {iso, evaluate_condition}

  -- The loop, from the output of the last step before.
  unfoldable pub sequential_from : Fields → Items → Exec (Engine W) Fields
  unfolding run_single_step fields_of
  sequential_from final_output nil = pure final_output
  sequential_from final_output (cons step steps) = do
    fields ← lift (step_of step)
    output ← run_single_step services fields
    sequential_from output steps

  unfoldable pub run_steps_sequential : Items → Exec (Engine W) Fields
  unfolding sequential_from
  run_steps_sequential = sequential_from end

  -- A step without a condition runs.
  condition_holds : Option Value → Exec (Engine W) Bool
  unfolding get_runtime_model
  condition_holds none e = (ok true, e)
  condition_holds (some null) e = (ok true, e)
  condition_holds (some v) e =
      (evaluate_condition (get_runtime_model iso e.logger.runtime) e.manager v, e)

  conditional_step : Bool → Fields → Fields → Exec (Engine W) Fields
  unfolding run_single_step
  conditional_step true fields final_output = run_single_step services fields
  conditional_step false fields final_output = pure final_output

  unfoldable pub conditional_from : Fields → Items → Exec (Engine W) Fields
  unfolding condition_holds conditional_step fields_of
  conditional_from final_output nil = pure final_output
  conditional_from final_output (cons step steps) = do
    fields ← lift (step_of step)
    holds ← condition_holds (get "condition" fields)
    output ← conditional_step holds fields final_output
    conditional_from output steps

  unfoldable pub run_conditional : Fields → Exec (Engine W) Fields
  unfolding conditional_from items_of
  run_conditional strategy = do
    steps ← lift (items_of (get "steps" strategy))
    conditional_from end steps

  -- state_manager.step_outputs = {}; state_manager.state = {}
  clear_state : Exec (Engine W) Unit
  clear_state =
      modify (λ e. record e { manager = record e.manager { step_outputs = end; state = end } })

  -- What precedes an attempt but the first.
  reset : ℕ → Exec (Engine W) Unit
  unfolding clear_state
  reset zero = pure tt
  reset (suc n) =
      clear_state
      >> modify (λ e. record e {
        logger = record e.logger { runtime = record e.logger.runtime { retry_count = suc n } };
      })

  -- The failure is logged for the current step, if there is one.
  log_step : Failure → Option String → Exec (Engine W) Unit
  unfolding note_failure
  log_step f none = pure tt
  log_step f (some step_id) = note_failure services step_id f

  log_current : Failure → Exec (Engine W) Unit
  unfolding log_step
  log_current f e = log_step f e.step_ref e

  -- The loop over the attempts, by those that are left after this one and by this one's number.
  unfoldable pub retry_rounds : ℕ → ℕ → Items → Exec (Engine W) Fields
  unfolding reset log_current set_step_ref run_steps_sequential
  retry_rounds zero attempt steps = reset attempt >> run_steps_sequential steps
  retry_rounds (suc left) attempt steps =
      reset attempt
      >> catch (run_steps_sequential steps) (λ f.
        log_current f >> set_step_ref services none >> retry_rounds left (suc attempt) steps)

  unfoldable pub run_retry_policy : Fields → Exec (Engine W) Fields
  unfolding retry_rounds fields_of items_of retries backoff
  run_retry_policy strategy = do
    cfg ← lift (fields_of (get "retry_policy" strategy))
    left ← lift (retries cfg)
    pause ← lift (backoff cfg)
    steps ← lift (items_of (get "steps" strategy))
    retry_rounds left 0 steps

  recover : Items → Failure → Exec (Engine W) Fields
  unfolding log_current clear_state set_step_ref run_steps_sequential
  recover nil f = throw f
  recover (cons step steps) f = do
    log_current f
    clear_state
    set_step_ref services none
    run_steps_sequential (cons step steps)

  fallback_steps : Option Value → Items
  fallback_steps (some (list l)) = l
  fallback_steps _ = nil

  unfoldable pub run_fallback : Fields → Exec (Engine W) Fields
  unfolding recover fallback_steps items_of run_steps_sequential
  run_fallback strategy =
      catch (lift (items_of (get "steps" strategy)) >>= run_steps_sequential)
        (recover (fallback_steps (get "fallback_steps" strategy)))
