-- ===== src/Engine/Log.antt =====
-- The event log and the verdict of an execution by
-- system/core/capability_engine/capability_engine.py.
use mathlib.Core.List.{map-append}
use capability_os.Base.{
  String, ◌≡◌, refl, Option, none, some, List, [], ◌∷◌, ◌++◌, map, All, All-append, ap, ◌∙◌, false,
  ◌==◌,
}
use capability_os.Value.{Fields, end, field, list, update}
use capability_os.State.{StateManager, init}
use capability_os.Observation.{
  Event, execution_started, capability_resolved, validation_passed, step_started, step_succeeded,
  step_failed, execution_finished, Entry, Runtime, mark_step_started, mark_step_succeeded,
  mark_step_failed,
}
use capability_os.Exec.{ErrorKind, variable_resolution, Failure, Result, ok, err}
use capability_os.Engine.Steps.{Services, Engine, error_code}
use capability_os.Engine.Steps.Frame.{Stable}
use capability_os.Engine.Frame.{run_mode-Keeps}
use capability_os.Engine.{
  Mode, Outcome, success, rejected, failed, run_mode, start_engine, conclude, fail, run_strategy,
  inject_memories, memory_items, log_failed_step,
}

abbrev pub IsStepEvent : Event → Type 0
IsStepEvent step_started = Unit
IsStepEvent step_succeeded = Unit
IsStepEvent step_failed = Unit
IsStepEvent _ = ⊥

abbrev pub events : Runtime → List Event
events r = map (λ (e : Entry). e.event) r.logs

-- An execution that runs: the three opening events, and then events of steps.
record IsRunning {W : Type 0} (inputs : Fields) (id capability : String) (e : Engine W)
    : Type 0 where
  steps : List Event
  opened :
      events e.logger.runtime ≡ execution_started ∷ capability_resolved ∷ validation_passed ∷ steps
  only_steps : All IsStepEvent steps
  same_inputs : e.manager.inputs ≡ inputs
  same_id : e.logger.runtime.execution_id ≡ id
  same_capability : e.logger.runtime.capability_id ≡ capability

events-append :
    (logs : List Entry) (x : Entry) (head : List Event)
    → map (λ (e : Entry). e.event) logs ≡ head
    → map (λ (e : Entry). e.event) (logs ++ x ∷ []) ≡ head ++ x.event ∷ []
events-append logs x head h =
    map-append _ logs (x ∷ []) ∙ ap (λ (l : List Event). l ++ x.event ∷ []) h

module _ {W : Type 0} (services : Services W) (inputs : Fields) (id capability : String) where
  IsRunning-Stable : Stable services (IsRunning inputs id capability)
  unfolding mark_step_started mark_step_succeeded mark_step_failed
  IsRunning-Stable = record {
    world = λ e w h. record {
      steps = h.steps;
      opened = h.opened;
      only_steps = h.only_steps;
      same_inputs = h.same_inputs;
      same_id = h.same_id;
      same_capability = h.same_capability;
    };
    step_ref = λ e r h. record {
      steps = h.steps;
      opened = h.opened;
      only_steps = h.only_steps;
      same_inputs = h.same_inputs;
      same_id = h.same_id;
      same_capability = h.same_capability;
    };
    manager = λ e s o h. record {
      steps = h.steps;
      opened = h.opened;
      only_steps = h.only_steps;
      same_inputs = h.same_inputs;
      same_id = h.same_id;
      same_capability = h.same_capability;
    };
    retry_count = λ e n h. record {
      steps = h.steps;
      opened = h.opened;
      only_steps = h.only_steps;
      same_inputs = h.same_inputs;
      same_id = h.same_id;
      same_capability = h.same_capability;
    };
    step_started = λ e i p h. record {
      steps = h.steps ++ step_started ∷ [];
      opened = events-append _ _ _ h.opened;
      only_steps = All-append IsStepEvent h.steps (step_started ∷ []) h.only_steps (tt, tt);
      same_inputs = h.same_inputs;
      same_id = h.same_id;
      same_capability = h.same_capability;
    };
    step_succeeded = λ e i v h. record {
      steps = h.steps ++ step_succeeded ∷ [];
      opened = events-append _ _ _ h.opened;
      only_steps = All-append IsStepEvent h.steps (step_succeeded ∷ []) h.only_steps (tt, tt);
      same_inputs = h.same_inputs;
      same_id = h.same_id;
      same_capability = h.same_capability;
    };
    step_failed = λ e i c m h. record {
      steps = h.steps ++ step_failed ∷ [];
      opened = events-append _ _ _ h.opened;
      only_steps = All-append IsStepEvent h.steps (step_failed ∷ []) h.only_steps (tt, tt);
      same_inputs = h.same_inputs;
      same_id = h.same_id;
      same_capability = h.same_capability;
    };
  }

-- A runtime model that is finished: the opening events, events of steps, and the closing event,
-- each of the four others exactly once.
pub record IsClosed (id capability status : String) (r : Runtime) : Type 0 where
  pub steps : List Event
  pub log :
      events r
      ≡ execution_started
        ∷ capability_resolved
        ∷ validation_passed
        ∷ (steps ++ execution_finished ∷ [])
  pub only_steps : All IsStepEvent steps
  pub same_id : r.execution_id ≡ id
  pub same_capability : r.capability_id ≡ capability
  pub same_status : r.status ≡ status

-- What an outcome has to show; a strategy that has started is never rejected.
abbrev pub IsVerdict : String → String → Outcome → Type 0
IsVerdict id capability (success r) =
    IsClosed id capability "ready" r.runtime
    × (r.runtime.error_code ≡ none)
    × (r.runtime.failed_step ≡ none)
    × (r.execution_id ≡ id)
    × (r.capability_id ≡ capability)
    × (r.final_output ≡ r.runtime.final_output)
IsVerdict id capability (failed message r code) =
    IsClosed id capability "error" r
    × (r.error_code ≡ some code)
    × (r.error_message ≡ some message)
    × (r.final_output ≡ end)
    × ((k : ErrorKind) × (code ≡ error_code k))
IsVerdict id capability (rejected f) = ⊥

error_code_nonblank : (k : ErrorKind) → (error_code k == "") ≡ false
unfolding error_code
error_code_nonblank variable_resolution = refl
error_code_nonblank _ = refl

module _ {W : Type 0} (services : Services W) where
  inject-inputs :
      (hits : List Fields) (m : StateManager) → (inject_memories hits m).inputs ≡ m.inputs
  unfolding inject_memories
  inject-inputs [] m = refl
  inject-inputs (h ∷ hs) m =
      elim (memory_items (h ∷ hs))
        as (λ r.
          (elim r as (λ _. StateManager) [
            | err f ↦ m
            | ok l ↦ record m { state = update m.state (field "relevant_memories" (list l) end) }
          ]).inputs
          ≡ m.inputs) [ ok l ↦ refl | err f ↦ refl ]

  start_engine-IsRunning :
      (id capability : String) (inputs : Fields) (world : W)
      → IsRunning inputs id capability (start_engine services id capability inputs world)
  unfolding start_engine
  start_engine-IsRunning id capability inputs world = record {
    steps = [];
    opened = refl;
    only_steps = tt;
    same_inputs = inject-inputs (services.recall_semantic inputs) (init inputs);
    same_id = refl;
    same_capability = refl;
  }

  module _ (id capability : String) (inputs : Fields) where
    log_failed_step-IsRunning :
        (r : Option String) (f : Failure) (e : Engine W)
        → IsRunning inputs id capability e
        → IsRunning inputs id capability (record e { logger = log_failed_step services r f e })
    unfolding log_failed_step
    log_failed_step-IsRunning none f e h = h
    log_failed_step-IsRunning (some step_id) f e h =
        (IsRunning-Stable services inputs id capability).step_failed e step_id (error_code f.kind)
          f.message h

    fail-IsVerdict :
        (f : Failure) (e : Engine W)
        → IsRunning inputs id capability e
        → IsVerdict id capability (fail services f e)
    unfolding fail
    fail-IsVerdict f e h =
        let h' = log_failed_step-IsRunning e.step_ref f e h in
        rw (error_code_nonblank f.kind, IsVerdict)
          (
            record {
              steps = h'.steps;
              log = events-append _ _ _ h'.opened;
              only_steps = h'.only_steps;
              same_id = h'.same_id;
              same_capability = h'.same_capability;
              same_status = refl;
            },
            refl,
            refl,
            refl,
            (f.kind, refl),
          )

    conclude-IsVerdict :
        (r : Result Fields) (e : Engine W)
        → IsRunning inputs id capability e
        → IsVerdict id capability (conclude services capability r e)
    unfolding conclude
    conclude-IsVerdict (ok out) e h = (
      record {
        steps = h.steps;
        log = events-append _ _ _ h.opened;
        only_steps = h.only_steps;
        same_id = h.same_id;
        same_capability = h.same_capability;
        same_status = refl;
      },
      refl,
      refl,
      h.same_id,
      refl,
      refl,
    )
    conclude-IsVerdict (err f) e h = fail-IsVerdict f e h

-- Whatever the tools do, and in every mode, a strategy that starts ends in a success or in an
-- execution error, and is never rejected. Its log is the three opening events, then events of
-- steps alone, then one `execution_finished`. A success has status "ready", no error code and no
-- failed step, and returns the runtime model's output; a failure has status "error", an empty
-- output, and carries its message and one of the engine's own error codes.
pub run_strategy-IsVerdict :
    {W : Type 0} (services : Services W) (id capability : String) (mode : Mode)
    (strategy inputs : Fields) (world : W)
    → IsVerdict id capability (run_strategy services id capability mode strategy inputs world).0
unfolding run_strategy
run_strategy-IsVerdict services id capability mode strategy inputs world =
    let out = run_mode services mode strategy (start_engine services id capability inputs world) in
    conclude-IsVerdict services id capability inputs out.0 out.1 (
      (run_mode-Keeps services (IsRunning-Stable services inputs id capability) mode strategy).at _
        (start_engine-IsRunning services id capability inputs world))
