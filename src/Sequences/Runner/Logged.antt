-- ===== src/Sequences/Runner/Logged.antt =====
-- The steps of a run of system/core/sequences/runner.py, and its event log.
use mathlib.Core.List.{append_assoc, append-nil}
use capability_os.Base.{
  String, Option, none, some, List, [], ◌∷◌, ◌++◌, ◌≡◌, ◌⊎◌, refl, sym, ap, ◌∙◌, inl, inr,
}
use capability_os.Value.{Value, text, dict, Fields, end, field, get_or}
use capability_os.State
use capability_os.State.{StateManager, resolve_fields, record_step_output}
use capability_os.Observation.{Event, mark_step_started, mark_step_succeeded, get_runtime_model}
use capability_os.Observation.Told.{tell, tell-append, start_told, success_told}
use capability_os.Sequences.{SequenceStep}
use capability_os.Sequences.Runner.{
  ErrorClass, Raised, Tried, raised, done, Services, Run, merge_output, step_summary,
  execute_step_capability, finish_step, after_call, run_step, run_steps,
}

abbrev pub Told : Type 0
Told = List (Event × Fields)

abbrev pub output_of : Fields → Value
unfolding get_or
output_of result = get_or "final_output" (dict end) result

-- The start of a step with its inputs, and its success.
abbrev pub started : SequenceStep → Fields → Event × Fields
started step inputs =
    start_told step.step_id
      (field "capability" (text step.capability) (field "inputs" (dict inputs) end))

abbrev pub summary_of : SequenceStep → Fields → Value
unfolding step_summary
summary_of step result = dict (step_summary step.capability result (output_of result))

abbrev pub succeeded : SequenceStep → Fields → Event × Fields
succeeded step result = success_told step.step_id (summary_of step result)

abbrev pub unresolvable : String → Raised
unresolvable m = record { class = ErrorClass.variable_resolution; message = m }

Resolved-cases :
    {A : Type 0} (r : State.Resolved A)
    → ((e : String) × (r ≡ State.unresolved e)) ⊎ ((a : A) × (r ≡ State.ok a))
Resolved-cases (State.unresolved e) = inl (e, refl)
Resolved-cases (State.ok a) = inr (a, refl)

-- The events of a step, and those behind it.
joined :
    {W : Type 0} (step : SequenceStep) (inputs result : Fields) (r r' : Run W) (l : Told) {k : Told}
    → k ≡ tell r'.logger ++ l
    → tell r'.logger ≡ tell r.logger ++ started step inputs ∷ succeeded step result ∷ []
    → k ≡ tell r.logger ++ started step inputs ∷ succeeded step result ∷ l
joined step inputs result r r' l later first =
    later
    ∙ ap (λ (x : Told). x ++ l) first
    ∙ append_assoc (tell r.logger) (started step inputs ∷ succeeded step result ∷ []) l

module _ {W : Type 0} (services : Services W) where
  abbrev pub inputs_at : SequenceStep → Run W → State.Resolved Fields
  unfolding resolve_fields get_runtime_model
  inputs_at step r =
      resolve_fields (get_runtime_model services.iso r.logger.runtime) r.manager step.inputs

  abbrev pub called : SequenceStep → Fields → Run W → Tried Fields × W
  unfolding execute_step_capability
  called step inputs r = execute_step_capability services step.capability inputs r.world

  abbrev pub merged : SequenceStep → Fields → Run W → State.Resolved StateManager
  unfolding merge_output record_step_output
  merged step result r =
      let output = output_of result in
      merge_output output (record_step_output step.step_id output r.manager)

  -- A step ends the run with this exception, and has told this.
  pub data Breaks (step : SequenceStep) (r : Run W) : Told → Raised → Type 0 where
    bad_inputs :
        (m : String) → inputs_at step r ≡ State.unresolved m → Breaks step r [] (unresolvable m)
    raised_in :
        (inputs : Fields) (e : Raised) (w : W)
        → inputs_at step r ≡ State.ok inputs
        → called step inputs r ≡ (raised e, w)
        → Breaks step r (started step inputs ∷ []) e
    bad_output :
        (inputs result : Fields) (w : W) (m : String)
        → inputs_at step r ≡ State.ok inputs
        → called step inputs r ≡ (done result, w)
        → merged step result r ≡ State.unresolved m
        → Breaks step r (started step inputs ∷ []) (unresolvable m)

  -- A step goes well, from one state of the run to the next.
  pub record Succeeds (step : SequenceStep) (r r' : Run W) (inputs result : Fields) : Type 0 where
    pub ready : inputs_at step r ≡ State.ok inputs
    pub calls : called step inputs r ≡ (done result, r'.world)
    pub merges : merged step result r ≡ State.ok r'.manager

  -- What the steps of a run tell, and the step and the exception that end it, if one does.
  pub data Goes : List SequenceStep → Run W → Told → Option (String × Raised) → Type 0 where
    all_done : {r : Run W} → Goes [] r [] none
    next :
        {step : SequenceStep} {steps : List SequenceStep} {r r' : Run W} {inputs result : Fields}
        {l : Told} {o : Option (String × Raised)}
        → Succeeds step r r' inputs result
        → Goes steps r' l o
        → Goes (step ∷ steps) r (started step inputs ∷ succeeded step result ∷ l) o
    breaks :
        {step : SequenceStep} {steps : List SequenceStep} {r : Run W} {l : Told} {e : Raised}
        → Breaks step r l e
        → Goes (step ∷ steps) r l (some (step.step_id, e))

  abbrev StepEnds : SequenceStep → Run W → Option Raised × Run W → Type 0
  StepEnds step r (none, r') =
      (inputs : Fields) × (result : Fields) × Succeeds step r r' inputs result
      × (tell r'.logger ≡ tell r.logger ++ started step inputs ∷ succeeded step result ∷ [])
  StepEnds step r (some e, r') =
      (l : Told) × Breaks step r l e
      × (tell r'.logger ≡ tell r.logger ++ l)
      × (r'.current_step ≡ some step.step_id)

  abbrev pub Ends : List SequenceStep → Run W → Option Raised × Run W → Type 0
  Ends steps r (none, r') = (l : Told) × Goes steps r l none × (tell r'.logger ≡ tell r.logger ++ l)
  Ends steps r (some e, r') =
      (l : Told) × (id : String) × Goes steps r l (some (id, e))
      × (tell r'.logger ≡ tell r.logger ++ l)
      × (r'.current_step ≡ some id)

  -- A run behind the call of a step's capability.
  abbrev behind : SequenceStep → Fields → W → Run W → Run W
  unfolding mark_step_started
  behind step inputs w r = record r {
    current_step = some step.step_id;
    logger =
        mark_step_started services.clock step.step_id
          (field "capability" (text step.capability) (field "inputs" (dict inputs) end)) r.logger;
    world = w;
  }

  finish_step-StepEnds :
      (step : SequenceStep) (inputs result : Fields) (w : W) (r : Run W)
      → inputs_at step r ≡ State.ok inputs
      → called step inputs r ≡ (done result, w)
      → StepEnds step r (finish_step services step result (behind step inputs w r))
  unfolding finish_step mark_step_succeeded mark_step_started
  finish_step-StepEnds step inputs result w r ready calls =
      elim (Resolved-cases (merged step result r)) [
        | inl (m, bad) ↦
            rw (bad, finish_step)
              (
                started step inputs ∷ [],
                bad_output inputs result w m ready calls bad,
                tell-append _ _,
                refl,
              )
        | inr (m, good) ↦
            rw (good, finish_step)
              (
                inputs,
                result,
                record { ready = ready; calls = calls; merges = good },
                tell-append _ _
                    ∙ ap (λ (l : Told). l ++ succeeded step result ∷ []) (tell-append _ _)
                    ∙ append_assoc (tell r.logger) (started step inputs ∷ [])
                        (succeeded step result ∷ []),
              )
      ]

  after_call-StepEnds :
      (step : SequenceStep) (inputs : Fields) (result : Tried Fields) (w : W) (r : Run W)
      → inputs_at step r ≡ State.ok inputs
      → called step inputs r ≡ (result, w)
      → StepEnds step r (after_call services step (result, w) (behind step inputs r.world r))
  unfolding after_call mark_step_started
  after_call-StepEnds step inputs (raised e) w r ready calls =
      (started step inputs ∷ [], raised_in inputs e w ready calls, tell-append _ _, refl)
  after_call-StepEnds step inputs (done result) w r ready calls =
      finish_step-StepEnds step inputs result w r ready calls

  run_step-StepEnds : (step : SequenceStep) (r : Run W) → StepEnds step r (run_step services step r)
  unfolding run_step mark_step_started
  run_step-StepEnds step r = elim (Resolved-cases (inputs_at step r)) [
    | inl (m, bad) ↦
        rw (bad, run_step) ([], bad_inputs m bad, sym (append-nil (tell r.logger)), refl)
    | inr (inputs, ready) ↦
        let (result, w) = execute_step_capability services step.capability inputs r.world in
        rw (ready, run_step) (after_call-StepEnds step inputs result w r ready refl)
  ]

  Ends-next :
      (step : SequenceStep) (steps : List SequenceStep) (r r' : Run W)
      (end_ : Option Raised × Run W)
      → StepEnds step r (none, r')
      → Ends steps r' end_
      → Ends (step ∷ steps) r end_
  Ends-next step steps r r' (none, last) (inputs, result, well, first) (l, goes, later) = (
    started step inputs ∷ succeeded step result ∷ l,
    next well goes,
    joined step inputs result r r' l later first,
  )
  Ends-next step steps r r' (some e, last) (inputs, result, well, first) (l, id, goes, later, at) =
      (
        started step inputs ∷ succeeded step result ∷ l,
        id,
        next well goes,
        joined step inputs result r r' l later first,
        at,
      )

  -- `run_step` has ended; what is left of the loop.
  loop_after :
      (step : SequenceStep) (steps : List SequenceStep) (r : Run W) (end_ : Option Raised × Run W)
      → StepEnds step r end_
      → ((r' : Run W) → Ends steps r' (run_steps services steps r'))
      → Ends
          (step ∷ steps)
          r
          (elim end_.0 [ some e ↦ (some e, end_.1) | none ↦ run_steps services steps end_.1 ])
  loop_after step steps r (none, r') first later =
      Ends-next step steps r r' (run_steps services steps r') first (later r')
  loop_after step steps r (some e, r') (l, broken, logged, at) later =
      (l, step.step_id, breaks broken, logged, at)

  pub run_steps-Ends :
      (steps : List SequenceStep) (r : Run W) → Ends steps r (run_steps services steps r)
  unfolding run_steps
  run_steps-Ends [] r = ([], all_done, sym (append-nil (tell r.logger)))
  run_steps-Ends (step ∷ steps) r =
      loop_after step steps r (run_step services step r) (run_step-StepEnds step r)
        (run_steps-Ends steps)
