-- ===== src/Sequences/Runner/Ended.antt =====
-- How a run of system/core/sequences/runner.py ends.
use mathlib.Core.List.{append_assoc}
use capability_os.Base.{
  String, false, Option, none, some, List, [], ◌∷◌, ◌++◌, ◌==◌, ◌≡◌, refl, ap, ◌∙◌,
}
use capability_os.Value.{null, text, dict, Fields, end, field}
use capability_os.Observation.{
  Event, execution_started, capability_resolved, validation_passed, execution_finished, Runtime,
  mark_step_failed, optional,
}
use capability_os.Observation.Told.{tell, tell_all, tell-append, failure_told}
use capability_os.Sequences.{SequenceStep, SequenceDefinition}
use capability_os.Sequences.Runner.{
  ErrorClass, Raised, error_code, Services, Run, Outcome, success, rejected, failed, note_failed,
  start_run, final_output_of, fail, conclude, run_definition,
}
use capability_os.Sequences.Runner.Logged.{Told, Goes, Ends, run_steps-Ends}

-- What a run is reported with, by the class of its exception.
abbrev pub reported : ErrorClass → String
reported ErrorClass.variable_resolution = "variable_resolution_error"
reported ErrorClass.capability_execution = "capability_execution_error"
reported ErrorClass.capability_input = "capability_execution_error"
reported ErrorClass.phase7_execution = "capability_execution_error"
reported ErrorClass.sequence_validation = "sequence_validation_error"
reported ErrorClass.sequence_storage = "sequence_storage_error"
reported ErrorClass.other = "sequence_execution_error"

abbrev pub opened : Told
opened =
    (execution_started, field "capability_id" (text "run_sequence") end)
    ∷ (capability_resolved, end)
    ∷ (validation_passed, end)
    ∷ []

abbrev pub success_closed : Fields → Event × Fields
success_closed final_output = (
  execution_finished,
  field "status" (text "ready") (
      field "final_output" (dict final_output)
        (field "error_code" null (field "error_message" null (field "failed_step" null end)))),
)

abbrev pub failure_closed : String → String → String → Event × Fields
failure_closed id code message = (
  execution_finished,
  field "status" (text "error") (
      field "final_output" (dict end) (
        field "error_code" (text code)
          (field "error_message" (text message) (field "failed_step" (text id) end)))),
)

module _ {W : Type 0} (services : Services W) where
  -- A run that has failed at a step.
  pub record IsFailed (steps : List SequenceStep) (r : Run W) (message code : String)
      (runtime : Runtime) : Type 0 where
    pub middle : Told
    pub step_id : String
    pub cause : Raised
    pub goes : Goes services steps r middle (some (step_id, cause))
    pub same_message : message ≡ cause.message
    pub same_code : code ≡ reported cause.class
    pub failed_step : runtime.failed_step ≡ some step_id
    pub status : runtime.status ≡ "error"
    pub error_code : runtime.error_code ≡ some (reported cause.class)
    pub error_message : runtime.error_message ≡ some cause.message
    pub logged :
        tell_all runtime.logs
        ≡ opened
          ++ middle
          ++ failure_told step_id (reported cause.class) cause.message
            ∷ failure_closed step_id (reported cause.class) cause.message
            ∷ []

  abbrev pub IsLogged : List SequenceStep → Run W → Outcome → Type 0
  IsLogged steps r (success runtime final_output) =
      (runtime.status ≡ "ready")
      × (runtime.final_output ≡ final_output)
      × ((middle : Told) × Goes services steps r middle none
          × (tell_all runtime.logs ≡ opened ++ middle ++ success_closed final_output ∷ []))
  IsLogged steps r (failed message runtime code) = IsFailed steps r message code runtime
  IsLogged steps r (rejected e) = ⊥

code_filled : (c : ErrorClass) → error_code c == "" ≡ false
unfolding error_code
code_filled ErrorClass.variable_resolution = refl
code_filled ErrorClass.capability_execution = refl
code_filled ErrorClass.capability_input = refl
code_filled ErrorClass.phase7_execution = refl
code_filled ErrorClass.sequence_validation = refl
code_filled ErrorClass.sequence_storage = refl
code_filled ErrorClass.other = refl

code-reported : (c : ErrorClass) → error_code c ≡ reported c
unfolding error_code
code-reported ErrorClass.variable_resolution = refl
code-reported ErrorClass.capability_execution = refl
code-reported ErrorClass.capability_input = refl
code-reported ErrorClass.phase7_execution = refl
code-reported ErrorClass.sequence_validation = refl
code-reported ErrorClass.sequence_storage = refl
code-reported ErrorClass.other = refl

module _ {W : Type 0} (services : Services W) where
  tell-note_failed :
      (e : Raised) (r : Run W) (o : Option String) (step_id : String)
      → o ≡ some step_id
      → tell (note_failed services e r o)
        ≡ tell r.logger ++ failure_told step_id (reported e.class) e.message ∷ []
  unfolding note_failed mark_step_failed
  tell-note_failed e r (some id) step_id h =
      let same : id ≡ step_id = cc in
      tell-append _ _
      ∙ ap (λ (x : String × String). tell r.logger ++ failure_told x.0 x.1 e.message ∷ [])
          (λ i. (same i, code-reported e.class i))
  tell-note_failed e r none step_id h = cc

  -- The opening events, those of the steps, and the two of a failure.
  failure_logged :
      (e : Raised) (r r' : Run W) (l : Told) (step_id : String)
      → tell r.logger ≡ opened
      → tell r'.logger ≡ tell r.logger ++ l
      → r'.current_step ≡ some step_id
      → tell (note_failed services e r' r'.current_step)
        ≡ opened ++ l ++ failure_told step_id (reported e.class) e.message ∷ []
  failure_logged e r r' l step_id start logged at =
      tell-note_failed e r' r'.current_step step_id at
      ∙ ap (λ (x : Told). x ++ failure_told step_id (reported e.class) e.message ∷ [])
          (logged ∙ ap (λ (x : Told). x ++ l) start)
      ∙ append_assoc opened l (failure_told step_id (reported e.class) e.message ∷ [])

  closed :
      (o : Option String) (step_id message code : String) (c : ErrorClass)
      → o ≡ some step_id
      → code ≡ reported c
      → (
        execution_finished,
        field "status" (text "error") (
            field "final_output" (dict end) (
              field "error_code"
                (text code)
                (field "error_message" (text message) (field "failed_step" (optional o) end)))),
      )
        ≡ failure_closed step_id (reported c) message
  closed (some id) step_id message code c at same =
      let same_id : id ≡ step_id = cc in
      ap (λ (x : String × String). failure_closed x.0 x.1 message) (λ i. (same_id i, same i))
  closed none step_id message code c at same = cc

  fail-IsLogged :
      (e : Raised) (steps : List SequenceStep) (r r' : Run W)
      → tell r.logger ≡ opened
      → Ends services steps r (some e, r')
      → IsLogged services steps r (fail services e r')
  unfolding fail
  fail-IsLogged e steps r r' start (l, step_id, goes, logged, at) =
      rw (code_filled e.class, fail)
        (record {
          middle = l;
          step_id = step_id;
          cause = e;
          goes = goes;
          same_message = refl;
          same_code = code-reported e.class;
          failed_step = at;
          status = refl;
          error_code = ap (λ (c : String). some c) (code-reported e.class);
          error_message = refl;
          logged =
              tell-append _ _
              ∙ ap (λ (x : Told × (Event × Fields)). x.0 ++ x.1 ∷ [])
                  (λ i. (
                    failure_logged e r r' l step_id start logged at i,
                    closed r'.current_step step_id e.message (error_code e.class) e.class at
                        (code-reported e.class) i,
                  ))
              ∙ append_assoc opened (l ++ failure_told step_id (reported e.class) e.message ∷ [])
                  (failure_closed step_id (reported e.class) e.message ∷ [])
              ∙ ap (λ (x : Told). opened ++ x)
                  (append_assoc l (failure_told step_id (reported e.class) e.message ∷ [])
                    (failure_closed step_id (reported e.class) e.message ∷ []));
        })

  conclude-IsLogged :
      (definition : SequenceDefinition) (r : Run W) (end_ : Option Raised × Run W)
      → tell r.logger ≡ opened
      → Ends services definition.steps r end_
      → IsLogged services definition.steps r (conclude services definition end_.0 end_.1)
  unfolding conclude final_output_of
  conclude-IsLogged definition r (none, r') start (l, goes, logged) =
      let last : Event × Fields = success_closed (final_output_of services definition r') in
      (
        refl,
        refl,
        (
          l,
          goes,
          tell-append _ _
              ∙ ap (λ (x : Told). x ++ last ∷ []) (logged ∙ ap (λ (x : Told). x ++ l) start)
              ∙ append_assoc opened l (last ∷ []),
        ),
      )
  conclude-IsLogged definition r (some e, r') start ends =
      fail-IsLogged e definition.steps r r' start ends

  -- However its capabilities behave, a run of a sequence ends with a runtime model. The steps go one
  -- after another, each with its inputs resolved against what the run has so far and with one call
  -- of its capability, on the world that the step before it has left; the first one whose inputs or whose
  -- output cannot be resolved, or whose call raises, is the last. The log, but for its times, is
  -- the opening, a start with the inputs and a success with the summary of each step that goes well, and
  -- the end. It is a success where all go well. Otherwise the outcome, the model and the last
  -- two events, behind a start of the step at most, name this step, the message of the exception and
  -- the code of its class.
  pub run_definition-IsLogged :
      (execution_id : String) (definition : SequenceDefinition) (inputs : Fields) (w : W)
      → IsLogged services definition.steps
          (start_run services execution_id inputs w)
          (run_definition services execution_id definition inputs w).0
  unfolding run_definition start_run
  run_definition-IsLogged execution_id definition inputs w =
      conclude-IsLogged definition (start_run services execution_id inputs w) _ refl
        (run_steps-Ends services definition.steps (start_run services execution_id inputs w))
