-- ===== src/Sequences/Runner/Tests.antt =====
-- Runs of system/core/sequences/runner.py.
use capability_os.Base.{
  ℕ, ◌+◌, String, Option, none, some, List, [], ◌∷◌, ◌==◌, if◌then◌else◌, ◌⋯◌, show_int, pos, ◌≡◌,
  refl,
}
use capability_os.Value.{Value, text, dict, Fields, end, field, get}
use capability_os.Sequences.{SequenceStep, SequenceDefinition, to_dict}
use capability_os.Sequences.Runner.{
  ErrorClass, Tried, raised, done, Executor, Services, Outcome, success, rejected, failed,
  start_run, run_definition, run,
}
use capability_os.Sequences.Runner.Ended.{IsLogged, run_definition-IsLogged}

-- A capability that hands its path on, one that raises, and a world that counts the calls.
abbrev execute : String → Executor ℕ
execute capability inputs n =
    if capability == "read_file"
    then (done (field "final_output" (dict inputs) end), n + 1)
    else (raised (record { class = ErrorClass.capability_execution; message = "broken" }), n + 1)

abbrev services : Services ℕ
services = record {
  clock = λ n. n;
  iso = λ n. show_int (pos n);
  capability_executor = some execute;
  capability_registry = λ c. none;
  engine_execute = λ contract inputs n. (done end, n);
}

abbrev step : String → String → String → SequenceStep
step id capability path = record {
  step_id = id;
  capability = capability;
  inputs = field "path" (text path) end;
}

abbrev sequence : List SequenceStep → SequenceDefinition
sequence steps = record { sequence_id = "daily_build"; name = "Daily build"; steps = steps }

-- The second step takes what the first one has put out.
abbrev chained : SequenceDefinition
chained = sequence (
    step "first" "read_file" "{{inputs.root}}"
    ∷ step "second" "read_file" "{{steps.first.outputs.path}}/b"
    ∷ [])

abbrev breaking : SequenceDefinition
breaking = sequence (
    step "first" "read_file" "a"
    ∷ step "second" "break_file" "b"
    ∷ step "third" "read_file" "c"
    ∷ [])

abbrev inputs : Fields
inputs = field "root" (text "/a") end

abbrev stored : String → Tried Value
stored id = raised (record { class = ErrorClass.sequence_storage; message = id ⋯ " not found" })

abbrev last_output : Outcome → Option Value
last_output (success runtime d) = get "last_output" d
last_output o = none

abbrev message_of : Outcome → String
message_of (success runtime d) = ""
message_of (rejected e) = e.message
message_of (failed message runtime code) = message

outputs_chained :
    last_output (run services stored "e" none (some (to_dict chained)) (some (dict inputs)) 0).0
    ≡ some (dict (field "path" (text "/a/b") end))
unfolding run to_dict get
outputs_chained = refl

-- The third step is not called.
second_step_raises : (run_definition services "e" breaking inputs 0).1 ≡ 2
unfolding run_definition
second_step_raises = refl

failed_message : message_of (run_definition services "e" breaking inputs 0).0 ≡ "broken"
unfolding run_definition
failed_message = refl

nothing_given :
    message_of (run services stored "e" none none none 0).0
    ≡ "run_sequence requires 'sequence_id' or 'sequence_definition'."
unfolding run
nothing_given = refl

storage_raises : message_of (run services stored "e" (some "x") none none 0).0 ≡ "x not found"
unfolding run
storage_raises = refl

run_definition-IsLogged_example :
    IsLogged services breaking.steps
      (start_run services "e" inputs 0)
      (run_definition services "e" breaking inputs 0).0
run_definition-IsLogged_example = run_definition-IsLogged services "e" breaking inputs 0
