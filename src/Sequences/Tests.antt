-- ===== src/Sequences/Tests.antt =====
-- Runs of system/core/sequences/model.py.
use capability_os.Base.{true, String, List, [], ◌∷◌, ◌≡◌, refl}
use capability_os.Value.{text, list, nil, cons, end, field}
use capability_os.Exec.{ok}
use capability_os.Sequences.{
  SequenceStep, SequenceDefinition, to_dict, refuse, is_sequence_id, parse_sequence_definition,
}
use capability_os.Sequences.Accepted.{IsSequence}
use capability_os.Sequences.Valid.{parse-IsSequence}

abbrev step : String → String → SequenceStep
step id template = record {
  step_id = id;
  capability = "read_file";
  inputs = field "paths" (list (cons (text template) nil)) end;
}

abbrev sequence : List SequenceStep → SequenceDefinition
sequence steps = record { sequence_id = "daily_build"; name = "Daily build"; steps = steps }

-- The second step takes what the first one has read.
abbrev build : SequenceDefinition
build =
    sequence (
      step "first" "{{inputs.root}}/list" ∷ step "second" "{{ steps.first.outputs.path }}.txt" ∷ [])

build_accepted : parse_sequence_definition (to_dict build) ≡ ok build
unfolding parse_sequence_definition to_dict
build_accepted = refl

own_output_refused :
    parse_sequence_definition
      (to_dict (sequence (step "first" "{{steps.first.outputs.path}}" ∷ [])))
    ≡ refuse "Step 'first' references step 'first' before it is available."
unfolding parse_sequence_definition to_dict
own_output_refused = refl

double_refused :
    parse_sequence_definition (to_dict (sequence (step "first" "a" ∷ step "first" "b" ∷ [])))
    ≡ refuse "Duplicate sequence step_id 'first'."
unfolding parse_sequence_definition to_dict
double_refused = refl

no_steps_refused :
    parse_sequence_definition (to_dict (sequence []))
    ≡ refuse "Sequence field 'steps' must be a non-empty list."
unfolding parse_sequence_definition to_dict
no_steps_refused = refl

one_word_refused :
    parse_sequence_definition
      (to_dict (sequence (record { step_id = "a"; capability = "read"; inputs = end } ∷ [])))
    ≡ refuse "Sequence step 'a' has invalid 'capability'. Use capability id snake_case."
unfolding parse_sequence_definition to_dict
one_word_refused = refl

-- `$` of a pattern also matches before a newline at the end.
newline_accepted : is_sequence_id "daily_build\n" ≡ true
unfolding is_sequence_id
newline_accepted = refl

parse-IsSequence_example : IsSequence build
parse-IsSequence_example = parse-IsSequence (to_dict build) build build_accepted

build-IsSequence : IsSequence build
build-IsSequence = parse-IsSequence (to_dict build) build build_accepted
