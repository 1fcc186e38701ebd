-- ===== src/Sequences/Printed.antt =====
-- `to_dict` and `parse_sequence_definition` of system/core/sequences/model.py.
use capability_os.Base.{
  ℕ, suc, String, true, Option, none, some, List, [], ◌∷◌, contains, ◌==◌, eq_iff, strip, show_int,
  pos, All, ◌≡◌, ◌≢◌, refl, Bool-cases, inl, inr,
}
use capability_os.Value.{text, list, dict, end, field, get}
use capability_os.State.Scan.{Piece, plain, token, scan}
use capability_os.Exec.{ok}
use capability_os.Sequences.{
  full_list, SequenceStep, SequenceDefinition, step_items, to_dict, referenced_step, is_available,
  field_strings, check_expression, check_pieces, check_strings, validate_step_templates, parse_step,
  parse_steps, is_named, parse_definition, parse_sequence_definition,
}
use capability_os.Sequences.Accepted.{
  IsSequence, IsReference, AllTokens, ReferBack, NewIds, Canonical,
}

available-holds :
    (available : List String) (o : Option String)
    → ((id : String) → o ≡ some id → contains available id ≡ true)
    → is_available available o ≡ true
available-holds available none h = refl
available-holds available (some id) h = h id refl

check_expression_ok :
    (step_id : String) (available : List String) (expr : String)
    → IsReference available expr
    → check_expression step_id available expr ≡ ok tt
unfolding check_expression
check_expression_ok step_id available expr h =
    rw (h.0, check_expression)
      (rw (available-holds available (referenced_step expr) h.1, check_expression) refl)

check_pieces_ok :
    (step_id : String) (available : List String) (ps : List Piece)
    → AllTokens (IsReference available) ps
    → check_pieces step_id available ps ≡ ok tt
unfolding check_pieces
check_pieces_ok step_id available [] h = refl
check_pieces_ok step_id available (plain s ∷ ps) h = check_pieces_ok step_id available ps h
check_pieces_ok step_id available (token inner ∷ ps) h =
    rw (check_expression_ok step_id available (strip inner) h.0, check_pieces)
      (check_pieces_ok step_id available ps h.1)

check_strings_ok :
    (step_id : String) (available ss : List String)
    → All (λ t. AllTokens (IsReference available) (scan t)) ss
    → check_strings step_id available ss ≡ ok tt
unfolding check_strings
check_strings_ok step_id available [] h = refl
check_strings_ok step_id available (s ∷ ss) h =
    rw (check_pieces_ok step_id available (scan s) h.0, check_strings)
      (check_strings_ok step_id available ss h.1)

validate_ok :
    (available : List String) (steps : List SequenceStep)
    → ReferBack available steps
    → validate_step_templates available steps ≡ ok tt
unfolding validate_step_templates
validate_ok available [] h = refl
validate_ok available (s ∷ steps) h =
    rw (check_strings_ok s.step_id available (field_strings s.inputs) h.0, validate_step_templates)
      (validate_ok (s.step_id ∷ available) steps h.1)

parse_step_ok :
    (index : String) (s : SequenceStep)
    → Canonical s
    → parse_step index (
        dict (
          field "step_id"
            (text s.step_id)
            (field "capability" (text s.capability) (field "inputs" (dict s.inputs) end))))
      ≡ ok s
unfolding parse_step
parse_step_ok index s h = rw (h.0, parse_step) (rw (h.1, parse_step) refl)

parse_steps_ok :
    (index : ℕ) (seen : List String) (steps : List SequenceStep)
    → NewIds seen steps
    → All Canonical steps
    → parse_steps index seen (step_items steps) ≡ ok steps
unfolding parse_steps step_items
parse_steps_ok index seen [] new canonical = refl
parse_steps_ok index seen (s ∷ steps) new canonical =
    rw (parse_step_ok (show_int (pos index)) s canonical.0, parse_steps)
      (rw (new.0, parse_steps)
        (rw (parse_steps_ok (suc index) (s.step_id ∷ seen) steps new.1 canonical.1, parse_steps)
          refl))

named_of : (s : String) → s ≢ "" → strip s ≡ s → is_named s ≡ true
unfolding is_named
named_of s filled same = elim (Bool-cases (s == "")) [
  | inl blank ↦ absurd (filled ((eq_iff s "").0 blank))
  | inr other ↦ rw same (rw other refl)
]

full_list_of :
    (steps : List SequenceStep)
    → steps ≢ []
    → full_list (some (list (step_items steps))) ≡ some (step_items steps)
unfolding step_items
full_list_of [] h = absurd (h refl)
full_list_of (s ∷ rest) h = refl

-- A sequence that meets the rules is what its printed form is parsed to.
pub parse-to_dict :
    (d : SequenceDefinition) → IsSequence d → parse_sequence_definition (to_dict d) ≡ ok d
unfolding parse_sequence_definition parse_definition to_dict get
parse-to_dict d h =
    rw (h.id, named_of d.name h.named h.stripped, full_list_of d.steps h.some_steps)
      (rw (parse_steps_ok 0 [] d.steps h.new_ids h.canonical)
        (rw (validate_ok [] d.steps h.refer_back) (rw h.stripped refl)))
