-- ===== src/State/StepOutputs.antt =====
-- `record_step_output` against the references `steps.<step_id>.outputs` of
-- system/core/state/state_manager.py.
use Prim.Native.Char.{Char, code}
use package.text.Mathlib.TextLemmas.{nil-append, cons-append, append_assoc}
use capability_os.Base.{
  String, ◌≡◌, refl, true, false, none, some, arith, eqb, ◌==◌, ◌⋯◌, Bool-cases, inl, inr, ap,
  if◌then◌else◌, is_digit, strip_prefix, break_at, subst,
}
use capability_os.Value.{Value, Fields, get-put}
use capability_os.State.{StateManager, ok, resolve_expression, record_step_output, resolve_step}
use capability_os.State.Scan.{
  Word, start, first, under, later, failed, word_step, words, accepts, is_snake, is_lower,
  chop_newline, step_reference,
}

accepts_failed : (s : String) → accepts (words failed s) ≡ false
unfolding words
accepts_failed String.[] = refl
accepts_failed (String.◌∷◌ c s) = accepts_failed s

dot_fails : (w : Word) (c : Char) → eqb (code c) b'.' ≡ true → word_step w (code c) ≡ failed
unfolding is_lower is_digit
dot_fails start c h = ground arith
dot_fails first c h = ground arith
dot_fails under c h = ground arith
dot_fails later c h = ground arith
dot_fails failed c h = refl

break_at_word :
    (w : Word) (id : String)
    → accepts (words w id) ≡ true
    → (t : String) → break_at b'.' (id ⋯ String.◌∷◌ "." t) ≡ (id, some t)
unfolding break_at words
break_at_word w String.[] h t = rw (nil-append, break_at)
break_at_word w (String.◌∷◌ c id) h t = elim (Bool-cases (eqb (code c) b'.')) [
  | inl dot ↦
      let bad : accepts (words failed id) ≡ true =
        subst (λ x. accepts (words x id) ≡ true) (dot_fails w c dot) h in
      cc (accepts_failed id)
  | inr no_dot ↦ rw (cons-append, no_dot, break_at_word (word_step w (code c)) id h t)
]

chop_outputs : (s : String) → chop_newline (s ⋯ ".outputs") ≡ s ⋯ ".outputs"
unfolding chop_newline
chop_outputs String.[] = refl
chop_outputs (String.◌∷◌ c String.[]) = rw cons-append refl
chop_outputs (String.◌∷◌ c (String.◌∷◌ d s)) =
    rw cons-append
      (rw cons-append (ap (String.◌∷◌ c) (rw cons-append at (chop_outputs (String.◌∷◌ d s)))))

abbrev pub reference : String → String
reference id = "steps." ⋯ id ⋯ ".outputs"

steps_text :
    (t : String)
    → "steps." ⋯ t
      ≡ String.◌∷◌ "s"
          (String.◌∷◌ "t" (String.◌∷◌ "e" (String.◌∷◌ "p" (String.◌∷◌ "s" (String.◌∷◌ "." t)))))
steps_text t =
    rw (cons-append, cons-append, cons-append, cons-append, cons-append, cons-append, nil-append)

steps_prefix : (t : String) → strip_prefix "steps." ("steps." ⋯ t) ≡ some t
unfolding strip_prefix
steps_prefix t = rw steps_text

chop_reference : (id : String) → chop_newline (reference id) ≡ reference id
chop_reference id =
    subst (λ x. chop_newline x ≡ x) (append_assoc "steps." id ".outputs")
      (chop_outputs ("steps." ⋯ id))

reference_lem : (id : String) → is_snake id ≡ true → step_reference (reference id) ≡ some (id, "")
unfolding step_reference is_snake
reference_lem id h =
    rw (chop_reference id, step_reference)
      (rw (steps_prefix (id ⋯ ".outputs"), break_at_word start id h "outputs", h, step_reference)
        (rw (break_at_word start id h "outputs")))

no_inputs : (id : String) → strip_prefix "inputs." (reference id) ≡ none
unfolding strip_prefix
no_inputs id = rw (steps_text (id ⋯ ".outputs"))

no_state : (id : String) → strip_prefix "state." (reference id) ≡ none
unfolding strip_prefix
no_state id = rw (steps_text (id ⋯ ".outputs"))

no_runtime : (id : String) → strip_prefix "runtime." (reference id) ≡ none
unfolding strip_prefix
no_runtime id = rw (steps_text (id ⋯ ".outputs"))

resolve_reference :
    (runtime : Fields) (s : StateManager) (id : String)
    → is_snake id ≡ true
    → resolve_expression runtime s (reference id) ≡ resolve_step s (reference id) (id, "")
unfolding resolve_expression
resolve_reference runtime s id h =
    rw (no_inputs id, resolve_expression)
      (rw (no_state id) (rw (no_runtime id) (rw (reference_lem id h))))

-- After the output of the step id is recorded, the reference to a step j whose id fits the pattern of
-- references (words of small letters and digits with an underscore between two, and no digit in the first)
-- resolves to that output, whatever its type, where j is id, and as before where it is not, recorded or
-- not.
pub resolve_expression-record_step_output :
    (runtime : Fields) (s : StateManager) (id j : String) (v : Value)
    → is_snake j ≡ true
    → resolve_expression runtime (record_step_output id v s) (reference j)
      ≡ (if id == j then ok v else resolve_expression runtime s (reference j))
unfolding record_step_output resolve_step
resolve_expression-record_step_output runtime s id j v h =
    rw (resolve_reference runtime (record_step_output id v s) j h, resolve_reference runtime s j h)
      (ground (arith, get-put id j v s.step_outputs))
