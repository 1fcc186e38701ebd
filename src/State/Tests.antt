-- ===== src/State/Tests.antt =====
-- Runs of system/core/state/state_manager.py on small inputs.
use capability_os.Base.{◌≡◌, ◌↔◌, refl, some, [], ◌∷◌, arith, pos, if◌then◌else◌, ◌==◌, strip}
use capability_os.Value.{Value, int, text, list, dict, nil, cons, end, field}
use capability_os.State.{
  StateManager, ok, init, resolve_expression, resolve_string, resolve_templates, record_step_output,
  walk,
}
use capability_os.State.Scan.{plain, token, scan, replace, braced, step_reference, is_snake}
use capability_os.State.Paths.{At, walk_iff}
use capability_os.State.Templates.{NoBrace, resolve_templates-IsPlain, resolve_templates-braced}
use capability_os.State.StepOutputs.{reference, resolve_expression-record_step_output}

scan_mixed :
    scan "a {{x}} {{{y}}}" ≡ plain "a " ∷ token "x" ∷ plain " {" ∷ token "y" ∷ plain "}" ∷ []
unfolding scan
scan_mixed = refl

replace_twice : replace "ab" "c" "abxab" ≡ "cxc"
unfolding replace
replace_twice = refl

step_reference_path : step_reference "steps.read_1.outputs.a.b" ≡ some ("read_1", "a.b")
unfolding step_reference
step_reference_path = refl

abbrev items : Value
items = list (cons (int (pos 7)) nil)

abbrev manager : StateManager
unfolding init record_step_output
manager =
    record_step_output "s_1" (dict (field "n" items end)) (init (field "who" (text "Ada") end))

resolve_index : resolve_expression end manager "steps.s_1.outputs.n.0" ≡ ok (int (pos 7))
unfolding resolve_expression init record_step_output
resolve_index = refl

resolve_text :
    resolve_string end manager "hi {{ inputs.who }}: {{steps.s_1.outputs.n.0}}"
    ≡ ok (text "hi Ada: 7")
unfolding resolve_string init record_step_output
resolve_text = refl

walk_iff_example :
    (walk "steps.s_1.outputs.n.0" ("n" ∷ "0" ∷ []) (dict (field "n" items end)) ≡ ok (int (pos 7)))
    ↔ At ("n" ∷ "0" ∷ []) (dict (field "n" items end)) (int (pos 7))
walk_iff_example =
    walk_iff "steps.s_1.outputs.n.0" ("n" ∷ "0" ∷ []) (dict (field "n" items end)) (int (pos 7))

resolve_templates-IsPlain_example :
    resolve_templates end manager (list (cons (text "a { b") (cons (int (pos 1)) nil)))
    ≡ ok (list (cons (text "a { b") (cons (int (pos 1)) nil)))
unfolding scan
resolve_templates-IsPlain_example =
    resolve_templates-IsPlain end manager (list (cons (text "a { b") (cons (int (pos 1)) nil)))
      (refl, (tt, tt))

inner_NoBrace : NoBrace " inputs.who "
inner_NoBrace = ground arith

resolve_templates-braced_example :
    resolve_templates end manager (text (braced " inputs.who "))
    ≡ resolve_expression end manager (strip " inputs.who ")
resolve_templates-braced_example =
    resolve_templates-braced end manager " inputs.who " inner_NoBrace (λ e. cc)

resolve_expression-record_step_output_example :
    resolve_expression end (record_step_output "s_1" items manager) (reference "s_2")
    ≡ (if "s_1" == "s_2" then ok items else resolve_expression end manager (reference "s_2"))
unfolding is_snake
resolve_expression-record_step_output_example =
    resolve_expression-record_step_output end manager "s_1" "s_2" items refl
