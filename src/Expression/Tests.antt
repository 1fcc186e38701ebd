-- ===== src/Expression/Tests.antt =====
-- Runs of system/core/strategy/safe_expression.py.
use capability_os.Base.{String, none, some, ◌≡◌, ◌↔◌, refl, true, false, pos}
use capability_os.Value.{null, bool, int, text, dict, Fields, end, field}
use capability_os.Expression.Operators.{Objects, greater, member}
use capability_os.Expression.{
  Node, constant, name, attribute, compare, bool_op, unary_op, conjunction, invert, other, call,
  list_display, empty, node, finished, compared, safe_eval, eval_node, unsafe, value, raised,
}
use capability_os.Expression.Safe.{IsAllowed, safe_eval-unsafe_iff}

-- Objects of other types, none of which occurs.
abbrev objects : Objects
objects = record {
  getattr = λ v a. null;
  getitem = λ v k. none;
  is_same = λ v w. false;
  equals = λ v w. false;
  order = λ v w. none;
  has = λ v w. none;
  minus = λ v. none;
  plus = λ v. none;
}

abbrev variables : Fields
variables = field "result" (dict (field "count" (int (pos 3)) (field "status" (text "ok") end))) end

-- result.count > 2
abbrev counted : Node
counted =
    compare (attribute (name "result") "count") (compared greater (constant (int (pos 2))) finished)

-- result.count > 2 and result.status in ["ok"]
abbrev checked : Node
checked = bool_op conjunction (
    node counted (
      node
        (compare (attribute (name "result") "status")
          (compared member (list_display (node (constant (text "ok")) empty)) finished))
        empty))

checked_holds : eval_node objects variables checked ≡ value (bool true)
unfolding eval_node
checked_holds = refl

-- "ok" > 2
mixed_types :
    eval_node objects variables
      (compare (constant (text "ok")) (compared greater (constant (int (pos 2))) finished))
    ≡ raised "unsupported operand type(s)"
unfolding eval_node
mixed_types = refl

-- ~result
inverted :
    safe_eval (λ s. some (unary_op invert (name "result"))) objects variables "~result"
    ≡ unsafe
        "Disallowed expression construct: Invert. Only comparisons, boolean ops, attribute access, and literals are allowed."
unfolding safe_eval
inverted = refl

safe_eval-unsafe_iff_example :
    ((m : String) × (safe_eval (λ s. some (attribute (other call) "x")) objects variables "f().x"
        ≡ unsafe m))
    ↔ (¬ IsAllowed (attribute (other call) "x"))
safe_eval-unsafe_iff_example =
    safe_eval-unsafe_iff (λ s. some (attribute (other call) "x")) objects variables "f().x"
      (attribute (other call) "x") refl
