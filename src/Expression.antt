-- ===== src/Expression.antt =====
-- system/core/strategy/safe_expression.py: the trees of expressions, what is allowed in them, and their
-- values. `ast.parse` is an argument. Loads are the only contexts in an expression, and not written out.
pub mod Operators
pub mod Safe
mod Tests
use capability_os.Base.{
  ℕ, String, Bool, true, false, not, Option, none, some, List, [], ◌∷◌, ◌++◌, if◌then◌else◌, ◌⋯◌,
  strip,
}
use capability_os.Value.{Value, null, bool, list, dict, Items, nil, cons, Fields, get, truthy}
use capability_os.Expression.Operators.{
  Comparison, Objects, compare_values, negate, plus, item, attribute_of, all_true, any_true,
}

pub data BoolOp : Type 0 where
  conjunction disjunction : BoolOp

pub data UnaryOp : Type 0 where
  negation minus identity invert : UnaryOp

-- The classes of expressions that are not allowed.
pub data Construct : Type 0 where
  named_expr bin_op lambda if_exp dict_display set_display list_comp set_comp dict_comp
        generator_exp await yield yield_from call formatted_value joined_str starred slice :
      Construct

-- What stands below a construct that is not allowed is behind it in the walk, and left out.
mutual
  pub data Node : Type 0 where
    constant : Value → Node
    name : String → Node
    attribute : Node → String → Node
    subscript : Node → Node → Node
    compare : Node → Comparisons → Node
    bool_op : BoolOp → Nodes → Node
    unary_op : UnaryOp → Node → Node
    tuple : Nodes → Node
    list_display : Nodes → Node
    other : Construct → Node

  pub data Nodes : Type 0 where
    empty : Nodes
    node : Node → Nodes → Nodes

  pub data Comparisons : Type 0 where
    finished : Comparisons
    compared : Comparison → Node → Comparisons → Comparisons

-- type(node).__name__
class_name : Construct → String
class_name named_expr = "NamedExpr"
class_name bin_op = "BinOp"
class_name lambda = "Lambda"
class_name if_exp = "IfExp"
class_name dict_display = "Dict"
class_name set_display = "Set"
class_name list_comp = "ListComp"
class_name set_comp = "SetComp"
class_name dict_comp = "DictComp"
class_name generator_exp = "GeneratorExp"
class_name await = "Await"
class_name yield = "Yield"
class_name yield_from = "YieldFrom"
class_name call = "Call"
class_name formatted_value = "FormattedValue"
class_name joined_str = "JoinedStr"
class_name starred = "Starred"
class_name slice = "Slice"

-- Two walks, side by side: each level of the first stands in front of that level of the second.
abbrev pub merge : List (List String) → List (List String) → List (List String)
merge [] ys = ys
merge (x ∷ xs) [] = x ∷ xs
merge (x ∷ xs) (y ∷ ys) = (x ++ y) ∷ merge xs ys

abbrev pub unary_levels : UnaryOp → List (List String)
unary_levels invert = ("Invert" ∷ []) ∷ []
unary_levels _ = []

-- `ast.walk` goes level by level: the classes on each level that are not allowed.
unfoldable mutual
  unfolding class_name

  pub levels : Node → List (List String)
  levels (constant v) = []
  levels (name id) = []
  levels (attribute e attr) = [] ∷ levels e
  levels (subscript e key) = [] ∷ merge (levels e) (levels key)
  levels (compare e cs) = [] ∷ merge (levels e) (comparison_levels cs)
  levels (bool_op op es) = [] ∷ node_levels es
  levels (unary_op op e) = [] ∷ merge (unary_levels op) (levels e)
  levels (tuple es) = [] ∷ node_levels es
  levels (list_display es) = [] ∷ node_levels es
  levels (other c) = (class_name c ∷ []) ∷ []

  pub node_levels : Nodes → List (List String)
  node_levels empty = []
  node_levels (node e es) = merge (levels e) (node_levels es)

  pub comparison_levels : Comparisons → List (List String)
  comparison_levels finished = []
  comparison_levels (compared op e cs) = merge (levels e) (comparison_levels cs)

-- The first class that is found.
unfoldable pub first_class : List (List String) → Option String
first_class [] = none
first_class ([] ∷ xs) = first_class xs
first_class ((c ∷ cs) ∷ xs) = some c

-- How an evaluation ends: with a value, an UnsafeExpressionError, a ValueError, or another exception.
pub data Answer {ℓ} (A : Type ℓ) : Type ℓ where
  value : A → Answer A
  unsafe invalid raised : String → Answer A

infixl 5 ◌>>=◌
abbrev pub ◌>>=◌ {ℓ κ} : {A : Type ℓ} {B : Type κ} → Answer A → (A → Answer B) → Answer B
value a >>= f = f a
unsafe m >>= f = unsafe m
invalid m >>= f = invalid m
raised m >>= f = raised m

-- An operator's result; `none` is a TypeError.
abbrev typed {ℓ} : {A : Type ℓ} → Option A → Answer A
typed none = raised "unsupported operand type(s)"
typed (some a) = value a

-- variables[node.id]
abbrev variable : String → Option Value → Answer Value
variable id none = invalid ("Undefined variable: '" ⋯ id ⋯ "'")
variable id (some v) = value v

abbrev bool_result : BoolOp → Items → Value
bool_result conjunction l = bool (all_true l)
bool_result disjunction l = bool (any_true l)

module _ (objects : Objects) (variables : Fields) where
  unfoldable pub unary_result : UnaryOp → Value → Answer Value
  unfolding truthy negate plus
  unary_result negation v = value (bool (not (truthy v)))
  unary_result minus v = typed (negate objects v)
  unary_result identity v = typed (plus objects v)
  unary_result invert v = unsafe "Unsupported unary op: Invert"

  -- The operator is looked up before the operand is evaluated.
  abbrev pub unary : UnaryOp → Answer Value → Answer Value
  unary invert a = unsafe "Unsupported unary op: Invert"
  unary op a = a >>= unary_result op

  unfoldable mutual
    unfolding all_true any_true unary_result compare_values attribute_of item get class_name

    pub eval_node : Node → Answer Value
    eval_node (constant v) = value v
    eval_node (name id) = variable id (get id variables)
    eval_node (attribute e attr) = do obj ← eval_node e; value (attribute_of objects obj attr)
    eval_node (subscript e key) = do
      obj ← eval_node e
      k ← eval_node key
      value (item objects obj k)
    eval_node (compare e cs) = do left ← eval_node e; eval_comparisons left cs
    eval_node (bool_op op es) = do l ← eval_nodes es; value (bool_result op l)
    eval_node (unary_op op e) = unary op (eval_node e)
    eval_node (tuple es) = do l ← eval_nodes es; value (list l)
    eval_node (list_display es) = do l ← eval_nodes es; value (list l)
    eval_node (other c) = unsafe ("Unsupported node: " ⋯ class_name c)

    pub eval_nodes : Nodes → Answer Items
    eval_nodes empty = value nil
    eval_nodes (node e es) = do v ← eval_node e; l ← eval_nodes es; value (cons v l)

    -- A chain of comparisons, from the left; the first that fails ends it.
    pub eval_comparisons : Value → Comparisons → Answer Value
    eval_comparisons left finished = value (bool true)
    eval_comparisons left (compared op e cs) = do
      right ← eval_node e
      holds ← typed (compare_values objects op left right)
      if holds then eval_comparisons right cs else value (bool false)

abbrev pub disallowed : String → String
disallowed c =
    "Disallowed expression construct: " ⋯ c
    ⋯ ". Only comparisons, boolean ops, attribute access, and literals are allowed."

-- `_validate`, and the evaluation.
unfoldable pub safe_eval : (String → Option Node) → Objects → Fields → String → Answer Value
unfolding strip first_class levels eval_node
safe_eval parse objects variables expression = elim (parse (strip expression)) [
  | none ↦ invalid "Invalid expression syntax"
  | some e ↦ elim (first_class (levels e)) [
    | some c ↦ unsafe (disallowed c)
    | none ↦ eval_node objects variables e
  ]
]
