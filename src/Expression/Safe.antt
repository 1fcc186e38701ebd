-- ===== src/Expression/Safe.antt =====
-- Which expressions system/core/strategy/safe_expression.py refuses as unsafe.
use capability_os.Base.{
  String, Option, none, some, List, [], ◌∷◌, strip, ◌≡◌, ◌≢◌, ◌↔◌, refl, subst, Option-cases, inl,
  inr, if_both,
}
use capability_os.Value.{Value, Fields, get}
use capability_os.Expression.Operators.{Objects, compare_values, negate, plus}
use capability_os.Expression.{
  UnaryOp, negation, minus, identity, invert, Node, constant, name, attribute, subscript, compare,
  bool_op, unary_op, tuple, list_display, other, Nodes, empty, node, Comparisons, finished,
  compared, merge, unary_levels, levels, node_levels, comparison_levels, first_class, Answer, value,
  unsafe, invalid, raised, ◌>>=◌, typed, variable, unary_result, unary, eval_node, eval_nodes,
  eval_comparisons, disallowed, safe_eval,
}

-- `~` is the one unary operator that is not allowed.
abbrev pub IsUnary : UnaryOp → Type 0
IsUnary invert = ⊥
IsUnary _ = Unit

-- An expression of literals, variables, attributes, subscripts, comparisons, tuples and lists, and of
-- the Boolean and the allowed unary operators.
unfoldable mutual
  pub IsAllowed : Node → Type 0
  IsAllowed (constant v) = Unit
  IsAllowed (name id) = Unit
  IsAllowed (attribute e attr) = IsAllowed e
  IsAllowed (subscript e key) = IsAllowed e × IsAllowed key
  IsAllowed (compare e cs) = IsAllowed e × AreComparisons cs
  IsAllowed (bool_op op es) = AreAllowed es
  IsAllowed (unary_op op e) = IsUnary op × IsAllowed e
  IsAllowed (tuple es) = AreAllowed es
  IsAllowed (list_display es) = AreAllowed es
  IsAllowed (other c) = ⊥

  pub AreAllowed : Nodes → Type 0
  AreAllowed empty = Unit
  AreAllowed (node e es) = IsAllowed e × AreAllowed es

  pub AreComparisons : Comparisons → Type 0
  AreComparisons finished = Unit
  AreComparisons (compared op e cs) = IsAllowed e × AreComparisons cs

some_is_none : {c : String} → ¬ (some c ≡ none)
some_is_none h = cc

abbrev IsClean : List (List String) → Type 0
IsClean l = first_class l ≡ none

merge-IsClean : (xs ys : List (List String)) → IsClean xs → IsClean ys → IsClean (merge xs ys)
unfolding first_class
merge-IsClean [] ys h k = k
merge-IsClean (x ∷ xs) [] h k = h
merge-IsClean ([] ∷ xs) ([] ∷ ys) h k = merge-IsClean xs ys h k
merge-IsClean ([] ∷ xs) ((c ∷ cs) ∷ ys) h k = k
merge-IsClean ((c ∷ cs) ∷ xs) (y ∷ ys) h k = cc

IsClean-merge : (xs ys : List (List String)) → IsClean (merge xs ys) → IsClean xs × IsClean ys
unfolding first_class
IsClean-merge [] ys h = (refl, h)
IsClean-merge (x ∷ xs) [] h = (h, refl)
IsClean-merge ([] ∷ xs) ([] ∷ ys) h = IsClean-merge xs ys h
IsClean-merge ([] ∷ xs) ((c ∷ cs) ∷ ys) h = absurd (some_is_none h)
IsClean-merge ((c ∷ cs) ∷ xs) (y ∷ ys) h = absurd (some_is_none h)

unary-IsClean : (op : UnaryOp) → IsUnary op → IsClean (unary_levels op)
unfolding first_class
unary-IsClean invert h = absurd h
unary-IsClean negation h = refl
unary-IsClean op h = refl

clean_operation : (op : UnaryOp) → IsClean (unary_levels op) → IsUnary op
unfolding first_class
clean_operation invert h = some_is_none h
clean_operation negation h = tt
clean_operation op h = tt

mutual
  unfolding levels IsAllowed first_class

  levels-IsClean : (e : Node) → IsAllowed e → IsClean (levels e)
  levels-IsClean (constant v) h = refl
  levels-IsClean (name id) h = refl
  levels-IsClean (attribute e attr) h = levels-IsClean e h
  levels-IsClean (subscript e key) h =
      merge-IsClean (levels e) (levels key) (levels-IsClean e h.0) (levels-IsClean key h.1)
  levels-IsClean (compare e cs) h =
      merge-IsClean (levels e) (comparison_levels cs) (levels-IsClean e h.0)
        (comparisons-IsClean cs h.1)
  levels-IsClean (bool_op op es) h = nodes-IsClean es h
  levels-IsClean (unary_op op e) h =
      merge-IsClean (unary_levels op) (levels e) (unary-IsClean op h.0) (levels-IsClean e h.1)
  levels-IsClean (tuple es) h = nodes-IsClean es h
  levels-IsClean (list_display es) h = nodes-IsClean es h
  levels-IsClean (other c) h = absurd h

  nodes-IsClean : (es : Nodes) → AreAllowed es → IsClean (node_levels es)
  nodes-IsClean empty h = refl
  nodes-IsClean (node e es) h =
      merge-IsClean (levels e) (node_levels es) (levels-IsClean e h.0) (nodes-IsClean es h.1)

  comparisons-IsClean : (cs : Comparisons) → AreComparisons cs → IsClean (comparison_levels cs)
  comparisons-IsClean finished h = refl
  comparisons-IsClean (compared op e cs) h =
      merge-IsClean (levels e) (comparison_levels cs) (levels-IsClean e h.0)
        (comparisons-IsClean cs h.1)

mutual
  unfolding levels IsAllowed first_class

  levels-IsAllowed : (e : Node) → IsClean (levels e) → IsAllowed e
  levels-IsAllowed (constant v) h = tt
  levels-IsAllowed (name id) h = tt
  levels-IsAllowed (attribute e attr) h = levels-IsAllowed e h
  levels-IsAllowed (subscript e key) h =
      let (a, b) = IsClean-merge (levels e) (levels key) h in
      (levels-IsAllowed e a, levels-IsAllowed key b)
  levels-IsAllowed (compare e cs) h =
      let (a, b) = IsClean-merge (levels e) (comparison_levels cs) h in
      (levels-IsAllowed e a, comparisons-AreComparisons cs b)
  levels-IsAllowed (bool_op op es) h = nodes-AreAllowed es h
  levels-IsAllowed (unary_op op e) h =
      let (a, b) = IsClean-merge (unary_levels op) (levels e) h in
      (clean_operation op a, levels-IsAllowed e b)
  levels-IsAllowed (tuple es) h = nodes-AreAllowed es h
  levels-IsAllowed (list_display es) h = nodes-AreAllowed es h
  levels-IsAllowed (other c) h = some_is_none h

  nodes-AreAllowed : (es : Nodes) → IsClean (node_levels es) → AreAllowed es
  nodes-AreAllowed empty h = tt
  nodes-AreAllowed (node e es) h =
      let (a, b) = IsClean-merge (levels e) (node_levels es) h in
      (levels-IsAllowed e a, nodes-AreAllowed es b)

  comparisons-AreComparisons :
      (cs : Comparisons) → IsClean (comparison_levels cs) → AreComparisons cs
  comparisons-AreComparisons finished h = tt
  comparisons-AreComparisons (compared op e cs) h =
      let (a, b) = IsClean-merge (levels e) (comparison_levels cs) h in
      (levels-IsAllowed e a, comparisons-AreComparisons cs b)

-- No UnsafeExpressionError.
abbrev IsSafe {ℓ} : {A : Type ℓ} → Answer A → Type 0
IsSafe (unsafe m) = ⊥
IsSafe _ = Unit

bind-IsSafe :
    {A B : Type 0} (a : Answer A) (f : A → Answer B)
    → IsSafe a
    → ((x : A) → IsSafe (f x))
    → IsSafe (a >>= f)
bind-IsSafe (value a) f h k = k a
bind-IsSafe (unsafe m) f h k = h
bind-IsSafe (invalid m) f h k = tt
bind-IsSafe (raised m) f h k = tt

typed-IsSafe : {A : Type 0} (o : Option A) → IsSafe (typed o)
typed-IsSafe none = tt
typed-IsSafe (some a) = tt

variable-IsSafe : (id : String) (o : Option Value) → IsSafe (variable id o)
variable-IsSafe id none = tt
variable-IsSafe id (some v) = tt

module _ (objects : Objects) (variables : Fields) where
  unary-IsSafe :
      (op : UnaryOp) (a : Answer Value)
      → IsUnary op
      → IsSafe a
      → IsSafe (unary objects variables op a)
  unfolding unary_result
  unary-IsSafe invert a h k = absurd h
  unary-IsSafe negation a h k = bind-IsSafe a _ k (λ v. tt)
  unary-IsSafe minus a h k = bind-IsSafe a _ k (λ v. typed-IsSafe (negate objects v))
  unary-IsSafe identity a h k = bind-IsSafe a _ k (λ v. typed-IsSafe (plus objects v))

  mutual
    unfolding eval_node IsAllowed

    eval_node-IsSafe : (e : Node) → IsAllowed e → IsSafe (eval_node objects variables e)
    eval_node-IsSafe (constant v) h = tt
    eval_node-IsSafe (name id) h = variable-IsSafe id (get id variables)
    eval_node-IsSafe (attribute e attr) h =
        bind-IsSafe (eval_node objects variables e) _ (eval_node-IsSafe e h) (λ v. tt)
    eval_node-IsSafe (subscript e key) h =
        bind-IsSafe (eval_node objects variables e) _ (eval_node-IsSafe e h.0) (λ v.
          bind-IsSafe (eval_node objects variables key) _ (eval_node-IsSafe key h.1) (λ k. tt))
    eval_node-IsSafe (compare e cs) h =
        bind-IsSafe (eval_node objects variables e) _ (eval_node-IsSafe e h.0)
          (λ v. comparisons-IsSafe v cs h.1)
    eval_node-IsSafe (bool_op op es) h =
        bind-IsSafe (eval_nodes objects variables es) _ (nodes-IsSafe es h) (λ l. tt)
    eval_node-IsSafe (unary_op op e) h =
        unary-IsSafe op (eval_node objects variables e) h.0 (eval_node-IsSafe e h.1)
    eval_node-IsSafe (tuple es) h =
        bind-IsSafe (eval_nodes objects variables es) _ (nodes-IsSafe es h) (λ l. tt)
    eval_node-IsSafe (list_display es) h =
        bind-IsSafe (eval_nodes objects variables es) _ (nodes-IsSafe es h) (λ l. tt)
    eval_node-IsSafe (other c) h = absurd h

    nodes-IsSafe : (es : Nodes) → AreAllowed es → IsSafe (eval_nodes objects variables es)
    nodes-IsSafe empty h = tt
    nodes-IsSafe (node e es) h =
        bind-IsSafe (eval_node objects variables e) _ (eval_node-IsSafe e h.0)
          (λ v. bind-IsSafe (eval_nodes objects variables es) _ (nodes-IsSafe es h.1) (λ l. tt))

    comparisons-IsSafe :
        (left : Value) (cs : Comparisons)
        → AreComparisons cs
        → IsSafe (eval_comparisons objects variables left cs)
    comparisons-IsSafe left finished h = tt
    comparisons-IsSafe left (compared op e cs) h =
        bind-IsSafe (eval_node objects variables e) _ (eval_node-IsSafe e h.0) (λ right.
          bind-IsSafe (typed (compare_values objects op left right)) _
            (typed-IsSafe (compare_values objects op left right))
            (λ holds. if_both IsSafe holds (comparisons-IsSafe right cs h.1) tt))

IsSafe-ne-unsafe : {A : Type 0} (a : Answer A) (m : String) → IsSafe a → a ≢ unsafe m
IsSafe-ne-unsafe a m h e = subst IsSafe e h

-- An expression that can be parsed is refused with an UnsafeExpressionError exactly where it has a
-- construct that is not allowed: what passes the validation meets no such construct when it is evaluated,
-- whatever the variables and the objects in them do.
pub safe_eval-unsafe_iff :
    (parse : String → Option Node) (objects : Objects) (variables : Fields) (expression : String)
    (e : Node)
    → parse (strip expression) ≡ some e
    → ((m : String) × (safe_eval parse objects variables expression ≡ unsafe m)) ↔ (¬ IsAllowed e)
unfolding safe_eval
safe_eval-unsafe_iff parse objects variables expression e parsed =
    rw (parsed, safe_eval)
      (
        (λ h allowed.
            let (m, is) = h in
            IsSafe-ne-unsafe (eval_node objects variables e) m
              (eval_node-IsSafe objects variables e allowed)
              (rw (levels-IsClean e allowed, safe_eval) at is)),
        λ h. elim (Option-cases (first_class (levels e))) [
          | inl clean ↦ absurd (h (levels-IsAllowed e clean))
          | inr (c, found) ↦ (disallowed c, rw (found, safe_eval) refl)
        ],
      )
