-- ===== src/Expression/Operators.antt =====
-- The operators of system/core/strategy/safe_expression.py on Python's values.
use Prim.Native.Nat.{Ordering, compare as nat_compare}
use Prim.Native.String
use mathlib.Core.Option
use capability_os.Base.{
  ℕ, zero, suc, ◌+◌, ◌-◌, String, Bool, true, false, not, ◌&&◌, ◌||◌, Option, none, some, ◌==◌, eqb,
  ltb, if◌then◌else◌, strip_prefix, is_some, ℤ, pos, negsuc, pos_part, neg_part,
}
use capability_os.Value.{
  Value, null, bool, int, text, list, dict, other, Items, nil, cons, Fields, end, field, get, nth,
  truthy,
}

pub data Comparison : Type 0 where
  equal unequal greater less at_least at_most identical distinct member nonmember : Comparison

-- What objects of other types do, floats among them; a float is not NaN. `none` is an exception that the
-- operator raises.
pub record Objects : Type 0 where
  pub getattr : Value → String → Value
  pub getitem : Value → Value → Option Value
  pub is_same : Value → Value → Bool
  pub equals : Value → Value → Bool
  pub order : Value → Value → Option Ordering
  pub has : Value → Value → Option Bool
  pub minus : Value → Option Value
  pub plus : Value → Option Value

-- A number, where a bool is one.
number : Value → Option ℤ
number (bool true) = some (pos 1)
number (bool false) = some (pos 0)
number (int n) = some n
number _ = none

order_ℤ : ℤ → ℤ → Ordering
order_ℤ a b = nat_compare (pos_part a + neg_part b) (pos_part b + neg_part a)

abbrev is_eq : Ordering → Bool
is_eq Ordering.eq = true
is_eq _ = false

numbers_equal : Option ℤ → Option ℤ → Bool
unfolding order_ℤ
numbers_equal (some a) (some b) = is_eq (order_ℤ a b)
numbers_equal _ _ = false

field_count : Fields → ℕ
field_count end = 0
field_count (field k v d) = suc (field_count d)

opposite : ℤ → ℤ
opposite (pos zero) = pos zero
opposite (pos (suc n)) = negsuc n
opposite (negsuc n) = pos (suc n)

item_count : Items → ℕ
item_count nil = 0
item_count (cons v l) = suc (item_count l)

-- A negative index counts from the end.
place : ℕ → ℤ → Option ℕ
place size (pos n) = some n
place size (negsuc n) = if ltb n size then some (size - suc n) else none

list_index : Items → Option ℤ → Option Value
unfolding place item_count nth
list_index l none = none
list_index l (some n) = elim (place (item_count l) n) [ none ↦ none | some i ↦ nth l i ]

nth_char : String → ℕ → Option Value
nth_char String.[] i = none
nth_char (String.◌∷◌ c s) zero = some (text (String.◌∷◌ c ""))
nth_char (String.◌∷◌ c s) (suc i) = nth_char s i

text_index : String → Option ℤ → Option Value
unfolding place nth_char
text_index s none = none
text_index s (some n) = elim (place (String.count s) n) [ none ↦ none | some i ↦ nth_char s i ]

module _ (objects : Objects) where
  -- Where one of the two is an object of another type.
  foreign_equal : Value → Value → Bool
  foreign_equal (other s) w = objects.equals (other s) w
  foreign_equal v (other t) = objects.equals v (other t)
  foreign_equal v w = false

  -- v == w
  unfoldable mutual
    unfolding foreign_equal numbers_equal number field_count get

    pub eq_values : Value → Value → Bool
    eq_values null null = true
    eq_values (bool a) w = numbers_equal (number (bool a)) (number w) || foreign_equal (bool a) w
    eq_values (int n) w = numbers_equal (some n) (number w) || foreign_equal (int n) w
    eq_values (text s) (text t) = s == t
    eq_values (list l) (list m) = eq_items l m
    eq_values (dict d) (dict e) = eqb (field_count d) (field_count e) && eq_fields d e
    eq_values v w = foreign_equal v w

    pub eq_items : Items → Items → Bool
    eq_items nil nil = true
    eq_items (cons v l) (cons w m) = eq_values v w && eq_items l m
    eq_items _ _ = false

    pub eq_fields : Fields → Fields → Bool
    eq_fields end e = true
    eq_fields (field k v d) e =
        elim (get k e) [ none ↦ false | some w ↦ eq_values v w ] && eq_fields d e

  foreign_order : Value → Value → Option Ordering
  foreign_order (other s) w = objects.order (other s) w
  foreign_order v (other t) = objects.order v (other t)
  foreign_order v w = none

  number_order : Option ℤ → Option ℤ → Option Ordering → Option Ordering
  unfolding order_ℤ
  number_order (some a) (some b) o = some (order_ℤ a b)
  number_order _ _ o = o

  -- How two values are ordered; lists by their first elements that differ.
  unfoldable mutual
    unfolding foreign_order number_order number eq_values

    pub order_values : Value → Value → Option Ordering
    order_values (text s) (text t) = some (String.compare s t)
    order_values (list l) (list m) = order_items l m
    order_values v w = number_order (number v) (number w) (foreign_order v w)

    pub order_items : Items → Items → Option Ordering
    order_items nil nil = some Ordering.eq
    order_items nil (cons w m) = some Ordering.lt
    order_items (cons v l) nil = some Ordering.gt
    order_items (cons v l) (cons w m) = elim (eq_values v w) [
      | true ↦ order_items l m
      | false ↦ order_values v w
    ]

  is_member : Value → Items → Bool
  unfolding eq_values
  is_member v nil = false
  is_member v (cons w l) = if eq_values v w then true else is_member v l

  -- t in s, on texts.
  is_part : String → String → Bool
  unfolding strip_prefix
  is_part t String.[] = t == ""
  is_part t (String.◌∷◌ c s) = is_some (strip_prefix t (String.◌∷◌ c s)) || is_part t s

  -- k in d; a list or a dict has no hash.
  has_key : Value → Fields → Option Bool
  unfolding get
  has_key (text k) d = some (is_some (get k d))
  has_key (list _) d = none
  has_key (dict _) d = none
  has_key (other s) d = objects.has (other s) (dict d)
  has_key _ d = some false

  -- v in w
  contains_value : Value → Value → Option Bool
  unfolding is_member is_part has_key
  contains_value v (list l) = some (is_member v l)
  contains_value (text t) (text s) = some (is_part t s)
  contains_value v (dict d) = has_key v d
  contains_value v (other s) = objects.has v (other s)
  contains_value v w = none

  same_value : Value → Value → Bool
  same_value null null = true
  same_value (bool true) (bool b) = b
  same_value (bool false) (bool b) = not b
  same_value v w = objects.is_same v w

  is_greater : Ordering → Bool
  is_greater Ordering.gt = true
  is_greater _ = false

  is_less : Ordering → Bool
  is_less Ordering.lt = true
  is_less _ = false

  -- The operators of `_CMP_OPS`; `none` is a TypeError.
  unfoldable pub compare_values : Comparison → Value → Value → Option Bool
  unfolding eq_values order_values contains_value same_value is_greater is_less
  compare_values equal v w = some (eq_values v w)
  compare_values unequal v w = some (not (eq_values v w))
  compare_values greater v w = Option.map is_greater (order_values v w)
  compare_values less v w = Option.map is_less (order_values v w)
  compare_values at_least v w = Option.map (λ o. not (is_less o)) (order_values v w)
  compare_values at_most v w = Option.map (λ o. not (is_greater o)) (order_values v w)
  compare_values identical v w = some (same_value v w)
  compare_values distinct v w = some (not (same_value v w))
  compare_values member v w = contains_value v w
  compare_values nonmember v w = Option.map not (contains_value v w)

  -- -v and +v
  unfoldable pub negate : Value → Option Value
  unfolding number opposite
  negate (other s) = objects.minus (other s)
  negate v = Option.map (λ n. int (opposite n)) (number v)

  unfoldable pub plus : Value → Option Value
  unfolding number
  plus (other s) = objects.plus (other s)
  plus v = Option.map int (number v)

  or_null : Option Value → Value
  or_null none = null
  or_null (some v) = v

  -- obj[key], with None for a KeyError, an IndexError or a TypeError.
  unfoldable pub item : Value → Value → Value
  unfolding or_null get nth list_index text_index number
  item (dict d) (text k) = or_null (get k d)
  item (list l) key = or_null (list_index l (number key))
  item (text s) key = or_null (text_index s (number key))
  item (other s) key = or_null (objects.getitem (other s) key)
  item _ key = null

  -- obj.get(attr) of a dict, and getattr(obj, attr, None)
  unfoldable pub attribute_of : Value → String → Value
  unfolding or_null get
  attribute_of (dict d) attr = or_null (get attr d)
  attribute_of obj attr = objects.getattr obj attr

unfoldable pub all_true : Items → Bool
unfolding truthy
all_true nil = true
all_true (cons v l) = truthy v && all_true l

unfoldable pub any_true : Items → Bool
unfolding truthy
any_true nil = false
any_true (cons v l) = truthy v || any_true l
