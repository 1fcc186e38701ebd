-- ===== src/Value.antt =====
-- Python's dynamic values, as JSON documents and contracts hold them. `other` stands for a value
-- of any other type (a float, an object), known by its `str()`.
use capability_os.Base.{
  ℕ, zero, suc, String, ◌≡◌, refl, Bool, true, false, Option, none, some, List, [], ◌∷◌, arith,
  ◌==◌, eq_iff, if◌then◌else◌, ℤ, pos, not, show_int,
}

mutual
  pub data Value : Type 0 where
    null : Value
    bool : Bool → Value
    int : ℤ → Value
    text : String → Value
    list : Items → Value
    dict : Fields → Value
    other : String → Value

  pub data Items : Type 0 where
    nil : Items
    cons : Value → Items → Items

  -- A dict of values, in insertion order.
  pub data Fields : Type 0 where
    end : Fields
    field : String → Value → Fields → Fields

-- d.get(k)
unfoldable pub get : String → Fields → Option Value
get k end = none
get k (field j v d) = if j == k then some v else get k d

-- d.get(k, v)
unfoldable pub get_or : String → Value → Fields → Value
unfolding get
get_or k v d = elim (get k d) [ some w ↦ w | none ↦ v ]

-- bool(v), where a value of another type is one that is not empty and not zero.
unfoldable pub truthy : Value → Bool
truthy null = false
truthy (bool b) = b
truthy (int (pos zero)) = false
truthy (text s) = not (s == "")
truthy (list nil) = false
truthy (dict end) = false
truthy _ = true

-- v == s, for a text s.
unfoldable pub is_text : String → Value → Bool
is_text s (text t) = t == s
is_text s _ = false

-- s in l, for a text s.
unfoldable pub has_text : String → Items → Bool
unfolding is_text
has_text s nil = false
has_text s (cons v l) = if is_text s v then true else has_text s l

-- d[k] = v
unfoldable pub put : String → Value → Fields → Fields
put k v end = field k v end
put k v (field j w d) = if j == k then field j v d else field j w (put k v d)

-- d.update(p)
unfoldable pub update : Fields → Fields → Fields
unfolding put
update d end = d
update d (field k v p) = update (put k v d) p

-- l[i]
unfoldable pub nth : Items → ℕ → Option Value
nth nil i = none
nth (cons v l) zero = some v
nth (cons v l) (suc i) = nth l i

-- d.setdefault(k, v)
unfoldable pub set_default : String → Value → Fields → Fields
unfolding get put
set_default k v d = elim (get k d) [ none ↦ put k v d | some _ ↦ d ]

unfoldable pub field_keys : Fields → List String
field_keys end = []
field_keys (field k v d) = k ∷ field_keys d

-- str(v), of a scalar.
unfoldable pub show : Value → String
unfolding show_int
show null = "None"
show (bool true) = "True"
show (bool false) = "False"
show (int n) = show_int n
show (text s) = s
show (other s) = s
show (list _) = ""
show (dict _) = ""

-- isinstance(v, (dict, list))
unfoldable pub is_container : Value → Bool
is_container (list _) = true
is_container (dict _) = true
is_container _ = false

pub get-put :
    (k j : String) (v : Value) (d : Fields)
    → get j (put k v d) ≡ (if k == j then some v else get j d)
unfolding get put
get-put k j v end = refl
get-put k j v (field i w d) = ground (arith, eq_iff k j, eq_iff i k, eq_iff i j, get-put k j v d)
