-- ===== src/State/Paths.antt =====
-- `_resolve_path` of system/core/state/state_manager.py against the paths of a document.
use capability_os.Base.{
  String, ◌≡◌, refl, ◌↔◌, true, some, List, [], ◌∷◌, arith, isdigit, decimal, subst, Option-cases,
  Bool-cases, inl, inr,
}
use capability_os.Value.{Value, list, dict, Items, Fields, get, nth, null, bool, int, text, other}
use capability_os.State.{Resolved, ok, unresolved, ◌>>=◌, step_into, walk}

-- `At path root v`: the tokens lead from `root` to `v`, through keys of dicts and places of lists.
pub data At : List String → Value → Value → Type 0 where
  here : {v : Value} → At [] v v
  key :
      {tok : String} {path : List String} {d : Fields} {u v : Value}
      → get tok d ≡ some u
      → At path u v
      → At (tok ∷ path) (dict d) v
  index :
      {tok : String} {path : List String} {l : Items} {u v : Value}
      → isdigit tok ≡ true
      → nth l (decimal tok) ≡ some u
      → At path u v
      → At (tok ∷ path) (list l) v

cons-At :
    (e tok : String) (path : List String) (root u v : Value)
    → step_into e tok root ≡ ok u
    → At path u v
    → At (tok ∷ path) root v
unfolding step_into
cons-At e tok path (dict d) u v h r = elim (Option-cases (get tok d)) [
  | inl no_key ↦ ground arith
  | inr (w, found) ↦ key {u = u} (ground arith) r
]
cons-At e tok path (list l) u v h r = elim (Bool-cases (isdigit tok)) [
  | inl digits ↦ elim (Option-cases (nth l (decimal tok))) [
    | inl no_item ↦ ground arith
    | inr (w, found) ↦ index {u = u} digits (ground arith) r
  ]
  | inr no_digits ↦ ground arith
]
cons-At e tok path null u v h r = cc
cons-At e tok path (bool _) u v h r = cc
cons-At e tok path (int _) u v h r = cc
cons-At e tok path (text _) u v h r = cc
cons-At e tok path (other _) u v h r = cc

>>=-eq-ok :
    (found : Resolved Value) (next : Value → Resolved Value) {v : Value}
    → (found >>= next) ≡ ok v
    → (u : Value) × (found ≡ ok u) × (next u ≡ ok v)
>>=-eq-ok (unresolved e) next h = cc
>>=-eq-ok (ok u) next h = (u, refl, h)

ok-injective : {u v : Value} → ok u ≡ ok v → u ≡ v
ok-injective h = cc

walk-At :
    (e : String) (path : List String) (root v : Value) → walk e path root ≡ ok v → At path root v
unfolding walk
walk-At e [] root v h = subst (At [] root) (ok-injective h) here
walk-At e (tok ∷ path) root v h =
    let (u, stepped, rest) = >>=-eq-ok (step_into e tok root) (walk e path) h in
    cons-At e tok path root u v stepped (walk-At e path u v rest)

At-walk :
    (e : String) {path : List String} {root v : Value} → At path root v → walk e path root ≡ ok v
unfolding walk step_into
At-walk e here = refl
At-walk e (key found r) = ground (arith, At-walk e r)
At-walk e (index digits found r) = ground (arith, At-walk e r)

-- The loop of `_resolve_path` returns a value exactly when the tokens lead to it: a token is a key
-- of a dict, or the decimal place of an item of a list. It returns that value, whatever the
-- expression that it would name in an error.
pub walk_iff :
    (e : String) (path : List String) (root v : Value) → (walk e path root ≡ ok v) ↔ At path root v
walk_iff e path root v = (walk-At e path root v, At-walk e)
