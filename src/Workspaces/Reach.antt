-- ===== src/Workspaces/Reach.antt =====
-- What holds of every registry that the operations of system/core/workspace/workspace_registry.py lead
-- to.
use mathlib.Core.Bool.{false≢true}
use capability_os.Base.{
  is_some, Option, Distinct-insert, String, Bool, true, false, not, ◌&&◌, Option, none, some, [],
  ◌∷◌, length, any, contains, eqb, ◌==◌, eq_iff, eq_refl, if◌then◌else◌, ◌⋯◌, strip, Dict, lookup,
  insert, erase, has, has-insert, keys, Distinct, ◌≡◌, refl, sym, subst, ap, ◌∙◌, arith, Bool-cases,
  Option-cases, if_both, inl, inr,
}
use capability_os.Value.{
  Value, null, bool, int, text, list, dict, other, Fields, end, field, get, put, get-put,
}
use capability_os.Exec.{Result}
use capability_os.Workspaces.{
  WorkspaceRegistry, FileSystem, NewWorkspace, load, save, add, update, update_field, update_fields,
  field_error, written, updatable, remove, set_default, or_default, first_key, is_default, has_path,
  values, workspace_record, valid_access,
}

-- The registries that the operations lead to, from an empty one.
pub data Reachable (fs : FileSystem) : WorkspaceRegistry → Type 0 where
  empty : Reachable fs (load none)
  added :
      {r : WorkspaceRegistry} (hex now : String) (w : NewWorkspace)
      → Reachable fs r
      → Reachable fs (add fs hex now w r).1
  updated :
      {r : WorkspaceRegistry} (id : String) (fields : Fields)
      → Reachable fs r
      → Reachable fs (update fs id fields r).1
  removed : {r : WorkspaceRegistry} (id : String) → Reachable fs r → Reachable fs (remove id r).1
  defaulted :
      {r : WorkspaceRegistry} (id : String) → Reachable fs r → Reachable fs (set_default id r).1

-- Each workspace is under its own id.
abbrev pub IdsMatch : Dict Fields → Type 0
IdsMatch [] = Unit
IdsMatch ((k, v) ∷ d) = (get "id" v ≡ some (text k)) × IdsMatch d

-- The default is one of the workspaces; there is none only where there is no workspace.
abbrev pub HasDefault : Dict Fields → Option String → Type 0
HasDefault d none = d ≡ []
HasDefault d (some id) = has id d ≡ true

abbrev pub IsWellFormed : WorkspaceRegistry → Type 0
IsWellFormed r =
    IdsMatch r.workspaces × Distinct (keys r.workspaces) × HasDefault r.workspaces r.default_id

IdsMatch-insert :
    (k : String) (v : Fields) (d : Dict Fields)
    → get "id" v ≡ some (text k)
    → IdsMatch d
    → IdsMatch (insert k v d)
unfolding insert
IdsMatch-insert k v [] own h = (own, tt)
IdsMatch-insert k v ((j, w) ∷ d) own h = elim (Bool-cases (j == k)) [
  | inl same ↦ rw same (own ∙ ap (λ x. some (text x)) (sym ((eq_iff j k).0 same)), h.1)
  | inr differs ↦ rw differs (h.0, IdsMatch-insert k v d own h.1)
]

IdsMatch-erase : (k : String) (d : Dict Fields) → IdsMatch d → IdsMatch (erase k d)
unfolding erase
IdsMatch-erase k [] h = tt
IdsMatch-erase k ((j, w) ∷ d) h =
    if_both IdsMatch (j == k) (IdsMatch-erase k d h.1) (h.0, IdsMatch-erase k d h.1)

keys-erase :
    {V : Type 0} (k j : String) (d : Dict V)
    → contains (keys d) j ≡ false
    → contains (keys (erase k d)) j ≡ false
unfolding keys erase
keys-erase k j [] h = refl
keys-erase k j ((i, w) ∷ d) h = ground (arith, keys-erase k j d)

Distinct-erase :
    {V : Type 0} (k : String) (d : Dict V) → Distinct (keys d) → Distinct (keys (erase k d))
unfolding keys erase
Distinct-erase k [] h = tt
Distinct-erase {V} k ((j, w) ∷ d) h =
    if_both (λ (x : Dict V). Distinct (keys x)) (j == k) (Distinct-erase k d h.1)
      (keys-erase k j d h.0, Distinct-erase k d h.1)

has-erase :
    {V : Type 0} (k j : String) (d : Dict V)
    → k == j ≡ false
    → has j d ≡ true
    → has j (erase k d) ≡ true
unfolding has erase
has-erase k j [] apart h = h
has-erase k j ((i, w) ∷ d) apart h =
    ground (arith, eq_iff i k, eq_iff i j, eq_iff k j, has-erase k j d apart)

not_id : (fs : FileSystem) (k : String) → contains (updatable fs) k ≡ true → k == "id" ≡ false
not_id fs k h = elim (Bool-cases (k == "id")) [
  | inr differs ↦ differs
  | inl same ↦
      absurd (false≢true (subst (λ x. contains (updatable fs) x ≡ true) ((eq_iff k "id").0 same) h))
]

path_kept :
    (fs : FileSystem) (v : Value) (ws : Fields)
    → get "id" (elim v [ text p ↦ put "path" (text (fs.resolve p)) ws | _ ↦ ws ]) ≡ get "id" ws
path_kept fs (text p) ws = get-put "path" "id" (text (fs.resolve p)) ws
path_kept fs null ws = refl
path_kept fs (bool b) ws = refl
path_kept fs (int n) ws = refl
path_kept fs (list l) ws = refl
path_kept fs (dict d) ws = refl
path_kept fs (other s) ws = refl

update_field-id :
    (fs : FileSystem) (k : String) (v : Value) (ws : Fields)
    → get "id" (update_field fs k v ws) ≡ get "id" ws
unfolding update_field
update_field-id fs k v ws = elim (Bool-cases (contains (updatable fs) k)) [
  | inl known ↦ rw known (get-put k "id" v ws ∙ rw (not_id fs k known) refl)
  | inr unknown ↦ elim (Bool-cases (k == "path")) [
    | inl path ↦ rw (unknown, path) (path_kept fs v ws)
    | inr neither ↦ rw (unknown, neither) refl
  ]
]

update_fields-id :
    (fs : FileSystem) (fields ws : Fields) → get "id" (update_fields fs fields ws).1 ≡ get "id" ws
unfolding update_fields
update_fields-id fs end ws = refl
update_fields-id fs (field k v fields) ws = elim (Option-cases (field_error fs k v)) [
  | inl fine ↦
      rw (fine, update_fields)
        (update_fields-id fs fields (update_field fs k v ws) ∙ update_field-id fs k v ws)
  | inr (e, bad) ↦ rw (bad, update_fields) refl
]

IdsMatch-lookup :
    (k : String) (v : Fields) (d : Dict Fields)
    → IdsMatch d
    → lookup k d ≡ some v
    → get "id" v ≡ some (text k)
unfolding lookup
IdsMatch-lookup k v [] h e = cc
IdsMatch-lookup k v ((j, w) ∷ d) h e = elim (Bool-cases (j == k)) [
  | inl same ↦
      let e' = subst (λ b. (if b then some w else lookup k d) ≡ some v) same e in
      let same' = (eq_iff j k).0 same in let own = h.0 in cc
  | inr differs ↦
      IdsMatch-lookup k v d h.1 (subst (λ b. (if b then some w else lookup k d) ≡ some v) differs e)
]

HasDefault-insert :
    (k : String) (v : Fields) (d : Dict Fields) (o : Option String)
    → HasDefault d o
    → HasDefault (insert k v d) (or_default o k)
unfolding or_default
HasDefault-insert k v d none h = has-insert k k v d ∙ rw (eq_refl k) refl
HasDefault-insert k v d (some id) h = has-insert k id v d ∙ if_both (λ b. b ≡ true) (k == id) refl h

HasDefault-put :
    (k : String) (v w : Fields) (d : Dict Fields) (o : Option String)
    → lookup k d ≡ some w
    → HasDefault d o
    → HasDefault (insert k v d) o
unfolding lookup
HasDefault-put k v w d none found h = let nothing = subst (λ x. lookup k x ≡ some w) h found in cc
HasDefault-put k v w d (some id) found h =
    has-insert k id v d ∙ if_both (λ b. b ≡ true) (k == id) refl h

HasDefault-first : (d : Dict Fields) → HasDefault d (first_key d)
unfolding first_key has
HasDefault-first [] = refl
HasDefault-first ((k, v) ∷ d) = rw (eq_refl k) refl

HasDefault-erase :
    (k : String) (d : Dict Fields) (o : Option String)
    → has k d ≡ true
    → HasDefault d o
    → HasDefault (erase k d) (if is_default o k then first_key (erase k d) else o)
unfolding has
HasDefault-erase k d none here h = absurd (false≢true (subst (λ x. has k x ≡ true) h here))
HasDefault-erase k d (some id) here h = elim (Bool-cases (id == k)) [
  | inl same ↦ rw same (HasDefault-first (erase k d))
  | inr differs ↦
      let apart : k == id ≡ false = ground (arith, eq_iff k id, eq_iff id k) in
      rw differs (has-erase k id d apart h)
]

own_id :
    (id resolved now : String) (w : NewWorkspace)
    → get "id" (workspace_record id resolved now w) ≡ some (text id)
unfolding get workspace_record
own_id id resolved now w = refl

empty_is : IsWellFormed (load none)
unfolding load keys
empty_is = (tt, tt, refl)

add-IsWellFormed :
    (fs : FileSystem) (hex now : String) (w : NewWorkspace) (r : WorkspaceRegistry)
    → IsWellFormed r
    → IsWellFormed (add fs hex now w r).1
unfolding add save
add-IsWellFormed fs hex now w r h =
    let id = "ws_" ⋯ hex in
    let ws = workspace_record id (fs.resolve w.path) now w in
    let P = λ (x : Result Fields × WorkspaceRegistry). IsWellFormed x.1 in
    if_both P (strip w.name == "") h (
      if_both P (is_some (fs.path_error (text w.path))) h (
        if_both P (not (fs.exists (fs.resolve w.path))) h (
          if_both P (not (fs.is_dir (fs.resolve w.path))) h (
            if_both P (not (contains valid_access w.access)) h (
              if_both P (any (has_path fs (fs.resolve w.path)) (values r.workspaces)) h (
                IdsMatch-insert id ws r.workspaces (own_id id (fs.resolve w.path) now w) h.0,
                Distinct-insert id ws r.workspaces h.1,
                HasDefault-insert id ws r.workspaces r.default_id h.2,
              ))))))

IdsMatch-put :
    (id : String) (ws ws' : Fields) (r : WorkspaceRegistry)
    → IsWellFormed r
    → lookup id r.workspaces ≡ some ws
    → get "id" ws' ≡ get "id" ws
    → IdsMatch (insert id ws' r.workspaces)
IdsMatch-put id ws ws' r h found same =
    IdsMatch-insert id ws' r.workspaces (same ∙ IdsMatch-lookup id ws r.workspaces h.0 found) h.0

written-IsWellFormed :
    (fs : FileSystem) (id : String) (ws : Fields) (out : Option String × Fields)
    (r : WorkspaceRegistry)
    → IsWellFormed r
    → lookup id r.workspaces ≡ some ws
    → get "id" out.1 ≡ get "id" ws
    → IsWellFormed (written fs id out r).1
unfolding written save
written-IsWellFormed fs id ws (none, ws') r h found same = (
  IdsMatch-put id ws ws' r h found same,
  Distinct-insert id ws' r.workspaces h.1,
  HasDefault-put id ws' ws r.workspaces r.default_id found h.2,
)
written-IsWellFormed fs id ws (some e, ws') r h found same = (
  IdsMatch-put id ws ws' r h found same,
  Distinct-insert id ws' r.workspaces h.1,
  HasDefault-put id ws' ws r.workspaces r.default_id found h.2,
)

update-IsWellFormed :
    (fs : FileSystem) (id : String) (fields : Fields) (r : WorkspaceRegistry)
    → IsWellFormed r
    → IsWellFormed (update fs id fields r).1
unfolding update
update-IsWellFormed fs id fields r h = elim (Option-cases (lookup id r.workspaces)) [
  | inl absent ↦ rw (absent, update) h
  | inr (ws, found) ↦
      rw (found, update)
        (written-IsWellFormed fs id ws (update_fields fs fields ws) r h found
          (update_fields-id fs fields ws))
]

remove-IsWellFormed :
    (id : String) (r : WorkspaceRegistry) → IsWellFormed r → IsWellFormed (remove id r).1
unfolding remove save
remove-IsWellFormed id r h =
    let P = λ (x : Result Bool × WorkspaceRegistry). IsWellFormed x.1 in
    elim (Bool-cases (has id r.workspaces)) [
      | inr absent ↦ rw (absent, remove) h
      | inl here ↦
          rw (here, remove)
            (if_both P (is_default r.default_id id && eqb (length r.workspaces) 1) h (
              IdsMatch-erase id r.workspaces h.0,
              Distinct-erase id r.workspaces h.1,
              HasDefault-erase id r.workspaces r.default_id here h.2,
            ))
    ]

set_default-IsWellFormed :
    (id : String) (r : WorkspaceRegistry) → IsWellFormed r → IsWellFormed (set_default id r).1
unfolding set_default save
set_default-IsWellFormed id r h = elim (Bool-cases (has id r.workspaces)) [
  | inr absent ↦ rw (absent, set_default) h
  | inl here ↦ rw (here, set_default) (h.0, h.1, here)
]

-- In every registry that the operations lead to, errors included, each workspace is under its own
-- id, no id stands twice, and the default is one of the workspaces, except where there is none.
pub Reachable-IsWellFormed :
    (fs : FileSystem) (r : WorkspaceRegistry) → Reachable fs r → IsWellFormed r
Reachable-IsWellFormed fs _ empty = empty_is
Reachable-IsWellFormed fs _ (added {r} hex now w p) =
    add-IsWellFormed fs hex now w r (Reachable-IsWellFormed fs r p)
Reachable-IsWellFormed fs _ (updated {r} id fields p) =
    update-IsWellFormed fs id fields r (Reachable-IsWellFormed fs r p)
Reachable-IsWellFormed fs _ (removed {r} id p) =
    remove-IsWellFormed id r (Reachable-IsWellFormed fs r p)
Reachable-IsWellFormed fs _ (defaulted {r} id p) =
    set_default-IsWellFormed id r (Reachable-IsWellFormed fs r p)
