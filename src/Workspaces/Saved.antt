-- ===== src/Workspaces/Saved.antt =====
-- The file of system/core/workspace/workspace_registry.py, and the last workspace.
use mathlib.Core.List.{append_assoc, append-nil}
use capability_os.Base.{
  String, Option, some, is_some, Bool, false, not, ◌&&◌, ◌||◌, none, some, [], ◌∷◌, ◌++◌, length,
  any, contains, eqb, ◌==◌, eq_iff, if◌then◌else◌, ◌⋯◌, strip, Dict, lookup, insert, erase, has,
  keys, Distinct, ◌≡◌, refl, sym, ap, ◌∙◌, arith, Option-cases, if_both, inl, inr,
}
use capability_os.Value.{Fields, end, field, text}
use capability_os.Exec.{Result}
use capability_os.Workspaces.{
  WorkspaceRegistry, FileSystem, NewWorkspace, load, load_items, save, values, add, update,
  update_fields, update_field, field_error, written, remove, set_default, is_default, has_path,
  workspace_record, valid_access, first_key, or_default,
}
use capability_os.Workspaces.Reach.{
  Reachable, empty, added, updated, removed, defaulted, IdsMatch, IsWellFormed,
  Reachable-IsWellFormed,
}

-- No key of the second dict is in the first.
abbrev Apart : Dict Fields → Dict Fields → Type 0
Apart front [] = Unit
Apart front ((k, v) ∷ d) = (contains (keys front) k ≡ false) × Apart front d

keys_snoc :
    (front : Dict Fields) (k j : String) (v : Fields)
    → contains (keys (front ++ (k, v) ∷ [])) j ≡ contains (keys front) j || k == j
unfolding keys
keys_snoc [] k j v = ground arith
keys_snoc ((i, w) ∷ front) k j v = ground (arith, keys_snoc front k j v)

Apart-snoc :
    (front d : Dict Fields) (k : String) (v : Fields)
    → Apart front d
    → contains (keys d) k ≡ false
    → Apart (front ++ (k, v) ∷ []) d
unfolding keys
Apart-snoc front [] k v h new = tt
Apart-snoc front ((j, w) ∷ d) k v h new =
    let apart : k == j ≡ false = ground (arith, eq_iff j k, eq_iff k j) in
    let later : contains (keys d) k ≡ false = ground arith in
    (keys_snoc front k j v ∙ rw (h.0, apart) refl, Apart-snoc front d k v h.1 later)

insert-new :
    (k : String) (v : Fields) (d : Dict Fields)
    → contains (keys d) k ≡ false
    → insert k v d ≡ d ++ (k, v) ∷ []
unfolding insert keys
insert-new k v [] h = refl
insert-new k v ((j, w) ∷ d) h =
    let apart : j == k ≡ false = ground arith in
    rw apart (ap (λ x. (j, w) ∷ x) (insert-new k v d (ground arith)))

load_items-values :
    (d front : Dict Fields)
    → IdsMatch d
    → Distinct (keys d)
    → Apart front d
    → load_items (values d) front ≡ front ++ d
unfolding load_items values keys
load_items-values [] front ids once apart = sym (append-nil front)
load_items-values ((k, v) ∷ d) front ids once apart =
    rw (ids.0, load_items)
      (ap (load_items (values d)) (insert-new k v front apart.0)
        ∙ load_items-values d (front ++ (k, v) ∷ []) ids.1 once.1
            (Apart-snoc front d k v apart.1 once.0)
        ∙ append_assoc front ((k, v) ∷ []) d)

Apart-nil : (d : Dict Fields) → Apart [] d
unfolding keys
Apart-nil [] = tt
Apart-nil ((k, v) ∷ d) = (refl, Apart-nil d)

-- What a start of the program reads from the file is the registry.
abbrev pub IsSaved : WorkspaceRegistry → Type 0
IsSaved r = load r.file ≡ r

save-IsSaved : (r : WorkspaceRegistry) → IsWellFormed r → IsSaved (save r)
unfolding save load
save-IsSaved r h =
    ap {B = WorkspaceRegistry}
      (λ d. record {
        workspaces = d;
        default_id = r.default_id;
        file = some (record { items = values r.workspaces; default_workspace_id = r.default_id });
      })
      (load_items-values r.workspaces [] h.0 h.1 (Apart-nil r.workspaces))

-- An operation that leaves a registry as its file has it.
abbrev Stays : {A : Type 0} → A × WorkspaceRegistry → Type 0
Stays x = IsWellFormed x.1 → IsSaved x.1

save_Stays : (r : WorkspaceRegistry) → IsWellFormed (save r) → IsSaved (save r)
unfolding save
save_Stays r h = save-IsSaved r h

loaded : IsSaved (load none)
unfolding load
loaded = refl

add-Stays :
    (fs : FileSystem) (hex now : String) (w : NewWorkspace) (r : WorkspaceRegistry)
    → IsSaved r
    → Stays (add fs hex now w r)
unfolding add
add-Stays fs hex now w r h =
    let id = "ws_" ⋯ hex in
    let ws = workspace_record id (fs.resolve w.path) now w in
    let r' : WorkspaceRegistry = record r {
      workspaces = insert id ws r.workspaces;
      default_id = or_default r.default_id id;
    } in
    let P = λ (x : Result Fields × WorkspaceRegistry). Stays x in
    if_both P (strip w.name == "") (λ _. h)
      (if_both P (is_some (fs.path_error (text w.path))) (λ _. h)
        (if_both P (not (fs.exists (fs.resolve w.path))) (λ _. h)
          (if_both P (not (fs.is_dir (fs.resolve w.path))) (λ _. h)
            (if_both P (not (contains valid_access w.access)) (λ _. h)
              (if_both P (any (has_path fs (fs.resolve w.path)) (values r.workspaces)) (λ _. h)
                (save_Stays r'))))))

-- No field raises.
abbrev pub NoErrors : FileSystem → Fields → Type 0
NoErrors fs end = Unit
NoErrors fs (field k v fields) = (field_error fs k v ≡ none) × NoErrors fs fields

update_fields-NoErrors :
    (fs : FileSystem) (fields ws : Fields)
    → NoErrors fs fields
    → (update_fields fs fields ws).0 ≡ none
unfolding update_fields
update_fields-NoErrors fs end ws h = refl
update_fields-NoErrors fs (field k v fields) ws h =
    rw (h.0, update_fields) (update_fields-NoErrors fs fields (update_field fs k v ws) h.1)

written-Stays :
    (fs : FileSystem) (id : String) (out : Option String × Fields) (r : WorkspaceRegistry)
    → out.0 ≡ none
    → Stays (written fs id out r)
unfolding written
written-Stays fs id (none, ws) r h =
    save_Stays (record r { workspaces = insert id ws r.workspaces })
written-Stays fs id (some e, ws) r h = cc

update-Stays :
    (fs : FileSystem) (id : String) (fields : Fields) (r : WorkspaceRegistry)
    → NoErrors fs fields
    → IsSaved r
    → Stays (update fs id fields r)
unfolding update
update-Stays fs id fields r fine h = elim (Option-cases (lookup id r.workspaces)) [
  | inl absent ↦ rw (absent, update) (λ _. h)
  | inr (ws, found) ↦
      rw (found, update)
        (written-Stays fs id (update_fields fs fields ws) r
          (update_fields-NoErrors fs fields ws fine))
]

remove-Stays : (id : String) (r : WorkspaceRegistry) → IsSaved r → Stays (remove id r)
unfolding remove
remove-Stays id r h =
    let P = λ (x : Result Bool × WorkspaceRegistry). Stays x in
    let rest = erase id r.workspaces in
    let r' : WorkspaceRegistry = record r {
      workspaces = rest;
      default_id = if is_default r.default_id id then first_key rest else r.default_id;
    } in
    if_both P (not (has id r.workspaces)) (λ _. h)
      (if_both P (is_default r.default_id id && eqb (length r.workspaces) 1) (λ _. h)
        (save_Stays r'))

set_default-Stays : (id : String) (r : WorkspaceRegistry) → IsSaved r → Stays (set_default id r)
unfolding set_default
set_default-Stays id r h =
    if_both (λ (x : Bool × WorkspaceRegistry). Stays x) (has id r.workspaces)
      (save_Stays (record r { default_id = some id })) (λ _. h)

-- Operations among which no update has a path that is none; other errors are included.
abbrev pub NoBadPath : (fs : FileSystem) (r : WorkspaceRegistry) → Reachable fs r → Type 0
NoBadPath fs _ empty = Unit
NoBadPath fs _ (added {r} hex now w p) = NoBadPath fs r p
NoBadPath fs _ (updated {r} id fields p) = NoErrors fs fields × NoBadPath fs r p
NoBadPath fs _ (removed {r} id p) = NoBadPath fs r p
NoBadPath fs _ (defaulted {r} id p) = NoBadPath fs r p

-- In every registry that the operations lead to, errors included, where no update has been given a path
-- that cannot be resolved and the file can be written, it is up to date: what a start of the program
-- reads from it is the registry, with its default and the order of its workspaces.
pub Reachable-IsSaved :
    (fs : FileSystem) (r : WorkspaceRegistry) (p : Reachable fs r) → NoBadPath fs r p → IsSaved r
Reachable-IsSaved fs _ empty fine = loaded
Reachable-IsSaved fs _ (added {r} hex now w p) fine =
    add-Stays fs hex now w r (Reachable-IsSaved fs r p fine)
      (Reachable-IsWellFormed fs _ (added hex now w p))
Reachable-IsSaved fs _ (updated {r} id fields p) fine =
    update-Stays fs id fields r fine.0 (Reachable-IsSaved fs r p fine.1)
      (Reachable-IsWellFormed fs _ (updated id fields p))
Reachable-IsSaved fs _ (removed {r} id p) fine =
    remove-Stays id r (Reachable-IsSaved fs r p fine) (Reachable-IsWellFormed fs _ (removed id p))
Reachable-IsSaved fs _ (defaulted {r} id p) fine =
    set_default-Stays id r (Reachable-IsSaved fs r p fine)
      (Reachable-IsWellFormed fs _ (defaulted id p))
