-- ===== src/Workspaces/Paths/Allowed.antt =====
-- When system/core/workspace/path_validator.py allows an operation.
use mathlib.Core.Bool.{false≢true}
use capability_os.Base.{
  String, true, false, not, ◌&&◌, Option, none, some, List, [], ◌∷◌, ◌==◌, eq_iff, ◌⋯◌,
  strip_prefix, strip_prefix-append, append_of_strip_prefix, ◌≡◌, ◌≢◌, ◌↔◌, ◌⊎◌, inl, inr, refl,
  arith, Bool-cases, Option-cases, and_iff, unless_iff, same_iff, not_iff, refutes, subst, ap, sym,
  ◌∙◌,
}
use capability_os.Value.{
  Value, null, bool, text, list, Items, nil, cons, Fields, get, get_or, truthy, is_text, has_text,
}
use capability_os.Workspaces.{WorkspaceRegistry, values, get_by_path, covers_at}
use capability_os.Workspaces.Paths.{validate, judge, deny, is_barred, Verdict}

-- The first element of a list that has a property.
abbrev pub IsFirst : {A : Type 0} → (A → Type 0) → List A → A → Type 0
IsFirst P [] x = ⊥
IsFirst P (y ∷ ys) x = ((y ≡ x) × P y) ⊎ ((¬ P y) × IsFirst P ys x)

-- The workspace's root is the path, or the path goes on behind the root and a separator.
abbrev pub Covers : (String → String) → String → String → Option Value → Type 0
Covers normalize sep path o =
    (p : String) × (o ≡ some (text p))
    × ((normalize path ≡ normalize p)
        ⊎ ((rest : String) × (normalize path ≡ (normalize p ⋯ sep) ⋯ rest)))

-- What `Covers` says of a root.
abbrev Under : (String → String) → String → String → String → Type 0
Under normalize sep path p =
    (normalize path ≡ normalize p)
    ⊎ ((rest : String) × (normalize path ≡ (normalize p ⋯ sep) ⋯ rest))

covers_at-Under :
    (normalize : String → String) (sep path p : String)
    → Under normalize sep path p
    → covers_at normalize sep path (some (text p)) ≡ true
covers_at-Under normalize sep path p (inl same) =
    rw ((eq_iff (normalize path) (normalize p)).1 same) refl
covers_at-Under normalize sep path p (inr (rest, e)) =
    let found : strip_prefix (normalize p ⋯ sep) (normalize path) ≡ some rest =
      rw e (strip_prefix-append (normalize p ⋯ sep) rest) in
    rw found (ground arith)

Under-covers_at :
    (normalize : String → String) (sep path p : String)
    → covers_at normalize sep path (some (text p)) ≡ true
    → Under normalize sep path p
Under-covers_at normalize sep path p h = elim (Bool-cases (normalize path == normalize p)) [
  | inl same ↦ inl ((eq_iff (normalize path) (normalize p)).0 same)
  | inr differs ↦ elim (Option-cases (strip_prefix (normalize p ⋯ sep) (normalize path))) [
    | inl nothing ↦ absurd (ground arith)
    | inr (rest, found) ↦
        inr (rest, append_of_strip_prefix (normalize p ⋯ sep) (normalize path) rest found)
  ]
]

text_injective : {p q : String} → some (text p) ≡ some (text q) → q ≡ p
text_injective h = cc

covers_at_iff :
    (normalize : String → String) (sep path : String) (o : Option Value)
    → (covers_at normalize sep path o ≡ true) ↔ Covers normalize sep path o
covers_at_iff normalize sep path (some (text p)) = (
  (λ h. (p, refl, Under-covers_at normalize sep path p h)),
  λ h.
      covers_at-Under normalize sep path p
        (subst (Under normalize sep path) (text_injective h.1) h.2),
)
covers_at_iff normalize sep path none = ((λ h. absurd (cc)), λ h. let e = h.1 in cc)
covers_at_iff normalize sep path _ = ((λ h. absurd (cc)), λ h. let e = h.1 in cc)

module _ (normalize : String → String) (sep path : String) where
  abbrev pub Covering : Fields → Type 0
  Covering ws = Covers normalize sep path (get "path" ws)

  get_by_path_iff :
      (l : List Fields) (ws : Fields)
      → (get_by_path normalize sep path l ≡ some ws) ↔ IsFirst Covering l ws
  unfolding get_by_path
  get_by_path_iff [] ws = ((λ h. absurd (cc)), λ h. absurd h)
  get_by_path_iff (x ∷ l) ws =
      let reflects = covers_at_iff normalize sep path (get "path" x) in
      let rest = get_by_path_iff l ws in
      elim (Bool-cases (covers_at normalize sep path (get "path" x))) [
        | inl here ↦ rw here (
          (λ h. inl (ground arith, reflects.0 here)),
          λ h. elim h [
            | inl first ↦ ap some first.0
            | inr later ↦ absurd (later.0 (reflects.0 here))
          ],
        )
        | inr apart ↦ rw apart (
          (λ h. inr ((λ c. absurd (false≢true (sym apart ∙ reflects.1 c))), rest.0 h)),
          λ h. elim h [
            | inl first ↦ absurd (false≢true (sym apart ∙ reflects.1 first.1))
            | inr later ↦ rest.1 later.1
          ],
        )
      ]

abbrev pub IsItem : String → Items → Type 0
IsItem s nil = ⊥
IsItem s (cons v l) = (v ≡ text s) ⊎ IsItem s l

-- What the workspace says: it is active, its access is not "none", and not "read" where the operation
-- writes; and where it lists its capabilities, the capability that asks is one of them.
pub record Permits (operation : String) (capability_id : Option String) (ws : Fields) : Type 0 where
  pub active : truthy (get_or "active" (bool true) ws) ≡ true
  pub unblocked : get_or "access" (text "none") ws ≢ text "none"
  pub writable : operation ≡ "write" → get_or "access" (text "none") ws ≢ text "read"
  pub listed :
      (l : Items) (c : String)
      → get_or "allowed_capabilities" (text "*") ws ≡ list l
      → capability_id ≡ some c
      → IsItem c l

is_text_iff : (s : String) (v : Value) → (is_text s v ≡ true) ↔ (v ≡ text s)
unfolding is_text
is_text_iff s (text t) = ((λ h. ap text ((eq_iff t s).0 h)), λ h. (eq_iff t s).1 (cc))
is_text_iff s null = ((λ h. absurd (cc)), λ h. cc)
is_text_iff s _ = ((λ h. absurd (cc)), λ h. cc)

has_text_iff : (s : String) (l : Items) → (has_text s l ≡ true) ↔ IsItem s l
unfolding has_text
has_text_iff s nil = ((λ h. absurd (cc)), λ h. absurd h)
has_text_iff s (cons v l) =
    let reflects = is_text_iff s v in
    let rest = has_text_iff s l in
    elim (Bool-cases (is_text s v)) [
      | inl same ↦ rw same ((λ h. inl (reflects.0 same)), λ h. refl)
      | inr differs ↦ rw differs (
        (λ h. inr (rest.0 h)),
        λ h. elim h [
          | inl same ↦ absurd (false≢true (sym differs ∙ reflects.1 same))
          | inr later ↦ rest.1 later
        ],
      )
    ]

-- What `is_barred` says is not so.
abbrev Listed : Value → Option String → Type 0
Listed v capability_id = (l : Items) (c : String) → v ≡ list l → capability_id ≡ some c → IsItem c l

Listed_item :
    {l m : Items} {c d : String}
    → list l ≡ list m
    → some c ≡ some d
    → has_text c l ≡ true
    → has_text d m ≡ true
Listed_item same_list same_name h = cc

is_barred_iff :
    (v : Value) (capability_id : Option String)
    → (is_barred v capability_id ≡ false) ↔ Listed v capability_id
unfolding is_barred
is_barred_iff (list l) (some c) = (
  (λ h m d same_list same_name.
      (has_text_iff d m).0 (Listed_item same_list same_name (ground arith))),
  λ h. rw ((has_text_iff c l).1 (h l c refl refl)) refl,
)
is_barred_iff (list l) none = ((λ h m d same_list same_name. absurd (cc)), λ h. refl)
is_barred_iff v o = ((λ h m d same_list same_name. absurd (cc)), λ h. refl)

judge-allowed :
    (operation : String) (capability_id : Option String) (ws : Fields)
    → (judge operation capability_id ws).allowed
      ≡ truthy (get_or "active" (bool true) ws)
        && (not (is_text "none" (get_or "access" (text "none") ws))
            && (not (operation == "write" && is_text "read" (get_or "access" (text "none") ws))
                && not (is_barred (get_or "allowed_capabilities" (text "*") ws) capability_id)))
unfolding judge deny
judge-allowed operation capability_id ws = ground arith

judge_iff :
    (operation : String) (capability_id : Option String) (ws : Fields)
    → ((judge operation capability_id ws).allowed ≡ true) ↔ Permits operation capability_id ws
judge_iff operation capability_id ws =
    let access = get_or "access" (text "none") ws in
    let caps = get_or "allowed_capabilities" (text "*") ws in
    let listed = is_barred_iff caps capability_id in
    let unbarred = not_iff (is_barred caps capability_id) in
    let tests = and_iff (same_iff (truthy (get_or "active" (bool true) ws))) (
      and_iff (refutes (is_text_iff "none" access)) (
        and_iff (unless_iff (eq_iff operation "write") (is_text_iff "read" access))
          ((λ h. listed.0 (unbarred.0 h)), λ h. unbarred.1 (listed.1 h)))) in
    rw (judge-allowed operation capability_id ws) (
      (λ h.
          let (active, (unblocked, (writable, allowed))) = tests.0 h in
          record { active = active; unblocked = unblocked; writable = writable; listed = allowed }),
      λ h. tests.1 (h.active, (h.unblocked, (h.writable, h.listed))),
    )

deny-allowed : (reason : String) (ws : Option Fields) → (deny reason ws).allowed ≢ true
unfolding deny
deny-allowed reason ws = false≢true

module _ (resolve : String → Option String) (normalize : String → String)
    (sep path operation : String) (capability_id : Option String) (r : WorkspaceRegistry) where
  validate_found :
      (p : String) (ws : Fields)
      → resolve path ≡ some p
      → get_by_path normalize sep p (values r.workspaces) ≡ some ws
      → validate resolve normalize sep path operation capability_id r
        ≡ judge operation capability_id ws
  unfolding validate
  validate_found p ws resolved found = rw (resolved, validate) (rw (found, validate) refl)

  -- Where it allows, there is a path and a workspace.
  validate_finds :
      (validate resolve normalize sep path operation capability_id r).allowed ≡ true
      → (p : String) × (resolve path ≡ some p)
        × ((ws : Fields) × (get_by_path normalize sep p (values r.workspaces) ≡ some ws))
  unfolding validate
  validate_finds h = elim (Option-cases (resolve path)) [
    | inl invalid ↦ absurd (deny-allowed "Invalid path." none (rw (invalid, validate) at h))
    | inr (p, resolved) ↦ elim (Option-cases (get_by_path normalize sep p (values r.workspaces))) [
      | inl outside ↦
          let h' = rw (resolved, validate) at h in
          absurd (
            deny-allowed "Path is outside all registered workspaces." none
              (rw (outside, validate) at h'))
      | inr (ws, found) ↦ (p, resolved, (ws, found))
    ]
  ]

  -- An operation on a path is allowed exactly when the path resolves, and the first workspace whose
  -- root, normalized, is the normalized path, or begins it with the separator behind it, is active, is
  -- not blocked, is not read-only where the operation writes, and lists the capability that asks, where it
  -- lists capabilities and one asks. A root that ends with the separator, as "/", begins no path so.
  pub validate-allowed_iff :
      ((validate resolve normalize sep path operation capability_id r).allowed ≡ true) ↔ (
        (p : String) × (resolve path ≡ some p)
        × ((ws : Fields) × IsFirst (Covering normalize sep p) (values r.workspaces) ws
            × Permits operation capability_id ws))
  validate-allowed_iff = (
    (λ h.
        let (p, resolved, (ws, found)) = validate_finds h in
        (
          p,
          resolved,
          (
            ws,
            (get_by_path_iff normalize sep p (values r.workspaces) ws).0 found,
            (judge_iff operation capability_id ws).0
                (subst (λ (v : Verdict). v.allowed ≡ true) (validate_found p ws resolved found) h),
          ),
        )),
    λ h.
        let (p, resolved, (ws, first, permitted)) = h in
        rw
          (validate_found p ws resolved
            ((get_by_path_iff normalize sep p (values r.workspaces) ws).1 first))
          ((judge_iff operation capability_id ws).1 permitted),
  )
