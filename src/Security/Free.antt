-- ===== src/Security/Free.antt =====
-- `classify` of system/core/security/security_service.py against a description of the calls that
-- need no confirmation.
use mathlib.Core.List.{Memᴰ}
use mathlib.Core.List.Memᴰ
use capability_os.Base.{
  ℕ, String, Bool, true, false, Option, none, some, List, [], ◌∷◌, ◌++◌, ◌&&◌, ◌||◌, any, contains,
  if◌then◌else◌, ◌≡◌, ◌≢◌, ◌↔◌, ◌⊎◌, inl, inr, refl, All-map, Bool-cases,
}
use capability_os.Value.{Fields, get}
use capability_os.Security.{
  SecurityLevel, free, confirm, protected, SecurityService, PathParts, named_text, path_fields,
  is_subpath, hits_pattern, is_dangerous, check_paths, is_write_outside_workspace, classify,
  add_workspace,
}
use capability_os.Security.Workspaces.{contains-Mem, Mem-contains, IsConfined-iff}
use capability_os.Security.Checks.{
  IsUncritical, IsHarmless, IsInside, IsConfined, Names, IsUncritical-iff, harmless_iff,
}

-- The branches of `classify`, by their tests.
abbrev level_of : Bool → Bool → Bool → Bool → Bool → Bool → SecurityLevel
level_of critical harmful forbidden outside freed confirmed =
    elim (if critical then some protected else if harmful then some protected else none) [
      | some protected ↦ protected
      | _ ↦
          if forbidden
          then protected
          else if outside
          then protected
          else if freed
          then free
          else if confirmed
          then confirm
          else confirm
    ]

level_of_iff :
    (critical harmful forbidden outside freed confirmed : Bool)
    → (level_of critical harmful forbidden outside freed confirmed ≡ free) ↔ (
        (critical ≡ false)
        × (harmful ≡ false)
        × (forbidden ≡ false)
        × (outside ≡ false)
        × (freed ≡ true))
level_of_iff true b c d e f = ((λ h. cc), λ h. cc)
level_of_iff false true c d e f = ((λ h. cc), λ h. cc)
level_of_iff false false true d e f = ((λ h. cc), λ h. cc)
level_of_iff false false false true e f = ((λ h. cc), λ h. cc)
level_of_iff false false false false true f = ((λ h. (refl, refl, refl, refl, refl)), λ h. refl)
level_of_iff false false false false false true = ((λ h. cc), λ h. cc)
level_of_iff false false false false false false = ((λ h. cc), λ h. cc)

either_iff :
    (xs ys : List String) (x y : String)
    → (contains xs x || contains ys y ≡ true) ↔ (Memᴰ x xs ⊎ Memᴰ y ys)
either_iff xs ys x y = elim (Bool-cases (contains xs x)) [
  | inl first ↦ rw first ((λ h. inl (contains-Mem xs x first)), λ h. refl)
  | inr skipped ↦ rw skipped (
    (λ h. inr (contains-Mem ys y h)),
    λ h. elim h [ inl m ↦ let k = Mem-contains xs x m in cc | inr m ↦ Mem-contains ys y m ],
  )
]

neither_iff :
    (xs ys : List String) (x y : String)
    → (contains xs x || contains ys y ≡ false) ↔ (¬ (Memᴰ x xs ⊎ Memᴰ y ys))
neither_iff xs ys x y = (
  (λ h m. let k = (either_iff xs ys x y).1 m in cc),
  λ unlisted. elim (Bool-cases (contains xs x || contains ys y)) [
    | inl listed ↦ absurd (unlisted ((either_iff xs ys x y).0 listed))
    | inr h ↦ h
  ],
)

-- A call that needs no confirmation: nothing critical, dangerous or protected is in it, it writes
-- nowhere outside the workspaces, and its tool or its capability is one of the free ones.
abbrev pub IsFree :
    ℕ → (String → Option PathParts) → SecurityService → String → String → Fields → Type 0
IsFree sep resolve s capability_id tool_id inputs =
    IsUncritical sep s inputs
    × IsHarmless inputs
    × (¬ (Memᴰ tool_id s.protected_tools ⊎ Memᴰ capability_id s.protected_caps))
    × IsConfined resolve s tool_id capability_id inputs
    × (Memᴰ tool_id s.free_tools ⊎ Memᴰ capability_id s.free_caps)

-- A call needs no confirmation exactly when no path it names holds a critical pattern, its command
-- holds no dangerous word, neither its tool nor its capability is protected, it is no write or each
-- path it names can be resolved and is in a workspace (where there is one), and its tool or its
-- capability is free. Neither the confirm set of tools nor that of capabilities is asked before the
-- free ones: what is in both is free.
pub classify-free_iff :
    (sep : ℕ) (resolve : String → Option PathParts) (s : SecurityService)
    (capability_id tool_id : String) (inputs : Fields)
    → (classify sep resolve s capability_id tool_id inputs ≡ free)
      ↔ IsFree sep resolve s capability_id tool_id inputs
unfolding classify check_paths
classify-free_iff sep resolve s capability_id tool_id inputs =
    let tests =
      level_of_iff
        (any (λ f. hits_pattern sep s.critical_patterns (named_text (get f inputs))) path_fields)
        (is_dangerous (get "command" inputs))
        (contains s.protected_tools tool_id || contains s.protected_caps capability_id)
        (is_write_outside_workspace resolve s tool_id capability_id inputs)
        (contains s.free_tools tool_id || contains s.free_caps capability_id)
        (contains s.confirm_tools tool_id || contains s.confirm_caps capability_id) in
    let uncritical = IsUncritical-iff sep s inputs in
    let harmless = harmless_iff (get "command" inputs) in
    let allowed = neither_iff s.protected_tools s.protected_caps tool_id capability_id in
    let confined = IsConfined-iff resolve s tool_id capability_id inputs in
    let freed = either_iff s.free_tools s.free_caps tool_id capability_id in
    (
      (λ h.
          let (a, b, c, d, e) = tests.0 h in
          (uncritical.0 a, harmless.0 b, allowed.0 c, confined.0 d, freed.0 e)),
      λ call. tests.1 (
        uncritical.1 call.0,
        harmless.1 call.1,
        allowed.1 call.2,
        confined.1 call.3,
        freed.1 call.4,
      ),
    )

IsInside-more :
    (resolve : String → Option PathParts) (roots : List PathParts) (root : PathParts) (v : String)
    → IsInside resolve roots v
    → IsInside resolve (roots ++ root ∷ []) v
IsInside-more resolve roots root v h =
    let (path, e, r, m, rest, split) = h in
    (path, e, r, Memᴰ.append_left (root ∷ []) m, rest, split)

IsConfined-more :
    (resolve : String → Option PathParts) (s : SecurityService) (root : PathParts)
    (tool_id capability_id : String) (inputs : Fields)
    → s.workspace_roots ≢ []
    → IsConfined resolve s tool_id capability_id inputs
    → IsConfined resolve
        (record s { workspace_roots = s.workspace_roots ++ root ∷ [] })
        tool_id
        capability_id
        inputs
IsConfined-more resolve s root tool_id capability_id inputs rooted h w _ =
    All-map {P = λ f. (v : String) → Names (get f inputs) v → IsInside resolve s.workspace_roots v}
      {Q = λ f.
        (v : String) → Names (get f inputs) v → IsInside resolve (s.workspace_roots ++ root ∷ []) v}
      (λ f inside v names. IsInside-more resolve s.workspace_roots root v (inside v names))
      path_fields (h w rooted)

-- Where there is a workspace already, one more takes no call's freedom away.
pub classify-free-add_workspace :
    (sep : ℕ) (resolve : String → Option PathParts) (s : SecurityService) (root : PathParts)
    (capability_id tool_id : String) (inputs : Fields)
    → s.workspace_roots ≢ []
    → classify sep resolve s capability_id tool_id inputs ≡ free
    → classify sep resolve (add_workspace root s) capability_id tool_id inputs ≡ free
unfolding add_workspace
classify-free-add_workspace sep resolve s root capability_id tool_id inputs rooted h =
    let call = (classify-free_iff sep resolve s capability_id tool_id inputs).0 h in
    let confined = IsConfined-more resolve s root tool_id capability_id inputs rooted call.3 in
    let more : SecurityService = record s { workspace_roots = s.workspace_roots ++ root ∷ [] } in
    elim (Bool-cases (any (λ r. is_subpath r root && is_subpath root r) s.workspace_roots)) [
      | inl known ↦ rw known h
      | inr fresh ↦ rw fresh (
          (classify-free_iff sep resolve more capability_id tool_id inputs).1
            (call.0, call.1, call.2, confined, call.4))
    ]
