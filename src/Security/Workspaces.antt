-- ===== src/Security/Workspaces.antt =====
-- `_is_write_outside_workspace` of system/core/security/security_service.py, and its tests.
use mathlib.Core.Bool.{false≢true}
use mathlib.Core.List.{Memᴰ}
use capability_os.Base.{
  String, Bool, true, false, Option, none, some, List, [], ◌∷◌, ◌++◌, ◌&&◌, ◌||◌, not, any,
  contains, ◌==◌, eq_iff, ◌≡◌, ◌≢◌, ◌↔◌, ◌⊎◌, inl, inr, refl, arith, sym, any_iff, Bool-cases,
  subst,
}
use capability_os.Value.{Fields, get}
use capability_os.Security.{
  SecurityService, PathParts, named_text, path_fields, write_tools, write_caps, is_subpath,
  is_outside, is_beyond, is_empty, is_write_outside_workspace,
}
use capability_os.Security.Checks.{IsInside, IsConfined, Names, named_iff, and_true}

pub contains-Mem : (xs : List String) (s : String) → contains xs s ≡ true → Memᴰ s xs
contains-Mem [] s h = absurd (false≢true h)
contains-Mem (x ∷ xs) s h = elim (Bool-cases (x == s)) [
  | inl same ↦ Memᴰ.head (sym ((eq_iff x s).0 same))
  | inr differs ↦ Memᴰ.tail (contains-Mem xs s (subst (λ b. b || contains xs s ≡ true) differs h))
]

pub Mem-contains : (xs : List String) (s : String) → Memᴰ s xs → contains xs s ≡ true
Mem-contains [] s m = elim m [ ]
Mem-contains (x ∷ xs) s (Memᴰ.head e) = ground (arith, eq_iff x s)
Mem-contains (x ∷ xs) s (Memᴰ.tail m) = ground (arith, Mem-contains xs s m)

below_rest :
    (path root : PathParts)
    → is_subpath path root ≡ true
    → (rest : PathParts) × (path ≡ root ++ rest)
unfolding is_subpath
below_rest path [] h = (path, refl)
below_rest [] (r ∷ root) h = absurd (false≢true h)
below_rest (p ∷ path) (r ∷ root) h =
    let (same, below) = and_true (p == r) (is_subpath path root) h in
    let (rest, e) = below_rest path root below in let same' = (eq_iff p r).0 same in (rest, cc)

is_subpath-append : (root rest : PathParts) → is_subpath (root ++ rest) root ≡ true
unfolding is_subpath
is_subpath-append [] [] = refl
is_subpath-append [] (p ∷ rest) = refl
is_subpath-append (r ∷ root) rest = ground (arith, eq_iff r r, is_subpath-append root rest)

-- Which of the workspaces a path is in.
below-any :
    (path : PathParts) (roots : List PathParts)
    → any (λ root. is_subpath path root) roots ≡ true
    → (root : PathParts) × Memᴰ root roots × (rest : PathParts) × (path ≡ root ++ rest)
below-any path [] h = absurd (false≢true h)
below-any path (r ∷ roots) h = elim (Bool-cases (is_subpath path r)) [
  | inl below ↦ let (rest, e) = below_rest path r below in (r, Memᴰ.head refl, rest, e)
  | inr beside ↦
      let (root, m, rest, e) =
        below-any path roots
          (subst (λ b. b || any (λ x. is_subpath path x) roots ≡ true) beside h) in
      (root, Memᴰ.tail m, rest, e)
]

any-below :
    (roots : List PathParts) (root rest : PathParts)
    → Memᴰ root roots
    → any (λ r. is_subpath (root ++ rest) r) roots ≡ true
any-below [] root rest m = elim m [ ]
any-below (r ∷ roots) root rest (Memᴰ.head e) =
    rw (subst (λ x. is_subpath (root ++ rest) x ≡ true) e (is_subpath-append root rest)) refl
any-below (r ∷ roots) root rest (Memᴰ.tail m) = ground (arith, any-below roots root rest m)

not-false : (b : Bool) → not b ≡ false → b ≡ true
not-false b h = ground arith

within_iff :
    (roots : List PathParts) (found : Option PathParts)
    → (is_beyond roots found ≡ false) ↔ (
        (path : PathParts) × (found ≡ some path)
        × (root : PathParts) × Memᴰ root roots
        × (rest : PathParts) × (path ≡ root ++ rest))
unfolding is_beyond
within_iff roots none = ((λ h. cc), λ found. cc found.1)
within_iff roots (some path) = (
  (λ h.
      let (root, m, rest, e) = below-any path roots (not-false _ h) in
      (path, refl, root, m, rest, e)),
  λ found.
      let (p, same, root, m, rest, e) = found in
      let e' : root ++ rest ≡ path = cc in
      rw (subst (λ x. any (λ r. is_subpath x r) roots ≡ true) e' (any-below roots root rest m))
        refl,
)

IsInside-iff :
    (resolve : String → Option PathParts) (roots : List PathParts) (v : String)
    → (is_outside resolve roots (some v) ≡ false) ↔ IsInside resolve roots v
unfolding is_outside
IsInside-iff resolve roots v = within_iff roots (resolve v)

-- Whether the tool or the capability writes.
abbrev IsWrite : String → String → Type 0
IsWrite tool_id capability_id = Memᴰ tool_id write_tools ⊎ Memᴰ capability_id write_caps

IsWrite-cases :
    (tool_id capability_id : String)
    → ((not (contains write_tools tool_id) && not (contains write_caps capability_id) ≡ true)
        × (¬ IsWrite tool_id capability_id))
      ⊎ ((not (contains write_tools tool_id) && not (contains write_caps capability_id) ≡ false)
          × IsWrite tool_id capability_id)
IsWrite-cases tool_id capability_id = elim (Bool-cases (contains write_tools tool_id)) [
  | inl tool ↦ inr (rw tool refl, inl (contains-Mem write_tools tool_id tool))
  | inr other_tool ↦ elim (Bool-cases (contains write_caps capability_id)) [
    | inl cap ↦ inr (rw (other_tool, cap) refl, inr (contains-Mem write_caps capability_id cap))
    | inr other_cap ↦ inl (
      rw (other_tool, other_cap) refl,
      λ w. elim w [
        | inl m ↦ let k = Mem-contains write_tools tool_id m in cc
        | inr m ↦ let k = Mem-contains write_caps capability_id m in cc
      ],
    )
  ]
]

no_roots : (roots : List PathParts) → is_empty roots ≡ true → roots ≡ []
no_roots [] h = refl
no_roots (r ∷ roots) h = absurd (false≢true h)

some_roots : (roots : List PathParts) → is_empty roots ≡ false → roots ≢ []
some_roots [] h = absurd (false≢true (sym h))
some_roots (r ∷ roots) h = λ e. cc

pub IsConfined-iff :
    (resolve : String → Option PathParts) (s : SecurityService) (tool_id capability_id : String)
    (inputs : Fields)
    → (is_write_outside_workspace resolve s tool_id capability_id inputs ≡ false)
      ↔ IsConfined resolve s tool_id capability_id inputs
unfolding is_write_outside_workspace
IsConfined-iff resolve s tool_id capability_id inputs = elim (IsWrite-cases tool_id capability_id) [
  | inl (idle, unwritten) ↦ rw idle ((λ h w. absurd (unwritten w)), λ h. refl)
  | inr (busy, w) ↦ elim (Bool-cases (is_empty s.workspace_roots)) [
    | inl bare ↦
        rw (busy, bare) ((λ h _ e. absurd (e (no_roots s.workspace_roots bare))), λ h. refl)
    | inr rooted ↦
        let inside =
          any_iff (λ f. is_outside resolve s.workspace_roots (named_text (get f inputs)))
            (λ f. (v : String) → Names (get f inputs) v → IsInside resolve s.workspace_roots v)
            (λ f.
              named_iff (is_outside resolve s.workspace_roots) (IsInside resolve s.workspace_roots)
                refl (IsInside-iff resolve s.workspace_roots) (get f inputs))
            path_fields in
        rw (busy, rooted)
          ((λ h _ _. inside.0 h), λ h. inside.1 (h w (some_roots s.workspace_roots rooted)))
  ]
]
