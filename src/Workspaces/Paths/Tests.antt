-- ===== src/Workspaces/Paths/Tests.antt =====
-- Runs of system/core/workspace/path_validator.py.
use capability_os.Base.{String, none, some, [], ◌∷◌, ◌≡◌, ◌↔◌, refl, true}
use capability_os.Value.{text, Fields, end, field}
use capability_os.Workspaces.{WorkspaceRegistry, values}
use capability_os.Workspaces.Paths.{validate, Verdict}
use capability_os.Workspaces.Paths.Allowed.{IsFirst, Covering, Permits, validate-allowed_iff}

abbrev read_only : Fields
read_only = field "path" (text "/a") (field "access" (text "read") end)

abbrev registry : WorkspaceRegistry
registry = record { workspaces = ("ws_1", read_only) ∷ []; default_id = none; file = none }

abbrev asked : String → String → Verdict
asked path operation = validate (λ p. some p) (λ p. p) "/" path operation none registry

read_below : (asked "/a/b" "read").allowed ≡ true
unfolding validate
read_below = refl

write_below : (asked "/a/b" "write").reason ≡ "Workspace is read-only."
unfolding validate
write_below = refl

beside : (asked "/ab" "read").reason ≡ "Path is outside all registered workspaces."
unfolding validate
beside = refl

validate-allowed_iff_example : ((asked "/a/b" "read").allowed ≡ true) ↔ (
    (p : String) × (some "/a/b" ≡ some p)
    × ((ws : Fields) × IsFirst (Covering (λ q. q) "/" p) (values registry.workspaces) ws
        × Permits "read" none ws))
validate-allowed_iff_example =
    validate-allowed_iff (λ p. some p) (λ p. p) "/" "/a/b" "read" none registry
