-- ===== src/Workspaces/Last.antt =====
-- `remove` of system/core/workspace/workspace_registry.py keeps the last workspace.
use mathlib.Core.Bool.{false≢true}
use capability_os.Base.{
  suc, String, true, false, ◌&&◌, Option, none, some, [], ◌∷◌, length, contains, eqb, ◌==◌, eq_iff,
  if◌then◌else◌, Dict, erase, has, keys, Distinct, ◌≡◌, ◌≢◌, refl, sym, subst, ap, ◌∙◌, arith,
  Bool-cases, inl, inr,
}
use capability_os.Value.{Fields}
use capability_os.Workspaces.{WorkspaceRegistry, FileSystem, save, remove, is_default}
use capability_os.Workspaces.Reach.{Reachable, HasDefault, Reachable-IsWellFormed}

erase-absent : (k : String) (d : Dict Fields) → contains (keys d) k ≡ false → erase k d ≡ d
unfolding erase keys
erase-absent k [] h = refl
erase-absent k ((j, w) ∷ d) h =
    let apart : j == k ≡ false = ground arith in
    rw apart (ap (λ x. (j, w) ∷ x) (erase-absent k d (ground arith)))

-- Where nothing is left without a key, it was the only one.
only_key :
    (k : String) (d : Dict Fields)
    → Distinct (keys d)
    → has k d ≡ true
    → erase k d ≡ []
    → (length d ≡ 1) × ((j : String) → has j d ≡ true → j ≡ k)
unfolding erase keys has
only_key k [] once here gone = absurd (false≢true here)
only_key k ((i, w) ∷ d) once here gone = elim (Bool-cases (i == k)) [
  | inr differs ↦
      let kept = subst (λ b. (if b then erase k d else (i, w) ∷ erase k d) ≡ []) differs gone in cc
  | inl same ↦
      let e = (eq_iff i k).0 same in
      let gone' = subst (λ b. (if b then erase k d else (i, w) ∷ erase k d) ≡ []) same gone in
      let none_left : d ≡ [] =
        sym (erase-absent k d (subst (λ x. contains (keys d) x ≡ false) e once.0)) ∙ gone' in
      (
        ap (λ x. suc (length x)) none_left ∙ omega arith,
        λ j there. elim (Bool-cases (i == j)) [
          | inl found ↦ sym ((eq_iff i j).0 found) ∙ e
          | inr lost ↦
              let there' = subst (λ b. (if b then true else has j d) ≡ true) lost there in
              absurd (false≢true (subst (λ x. has j x ≡ true) none_left there'))
        ],
      )
]

default_is :
    (k : String) (d : Dict Fields) (o : Option String)
    → HasDefault d o
    → has k d ≡ true
    → ((j : String) → has j d ≡ true → j ≡ k)
    → is_default o k ≡ true
unfolding has
default_is k d none h here only = absurd (false≢true (subst (λ x. has k x ≡ true) h here))
default_is k d (some j) h here only = (eq_iff j k).1 (only j h)

-- In every registry that the operations lead to, and for every id: where there is a workspace,
-- there is one after `remove`, too.
pub remove-ne-nil :
    (fs : FileSystem) (r : WorkspaceRegistry) (id : String)
    → Reachable fs r
    → r.workspaces ≢ []
    → (remove id r).1.workspaces ≢ []
unfolding remove save
remove-ne-nil fs r id p some_left =
    let (ids, once, default) = Reachable-IsWellFormed fs r p in
    elim (Bool-cases (has id r.workspaces)) [
      | inr absent ↦ rw (absent, remove) some_left
      | inl here ↦ elim (Bool-cases (is_default r.default_id id && eqb (length r.workspaces) 1)) [
        | inl guarded ↦ rw (here, guarded, remove) some_left
        | inr unguarded ↦
            rw (here, unguarded, remove)
              (λ gone.
                let (single, only) = only_key id r.workspaces once here gone in
                let own = default_is id r.workspaces r.default_id default here only in
                let guard : is_default r.default_id id && eqb (length r.workspaces) 1 ≡ true =
                  rw (own, single) refl in
                false≢true (sym unguarded ∙ guard))
      ]
    ]
