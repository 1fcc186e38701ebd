-- ===== src/Base/Reflection.antt =====
-- What a composed test says, from what its parts say.
use mathlib.Core.Path.{◌≡◌, refl, sym, ◌∙◌}
use mathlib.Core.Logic.{◌↔◌, inl, inr}
use mathlib.Core.List.{List, [], ◌∷◌, ◌++◌}
use capability_os.Base.Tests.{if◌then◌else◌, Bool-cases}
use capability_os.Base.Lists.{keep, All}
use mathlib.Core.Bool.{Bool, true, false, not, ◌&&◌, ◌||◌, false≢true}

pub and_iff {ℓ κ} :
    {P : Type ℓ} {Q : Type κ} {a b : Bool}
    → (a ≡ true) ↔ P
    → (b ≡ true) ↔ Q
    → (a && b ≡ true) ↔ (P × Q)
and_iff {a = true} p q = ((λ h. (p.0 refl, q.0 h)), λ h. q.1 h.1)
and_iff {a = false} p q = ((λ h. absurd (false≢true h)), λ h. p.1 h.0)

-- The second test is made only where the first holds.
pub unless_iff {ℓ κ} :
    {P : Type ℓ} {Q : Type κ} {a b : Bool}
    → (a ≡ true) ↔ P
    → (b ≡ true) ↔ Q
    → (not (a && b) ≡ true) ↔ (P → ¬ Q)
unless_iff {a = true} {b = true} p q =
    ((λ h x y. false≢true h), λ h. absurd (h (p.0 refl) (q.0 refl)))
unless_iff {a = true} {b = false} p q = ((λ h x y. false≢true (q.1 y)), λ h. refl)
unless_iff {a = false} p q = ((λ h x y. false≢true (p.1 x)), λ h. refl)

pub or_iff {ℓ κ} :
    {P : Type ℓ} {Q : Type κ} {a b : Bool}
    → (a ≡ true) ↔ P
    → (b ≡ true) ↔ Q
    → (a || b ≡ true) ↔ (¬ P → Q)
or_iff {a = true} p q = ((λ h x. absurd (x (p.0 refl))), λ h. refl)
or_iff {a = false} p q = ((λ h x. q.0 h), λ h. q.1 (h (λ x. false≢true (p.1 x))))

pub same_iff : (b : Bool) → (b ≡ true) ↔ (b ≡ true)
same_iff b = ((λ h. h), λ h. h)

pub not_iff : (a : Bool) → (not a ≡ true) ↔ (a ≡ false)
not_iff true = ((λ h. absurd (cc)), λ h. absurd (cc))
not_iff false = ((λ h. refl), λ h. refl)

-- A test that fails, of what it tests.
pub refutes {ℓ} : {P : Type ℓ} {b : Bool} → (b ≡ true) ↔ P → (not b ≡ true) ↔ (¬ P)
refutes {b = true} reflects = ((λ h p. false≢true h), λ h. absurd (h (reflects.0 refl)))
refutes {b = false} reflects = ((λ h p. false≢true (reflects.1 p)), λ h. refl)

-- What it means that a list of complaints is empty.
module _ {ℓ} {A : Type ℓ} where
  pub append-nil_iff {κ μ} :
      {P : Type κ} {Q : Type μ} {xs ys : List A}
      → (xs ≡ []) ↔ P
      → (ys ≡ []) ↔ Q
      → (xs ++ ys ≡ []) ↔ (P × Q)
  append-nil_iff {xs = []} p q = ((λ h. (p.0 refl, q.0 h)), λ h. q.1 h.1)
  append-nil_iff {xs = x ∷ xs} p q = ((λ h. absurd (cc)), λ h. let e = p.1 h.0 in absurd (cc))

  -- A complaint where a test fails.
  pub complaint_iff {κ} :
      {P : Type κ} {b : Bool} (x : A) → (b ≡ true) ↔ P → ((if b then [] else x ∷ []) ≡ []) ↔ P
  complaint_iff {b = true} x p = ((λ h. p.0 refl), λ h. refl)
  complaint_iff {b = false} x p = ((λ h. absurd (cc)), λ h. absurd (false≢true (p.1 h)))

  pub keep-nil_iff {κ} :
      {P : A → Type κ} (p : A → Bool)
      → ((x : A) → (p x ≡ false) ↔ P x)
      → (xs : List A) → (keep p xs ≡ []) ↔ All P xs
  keep-nil_iff p reflects [] = ((λ h. tt), λ h. refl)
  keep-nil_iff p reflects (x ∷ xs) =
      let rest = keep-nil_iff p reflects xs in
      elim (Bool-cases (p x)) [
        | inl kept ↦
            rw kept ((λ h. absurd (cc)), λ h. absurd (false≢true (sym ((reflects x).1 h.0) ∙ kept)))
        | inr left ↦ rw left ((λ h. ((reflects x).0 left, rest.0 h)), λ h. rest.1 h.1)
      ]
