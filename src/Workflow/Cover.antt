-- ===== src/Workflow/Cover.antt =====
-- A list of distinct names that is as long as the list that it is taken from has all of them.
use mathlib.Core.Bool.{false≢true}
use capability_os.Base.{
  suc, ◌≤◌, ◌<◌, String, true, false, List, [], ◌∷◌, length, contains, ◌≡◌, refl, sym, subst, ◌∙◌,
  arith, ◌==◌, eq_iff, eq_refl, Bool-cases, inl, inr, if◌then◌else◌, Distinct,
}
use capability_os.Container.Order.{Known}

-- The names without the first that is equal to one.
without : String → List String → List String
without y [] = []
without y (x ∷ xs) = let rest = without y xs in if x == y then xs else x ∷ rest

length-without :
    (y : String) (xs : List String) → contains xs y ≡ true → suc (length (without y xs)) ≡ length xs
unfolding without
length-without y [] h = absurd (false≢true h)
length-without y (x ∷ xs) h = elim (Bool-cases (x == y)) [
  | inl same ↦ rw same refl
  | inr differs ↦ rw differs (omega (arith, length-without y xs (ground arith)))
]

contains-without :
    (y z : String) (xs : List String)
    → contains xs z ≡ true
    → y == z ≡ false
    → contains (without y xs) z ≡ true
unfolding without
contains-without y z [] h apart = absurd (false≢true h)
contains-without y z (x ∷ xs) h apart = elim (Bool-cases (x == y)) [
  | inl same ↦
      let other : x == z ≡ false = subst (λ w. w == z ≡ false) (sym ((eq_iff x y).0 same)) apart in
      rw same (ground arith)
  | inr differs ↦ rw differs (ground (arith, contains-without y z xs))
]

Known-without :
    (y : String) (xs r : List String) → contains r y ≡ false → Known xs r → Known (without y xs) r
Known-without y xs [] new h = tt
Known-without y xs (z ∷ r) new h =
    let apart : y == z ≡ false = ground (arith, eq_iff y z, eq_iff z y) in
    (contains-without y z xs h.0 apart, Known-without y xs r (ground arith) h.1)

pub length-Known-le : (r xs : List String) → Distinct r → Known xs r → length r ≤ length xs
length-Known-le [] xs once h = omega arith
length-Known-le (y ∷ r) xs once h = omega (
  arith,
  length-without y xs h.0,
  length-Known-le r (without y xs) once.1 (Known-without y xs r once.0 h.1),
)

pub contains_all :
    (r xs : List String)
    → Distinct r
    → Known xs r
    → length r ≡ length xs
    → (x : String) → contains xs x ≡ true
    → contains r x ≡ true
contains_all r xs once known same x h = elim (Bool-cases (contains r x)) [
  | inl there ↦ there
  | inr absent ↦ absurd (
      omega (
        arith,
        length-without x xs h,
        length-Known-le r (without x xs) once (Known-without x xs r absent known),
      ))
]

pub apart_of_new :
    (x z : String) (xs : List String)
    → contains xs x ≡ false
    → contains xs z ≡ true
    → x == z ≡ false
apart_of_new x z xs new known = elim (Bool-cases (x == z)) [
  | inr differs ↦ differs
  | inl same ↦
      absurd
        (false≢true (sym new ∙ subst (λ w. contains xs w ≡ true) (sym ((eq_iff x z).0 same)) known))
]

-- And a shorter one does not.
pub lacks_one :
    (r xs : List String)
    → Distinct xs
    → length r < length xs
    → (x : String) × (contains xs x ≡ true) × (contains r x ≡ false)
lacks_one r [] once less = absurd (omega arith)
lacks_one r (x ∷ xs) once less = elim (Bool-cases (contains r x)) [
  | inr absent ↦ (x, rw (eq_refl x) refl, absent)
  | inl there ↦
      let shorter = length-without x r there in
      let (z, known, lacking) = lacks_one (without x r) xs once.1 (omega arith) in
      let apart : x == z ≡ false = apart_of_new x z xs once.0 known in
      (
        z,
        rw known (ground arith),
        elim (Bool-cases (contains r z)) [
          | inr absent ↦ absent
          | inl kept ↦ absurd (false≢true (sym lacking ∙ contains-without x z r kept apart))
        ],
      )
]
