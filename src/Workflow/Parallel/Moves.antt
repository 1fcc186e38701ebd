-- ===== src/Workflow/Parallel/Moves.antt =====
-- What the schedule of a parallel execution by system/core/workflow/workflow_executor.py may choose.
use capability_os.Base.{
  ℕ, zero, suc, ◌+◌, String, Bool, true, false, List, [], ◌∷◌, ◌++◌, length, contains,
  if◌then◌else◌, ◌==◌, eq_iff, Dict, insert, keys, contains-keys-insert, All, ◌≡◌, refl, subst, ap,
  arith, Bool-cases, inl, inr,
}
use capability_os.Value.{Value}
use capability_os.ToolRuntime.{Reply}
use capability_os.Workflow.{Node}
use capability_os.Workflow.Parallel.{take_out, Move, idle, run, collect, choose}

-- How often a name stands in a list.
abbrev pub held {ℓ} : {A : Type ℓ} → String → List (String × A) → ℕ
held z [] = 0
held z ((k, a) ∷ l) = (if k == z then 1 else 0) + held z l

-- Whether a name has a result, as a number.
abbrev pub present : String → Dict Value → ℕ
present z r = if contains (keys r) z then 1 else 0

pub held-append {ℓ} :
    {A : Type ℓ} (z : String) (xs ys : List (String × A))
    → held z (xs ++ ys) ≡ held z xs + held z ys
held-append z [] ys = omega arith
held-append z ((k, a) ∷ xs) ys = omega (arith, held-append z xs ys)

pub present-insert :
    (k z : String) (v : Value) (r : Dict Value)
    → contains (keys r) k ≡ false
    → present z (insert k v r) ≡ present z r + (if k == z then 1 else 0)
present-insert k z v r new = elim (Bool-cases (k == z)) [
  | inl same ↦
      let gone = subst (λ x. contains (keys r) x ≡ false) ((eq_iff k z).0 same) new in
      rw (contains-keys-insert k z v r, same, gone) refl
  | inr differs ↦ elim (Bool-cases (contains (keys r) z)) [
    | inl there ↦ rw (contains-keys-insert k z v r, differs, there) refl
    | inr absent ↦ rw (contains-keys-insert k z v r, differs, absent) refl
  ]
]

-- One element, and the others.
pub record Picks {A : Type 0} (P : String × A → Type 0) (y : String × A)
    (rest xs : List (String × A)) : Type 0 where
  pub same : (z : String) → held z (y ∷ rest) ≡ held z xs
  pub size : length xs ≡ suc (length rest)
  pub all : All P xs → P y × All P rest

pub Picks-first :
    {A : Type 0} (P : String × A → Type 0) (x : String × A) (xs : List (String × A))
    → Picks P x xs (x ∷ xs)
Picks-first P x xs = record { same = λ z. refl; size = refl; all = λ h. h }

pub take_out-Picks :
    {A : Type 0} (P : String × A → Type 0) (i : ℕ) (x : String × A) (xs : List (String × A))
    → Picks P (take_out i x xs).0 (take_out i x xs).1 (x ∷ xs)
unfolding take_out
take_out-Picks P zero x [] = Picks-first P x []
take_out-Picks P (suc i) x [] = Picks-first P x []
take_out-Picks P zero x (y ∷ ys) = Picks-first P x (y ∷ ys)
take_out-Picks P (suc i) x (y ∷ ys) =
    let p = take_out-Picks P i y ys in
    record {
      same = λ z. omega (arith, p.same z);
      size = ap suc p.size;
      all = λ h. (let (first, others) = p.all h.1 in (first, (h.0, others)));
    }

module _ (P : String × Node → Type 0) (Q : String × Reply → Type 0) where
  -- What a move does to the nodes that wait and to the replies that are there.
  abbrev pub IsMove : Move → List (String × Node) → List (String × Reply) → Type 0
  IsMove idle waiting finished = (waiting ≡ []) × (finished ≡ [])
  IsMove (run x rest) waiting finished = Picks P x rest waiting
  IsMove (collect y rest) waiting finished = Picks Q y rest finished

  pub choose-IsMove :
      (c : Bool × ℕ) (waiting : List (String × Node)) (finished : List (String × Reply))
      → IsMove (choose c waiting finished) waiting finished
  unfolding choose
  choose-IsMove (b, i) [] [] = (refl, refl)
  choose-IsMove (b, i) (x ∷ xs) [] = take_out-Picks P i x xs
  choose-IsMove (b, i) [] (y ∷ ys) = take_out-Picks Q i y ys
  choose-IsMove (true, i) (x ∷ xs) (y ∷ ys) = take_out-Picks P i x xs
  choose-IsMove (false, i) (x ∷ xs) (y ∷ ys) = take_out-Picks Q i y ys
