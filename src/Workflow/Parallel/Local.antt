-- ===== src/Workflow/Parallel/Local.antt =====
-- Replies that depend on the results of a node's sources only, in system/core/workflow/workflow_executor.py.
use mathlib.Core.Bool.{false≢true}
use capability_os.Base.{
  String, true, some, List, [], ◌∷◌, ◌++◌, contains, ◌==◌, eq_iff, eq_refl, Dict, lookup, keys, All,
  ◌≡◌, refl, sym, subst, ap, ◌∙◌, arith, Bool-cases, inl, inr, All-map,
}
use capability_os.Value.{Value}
use capability_os.ToolRuntime.{Reply}
use capability_os.Container.Order.{Known}
use capability_os.Workflow.{Node}
use capability_os.Workflow.Parallel.{Threads}
use capability_os.Workflow.Parallel.Runs.{Agree, IsRun, HasRun, lookup-absent}
use capability_os.Workflow.Parallel.Ends.{among_all}

-- What the first holds of the names, the second holds, too.
abbrev pub Kept : Dict Value → Dict Value → List String → Type 0
Kept r r' ms =
    (m : String) (v : Value) → contains ms m ≡ true → lookup m r ≡ some v → lookup m r' ≡ some v

-- What both hold of the names is the same.
abbrev pub Match : Dict Value → Dict Value → List String → Type 0
Match r r' ms =
    (m : String) (v v' : Value)
    → contains ms m ≡ true
    → lookup m r ≡ some v
    → lookup m r' ≡ some v'
    → v ≡ v'

Agree-Match :
    (before before' r r' : Dict Value) (ms : List String)
    → Match r r' ms
    → Agree before r ms
    → Agree before' r' ms
    → Agree before before' ms
Agree-Match before before' r r' [] match h h' = tt
Agree-Match before before' r r' (m ∷ ms) match h h' =
    let (v, both) = h.0 in
    let (v', both') = h'.0 in
    let same = match m v v' (rw (eq_refl m) refl) both.1 both'.1 in
    (
      (v, (both.0, subst (λ x. lookup m before' ≡ some x) (sym same) both'.0)),
      Agree-Match before before' r r' ms (λ k a a' inside. match k a a' (rw inside (ground arith)))
          h.1 h'.1,
    )

pub All-split :
    {A : Type 0} (P : A → Type 0) (xs ys : List A) → All P (xs ++ ys) → All P xs × All P ys
All-split P [] ys h = (tt, h)
All-split P (x ∷ xs) ys h = let (front, rest) = All-split P xs ys h.1 in ((h.0, front), rest)

pub every_has :
    (r : Dict Value) (ids order : List String)
    → ((x : String) → contains (keys r) x ≡ contains ids x)
    → Known ids order
    → All (λ x. contains (keys r) x ≡ true) order
every_has r ids order names known =
    All-map {P = λ x. contains ids x ≡ true} {Q = λ x. contains (keys r) x ≡ true}
      (λ x inside. names x ∙ inside) order known

pub found-Known :
    {V : Type 0} (k : String) (v : V) (d : Dict V)
    → lookup k d ≡ some v
    → contains (keys d) k ≡ true
found-Known k v d found = elim (Bool-cases (contains (keys d) k)) [
  | inl there ↦ there
  | inr absent ↦ let gone = lookup-absent k d absent in cc
]

-- A name of a list, with what stands in front of it.
pub first_of :
    (x : String) (xs : List String)
    → contains xs x ≡ true
    → (front : List String) × (rest : List String) × (xs ≡ front ++ x ∷ rest)
first_of x [] h = absurd (false≢true h)
first_of x (y ∷ xs) h = elim (Bool-cases (y == x)) [
  | inl same ↦ ([], xs, ap (λ z. z ∷ xs) ((eq_iff y x).0 same))
  | inr differs ↦
      let (front, rest, e) = first_of x xs (ground arith) in (y ∷ front, rest, ap (λ zs. y ∷ zs) e)
]

module _ {W : Type 0} (threads : Threads W) (nodes : Dict Node)
    (sources : String → List String) where
  -- What a node's handler replies, on a thread or not, depends on the results of the node's sources only.
  abbrev pub IsLocal : Type 0
  IsLocal =
      (id : String) (node : Node) (before before' : Dict Value) (w w' : W) (out out' : Reply × W)
      → lookup id nodes ≡ some node
      → Agree before before' (sources id)
      → IsRun threads node before w out
      → IsRun threads node before' w' out'
      → out.0 ≡ out'.0

module _ {W : Type 0} (threads : Threads W) (nodes : Dict Node) (sources : String → List String)
    (local : IsLocal threads nodes sources) where
  pub matched_reply :
      (r r' : Dict Value) (id : String) (y y' : Reply)
      → Match r r' (sources id)
      → HasRun threads nodes sources r id y
      → HasRun threads nodes sources r' id y'
      → y ≡ y'
  matched_reply r r' id y y' match h h' =
      let found = h.found in
      let found' = h'.found in
      let one : h'.node ≡ h.node = cc in
      local id h.node h.before h'.before h.world h'.world (y, h.after) (y', h'.after) h.found
        (Agree-Match h.before h'.before r r' (sources id) match h.met h'.met) h.ran
        (subst (λ n. IsRun threads n h'.before h'.world (y', h'.after)) one h'.ran)

  pub same_reply :
      (r r' : Dict Value) (seen : List String) (id : String) (y y' : Reply)
      → Kept r r' seen
      → All (λ m. contains seen m ≡ true) (sources id)
      → HasRun threads nodes sources r id y
      → HasRun threads nodes sources r' id y'
      → y ≡ y'
  same_reply r r' seen id y y' kept inside h h' =
      matched_reply r r' id y y'
        (λ m v v' needed there there'.
          let stays = kept m v (among_all seen (sources id) m inside needed) there in cc)
        h h'
