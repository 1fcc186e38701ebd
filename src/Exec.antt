-- ===== src/Exec.antt =====
-- Python methods that change objects and may raise: an action takes the objects it works on and
-- gives a value or an exception, with the objects as they then are, also where it raises.
use capability_os.Base.{String}

-- The classes of exception that `_error_code_from_exception` tells apart.
pub data ErrorKind : Type 0 where
  variable_resolution tool_execution capability_input schema_validation condition other : ErrorKind

pub record Failure : Type 0 where
  pub kind : ErrorKind
  pub message : String

pub data Result {ℓ} (A : Type ℓ) : Type ℓ where
  err : Failure → Result A
  ok : A → Result A

abbrev pub raise {ℓ} : {A : Type ℓ} → ErrorKind → String → Result A
raise k m = err (record { kind = k; message = m })

abbrev pub Exec : Type 0 → Type 0 → Type 0
Exec S A = S → Result A × S

-- What follows an action that has ended.
abbrev pub resume : {S A B : Type 0} → Result A → (A → Exec S B) → Exec S B
resume (ok a) f s = f a s
resume (err e) f s = (err e, s)

-- `except Exception as e: handler(e)`
abbrev pub rescue : {S A : Type 0} → Result A → (Failure → Exec S A) → Exec S A
rescue (ok a) h s = (ok a, s)
rescue (err e) h s = h e s

unfoldable pub pure : {S A : Type 0} → A → Exec S A
pure a s = (ok a, s)

unfoldable pub throw : {S A : Type 0} → Failure → Exec S A
throw e s = (err e, s)

unfoldable pub modify : {S : Type 0} → (S → S) → Exec S Unit
modify f s = (ok tt, f s)

unfoldable pub lift : {S A : Type 0} → Result A → Exec S A
lift r s = (r, s)

infixl 5 ◌>>=◌ ◌>>◌
-- To open this opens all ways to build an action.
unfoldable pub ◌>>=◌ : {S A B : Type 0} → Exec S A → (A → Exec S B) → Exec S B
unfolding pure throw modify lift
◌>>=◌ m f s = let (r, s') = m s in resume r f s'

abbrev pub ◌>>◌ : {S A B : Type 0} → Exec S A → Exec S B → Exec S B
m >> n = m >>= λ _. n

unfoldable pub catch : {S A : Type 0} → Exec S A → (Failure → Exec S A) → Exec S A
unfolding ◌>>=◌
catch m h s = let (r, s') = m s in rescue r h s'

-- Whatever an action does, a raise included, what held of the objects holds again.
pub record Keeps {O A : Type 0} (Inv : O → Type 0) (act : Exec O A) : Type 0 where
  pub at : (o : O) → Inv o → Inv (act o).1

module _ {O A : Type 0} {Inv : O → Type 0} where
  pub Keeps-throw : (e : Failure) → Keeps {A = A} Inv (throw e)
  unfolding throw
  Keeps-throw e = record { at = λ o holds. holds }

  pub Keeps-lift : (r : Result A) → Keeps Inv (lift r)
  unfolding lift
  Keeps-lift r = record { at = λ o holds. holds }

  pub Keeps-pure : (a : A) → Keeps Inv (pure a)
  unfolding pure
  Keeps-pure a = record { at = λ o holds. holds }

  rescue-at :
      (r : Result A) (next : Failure → Exec O A)
      → ((e : Failure) → Keeps Inv (next e))
      → (o : O) → Inv o
      → Inv (rescue r next o).1
  rescue-at (ok a) next k o holds = holds
  rescue-at (err e) next k o holds = (k e).at o holds

  pub Keeps-catch :
      (act : Exec O A) (next : Failure → Exec O A)
      → Keeps Inv act
      → ((e : Failure) → Keeps Inv (next e))
      → Keeps Inv (catch act next)
  unfolding catch
  Keeps-catch act next km kf = record {
    at = λ o holds. rescue-at (act o).0 next kf (act o).1 (km.at o holds);
  }

module _ {O A B : Type 0} {Inv : O → Type 0} where
  resume-at :
      (r : Result A) (next : A → Exec O B)
      → ((a : A) → Keeps Inv (next a))
      → (o : O) → Inv o
      → Inv (resume r next o).1
  resume-at (ok a) next k o holds = (k a).at o holds
  resume-at (err e) next k o holds = holds

  pub Keeps-bind :
      (act : Exec O A) (next : A → Exec O B)
      → Keeps Inv act
      → ((a : A) → Keeps Inv (next a))
      → Keeps Inv (act >>= next)
  unfolding ◌>>=◌
  Keeps-bind act next km kf = record {
    at = λ o holds. resume-at (act o).0 next kf (act o).1 (km.at o holds);
  }

pub ruleset keeps_rules = (Keeps-pure, Keeps-throw, Keeps-lift, Keeps-catch, Keeps-bind)
