-- ===== src/Engine/Steps/Retries.antt =====
-- How a step of system/core/capability_engine/capability_engine.py is tried: the calls of its tool, and
-- what stands in the event log.
use mathlib.Core.List.{append_assoc}
use capability_os.Base.{
  subst, ℕ, zero, suc, ◌+◌, ◌*◌, ◌≤◌, String, ◌≡◌, refl, List, [], ◌∷◌, ◌++◌, length, arith, ap,
  ◌∙◌, sym,
}
use capability_os.Value.{Value, null, dict, Fields}
use capability_os.State.{update_state}
use capability_os.Observation.{Event, mark_step_started, mark_step_succeeded, mark_step_failed}
use capability_os.Observation.Told.{tell, tell-append, start_told, success_told, failure_told}
use capability_os.Exec.{Failure, Result, ok, err, ◌>>=◌, ◌>>◌, catch, pure, resume, rescue}
use capability_os.ToolRuntime
use capability_os.Engine.Steps.{
  Services, Engine, call_tool, store_result, patch_state, succeeded, note_failure, started,
  try_step, attempts, normalize_output, error_code,
}

-- A failure of the tool, with the code that the engine gives it.
abbrev failed_told : String → Failure → Event × Fields
failed_told id f = failure_told id (error_code f.kind) f.message

module _ {W : Type 0} (services : Services W) (id action : String) (params : Fields) where
  abbrev called : W → Result Value × W
  called w = ToolRuntime.execute services.tool_runtime action params 1 w

  -- The tries of a step with so many retries left, from the world behind one call of its tool to the
  -- next, with what they tell and what they end in.
  pub data Tries : ℕ → W → List (Event × Fields) → Result Fields → W → Type 0 where
    returned :
        {n : ℕ} {w z : W} (v : Value)
        → called w ≡ (ok v, z)
        → Tries n w (start_told id params ∷ success_told id v ∷ []) (ok (normalize_output v)) z
    gave_up :
        {w z : W} (f : Failure)
        → called w ≡ (err f, z)
        → Tries zero w (start_told id params ∷ []) (err f) z
    again :
        {n : ℕ} {w u z : W} {l : List (Event × Fields)} {r : Result Fields} (f : Failure)
        → called w ≡ (err f, u)
        → Tries n u l r z
        → Tries (suc n) w (start_told id params ∷ failed_told id f ∷ l) r z

  Tries-size :
      {n : ℕ} {w z : W} {l : List (Event × Fields)} {r : Result Fields}
      → Tries n w l r z
      → length l ≤ 2 * n + 2
  Tries-size (returned v e) = omega arith
  Tries-size (gave_up f e) = omega arith
  Tries-size (again f e more) = omega (arith, Tries-size more)

  abbrev pub Attempted : ℕ → Engine W → Result Fields × Engine W → Type 0
  Attempted n e (r, e') =
      (l : List (Event × Fields)) × (tell e'.logger ≡ tell e.logger ++ l)
      × Tries n e.world l r e'.world
      × (length l ≤ 2 * n + 2)

  -- What one try does: one call of the tool, and a success event or nothing.
  abbrev Tried : Engine W → Result Fields → Engine W → Type 0
  Tried e (ok o) e' =
      (v : Value) × (called e.world ≡ (ok v, e'.world))
      × (o ≡ normalize_output v)
      × (tell e'.logger ≡ tell e.logger ++ success_told id v ∷ [])
  Tried e (err f) e' = (called e.world ≡ (err f, e'.world)) × (tell e'.logger ≡ tell e.logger)

  open services use {clock}

  after_tool :
      (r : Result Value) (w : W) (e : Engine W)
      → called e.world ≡ (r, w)
      → let out =
          resume r
            (λ v.
              store_result services id v
              >> (patch_state services v >> (succeeded services id v >> pure (normalize_output v))))
            (record e { world = w }) in
        Tried e out.0 out.1
  unfolding store_result patch_state succeeded ◌>>=◌ update_state mark_step_succeeded
  after_tool (ok (dict d)) w e h = (dict d, h, refl, tell-append _ _)
  after_tool (ok null) w e h = (null, h, refl, tell-append _ _)
  after_tool (ok v) w e h = (v, h, refl, tell-append _ _)
  after_tool (err f) w e h = (h, refl)

  try_step-Tried :
      (e : Engine W) → let out = try_step services id action params e in Tried e out.0 out.1
  unfolding try_step call_tool ◌>>=◌
  try_step-Tried e = let (r, w) = called e.world in after_tool r w e refl

  abbrev begun : Engine W → Engine W
  begun e = record e { logger = mark_step_started clock id params e.logger }

  abbrev noted : Failure → Engine W → Engine W
  noted f e = record e {
    logger = mark_step_failed clock id (error_code f.kind) f.message e.manager.state e.logger;
  }

  begun-tell : (e : Engine W) → tell (begun e).logger ≡ tell e.logger ++ start_told id params ∷ []
  unfolding mark_step_started
  begun-tell e = tell-append _ _

  noted-tell :
      (f : Failure) (e : Engine W)
      → tell (noted f e).logger ≡ tell e.logger ++ failed_told id f ∷ []
  unfolding mark_step_failed
  noted-tell f e = tell-append _ _

  -- A try that succeeds leaves the retries unused.
  first_try :
      (n : ℕ) (e : Engine W) (o : Fields) (e' : Engine W)
      → Tried (begun e) (ok o) e'
      → Attempted n e (ok o, e')
  first_try n e o e' (v, h, same, logged) = (
    start_told id params ∷ success_told id v ∷ [],
    logged
        ∙ ap (λ (l : List (Event × Fields)). l ++ success_told id v ∷ []) (begun-tell e)
        ∙ append_assoc (tell e.logger) (start_told id params ∷ []) (success_told id v ∷ []),
    subst (λ x. Tries n e.world (start_told id params ∷ success_told id v ∷ []) (ok x) e'.world)
        (sym same) (returned v h),
    omega arith,
  )

  last_try :
      (e : Engine W) (r : Result Fields) (e' : Engine W)
      → Tried (begun e) r e'
      → Attempted zero e (r, e')
  last_try e (ok o) e' t = first_try zero e o e' t
  last_try e (err f) e' (h, logged) =
      (start_told id params ∷ [], logged ∙ begun-tell e, gave_up f h, omega arith)

  -- A failed try, and what the attempts after it add.
  next_try :
      (n : ℕ) (e : Engine W) (f : Failure) (e1 : Engine W) (out : Result Fields × Engine W)
      → Tried (begun e) (err f) e1
      → Attempted n (noted f e1) out
      → Attempted (suc n) e out
  next_try n e f e1 (r, e') (h, logged) (l, later, tries, size) = (
    start_told id params ∷ failed_told id f ∷ l,
    later
        ∙ ap (λ (x : List (Event × Fields)). x ++ l)
            (noted-tell f e1
              ∙ ap (λ (x : List (Event × Fields)). x ++ failed_told id f ∷ [])
                  (logged ∙ begun-tell e))
        ∙ append_assoc (tell e.logger ++ start_told id params ∷ []) (failed_told id f ∷ []) l
        ∙ append_assoc (tell e.logger) (start_told id params ∷ []) (failed_told id f ∷ l),
    again f h tries,
    omega arith,
  )

  after_try :
      (n : ℕ) (e : Engine W) (r : Result Fields) (e1 : Engine W)
      → Tried (begun e) r e1
      → ((e2 : Engine W) → Attempted n e2 (attempts services n id action params e2))
      → Attempted
          (suc n)
          e
          (rescue r (λ f. note_failure services id f >> attempts services n id action params) e1)
  unfolding note_failure ◌>>=◌
  after_try n e (ok o) e1 t rest = first_try (suc n) e o e1 t
  after_try n e (err f) e1 t rest =
      next_try n e f e1 (attempts services n id action params (noted f e1)) t (rest (noted f e1))

  -- With n retries a step is tried at most n + 1 times, one after another, and a try calls the tool once,
  -- on the world that the call before it has left. What is logged, but for the times, is a start of each
  -- try with its parameters and, behind it, a failure with the tool's message and code where the tool
  -- raises and a retry is left, and the success with the tool's value, which ends the tries, where it
  -- returns. Where every try fails, n + 1 are made, and the failure of the last one is the result, which
  -- is not logged here.
  pub attempts-Attempted :
      (n : ℕ) (e : Engine W) → Attempted n e (attempts services n id action params e)
  unfolding attempts started catch ◌>>=◌
  attempts-Attempted zero e =
      let out = try_step services id action params (begun e) in
      last_try e out.0 out.1 (try_step-Tried (begun e))
  attempts-Attempted (suc n) e =
      let out = try_step services id action params (begun e) in
      after_try n e out.0 out.1 (try_step-Tried (begun e)) (attempts-Attempted n)
