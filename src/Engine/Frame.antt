-- ===== src/Engine/Frame.antt =====
-- The frame rule for every mode of system/core/capability_engine/capability_engine.py.
use capability_os.Value.{Fields}
use capability_os.Exec.{Keeps, keeps_rules}
use capability_os.Engine.Steps.{Services, Engine}
use capability_os.Engine.Steps.Frame.{Stable}
use capability_os.Engine.Strategies.Frame.{
  run_steps_sequential-Keeps, run_conditional-Keeps, run_retry_policy-Keeps, run_fallback-Keeps,
}
use capability_os.Engine.{
  Mode, sequential, conditional, retry_policy, fallback, run_sequential, run_mode,
}

module _ {W : Type 0} (services : Services W) {P : Engine W → Type 0}
    (stable : Stable services P) where
  run_sequential-Keeps : (strategy : Fields) → Keeps P (run_sequential services strategy)
  unfolding run_sequential
  run_sequential-Keeps strategy = search (keeps_rules, run_steps_sequential-Keeps services stable)

  -- What survives each single change survives the strategy, in every mode.
  pub run_mode-Keeps : (mode : Mode) (strategy : Fields) → Keeps P (run_mode services mode strategy)
  unfolding run_mode
  run_mode-Keeps sequential strategy = run_sequential-Keeps strategy
  run_mode-Keeps conditional strategy = run_conditional-Keeps services stable strategy
  run_mode-Keeps retry_policy strategy = run_retry_policy-Keeps services stable strategy
  run_mode-Keeps fallback strategy = run_fallback-Keeps services stable strategy
