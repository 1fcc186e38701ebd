-- ===== src/Engine/Tests.antt =====
-- Runs of system/core/capability_engine/capability_engine.py with a tool that fails at first.
use capability_os.Base.{ℕ, zero, suc, ◌≡◌, refl, true, none, [], ◌∷◌, pos}
use capability_os.Value.{Value, int, text, list, dict, nil, cons, Fields, end, field}
use capability_os.Exec.{ok, ◌>>=◌, catch}
use capability_os.ToolRuntime.{ToolRuntime, Reply, returned, raised, unary, execute}
use capability_os.Engine.{sequential, fallback, run_strategy, Outcome, success, failed, rejected}
use capability_os.Engine.Steps.{Services, Engine, attempts, normalize_output}
use capability_os.Engine.Steps.Retries.{Attempted, attempts-Attempted}
use capability_os.Engine.Log.{IsVerdict, run_strategy-IsVerdict}

-- The world counts down the calls that fail.
abbrev flaky : Fields → ℕ → Reply × ℕ
flaky params zero = (returned (text "done"), zero)
flaky params (suc n) = (raised "busy", n)

abbrev tools : ToolRuntime ℕ
tools = record {
  tool_registry = ("system_ping", end) ∷ [];
  workspace_root = "/w";
  handlers = ("system_ping", unary flaky) ∷ [];
  aliases = [];
  pool = none;
}

abbrev services : Services ℕ
services = record {
  tool_runtime = tools;
  clock = λ n. n;
  iso = λ t. "";
  evaluate_condition = λ runtime manager v. ok true;
  validate_contract = λ contract. ok "ping_host";
  recall_semantic = λ inputs. [];
}

abbrev step : Value
step = dict (
    field "step_id" (text "ping") (
      field "action" (text "system_ping")
        (field "retry" (dict (field "max_attempts" (int (pos 3)) end)) end)))

abbrev strategy : Fields
strategy = field "steps" (list (cons step nil)) end

abbrev engine : Engine ℕ
engine = record {
  manager = record { inputs = end; state = end; step_outputs = end };
  logger = record {
    runtime = record {
      execution_id = "e";
      capability_id = "ping_host";
      status = "running";
      current_step = none;
      state = end;
      logs = [];
      started_at = 0;
      ended_at = none;
      duration_ms = 0;
      retry_count = 0;
      error_code = none;
      error_message = none;
      last_completed_step = none;
      failed_step = none;
      final_output = end;
    };
    reads = 0;
  };
  step_ref = none;
  world = 2;
}

-- The output, or what went wrong.
abbrev output_of : Outcome × ℕ → Fields
output_of (success r, w) = r.final_output
output_of (failed m r c, w) = field "error" (text m) end
output_of (rejected f, w) = field "rejected" (text f.message) end

-- Two failures, and a success at the third attempt.
third_attempt :
    output_of (run_strategy services "e" "ping_host" sequential strategy end 2)
    ≡ field "result" (text "done") end
unfolding run_strategy ◌>>=◌ catch execute normalize_output
third_attempt = refl

attempts_run_out :
    output_of (run_strategy services "e" "ping_host" sequential strategy end 3)
    ≡ field "error" (text "Tool 'system_ping' failed: busy") end
unfolding run_strategy ◌>>=◌ catch execute
attempts_run_out = refl

attempts-Attempted_example :
    Attempted services "ping" "system_ping" end 2 engine
      (attempts services 2 "ping" "system_ping" end engine)
attempts-Attempted_example = attempts-Attempted services "ping" "system_ping" end 2 engine

run_strategy-IsVerdict_example :
    IsVerdict "e" "ping_host" (run_strategy services "e" "ping_host" fallback strategy end 5).0
run_strategy-IsVerdict_example =
    run_strategy-IsVerdict services "e" "ping_host" fallback strategy end 5
