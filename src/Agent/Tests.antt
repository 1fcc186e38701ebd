-- ===== src/Agent/Tests.antt =====
-- Runs of system/core/agent/agent_loop.py with a model that plays a script.
use mathlib.Core.Bool.{false≢true}
use capability_os.Base.{
  ◌≡◌, refl, String, Bool, true, false, none, some, List, [], ◌∷◌, ◌==◌, if◌then◌else◌, All,
}
use capability_os.Value.{text, end}
use capability_os.Exec.{Result, ok, raise, other}
use capability_os.Security.{free, confirm}
use capability_os.Agent.{new_session}
use capability_os.Agent.Loop.{Services, AgentResponse, Loop, awaiting, completed}
use capability_os.Agent.Run.{iterations}
use capability_os.Agent.Outcomes.{Ends, iterations-Ends}
use capability_os.Agent.Generators.{AgentLoop, Returned, run, resume_after_confirmation}
use capability_os.Agent.Safety.{IsGuarded, AllAsked, run-IsGuarded, resume-IsGuarded}

-- The answers that the model has left to give, and the tools that were run.
abbrev World : Type 0
World = List AgentResponse × List String

abbrev next_turn : World → Result AgentResponse × World
next_turn ([], done) = (raise other "no answer", ([], done))
next_turn (r ∷ rs, done) = (ok r, (rs, done))

abbrev services : Services World
services = record {
  run_agent_turn = λ tools prompt ms w. next_turn w;
  classify = λ tool_id params. if tool_id == "look" then free else confirm;
  is_registered = λ tool_id. true;
  run_tool = λ tool_id params w. (ok (text "done"), (w.0, tool_id ∷ w.1));
  format_tool_error = λ tool_id message params. end;
  hex = λ w. ("00", w);
  clock = λ w. 0;
  dedup_text = λ s. s;
  auto_save = λ s said w. w;
  try_compact = λ ms w. (ms, w);
  store_session = λ s w. w;
  system_prompt = λ place w. "help";
}

abbrev wants : String → AgentResponse
wants tool = record {
  reply_text = "";
  tool_calls = record { tool_id = tool; params = end; call_id = "1" } ∷ [];
  stop_reason = "tool_use";
}

abbrev says : String → AgentResponse
says s = record { reply_text = s; tool_calls = []; stop_reason = "end_turn" }

abbrev agent : AgentLoop
agent = record {
  sessions = [];
  all_tools = "look" ∷ "write" ∷ [];
  default_tools = "look" ∷ "write" ∷ [];
  max_iterations = 5;
  workspace_root = "/work";
}

abbrev script : World
script = (wants "look" ∷ wants "write" ∷ says "ready" ∷ [], [])

abbrev first_run : Returned World
first_run = run services "hello" "s" [] none "" agent script

abbrev second_run : Bool → Returned World
second_run approved =
    resume_after_confirmation services "s" "conf_00" approved none first_run.agent first_run.world

abbrev idle_loop : Loop World
idle_loop = record {
  session = new_session "s" 0;
  world = script;
  yielded = [];
  result = record { session_id = "s"; status = completed; final_text = none; iteration_count = 0 };
}

asks_before_write : (first_run.result.status ≡ awaiting) × (first_run.world.1 ≡ "look" ∷ [])
unfolding run iterations
asks_before_write = (refl, refl)

writes_when_approved :
    ((second_run true).result.final_text ≡ some "ready")
    × ((second_run true).world.1 ≡ "write" ∷ "look" ∷ [])
unfolding run iterations resume_after_confirmation
writes_when_approved = (refl, refl)

leaves_when_denied :
    ((second_run false).result.final_text ≡ some "ready")
    × ((second_run false).world.1 ≡ "look" ∷ [])
unfolding run iterations resume_after_confirmation
leaves_when_denied = (refl, refl)

-- Only free tools have been run.
abbrev OnlyFree : World → Type 0
OnlyFree w = All (λ tool. services.classify tool end ≡ free) w.1

turn-OnlyFree : (w : World) → OnlyFree w → OnlyFree (next_turn w).1
turn-OnlyFree ([], done) h = h
turn-OnlyFree (r ∷ rs, done) h = h

guarded : IsGuarded services OnlyFree
guarded = record {
  turn = λ tools prompt ms w h. turn-OnlyFree w h;
  identifier = λ w h. h;
  save = λ s said w h. h;
  store = λ s w h. h;
  compact = λ ms w h. h;
  free_tool = λ tool_id params w e h. (e, h);
}

run-IsGuarded_example :
    OnlyFree (run services "hello" "s" [] none "" agent script).world
    × AllAsked services (run services "hello" "s" [] none "" agent script).agent
run-IsGuarded_example = run-IsGuarded services guarded "hello" "s" [] none "" agent script tt tt

first_guarded : OnlyFree first_run.world × AllAsked services first_run.agent
first_guarded = run-IsGuarded services guarded "hello" "s" [] none "" agent script tt tt

resume-IsGuarded_example :
    OnlyFree (second_run false).world × AllAsked services (second_run false).agent
resume-IsGuarded_example =
    resume-IsGuarded services guarded "s" "conf_00" false none first_run.agent first_run.world
      (λ s c _ _ granted. absurd (false≢true granted)) first_guarded.1 first_guarded.0

iterations-Ends_example :
    Ends services false
      ("look" ∷ [])
      "help"
      2
      0
      idle_loop
      (iterations services false ("look" ∷ []) "help" 5 2 0 idle_loop)
iterations-Ends_example = iterations-Ends services false ("look" ∷ []) "help" 5 2 0 idle_loop
