-- ===== src/Lib.antt =====
-- Capability OS: a platform that runs capabilities, which are contracts with a strategy of steps, each
-- step a call of a tool. The modules model the core of the Python program, each definition after the
-- function of the same name.
--
-- * Engine (system/core/capability_engine/capability_engine.py): `execute` and its four strategies
--   over one set of mutable objects, passed along by the monad of Exec, whose exceptions carry the
--   class that decides their error code. Engine/Steps has a step with its retries, Engine/Strategies
--   the strategies, Engine the start, the success and the error handler.
-- * State (system/core/state/state_manager.py): the state manager, with its two regular expressions
--   as scanners (State/Scan).
-- * Observation (system/core/observation/observation_logger.py): the runtime model and the event log
--   that the engine keeps.
-- * ToolRuntime (system/tools/runtime/tool_runtime.py): aliases, handlers and their errors. The engine
--   and the agent loop reach the tools through it.
-- * Permissions and Policy (system/sdk/permissions.py, system/sdk/policy.py): what a plugin may do.
-- * Security (system/core/security/security_service.py): the level of a call.
-- * Agent (system/core/agent/agent_state.py) and Agent/Loop, Agent/Run, Agent/Generators
--   (system/core/agent/agent_loop.py): the loop in which a language model calls tools, each by its
--   level of security. A generator is run to its end, and the events that it yields are a list. Agent/Persisted
--   is how a session is rendered, persisted and restored.
-- * Container (system/container/service_container.py): plugins, the order of their dependencies, their
--   lifecycle (Container/Lifecycle) and what is told of them (Container/Reports).
-- * Workspaces (system/core/workspace/workspace_registry.py): the workspaces, the default one and their
--   file.
--   Workspaces/Paths (system/core/workspace/path_validator.py) says what may be done with a path.
-- * Planning/Plans (system/core/planning/plan_validator.py): the validator of plans.
-- * Workflow (system/core/workflow/workflow_executor.py): the order of a workflow's nodes; Workflow/Nodes
--   has the templates, Workflow/Handlers and Workflow/External the handlers of nodes, and Workflow/Executor
--   the execution. Workflow/Parallel is the execution level by level, with the nodes of a level on threads:
--   which thread is next to reply, and when the main thread takes a result, is an argument, the schedule, and
--   so is what a handler on a thread replies and does.
-- * Expression (system/core/strategy/safe_expression.py): the expressions of workflow conditions, their
--   validation and their values; Expression/Operators has Python's operators on JSON values.
-- * Sequences (system/core/sequences/model.py): the definition of a sequence of capabilities, its
--   parser and the check of its templates; Sequences/Accepted says what is accepted.
-- * Metrics (system/core/metrics/metrics_collector.py): the counters of all executions, their file and
--   the traces; Metrics/Summary is the abstract view of them as the list of the executions.
-- * Memory (system/core/memory/memory_manager.py): the memories by key, their file and their expiry;
--   Memory/Stores is the invariant, Memory/Operations its preservation.
-- * LlmCache (system/core/interpretation/llm_cache.py): the responses of a language model, with their
--   number bounded and their times; LlmCache/Calls has the history that the cache is compared with.
-- * Sequences/Runner (system/core/sequences/runner.py): the run of a sequence over the state manager and
--   the observation logger, with its runtime model where it succeeds and where a step raises.
-- * Sequences/Storage (system/core/sequences/storage.py and registry.py): the stored sequences, in files and
--   in a repository, and the registry over them, from which the runner takes its definitions.
-- * Value has Python's dynamic values, and Base its texts, lists, dicts and integers.
--
-- Parameters: tools' handlers, the sandbox pool, the language model, identifiers and the clock act on
-- an abstract world. `evaluate_condition` and `validate_contract` are arguments of the engine.
--
-- Bounds: the loop of `resolve_action` has fuel, one round more than there are aliases, and that over
-- the queue of plugins, and of workflow nodes, a round for each. A parallel workflow has a level for each
-- node at most, and each node of a batch two moves, to run and to be taken. Every other loop is a recursion
-- on its range or its list. Texts are told apart by code points, and lower case
-- and digits are those of ASCII. Times are whole numbers or texts.
--
-- The JSON text of a file stands for its document, and a file can always be written, that of the
-- memories excepted.
--
-- Not modelled: input and output (files, databases, HTTP, browsers), the clients of language models,
-- plugins' glue, the user interface, and the threads around the core: an operation runs to its end
-- before the next begins. The level of a call in the agent loop is taken from the call alone: the file
-- system, which the security service asks for paths, is as it was. The fallback steps of a contract are a list,
-- as its schema demands.
pub mod Agent
pub mod Base
pub mod Container
pub mod Engine
pub mod Exec
pub mod Expression
pub mod LlmCache
pub mod Memory
pub mod Metrics
pub mod Observation
pub mod Permissions
pub mod Planning
pub mod Policy
pub mod Security
pub mod Sequences
pub mod State
pub mod ToolRuntime
pub mod Value
pub mod Workflow
pub mod Workspaces
