-- ===== src/Lib.antt =====
-- ai_orchestrator hands the tasks of users to chat providers. A gateway
-- (ai_orchestrator/orchestrator/main.py) drives the parts below: the router prefers a provider for
-- a task; the workflow engine moves each task through its states; the lease manager gives an agent
-- a provider account for a while, takes accounts back when leases end or expire, and withdraws
-- those that are jailed, which the engine can hear of to plan the bound tasks again; the scheduler
-- admits tasks by the memory that is left. The adapters of the providers send through a circuit
-- breaker. The browser engine recovers a lost session by a cascade of steps, its adaptive scheduler
-- sets a number of workers, and the runtime loop tests and fixes a workspace. Retries, rate limits
-- and the dead letter queue stand beside these, and the gateway does not call them yet; a health
-- tracker counts what became of calls. A journal of the steps of tasks is kept on a store. Agents
-- write the files of a task in a workspace, whose commands run in a sandbox; the test runner reads
-- what the tests print there, and the runtime loop acts on it. The adapters and the browser engine
-- take the text of an answer out of the stream that the page received, and the engine learns how
-- reliable providers are.
--
-- Base is shared by all: tests on the native numbers, lists, Python dictionaries in insertion
-- order (Base.Dict), membership (Base.Members), methods that change an object and may raise
-- (Base.Exec: what was written before a raise stays written), exact fractions, and the interface of
-- the floats that scores are computed in (Base.Number).
-- Models.Task, Models.Account, Models.Lease, Models.Capabilities: ai_orchestrator/models/task.py,
--   account.py, lease.py and capabilities.py. Each class is a record with its fields, each method a
--   function of the object, under its name.
-- Orchestrator.Leases: ai_orchestrator/orchestrator/lease_manager.py. Manager is LeaseManager:
--   its two dictionaries; request_lease, release_lease, heartbeat_lease, reclaim_expired,
--   mark_account_unavailable and force_expire_leases_for_account are the methods.
-- Orchestrator.Workflow: ai_orchestrator/orchestrator/workflow_engine.py. Engine holds the
--   dictionaries of states, plans, counts of actions and bound accounts; execute_step and the
--   rest are the methods, the table of _resolve_next_state is resolve_next_state.
-- Orchestrator.Router: ai_orchestrator/orchestrator/provider_router.py. score_account,
--   rank_accounts, select_account and select_provider are the methods of ProviderRouter, over any
--   type of numbers with the operations of floats.
-- Orchestrator.Gateway: ai_orchestrator/orchestrator/main.py. Gateway holds the singletons of the
--   module; each endpoint is a method on it, which answers or fails with an HTTP status, and calls
--   the methods of the modelled parts: Gateway.Tasks has the endpoints of tasks, Gateway.Chat the
--   chat. Gateway.Histories says what a request is and runs lists of them.
-- Storage.Memory: the in-memory store of ai_orchestrator/storage/redis_client.py, which stands in
--   where no server is given, and Storage.Memory.Abstract what it promises. Storage.Journal:
--   ai_orchestrator/storage/journal.py on that store.
-- Orchestrator.Dlq, Orchestrator.Resources, Orchestrator.Health:
--   ai_orchestrator/orchestrator/dlq.py, resource_scheduler.py and provider_health.py.
-- Utils.Backoff and Utils.Breaker: ai_orchestrator/utils/backoff.py. Utils.Throttle:
--   ai_orchestrator/utils/throttle.py.
-- Adapters.Sending: ai_orchestrator/adapters/base.py, the base class of the adapters: Adapter is
--   ProviderAdapter, protected_send its method over the breaker of Utils.Breaker. Adapters.Cooldown:
--   ai_orchestrator/adapters/recovery_engine.py.
-- Intelligence.Recovery, Intelligence.Scheduling, Intelligence.Events:
--   ai_orchestrator/browser_intelligence/recovery/, scheduling/ and events/, each its __init__.py.
-- Intelligence.Pool: ai_orchestrator/browser_intelligence/pool.py, the pool of engines by page.
-- Validation: ai_orchestrator/validation/validator.py; check_success and the other checks are the
--   methods of DeterministicValidator, validate that of ResponseValidator.
-- Runtime: ai_orchestrator/runtime/loop.py, with the records of ai_orchestrator/runtime/types.py;
--   the runs that it reads are those of Testing.Reading. max_iterations may be negative, as in the
--   source; run then raises.
-- Workspace.Files: ai_orchestrator/workspace/manager.py. The methods of FileWorkspace are methods
--   on a Disk (Workspace.Disk), which is the interface of the file system with its laws: a path is
--   resolved, atomic_write is _atomic_write with each of its steps, and each step may raise.
--   Workspace.Texts: str.count and str.replace. Workspace.Snapshots: snapshot and diff_snapshots.
-- Security.Sandbox: ai_orchestrator/security/sandbox.py. A Request is a call of one of the execute
--   methods, perform what it does after the test that the sandbox is open, World the operating
--   system; check_sandbox_available, which is no Request, is the probe of that name.
-- Testing: ai_orchestrator/testrunner/runner.py, on that sandbox; Testing.Reading is its parsing.
-- Agents: ai_orchestrator/agents/base.py. BaseAgent is the base class, run_step its method over an
--   `execute` that is an argument.
-- Adapters.Json: the values of json.loads and the walks over them with a stack; Adapters.Extraction:
--   the reading of streams in ai_orchestrator/adapters/engine_adapter.py, and
--   Intelligence.Coercing that of ai_orchestrator/browser_intelligence/engine.py.
-- Intelligence.Learning: ai_orchestrator/browser_intelligence/learning/__init__.py, over any type
--   of numbers; Learning.Saving is what save writes of a store, its keys sorted, and open_store reads.
-- Samples: tests, and the theorems applied at concrete inputs.
-- Modules below these hold proofs, and are named for what they prove.
--
-- Conventions. Time is in whole microseconds. The health of an account and a confidence are in
-- hundredths, memory and cores in millionths, a bucket's tokens in sixty-millionths; an average
-- is an exact fraction. A float that is not such a number is outside the models. The clock,
-- identifiers from uuid, random draws and the answers of other services are arguments. A lock
-- makes a method one step, so an interleaving of callers is a list of steps; the functions that
-- the breaker awaits may change it. Alert and event callbacks, logs and metrics are left out:
-- the event that a callback gets is the method's result. A raise of ValueError is a value.
--
-- Loops. Every loop is structural: over a list, or on the number of passes left, which range, the
-- limit of iterations or the number of retries gives. The walks over a parsed value run on fuel: as
-- many rounds as the value has parts, which is proved to be enough. The waiting loop of
-- TokenBucket.acquire, which has no bound, is left out.
--
-- Not modelled: the endpoints of the gateway that reach the file system, the sandbox or the
-- metrics, and the OpenAI-compatible ones; the control plane; the branches of the store that call a
-- Redis server, and Postgres; the work of the adapters with a page, and the sensors, which drive
-- browsers and providers; the concrete agents, which return fixed texts; the estimation of page
-- states, which is float arithmetic; the prompt guard, which is regular expressions; the vault;
-- git, artifacts and the listing of files. Symbolic links stand in no model of a disk: a path is
-- resolved before it is used.
pub mod Base
pub mod Models
pub mod Orchestrator
pub mod Intelligence
pub mod Runtime
pub mod Adapters
pub mod Storage
pub mod Agents
pub mod Testing
pub mod Security
pub mod Validation
pub mod Workspace
pub mod Utils
pub mod Samples
