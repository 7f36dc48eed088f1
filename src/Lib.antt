-- ===== src/Lib.antt =====
-- Hermes: the controller that hands jobs to workers, and the rules that it keeps.
--
-- The program. `hermes_controller/` is a local job controller. Projects are registered by a manifest;
-- a task is enqueued as a job; a worker claims a job, which starts a run with a lease; the worker
-- renews the lease while an engine works, and reports the result of the run in an envelope. A result
-- may wait for a human gate, which an operator approves or rejects. A run whose lease has run out is
-- made stale, and its job is queued again if it is safe to retry. All state is in one SQLite database.
-- `proxy/` lets chats talk to an engine; the replies of a conversation form a tree of messages, which
-- are processed one at a time.
--
-- Files.
--   Common       tests on numbers, lists, texts (`str` methods), POSIX paths
--   Result       the exceptions as values; `Ensures P r` says what a returned value satisfies
--   Json         JSON values, `dict` lookups, truth values, `==` and equality of serialised texts
--   Table        the rows of a table with a primary key: SELECT, INSERT, UPDATE, DELETE, upsert
--   Artifacts    hermes_controller/artifacts.py
--   Brainstorm   hermes_controller/brainstorm_contract.py (Contract; Rubric and Materialized are about
--                it), hermes_controller/brainstorm_core.py (Ranking, Stages, Evaluations, Anonymous;
--                Gathered, Winner and Marks are about it), hermes_controller/brainstorm.py
--                (Orchestration: the budget and checkpoints; ModelStage: `_model_stage`; Workflow:
--                `_workflow`; Bounded and Calls count the calls of the engines, Resumed is about a run
--                that is resumed)
--   Github       hermes_controller/github_api.py, the contract of requests; Evidence has
--                the summaries of answers, and Bounded is about them
--   EnginePolicy hermes_controller/engine_policy.py
--   Controller   hermes_controller/controller.py: Schema (tables, `_event`), Validate (`_validate_*`,
--                `_task_engine`), Workers, Projects, Enqueue (`enqueue`), Claim (`claim`), Leases
--                (`heartbeat_run`, `reconcile_expired_leases`), Results (`ingest_result`), Gates
--                (`_resolve_gate`), Projects/Tasks (`build_project_task`), Views (`status`,
--                `pending_gates` and the like); Machine puts the calls together as steps on the database;
--                Invariant holds the agreement of jobs and runs, and its proof for each operation;
--                Dispatch and Capacity are about claims, Expiry and Late about expired leases,
--                Repeats about calls that are sent again, Named about the run that a decision is about
--
--   Api          hermes_controller/api.py: Api (credentials, answers, exceptions), Get and Post
--                (`_do_GET`, `_do_POST`), Body (`_body`); Calls is about what a POST may do
--
--   Worker       hermes_controller/worker.py: Worker (what is made of an engine's result), Client
--                (`HTTPControllerClient` over the API and a network that loses messages), Once
--                (`WorkerDaemon.once`, `run`); Recovery, Reports and Retries are about them
--
--   Bridge       hermes_agent_plugins/hermes-gates/bridge.py: the commands of an operator, over the API,
--                with other calls of the controller between their two requests; Shlex (`shlex.split`),
--                Sent and Decided are about what a command has done
--
--   Trees        proxy/messaging/trees/data.py: Trees (the queue, the nodes and the tree of a
--                conversation); proxy/messaging/trees/queue_manager.py: Processor (the tasks of a tree
--                as steps, `cancel_node`, `cancel_tree`); Known, Sound, Cancelled and Exclusive are
--                about its one live task, Drained and Ordered about the queue, Closed about
--                `cancel_tree`
--
--   RateLimit    proxy/core/rate_limit.py: the sliding window; Window and Waiting are about it
--
-- State. `Db` has a list of rows for each table of `_create_schema`, in the order of insertion. An
-- operation takes what it draws from outside in `Env` (the clock's reading, the identifiers of
-- `uuid4`, tokens, hash functions) and the database, and returns a result with the new database, or
-- the exception. The HTTP server holds a lock for each call, so a history is a sequence of calls
-- (`Machine.run`), and a call that raises leaves the database as it was: `claim` and `_resolve_gate`
-- are transactions, and the others raise before their first write.
--
-- Bounds. Times and counters are natural numbers without a bound, as they are in Python. The exact
-- fractions of the brainstorm core are counted in tenths and twentieths. The loop
-- of a model stage runs on fuel, one unit for each call it may make (two), which Orchestration.Bounded
-- shows to be enough; every other loop is recursion on a list or on a text.
--
-- Parameters. The hash functions of `hashlib` (for the brainstorm core, of the canonical JSON that it
-- hashes), and Unicode normalisation with lower case, are arguments of the definitions that call them.
--
-- Not modelled. The report of the brainstorm core and its rendering, the prompts of the brainstorm
-- engine and its fingerprint of the repository, the files that the worker writes for a task, its
-- configuration, the adapters of the single engines, the GitHub client, and the other parts of
-- `proxy/`, which are its HTTP server, chat platforms and provider clients. The readings of the
-- limiter's clock are whole numbers, where the code has floats, which may round at the edge of its
-- window. Keys and identifiers in a task or a worker's descriptor that are numbers or Booleans are left
-- out (`enqueue`, `register_worker`): SQLite stores the text of them, and the model raises. Error
-- messages keep the fixed words of their source line only.
pub mod RateLimit
pub mod Trees
pub mod Bridge
pub mod Worker
pub mod Api
pub mod Common
pub mod Result
pub mod Json
pub mod Table
pub mod Artifacts
pub mod Brainstorm
pub mod Github
pub mod EnginePolicy
pub mod Controller
