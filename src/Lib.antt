-- ===== src/Lib.antt =====
-- Verification library of saivage, an autonomous agent system in TypeScript.
--
-- The program runs agents of several roles over a project. A planner keeps a plan of stages through
-- the tools of the plan server; each agent talks to a language model through a router, which tries
-- the candidates of a model spec in turn and remembers which of them failed; a routing
-- configuration gives the model of a role; and every agent reads and writes project knowledge as
-- its role permits. The parts that are modelled, by their paths from the repository's root:
--
-- In Plan stand src/mcp/plan-server.ts (`PlanService`), src/mcp/plan-registry.ts
-- (`dispatchPlanToolCall`), src/store/plan-read-models.ts and the schemas of plans in
-- src/types.ts. There Document has the records and the schema as tests (`document_ok` is
-- `PlanDocumentSchema.parse` succeeding), Reply the outcome of a call (a value, a returned
-- PlanError, or a rejected promise) and the monad of methods, Service the state and the helpers,
-- Methods one function for each method, of the same name, and Calls the calls and their runs.
-- The proofs are in Document/Valid, Edits and below Calls.
--
-- In Providers stand parts of src/providers: ModelId (types.ts, router-utils.ts), Candidates
-- (candidate-planner.ts), Health (health-tracker.ts), Errors (error.ts), and Chat (`chat` of
-- router.ts over provider-caller.ts). The proofs are in the folders of these names; Growth is about
-- the delays that grow by 1.5, of Health/Backoff and Chat/Window.
--
-- In Knowledge stand parts of src/knowledge. Permissions is permissions.ts, with the proofs in
-- Permissions/Access. Records has the records of types.ts and the rows of sidecar.ts, Sidecar the
-- statements of sidecar-queries.ts on them. Lifecycle has the checks and the transactions of
-- lifecycle.ts, and below it Skills, Memories and Scopes have the operations that write, each a
-- function of its name; Effects says what a transaction that returns has done. Calls has these
-- operations as calls, with the proofs below it (Rules and Kept lead from transactions to calls).
-- Reads has the lists and `getMemory`, Reads/Search the search.
--
-- In Mcp stand parts of src/mcp. MemoryTools is the handler of knowledgeMemory.ts: the gates by
-- role, scope and topic before the operations of Knowledge. Below it Confined says what a role may
-- change, Gates what the gates let through, Operations what each operation changes, and Handler and
-- Answers put them together. StageTools has the five tools of plan-server.ts on the artifacts of a
-- stage, over Store; its Handlers are the tools, by their names, and Delivered has the proofs. Tools
-- has the filters of src/agents/tool-filters.ts, Tools/Services the registries of in-process and
-- external services (in-process-registry.ts, external-runtime.ts) and the calls of runtime.ts,
-- Tools/Names the names under which tools are offered; the proofs are in Allowed and Names/Unique.
-- HttpFetch has the readers of httpFetch.ts that stop at a number of bytes, with the proofs in Bounded.
--
-- In Store stands src/store/stage-run-store.ts. EventLog has the log (`appendEvent`, `readEvents`),
-- with the proofs in Durable and Torn. Artifacts has the schemas of task lists, reports and summaries
-- of src/types.ts. StageRuns has the disk and the operations that write, by their names, and below
-- it Runs what `getStageRun` derives, Reads the operations that read, Expected the checks of
-- artifacts; Status, Readable, Calls, Changed, Steps and Progress lead to what writes do to a run.
--
-- In Routing stand `ModelRoutingResolver` and its helpers of src/routing/resolver.ts: the rules and
-- `mergeRuleChain` in Rule, `validateProfileGraph` in Graph, the choice of models and accounts in
-- Resolver, the constructor and `resolve` in Resolver/Route, with the proofs in Graph/Walks,
-- Graph/Sound and Resolver/Allowed. In Agents stands `RetryPolicy` of src/agents/retry-policy.ts,
-- with the proofs in RetryPolicy/Laws.
--
-- In Runtime stand the roster of src/agents/roster.ts (Roster), `Dispatcher` of
-- src/runtime/dispatcher.ts (Dispatcher, with the proofs in Batch and Spawned),
-- `RuntimeSupervisor` of src/runtime/supervisor.ts (Supervisor, with the proofs in Cancels and
-- Target), and `NoteManager` of src/runtime/notes.ts (Notes; Calls has its operations one after
-- the other; Hidden, Changes and Once are about delivered notes, Lasts and Kept about permanent ones).
--
-- How the code is read. A method of the plan service is a function from the state before it to its
-- outcome and the state after it: its writers wait for each other in `opQueue`, so that a run is a
-- list of calls. What a call finds outside (the clock, whether the file system takes the write,
-- what git and the knowledge archive answer) is its argument `Env`. The arguments of calls have the
-- types that the code declares; of an error the code is kept and its text left out. The router's
-- providers, clock and eligibility are arguments of `chat`, an answer or a failure for each
-- candidate; a chat runs from start to end, and chats that overlap are not modelled. What the
-- regular expressions of error.ts and the HTTP headers give is part of a failure. Times are in
-- units of 1/128 ms, in which ten growths of a delay by 1.5 are whole. The tables of the knowledge
-- sidecar are lists of rows, where an insert of an id that is there fails by the table's primary key
-- (`insert_row`, the schema in sidecar.ts), not by a test of `putRecord`; the JSON text of a record is the record, and the name or topic key of
-- a side table stands in the row. A writer is a function from the tables to a result and the tables,
-- or to an error: a transaction that throws is rolled back, so that an error has no tables. The
-- scans for secrets and blocked paths, the formats that the schemas ask for, the fresh id, the
-- clock and whether the index takes the records are its argument `Env`; the hits of the index are
-- an argument of the search, and texts are shown unredacted. A tool call carries what it finds:
-- whether the abort signal is set, and what its tool or its child answers. A run of the supervisor
-- is a list of events: its timer, a verdict of the model with the agents registered at that time,
-- a check that fails, and the delay before a second cancel. A file of JSON is missing, damaged, or
-- holds a document of its type, and a path stands for the ids in it, which are plain file names.
-- The log of events is a list of lines and what stands behind the last newline; its texts are of any
-- type, with a `Codec` that prints an event and reads a line, and an append is whole, refused, or
-- cut off. The orders of texts that `sort` and `localeCompare` use are arguments. The writes of the
-- stage-run store run one at a time through `writeQueue`. What schemas make of an untyped argument,
-- what a handler or a client answers to a call, what `reader.read` brings, a `TextDecoder` and the
-- printing of a number are arguments as well.
--
-- Fuel. `visit` (appendFailoverChain) takes fuel, since the failovers may lead in a circle; one
-- unit more than there are reachable specs is enough. A walk of `validate_profile_graph` has two
-- units more than there are profiles, which is enough; `merge_rule_chain` has its fuel as an
-- argument, and some fuel is enough exactly where the graph has no cycle. The walk along
-- supersessions (`walk_chain`) has its fuel as an argument; more than there are records is enough.
-- The search for a free name (`first_free`) has one unit more than there are names, which is enough.
-- All else is structural recursion.
--
-- Not modelled: the agents' loops, prompts and conversations, runtime recovery and its lock, the
-- health checks of external services by timer, the shell, file and skill tools, the start of the
-- knowledge store, its built-in skills and its loading into prompts, retrieval, the masking of
-- secrets, sign-in, channels, the HTTP server and the web interface: they are I/O, other services,
-- processes and texts, around the decisions that are modelled.
pub mod Base
pub mod Plan
pub mod Providers
pub mod Knowledge
pub mod Routing
pub mod Agents
pub mod Mcp
pub mod Runtime
pub mod Store
