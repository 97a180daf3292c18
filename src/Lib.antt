-- ===== src/Lib.antt =====
-- An agent over Kafka that speaks the A2A protocol: requests come as envelopes, a handler per method
-- reads and writes a store of tasks, a processor works on a task in the background, and what happens to
-- a task is a log of events that streams follow. This library models the core of the package
-- src/kafka_a2a (paths below are from there) and proves what makes it correct.
--
-- Parts and files. A definition has the name of the function that it models, without a leading
-- underscore.
-- - Models: models.py. Errors: errors.py and the errors of protocol.py. Tenancy: tenancy.py and what
--   credentials.py strips from a principal before it is stored.
-- - TaskStore: runtime/task_store.py. State has the store and the creation and lookup of tasks, Append
--   the writes of events, Reader the subscriptions and `iter_events`, PushConfigs the push configs,
--   Ops the calls as a list. A method is one step, since the lock is never held across an await; a
--   reader is a record that takes turns (Streams) with calls of any other user of the store. Log,
--   WellFormed, Queues, Delivery, Complete, Drain, CatchUp, Numbers and PushLaws are about these.
-- - Redis: runtime/redis_task_store.py, over a server (Server) and the JSON of the models (Json) as
--   interfaces. Keys has the keys, Store the tasks and their events, Reader `iter_events` as polls, Push the
--   push configs. Calls has the calls of both stores as one type, Refines the relation between a keyspace
--   and an in-memory store; Events, Held, Created, Agrees, Reads, Polls and Race are about these.
-- - Client: client.py. State has the pending calls, the streams and the consumer loop, Calls a call and a
--   stream cut where they wait; Brings, Correlates and StreamLaws are about these.
-- - Transport: transport/kafka.py. Scope has the scope fields of an envelope, Topics the topics; Envelope is
--   about the scope.
-- - SharedRuntime: runtime/shared_runtime.py. State has the agents that a service runs and a reconcile
--   with the registry of the control plane; Folds, Stops and Reconcile are about it.
-- - Agent: runtime/agent.py. State has the state of an agent and a handler as an action on it; an
--   asyncio task that a handler makes or cancels is an effect, in the order of the calls. Config, Access,
--   Messages, Tasks, PushRoutes, Route, History and Conversation have the requests, Processing a run of
--   a processor, Forward what a stream sends, Delivery the push loop. Isolation, Ownership, Listing,
--   Resume, Answers, Steps, Runs, Replay, PushQueue and Pushes are about these.
-- - AgentFilter: agent_filter.py, the agents that a host may see; its child Shows is about it.
-- - Decisioning: decisioning/service.py with contracts.py and parts of config.py and telemetry.py: the
--   circuit, the retries and the shadow queue.
-- - Registry: registry/kafka_registry.py and registry/directory.py: the agents that are known.
-- - Coins: intera_coins.py, the tracker of what is charged. ContextMemory: context_memory.py;
--   its child Owners is about the keys.
-- - Common: texts, lists, JSON values, dicts as association lists, and Python's slices.
-- - Tests: the theorems at concrete inputs.
-- The agent calls the store through `on_store`; the tenancy functions come in through a `PrincipalCodec`,
-- which stands for pydantic's validation and dump of a principal, with the laws that they keep. The
-- client takes a `Wire` for the decoders of its messages. A `RedisServer` has the commands that the store
-- uses with what Redis documents of them, on typed entries under keys; a value that is stored as JSON need
-- not come back, so a theorem that reads one back says for which values it must (`TaskSurvives`).
--
-- Bounds and fuel. Numbers are unbounded, as in Python. Only the retry loop is on fuel: one more than
-- the retries that are allowed, which the theorem about it shows to be enough. Times are numbers of
-- ticks, and the clock and `uuid4` are arguments (`Fresh`); an id of `uuid4` is a text of 36 characters.
-- Text in lower case is that of ASCII. That an outside call raises, the stop or the start of an agent, a
-- delivery, or `urlparse`, is an argument too.
--
-- Not modelled: Kafka, HTTP and the language model libraries with the processors over them
-- (langgraph_processor.py, livekit_voice, llms, tools), the web applications, the command line, and
-- pydantic, whose parsing of parameters is an interface (`RequestCodec`, `PushCodec`). Of runtime/agent.py
-- start and stop are left out, and `urlparse` and the HTTP calls of the push loop are arguments; of
-- runtime/shared_runtime.py how an agent is built from its payload, and the local delegation.
pub mod Common
pub mod Models
pub mod SharedRuntime
pub mod TaskStore
pub mod Errors
pub mod Tenancy
pub mod Agent
pub mod Decisioning
pub mod Redis
pub mod Registry
pub mod AgentFilter
pub mod Client
pub mod Coins
pub mod ContextMemory
pub mod Tests
pub mod Transport
