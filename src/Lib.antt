-- ===== src/Lib.antt =====
-- Verification of the diagnosis orchestrator and of the agents' pipeline.
--
-- The program. An operator opens a diagnostic session for a service. The orchestrator
-- (internal/server, internal/workflow, internal/store) keeps the session in PostgreSQL, sends the
-- agents (internal/agent) collect and analyze commands over Kafka (internal/bus), and moves the
-- session along a state diagram as their observations (internal/observation) come back. The fix
-- agent writes a plan of fix actions. Actions of HIGH risk wait for a human decision at the approval
-- gate; the others are handed to the executor (internal/executor). A sweep loop fails sessions that
-- are stuck, re-evaluates proposed plans and gives a verdict on executed ones.
--
-- The model. A function that returns `(value, error)` is an action of the monad `M` of Store.World:
-- from a `World` (the tables, the published commands, the executed actions and the notifications) to
-- a result and a new world. Every call of PostgreSQL, Kafka or a service takes one tick, and the
-- `Env` says at each tick whether the call fails, whether a row is locked by another transaction,
-- what the clock and the UUID source give and what the services answer. So every theorem that
-- quantifies over the environment covers every pattern of failures. An error that the source
-- discards or only logs is a `try`; what was written before an error stays written, save inside the
-- transaction of tryTransition.
--
-- The files, and the code that each models:
--   Store/Rows               internal/store/session.go, fix_action.go, session_event.go: the rows
--   Store/SessionDao         internal/store/session.go: Create, GetByID, UpdateStatus, SetReportURL,
--                            IncrementRetry
--   Store/FixActionDao       internal/store/fix_action.go: FixActionDAO
--   Store/KnowledgeBaseDao   internal/store/fix_action.go: KnowledgeBaseDAO
--   Store/ApprovalDao        internal/store/fix_action.go: ApprovalDAO
--   Store/WebhookDao         internal/store/webhook.go: WebhookDAO
--   Store/SessionList        internal/store/session.go: List
--   Store/SessionEventDao    internal/store/session_event.go: Create, LogStateTransition,
--                            GetBySessionID
--   Workflow/Transitions     internal/workflow/engine.go: the events, ValidTransitions, IsTerminal
--   Workflow/Engine          internal/workflow/engine.go: Transition, tryTransition, the risk check,
--                            GetStatus
--   Workflow/Sweep           internal/workflow/engine.go: Sweep, SweepFixProposed, SweepVerifying,
--                            and one tick of the sweep loop of internal/server/event_loop.go
--   Server/Evidence          internal/server/event_loop.go: observationPayload, normalizeType
--   Server/Dispatch          internal/server/event_loop.go: DispatchCollect, DispatchAnalyze
--   Server/EventLoop         internal/server/event_loop.go: handleObservation, the body of Run's loop
--   Server/ApprovalGate      internal/server/orchestrator.go: TriggerApprovalGate
--   Server/FixExecution      internal/server/orchestrator.go: ExecuteFixActions
--   Server/Handlers          internal/server/orchestrator.go: CreateSession, StartSession,
--                            RetrySession, IgnoreSession, DecisionApproval
--   Server/Calls             internal/server/gin.go: NewGinServer, the calls that change a session
--   Server/Queries           internal/server/orchestrator.go: ListSessions, GetSession, ListAgents
--   Server/StatusProto       internal/server/orchestrator.go: statusToProto, statusProtoToString
--   Server/Backlog           internal/server/event_loop.go: skipBacklogFast
--   Server/Readers           internal/server/event_loop.go: the start of Run and its commitOffset
--   Server/FanIn             internal/server/event_loop.go: Run, as steps of its goroutines
--   Agent/Observation        internal/observation/observation.go: New, Validate
--   Agent/Observation/Codec  internal/observation/observation.go: ToJSON, FromJSON;
--                            internal/bus/observation.go
--   Agent/Start              internal/agent/agent_run.go: Run, the agents and their topics
--   Agent/Risk, Agent/Fix    internal/agent/fix.go: the rule table, the fallback plans, Handle
--   Agent/Rca                internal/agent/rca.go: Handle, runRCA, the heuristic
--   Agent/Runner             internal/agent/runner.go: processMessage, publishWithRetry; its
--                            child Loop has Run
--   Agent/Collector          internal/agent/metric.go, trace.go, log.go: Handle, which the three
--                            agents share; its children Metric, Trace and Log have the detectors
--   Approval/Tokens          internal/approval/client.go: TokenManager; its clients NOOPClient and
--                            WebhookClient are NoopClient and WebhookClient beside it
--   Notify/Webhook           internal/notify/webhook.go: Notify, deliver
--   Notify/Incident          internal/notify/notify.go: CreateIncident
--   Report/Data              internal/report/markdown.go: LoadReportData
--   Report/Markdown          internal/report/markdown.go: RenderMarkdown, as a list of lines
--   Report/Pandoc            internal/report/pdf.go: tryPandoc
--   Report/Engine            internal/report/engine.go and pdf.go; GetReport and DownloadReport of
--                            internal/server/orchestrator.go
--   Llm/Client               internal/llm/client.go: Chat, chatWithRetry, doChatRequest
--   Bus/Consumer             internal/bus/consumer.go: Validate, Consume
--   Bus/Subscribe            internal/bus/consumer.go: NewConsumer
--   Bus/Channel              internal/bus/consumer_channel.go: a subscription, as steps of its
--                            goroutine, of the runner and of Close
--   Bus/Replay               internal/bus/replay.go: Replay, partitions, replayPartition
--   Bus/Config               internal/bus/bus.go: Config, its defaults and Validate
--   Bus/Message              internal/bus/message.go, producer.go: the envelope, Publish, NewProducer
--   Bus/Topic                internal/bus/topic.go: Topic, GroupID
--   Discovery                internal/discovery/interfaces.go; MockRegistry and Consul below it have
--                            the registries and the discovery of internal/discovery/consul.go
--   Bootstrap                internal/bootstrap/bootstrap.go: Run; its child Builders has those of
--                            internal/server/gin.go
--   Genproto                 cmd/genproto/main.go: the toolchain; its children Root and Archive have
--                            repoRoot and unzip
--   Executor/K8s             internal/executor/k8s.go: Execute and the four actions
-- Workflow/Graph has the steps between statuses as a relation, written down and not taken from the
-- table, and Workflow/Design how it differs from PLAN.md section 5.2; the modules below a component hold what is shown of it. Prelude has the shared helpers,
-- Store/Frames, Store/Keeps and Store/Preserves the rules on what an action leaves as it is or
-- true, Tests the examples.
--
-- Where goroutines share a channel, the model is a relation of steps, and what is shown holds in every
-- state that the steps reach, whatever the scheduler does. What kafka-go, the brokers and the JSON
-- codecs answer is an argument there, so that it may be anything.
--
-- Bounds. The loops of the source are recursion on the list that is ranged over, or on the attempts
-- that are left: three for Transition, publishWithRetry, the deliveries of a webhook and the calls
-- of the LLM, the constants of the source, so that no model runs out of fuel. The commits of
-- skipBacklogFast are repeated once for each tick that its ticker is selected before the retry
-- context is done, which is a number of the client. The numbers of a row are the native ℕ; ids and
-- times stand for UUIDs and seconds. The schema version, the durations and the replicas are signed,
-- and the replica count wraps around at 2 ^ 31.
--
-- Not modelled. pgx, kafka-go, gin, protobuf, encoding/json and client-go are parameters. A query
-- that fails part of the way through its rows is a query that fails. Sleeping, logging and the texts
-- of errors and results have no counterpart. Two transactions interleave only through `locked`.
-- The generated API and the call of protoc, the loading of the configuration, the logger, the gateway
-- to gRPC are left out.
pub mod Prelude
pub mod Store
pub mod Workflow
pub mod Server
pub mod Agent
pub mod Approval
pub mod Notify
pub mod Report
pub mod Llm
pub mod Bus
pub mod Discovery
pub mod Bootstrap
pub mod Genproto
pub mod Executor
pub mod Tests
