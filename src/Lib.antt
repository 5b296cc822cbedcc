-- ===== src/Lib.antt =====
-- Yucca backs up machines with restic. This library models the services of packages/ that decide what is
-- stored, who may reach it, and what is recorded of it.
--
-- The parts. The agent on a machine (packages/yucca-sdk/orchestration-api) keeps a list of repositories
-- and runs restic for them. An account of the API (packages/yucca-api) owns repositories; for each of them
-- the API signs a token. With it restic reaches the gateway (packages/restic-api), which keeps a repository
-- in one bucket of an S3 store. The administration (packages/yucca-admin-api) and the worker that reads the
-- sizes of the buckets (packages/yucca-metrics-worker) work on the API's tables.
--
-- The files.
--   Common: lists, options, tests on numbers, integers, sets, and the monad of the methods: a method takes
--     a state and gives a value or an error, and the state; what was written before a throw stays written.
--   ResticApi/Types, Storage, App, Server: packages/restic-api/src/services/app.service.ts over
--     repositories/storage.repository.ts, whose S3 client is the record `S3` with the laws `IsS3`; the
--     counters are lists of what was added. `handle` is the controller, `serve` the guard and the
--     controller, `handle_all` a sequence of requests; `download` counts what a client takes of a body.
--   ResticApi/Access: services/auth.service.ts and middleware/auth.guard.ts of the same package. The
--     decoding of base64, the check of the signature and the validation are the record `Tokens`.
--   Database: the tables of packages/yucca-api/src/schema with their keys; Database/Pages:
--     utils/pagination.ts of packages/yucca-api/src and packages/yucca-admin-api/src.
--   YuccaApi/Auth, Repositories, Metrics: the services of packages/yucca-api/src with their repositories.
--   AdminApi/Auth, Users, Repositories: those of packages/yucca-admin-api/src.
--   MetricsWorker: packages/yucca-metrics-worker/src.
--   Orchestrator: packages/yucca-sdk/orchestration-api/src: Paths and Repositories for
--     services/repository.service.ts; Tasks for repositories/runningTasks.repository.ts and the steps
--     between two awaits of the calls that use it; Schedules for services/schedule.service.ts and
--     repositories/schedule.repository.ts (Rows the queries, Service the requests and cron jobs, Run the run
--     of a schedule, Run/Service this run over the backups of the service), whose scheduler registry is the
--     record `Registry` with the laws `IsRegistry`;
--     RunHistory for repositories/runHistory.repository.ts; Backups for the calls of
--     services/repository.service.ts that run restic; Startup for services/bootstrap.service.ts,
--     services/onboarding.service.ts, repositories/config.repository.ts, repositories/database.repository.ts and
--     events/events.gateway.ts; Integrations for services/integrations.service.ts; SampledLog for utils/restic.ts.
--   OrchestratorUi: packages/yucca-sdk/orchestration-ui/src/lib/services/schedule.service.ts: the list of
--     schedules that the user interface keeps by the events of the agent; Schedules/Requests over a sequence of
--     requests.
--
-- Choices. Ids (UUIDs), times and cursors are numbers, since the code only compares them. Ids that a
-- database or a random generator makes are arguments. The requests of one service run one after the
-- other, each as a whole, except in Orchestrator/Tasks, where the steps of calls interleave. A promise
-- that a call starts is followed to its end before the next step: nothing else happens on an agent during
-- a run of a schedule, and the log of each of its backups can be made. An update of a table other than
-- the schedules that sets no field changes nothing, where the source sends an empty SET, which the
-- database refuses. The OIDC provider, the remote backends, restic and RadosGW are functions that give
-- their answers. Two functions run on fuel: `walk` (a client that follows cursors) and
-- `get_bucket_stats_stream`; one more than the number of rows is enough, and the theorems say so.
--
-- Not modelled: log context, telemetry and gauges other than those that a method returns; the events to
-- web sockets other than those about schedules, runs and metrics; the configuration of the Immich
-- integration, the restore from a point but for the configuration that it replaces, the inspection of
-- remote repositories and the device flow of the agent; log files, restic and the file system; the rest
-- of the user interfaces and the generated clients.
pub mod Common
pub mod ResticApi
pub mod Database
pub mod YuccaApi
pub mod AdminApi
pub mod MetricsWorker
pub mod Orchestrator
pub mod OrchestratorUi
