-- ===== src/Lib.antt =====
-- A model of the daemon of Alresia VoltPanel, which runs a developer's local services, deploys
-- projects to servers and keeps what it knows in SQLite. The Go code calls the operating
-- system, other machines and the clock; here their answers are arguments, and stateful code
-- passes its state on.
--
-- The service manager (internal/domain/service/manager.go) keeps a table `procs` of running
-- processes and one goroutine for each process that waits for its end. Service/Manager.antt has
-- `Start`, `startProcess`, `awaitExit`, `Get`, `List` and `ReadLog`; Service/Manager/Stop.antt
-- has `Stop` and `Restart`, Service/Manager/Autostart.antt has `StartAutostart` (its proofs are
-- in Service/Manager/Startup.antt), Service/Manager/Race.antt two calls of `Start` that
-- interleave, Service/Manager/Runs.antt histories of calls, and Service/Manager/Remembered.antt
-- the restarts that count. A process is a handle into `waiting`, which `procs` shares as the
-- source shares the pointer. It asks internal/domain/service/topo.go (Service/Topo.antt,
-- `topoSortNodes` as `topo_sort_nodes`) for the order of autostart: the loop there runs on
-- fuel, one round for each node, which is enough, since each round takes an id from the queue
-- that has not been there before. It writes every change of a service
-- (internal/domain/service/service.go, Service/Entity.antt) to the `services` table
-- (internal/storage/service_lifecycle_repo.go, Storage.antt). A process ends once; the log
-- lines that `pipeLogs` copies are not modelled.
--
-- A pipeline (internal/pipeline) is parsed and validated by definition.go (Pipeline.antt, the
-- YAML decoder an argument) and run step by step by engine.go (Pipeline/Engine.antt) on a
-- `Host`: the shell, sessions, HTTP and the deployment engine.
--
-- The deployment engine (internal/domain/deployment/engine.go) is in Deployment/Engine.antt,
-- stage by stage, and Deployment/Calls.antt (`Deploy`, `Rollback`); its tables (target.go,
-- deployment.go) are in Deployment.antt, `shQuote` with a POSIX shell's reading of a word in
-- Deployment/Shell.antt, and the functions of `strings` that it uses in Deployment/Text.antt.
-- An `Ended` that is `panicked` is a Go panic, after which the deferred calls still run.
--
-- Domains and certificates (internal/domain/domainname/domainname.go) are in Domains.antt, with
-- the constraints of internal/storage/migrations/0001_init.sql. Project detection
-- (internal/domain/project/detect) is in Detect.antt: the detectors, the registry, `Register`
-- and `Detect`. Jobs (internal/domain/job/job.go) are in Jobs.antt. Runtimes and their versions
-- (internal/domain/runtime/runtime.go) are in Runtimes.antt; Runtimes/Histories.antt has the
-- sequences of its operations, Runtimes/Handlers.antt the handlers of
-- internal/api/v1/runtimes.go and Runtimes/Requests.antt the sequences of requests to them.
--
-- Extensions are processes of their own. internal/pluginhost/protocol.go and the manifest are
-- in Plugins/Protocol.antt; the process, its calls and `LoadExtension`
-- (internal/pluginhost/host.go) in Plugins/Host.antt, where the other end of the pipes is what
-- each turn of a call sees and `sent` and `received` keep what went through;
-- internal/providers/registry.go in Plugins/Registry.antt; and the table of extensions with the
-- loaded processes (internal/domain/extension/extension.go) in Plugins/Extensions.antt.
-- Plugins/Histories.antt has the sequences of its operations.
--
-- Session tokens (internal/security/auth.go) are in Security/Sessions.antt, with base64 in
-- Security/Sextets.antt and Security/Base64.antt; the HMAC is an argument. The sandbox of the
-- file manager (internal/security/sandbox.go) is in Security/Sandbox.antt, on paths as their
-- parts (Prelude/Paths.antt); its walk to the root is a recursion on the parts from the last to
-- the first, so that it needs no fuel.
--
-- The hub that sends messages to browsers (internal/ws/ws.go) is in Ws.antt; Ws/Events.antt has
-- the sequences of what happens to it, a message taken from the queue and written to all
-- clients as one step.
--
-- The hosts file (internal/providers/domainprovider/hosts/hosts.go) is in Hosts/Provider.antt,
-- with the functions of `strings` in Hosts/Text.antt. Hosts/Words.antt, Hosts/Fields.antt,
-- Hosts/Data.antt, Hosts/Lines.antt and Hosts/Reread.antt are about its text, written and read
-- again, Hosts/Refinement.antt and Hosts/Runs.antt about the list of its lines of data.
--
-- The routes of the reverse proxy (internal/proxy/router.go) are in Proxy.antt. The handlers of
-- internal/api/v1/domains.go, which bind a hostname in the tables, in the hosts file and in the
-- routes, are in Bindings.antt: a request with its body, a new id and the time gives the three
-- states and the answer.
--
-- Bounds: durations in Service/Entity.antt and the expiry of a token wrap around at 64 bits;
-- other counts and instants are natural numbers, instants of a row in seconds, all others in
-- nanoseconds, or in milliseconds for a host's clock. A write to the database that fails
-- changes nothing; one to the hosts file may leave any text. A deployment's run may take long,
-- so that `finish` and the Get after it have their own answer to whether the database can be
-- reached (`Later` of Deployment/Calls.antt).
--
-- Prelude.antt passes on the libraries' names and the shared helpers: Boolean tests in
-- Prelude/Checks.antt, lists in Prelude/Lists.antt, integers in Prelude/Int.antt, maps in
-- Prelude/Dict.antt, tables in Prelude/Table.antt, paths in Prelude/Paths.antt, results with an
-- error in Prelude/Answers.antt. Tests.antt and the files below it have the theorems at
-- concrete inputs.
--
-- Not modelled: the other HTTP handlers (internal/api), the forwarding of requests, the
-- platform and the other provider packages, which call the operating system and other programs,
-- the secrets' encryption and the remaining repositories, which PROJECT.json lists, and the
-- user interface.
pub mod Prelude
pub mod Storage
pub mod Service
pub mod Pipeline
pub mod Plugins
pub mod Hosts
pub mod Security
pub mod Proxy
pub mod Bindings
pub mod Domains
pub mod Deployment
pub mod Detect
pub mod Jobs
pub mod Runtimes
pub mod Ws
mod Tests
