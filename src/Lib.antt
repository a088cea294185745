-- ===== src/Lib.antt =====
-- kimo, a Kubernetes operator and REST API that runs per-team instances of CTF challenges.
--
-- The program. Controllers watch custom resources and drive the cluster to what they ask for: a
-- template is validated, an instance gets a Deployment, a Service and a NetworkFence and moves
-- through phases, a lifecycle controller expires it, a fence becomes a NetworkPolicy, and a
-- challenge set follows its schedule. A REST API creates, lists, extends and deletes instances
-- behind a proof of work. Phase changes are told to a scoring backend, which also authenticates
-- the callers of the API. The controllers share no memory: they meet in the objects of the API
-- server, and an answer of it may show what any other actor did.
--
-- The files, with the code that they model:
--   Prelude, Prelude/...      shared helpers: tests on numbers, lists, dictionaries, results and
--                             integers over the native numbers
--   Types, Types/...          api/v1alpha1/*_types.go and labels.go, and the fields of Kubernetes
--                             objects that the program sets or reads
--   Cluster, Cluster/...      the client of the API server (the record Api, a parameter), the
--                             actions that call it with their log, and postconditions of actions
--   Integrations/Event, Backend, Registry
--                             internal/integrations/backend.go
--   Integrations/Http, Generic, Fanout, AnyOrder
--                             internal/integrations/generic.go
--   Integrations/Ctfd, Tokens internal/integrations/ctfd.go
--   Instance, Instance/Build, Phase, Ensure, Reconcile
--                             internal/controller/challengeinstance_controller.go; the proofs are in
--                             Instance/Quiet, Transition, Alike, Steps, Report, Stability,
--                             Ownership, Wiring, Health and Lifetime
--   Lifecycle, Lifecycle/...  internal/controller/lifecycle_controller.go; Lifecycle/Visits and Chain
--                             are runs that follow one another on an instance
--   Machine, Machine/...      the phases as a state machine that both of these keep to, and the
--                             stored instance under runs that overlap (Machine/Store, Deadline
--                             and Grace)
--   Template, Template/...    internal/controller/challengetemplate_controller.go
--   Schedule, Schedule/...    internal/controller/challengeset_controller.go
--   Fence, Fence/...          internal/controller/networkfence_controller.go
--   Pow, Pow/...              internal/api/pow.go
--   Server, Server/...        internal/api/handlers.go, server.go and middleware.go
--   Platform, Platform/...    the two backends as fillings of the interface, with the API server
--                             and the controllers that call them
--   Manager, Manager/...      cmd/manager/main.go and the SetupWithManager of each controller
--   Copies, Copies/...        api/v1alpha1/zz_generated.deepcopy.go, on a memory with addresses: the
--                             statements in Copies/Copiers, the functions in Copies/Kinds
--                             (DeepCopyInto) and Copies/Methods (the others)
--   Tests, Tests/...          a small concrete cluster, and the theorems at concrete inputs
--
-- How it corresponds. A Go method that calls the client is an action of Cluster/Exec: it takes the
-- world and the log and returns a value or an error with both. Camel case names are written with
-- underscores: ensureWorkload is ensure_workload. A handler of the API is an action on
-- Server/State, which adds the map of puzzles. A method that changes the instance it is given
-- returns the changed instance. A switch on a computed value is a function of its own, such as
-- Lifecycle.step_at and Schedule.decide_at.
--
-- Parameters. The API server, the clock, random bytes, SHA-256, HMAC, the JSON, duration and time
-- parsers and the HTTP client are arguments. What is assumed of one of them stands in the theorem:
-- that an owner reference keeps a name and a namespace, how Kubernetes enforces a NetworkPolicy,
-- that an update of an old version is refused and each write gets a new version, and that the
-- functions of a TLS configuration are applied in turn.
-- controller-runtime and net/http are parameters of the manager. The copying functions of other
-- packages are taken to make deep copies.
--
-- Numbers. Times and durations are nanoseconds in the integers; the difference of two times is
-- held within an int64 as Go does, and theorems that need the exact difference bound it. The
-- unhealthy count wraps as an int32. Kubernetes stores a time at whole seconds; the model has what
-- the code computes and sends. The solver runs the 2 ^ 30 rounds of the source. Decimal
-- digits are taken with fuel n + 1 for n, which is more than n has digits.
--
-- Interleavings. The runs of a controller are atomic as functions, but the calls that they make
-- may answer anything. Machine/Store drops the rest: a run may have read any earlier version of the
-- instance, and others write in between. Server/Spending does the same for the map of puzzles,
-- where each access holds the mutex.
--
-- Not modelled: schemes, log lines, the splitting of command-line arguments and the flags of the
-- logger, the matching of a path to a route, and the encoding of JSON. A request body stands as
-- the decoder gives it.
pub mod Prelude
pub mod Types
pub mod Cluster
pub mod Integrations
pub mod Instance
pub mod Lifecycle
pub mod Template
pub mod Schedule
pub mod Fence
pub mod Machine
pub mod Pow
pub mod Server
pub mod Platform
pub mod Manager
pub mod Copies
pub mod Tests
