-- ===== src/Lib.antt =====
-- The Temporal Cloud secrets engine of Vault: a backend that keeps one root credential and a policy
-- for each service account, mints API keys of Temporal Cloud as leased secrets, and rotates its root
-- key. The backend's handlers call the Cloud Ops API through the client package.
--
-- The parts, and where they are modelled:
--   Client (client/client.go): the data of the client and `CloudOps`, the interface between backend
--     and client. Client/Errors (client/errors.go): error categories and MapGRPCError.
--     Client/Access (client/access.go, and specFromProto of client/grpc.go): roles and permissions.
--     Client/Token (client/token.go): the key ID in a token, which
--     Carried describes without splitting. Client/Service: the remote service as a
--     parameter. Client/Async (client/async.go): awaitOperation. Client/Confirm (client/confirm.go):
--     awaitCondition and the confirmations. Client/Grpc (client/grpc.go): the operations of
--     grpcClient, which fill `CloudOps`; Promises is their contract, Paging and Search their loops
--     over pages. Client/Probe (client/probe.go): the probe of a namespace, over a `Frontend`.
--   Backend/Handles (backend.go): the counted client handles, with the interleavings of requests and
--     the critical sections of resets as a step relation in Backend/Handles/Steps, and its invariant
--     in Backend/Handles/Lifetime. Backend/Handler (backend.go): the shape
--     of a handler, and respondCloudErr. Backend/World (backend.go, path_config.go): the surroundings,
--     getConfig, getClient. Backend/Entries: what is stored and requested. Backend/Namespaces,
--     Backend/Policy, Backend/Accounts (path_service_accounts.go): parseNamespaceAccess and
--     cloudSpecChanged; the merge and checks of a write; the handlers. Backend/Probing
--     (path_probe_config.go, probe_budget.go, credential_request_budget.go, path_creds_probe.go).
--     Backend/Creds (path_creds.go), Backend/Lease (secret_api_key.go), Backend/RootConfig
--     (path_config.go), Backend/Rotate (path_rotate_root.go), with its calls in Order, and in Steps and
--     Completed the answers on which a rotation went on.
--   Backend/Accounts has the read in View, and what its calls leave behind in Write, Persist, Outcome
--     and Delete; Backend/Namespaces the laws of its maps in Valid, Reading and Changed.
--   Sweep (cmd/sweep/main.go): the command that deletes what acceptance tests left. Benchmark
--     (cmd/propagation-benchmark/main.go): Cleanup the deletes it retries, Trials one trial, Run the
--     whole command.
--   Prelude and Exec hold what these share; Examples runs the theorems at concrete inputs.
--
-- How code corresponds to definitions. A handler takes a state and ends with a response, an error
-- response or a Go error, and the state it left: the outside world, the client handles and a trace
-- of the calls that change something outside, the newest first. A client call takes the world and
-- gives a result. An error is a category, which errors.Is reads, and a detail with one constructor
-- for each place that builds a message. Durations are int64 nanoseconds: integers whose sums wrap,
-- and whose differences of times saturate. Go maps are lists of pairs. The operations of a client
-- take the configuration that it was built from.
--
-- Parameters. The Cloud Ops service is `CloudService`, with the hypotheses `Clocked` where a loop
-- must end: a timer does not fire early, reads do not turn the clock back, and a read on a context
-- that has ended gives DeadlineExceeded. Vault's storage, JSON, time formats, random bytes, the
-- building of clients and the namespace probe are the record `Env`. The frontend of a namespace is
-- `Frontend`, with the hypotheses `Timed`: as above, and a wait on a context that has ended does not
-- fire a timer of the future. What the benchmark calls is `Rig`. Base64 and the JSON claim of a
-- token are `TokenCodec`; the names of enum values without a word are parameters too.
--
-- Loops. awaitOperation polls each second for at most sixty seconds, so its fuel is 60 polls.
-- awaitCondition checks at once and then each half second for at most fifteen seconds, so its fuel
-- is 31 checks. A probe waits at least fifty milliseconds between attempts and has at most fifty
-- seconds, so 1001 rounds are enough. A trial of the benchmark has as many polls as intervals fit
-- into its timeout, and two. Running out of fuel is an error that the code does not have. The fuel of
-- the loops over pages, and of the wait for a connection, is a parameter, since the code bounds them
-- only by the pages and the changes that come.
--
-- Not modelled: the plugin's main, the flags, signals and summaries of the benchmark, field schemas
-- and help texts, Factory and Backend of backend.go, logging, and the lock that serialises rotations.
-- The goroutines that verify a key run in turn, and the sorting of their warnings is left out.
-- Lowering a text is modelled for code points whose lower case is an ASCII letter.
pub mod Prelude
pub mod Exec
pub mod Client
pub mod Backend
pub mod Sweep
pub mod Benchmark
mod Examples
