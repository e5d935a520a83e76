-- ===== src/Lib.antt =====
-- A model of copilot-pool-gateway, a gateway that spreads requests over a pool of GitHub Copilot
-- accounts, each served by a worker process of its own.
--
-- The parts and their files:
--   Store.Disk            the JSON files of package store, through what reading and writing answer
--   Store.Account         store/account.go: the accounts. Lookup (GetAccount and its kin), Models
--                         (blocked models), Upsert (UpsertAccount), Update (UpdateAccount), Edit
--                         (DeleteAccount, RegenerateApiKey, UpdateAccountWorker, ClearAccountWorker);
--                         Unique is about all of them
--   Store.Pool            store/account.go: the pool's configuration
--   Store.ModelMap        store/model_map.go
--   Store.Reauth          store/public_reauth.go
--   Store.Admin           store/admin.go
--   Instance.Ports        instance/worker_supervisor.go: the port pool
--   Instance.Supervisor   instance/worker_supervisor.go: the table of workers. Stop (Stop,
--                         RemoveAndCleanup, Shutdown), Spawn (Spawn, Restart), Recover
--                         (RecoverFromStore, MigrateLegacyAccounts, tryAdopt), Health
--                         (runHealthPass); Invariant, Table, Reachable and Closed are about them
--   Instance.Usage        instance/usage.go
--   Instance.LoadBalancer instance/load_balancer.go
--   Instance.RateLimiter  instance/rate_limiter.go
--   Instance.Turns        instance/copilot_turns.go. Cache (the entries), Bindings (with the table of
--                         instance/continuation_metadata_sqlite.go), Session
--                         (ResolveResponseFunctionCallSession)
--   Instance.ToolValidation
--                         instance/tool_validation.go, and latestAnthropicToolResultIDs;
--                         Newest says which messages it compares
--   Instance.Replay       instance/responses_replay.go and its table in
--                         instance/continuation_metadata_sqlite.go
--   Instance.Continuation instance/responses_replay.go: the items of a continuation. Rewrite
--                         (rewritePreviousResponseContinuationWithMode), Degrade
--                         (DegradeOrphanContinuationPayload), Capture (absorbLine); Scrubbed, Plain,
--                         Loop, Degraded and Answered are about them
--   Instance.Registry     instance/manager.go, health.go and account_probe.go: the instances
--   Anthropic             package anthropic: Types, Stream (TranslateChunkToAnthropicEvents) and
--                         Response (TranslateToAnthropic). Stream.Ordered says that calls do not
--                         interleave, Stream.Protocol is a client's view of the order of events,
--                         Stream.Content of what they carry
--   Handler.Gateway       what a request of handler/proxy.go runs on, with DisableAccount and
--                         EvictAccountContinuationCaches of package instance
--   Handler.Routing       handler/proxy.go: proxyAuth, resolveState; Recovery: canOrphanPassthrough and
--                         the routes of orphans; Binding: resolveContinuationBinding
--   Handler.Responses     handler/proxy.go: proxyResponses. Start (before the loop), Attempt (one round),
--                         Answers (what follows an answer), Loop; Bounds, Turns, Endings, Begun and
--                         Runs are about them
--   Handler.Messages      handler/proxy.go: proxyMessages. Choice, Loop; Detached and Repeats are about
--                         them
--   Handler.Completions   handler/proxy.go: proxyCompletions, proxyEmbeddings, proxyResponsesCompact
--   Handler.Affinity      handler/messages_session_affinity.go, handler/responses_session_affinity.go
--   Handler.CallIds       handler/proxy.go: the identifiers of function calls in a request's body.
--                         Sent is about those that agents send
--   Base                  shared helpers: tests, lists, texts, JSON values, string-keyed maps
--   Examples              the theorems at concrete values
--
-- How they interact: the supervisor writes the worker fields of the account file through its
-- callbacks (persist_on_ready, tear_down) and reads the accounts in its recovery and health passes;
-- the load balancer reads the account file, the registry of instances (a test of IDs) and the usage
-- window; session affinity asks the store and the registry (a record of tests).
--
-- The proxy's loops run on a Gateway, the record of all these states; each upstream call is an answer
-- from outside, and while it runs, other requests and the background may change the gateway in any way
-- (`meanwhile`).
--
-- State is passed explicitly. A Go map is an association list (Base.StringMap), whose order stands for
-- the order of a range loop. Each operation runs as one step: the code holds a lock for it, except in
-- Spawn, Stop and tryAdopt, which release theirs in between; what other goroutines do there is not
-- modelled. Times are natural numbers, in seconds or nanoseconds as each file says. Machine integers do
-- not overflow at the values that occur. Alloc's loop runs over
-- the range of ports. The loop of proxyResponses, which may raise its own limit, runs on fuel: two
-- attempts more than its first limit, which Handler.Responses.Runs shows to be enough. The other loops
-- of the proxy count their attempts down, and the rest run over a list.
--
-- Parameters: the upstream, what the operating system does (ports that can be bound, child processes, files), the
-- readiness probe, bcrypt, SQLite, uuid, json.Unmarshal, fmt.Sprint and the clock.
--
-- Not modelled: HTTP itself, JSON as text, the other rewriting of requests, what
-- forwarding a response stores, the replay archive, probes, the device flow, start-up and the web
-- console.
pub mod Base
pub mod Store
pub mod Instance
pub mod Anthropic
pub mod Handler
pub mod Examples
