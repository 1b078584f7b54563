-- ===== src/Lib.antt =====
-- A model of the server framework acton-dx, and proofs about it.
--
-- The framework serves web applications. Its state lives in actors: each owns a model, and its
-- handlers change the model one message at a time. So a handler is modelled as a function from
-- the model to the model and the reply, and a life of an actor is a list of messages. Futures,
-- reply channels and spawning are left out. The clock is read where the code reads it: each
-- reading is an argument, a number of nanoseconds. Random ids and tokens are arguments, too.
--
-- The parts, with paths from the root of the repository:
--
-- - Prelude: Boolean tests, lists, HashMap and HashSet as lists with distinct keys (Prelude/Dict,
--   Prelude/Set), machine words (Prelude/Words), time (Prelude/Time), Result (Prelude/Results).
-- - Auth/Session: acton-dx/src/htmx/auth/session.rs. `SessionData` and its methods under their
--   own names, `SessionId::try_from_string`, flash messages. JSON values are a parameter.
-- - Agents/SessionManager: acton-dx/src/htmx/agents/session_manager.rs. `save`, `load`,
--   `take_flashes`, `delete`, `cleanup_expired` and `add_flash` are the handlers of
--   `SaveSession`, `LoadSession`, `TakeFlashes`, `DeleteSession`, `CleanupExpired` and
--   `AddFlash`. The heap of expiry times is a sorted list. Redis is left out.
-- - Agents/CsrfManager: acton-dx/src/htmx/agents/csrf_manager.rs. `get_or_create_token` and
--   `validate_and_rotate_token` are its two functions, `delete_token` and `cleanup_expired` its
--   other handlers. It shares session ids with the session manager, and nothing else.
-- - Agents/Circuit and Agents/ServiceCoordinator:
--   acton-dx/src/htmx/agents/service_coordinator.rs. `CircuitBreaker` with `record_success`,
--   `record_failure` and `should_allow`, and the agent, which keeps one circuit for each service
--   and broadcasts changes of state.
-- - Agents/RateLimiter: acton-dx/src/htmx/agents/rate_limiter.rs. `TokenBucket` and the handlers
--   of the agent, of which `check_rate_limit` is that of `CheckRateLimit`. Floating-point numbers
--   are the parameter `Floats`.
-- - Jobs/Queue, Jobs/History, Jobs/Status, Jobs/Agent: acton-dx/src/htmx/jobs/status.rs and, in
--   acton-dx/src/htmx/jobs/agent, queue.rs, history.rs, mod.rs and messages.rs. The agent owns
--   the queue, the dead letter queue, the running jobs, the history and the metrics; no message puts a
--   job among the dead or the running ones.
-- - Jobs/Schedule and Jobs/Scheduled: acton-dx/src/htmx/jobs/schedule.rs and
--   acton-dx/src/htmx/jobs/agent/scheduled.rs. A round over the scheduled jobs sends `EnqueueJob`
--   messages, the type that Jobs/Agent handles. The cron and chrono crates are the parameter
--   `TimeCrates`; a sum of times that chrono cannot represent is a panic.
-- - OAuth2/Agent: acton-dx/src/htmx/oauth2/agent.rs, with `OAuthState` of
--   acton-dx/src/htmx/oauth2/types.rs: the handlers of `GenerateState`, `ValidateState`,
--   `RemoveState` and `CleanupExpired`.
-- - Storage/Types and Storage/Policy: acton-dx/src/htmx/storage/types.rs and
--   acton-dx/src/htmx/storage/policy.rs: the checks of an upload. Storage/Validation:
--   acton-dx/src/htmx/storage/validation.rs, the checks of a content, with the crate infer as a
--   parameter.
-- - Middleware/FileServing: acton-dx/src/htmx/middleware/file_serving.rs. `serve_file` and, for
--   ranges, `serve_range_request`, cut into the parsing of the header and the response. The
--   storage is the record `Storage` of functions, and the texts that are valid values of headers are
--   a parameter.
-- - Middleware/RateLimit: acton-dx/src/htmx/middleware/rate_limit.rs. The store of counts in
--   windows; `middleware` is `RateLimit::middleware` up to the next service. It is not the agent of
--   Agents/RateLimiter, and shares nothing with it.
-- - Middleware/Csrf: acton-dx/src/htmx/middleware/csrf.rs. `call` is `CsrfMiddleware::call`, on the
--   manager of Agents/CsrfManager.
-- - Middleware/Session: acton-dx/src/htmx/middleware/session.rs. `call` is `SessionMiddleware::call`
--   on the manager of Agents/SessionManager, with `extract_session_id` and `cookie_value` for the
--   cookie; the next service is an argument that may send messages to the manager.
--   Middleware/Session/Remote is the variant for microservices, on the service of Services/Sessions.
-- - Middleware/Cedar: acton-dx/src/htmx/middleware/cedar.rs. `middleware` and `can_perform`, with
--   the policy engine as the record `Engine`. Middleware/Cedar/Paths is `normalize_path_generic`.
-- - Services/Sessions: services/auth-service/src. The agent of agents/session_manager.rs, and the
--   requests of services/session.rs in Services/Sessions/Service; a handler that panics changes
--   nothing and gives no reply. Services/Tokens is the CSRF
--   service of services/csrf.rs.
-- - Services/Files: services/file-service/src/services/file.rs. `upload`, `download` and
--   `list_files`, with the file system as the record `Disk`, in which written bytes may be on their way
--   until a `flush`.
-- - Jobs/Cancellation: acton-dx/src/htmx/jobs/cancellation.rs. A token is a reference to its
--   channel; `World` has the channels that are signalled and the tokens of the manager. `shutdown`
--   waits while other tasks act between its polls.
-- - Forms: field.rs, error.rs, builder.rs and render.rs in acton-dx/src/htmx/forms. Forms/Escape,
--   Forms/Attributes, Forms/Inputs and Forms/Render are the functions of `FormRenderer`, each under
--   its own name; what one pushes onto the text of the caller is its result.
--   Forms/Escape/Reader is a reader of HTML, for the theorems.
-- - Scaffold: acton-dx/src/cli/htmx/scaffold/field_type.rs. Scaffold/Types writes field definitions,
--   Scaffold/Fields parses them; Prelude/Parts is what they use of the standard library.
--
-- Texts that the code walks are lists of code points (Prelude/Text); where it asks for letters,
-- digits, spaces or case, the model answers for ASCII only.
--
-- Under each of these, the modules named for what they prove hold the proofs, and Tests the runs
-- on concrete inputs.
--
-- Bounds: `u32`, `u64` and `usize` values are natural numbers, and sums and products of them wrap
-- as in a release build where they can exceed the type; a theorem that needs no wrapping says so
-- in its hypotheses. Loops recurse on a list, but for four that take fuel. Three have `none` where it
-- runs out: the polls of a shutdown, for which the timeout divided by the sleep is enough, the
-- nested arrays of a field's type, for which the length of the text is, and the chunks of a download,
-- for which one more than the length of the file is. The digits of a number have the number itself,
-- which is enough. Where a slice or an arithmetic operation could panic, `none`
-- stands for it.
--
-- Left out: the Redis backends and the persistence of jobs, templates, the setters of the form
-- builders, the other middleware, the OAuth2 handlers and providers, the other gRPC services and the
-- clients, the rest of the command line, e-mail and the storage backends. They are glue around databases,
-- networks and other packages, or plain setters.
pub mod Prelude
pub mod Auth
pub mod Agents
pub mod Jobs
pub mod Storage
pub mod OAuth2
pub mod Middleware
pub mod Forms
pub mod Scaffold
pub mod Services
