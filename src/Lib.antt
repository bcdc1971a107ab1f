-- ===== src/Lib.antt =====
-- headless-mcp: a hub that speaks the Model Context Protocol to its clients and forwards their
-- calls to a set of backends, which are MCP servers behind a process or a URL.
--
-- The parts of the program and how they interact. A transport (crates/transport-http,
-- crates/transport-stdio) reads bytes, decodes them into a JSON-RPC message (crates/mcp-wire) and
-- gives the message to a session (crates/mcp-server). The session dispatches requests by method,
-- records each in an audit log, and uses the registry (crates/registry) to list tools and to route
-- calls. The registry owns the backends, whose common interface is crates/core, and the index of
-- the tools that they expose. One kind of backend is a server behind a URL
-- (crates/backends/backend-http): it keeps a session with the server, begins it anew when the
-- server has lost it, and gets its tokens from an OAuth2 token manager, which writes each token
-- through to an encrypted store (crates/secrets). The other kind is a child process
-- (crates/backends/backend-stdio) with a table of the calls that wait for an answer.
--
-- Which file models which part.
--   Wire/JsonRpc, Wire/JsonRpc/Nesting, Wire/JsonRpc/Decode: crates/mcp-wire/src/jsonrpc.rs, its
--     message types, serializer, exceeds_max_nesting and decode_message.
--   Wire/Sse: crates/mcp-wire/src/sse.rs, encode_sse_event and SseDecoder::feed.
--   Core: crates/core/src/types.rs, error.rs and lib.rs. The trait McpBackend is a record of
--     functions on a world W, which is all that the backends' own state and their servers consist
--     of; an awaited call of a backend moves the world and answers.
--   Registry/Policy: hidden_args, strip_schema_args, apply_arg_policy, compute_exposed_name.
--   Registry/State, Connect, Health, Route, Listing: the methods of BackendRegistry in
--     crates/registry/src/lib.rs, as computations that pass the registry and the world on (Hub)
--     and may fail (Task); what is written before an error stays written. Registry/Backoff is the
--     delay before a reconnect, with the wrap-around of u64.
--   Registry/Invariant: the steps a registry takes and what holds in every state reached by them.
--   Registry/Laws: single operations against a description of what they do to the routes.
--   Server/Protocol: crates/mcp-server/src/protocol.rs. Server/State, Tools, Resources, Events,
--     Dispatch: session.rs and audit.rs. Server/Subscriptions: subscriptions.rs.
--   Server/Laws: what holds of every request that a session handles.
--   Http: crates/transport-http/src, a POST to /mcp from the rate limit (rate_limit.rs) and the
--     bearer check (auth.rs) to the reply (handlers.rs), and the checks of run_http at the start.
--   Http/Laws: who gets through to the session.
--   Secrets: crates/secrets/src/store.rs and error.rs, the interface of a store and what it
--     promises (IsStore). Secrets/Sealed and Secrets/FileStore: file_store.rs, a store in one file;
--     Secrets/FileStore/Assumptions says what is taken of the cipher, of the JSON of the file and of
--     the file system.
--   OAuth2: crates/backends/backend-http/src/oauth2.rs and token_store.rs. OAuth2/State is the
--     token manager, as the cache, the discovered metadata and a world of servers, clocks and what
--     the store keeps; OAuth2/Cache is what is kept of a token, Discovery the metadata and the
--     registration of a client, Grants and Consent the three grants, Tokens get_token, and Query the
--     texts that are taken apart. Each file has the theorems on it below it.
--   HttpBackend: crates/backends/backend-http/src/lib.rs. HttpBackend/State is the backend,
--     Headers the headers that mirror a request, Response what is read of an answer, Requests one
--     request with its retry after a 401, Sessions the handshake and its repetition, Interface the
--     trait McpBackend.
--   StdioBackend: crates/backends/backend-stdio/src/lib.rs. StdioBackend/State is what the backend
--     and its reader task share, with the oneshot channels as numbers and the list of what was sent
--     on them; Reader is read_responses, Calls one call, Interface the trait McpBackend, Reachable
--     the steps in whatever order they come.
--   StdioTransport: crates/transport-stdio/src/lib.rs, the loop of run over the lines of stdin and
--     the steps of the tasks of streams, which are numbers; a task that is aborted ends when it next
--     yields. Closed, Streams and Cancelled are about the cancellation of a subscription.
--   Config: crates/server/src/config.rs. Config/Placeholders is resolve_value, Config/Raw the
--     configuration as it is written and as it is used, Config/Load find_config_file and load_config,
--     and Config/Start what crates/server/src/main.rs starts the HTTP listeners with.
--   Json, Dict, Exec, Prelude: JSON values, maps with string keys, stateful computations that may
--     fail, and shared helpers.
--
-- Bounds and fuel. The loop of SseDecoder::feed runs on fuel, one more than the length of its
-- buffer, and each round cuts at least one character off the buffer: it is proved to stop for want
-- of a line break and never for want of fuel. The substitution of placeholders runs for sixteen
-- passes, which is the code's own bound. All other loops are recursive on the list they walk. An i64
-- is an integer that fits in 64 bits, and a u64 wraps around at 2 ^ 64.
--
-- Parameters. serde_json (the parser, and the derived readers of JsonRpcError and of
-- ToolCallParams, the pretty printer), the rate limiter and the debug print of the HTTP transport,
-- the backends, and the timer's sleep are arguments of the definitions that use them. So are, for
-- the secrets, the cipher, base64 and the file system (a path that
-- is not seen, because its metadata cannot be read, may still have contents); for the tokens, the web, the browser with the
-- person in front of it, the clocks, and serde's readers; for the HTTP backend, sending a request,
-- base64, the reader of URLs and the texts of numbers; for the stdio backend, the processes and what
-- happens while a call waits for its answer; for the configuration, the reader of TOML, the disk and
-- the environment. A task that waits for a lock sees what its holders did meanwhile: that is one
-- more function (others) on the state, and any function will do.
--
-- Clocks. An instant is a natural number of nanoseconds, a time of day one of seconds; they are
-- added without a bound, where the code would panic beyond the range of Instant and of u64.
--
-- Not modelled. A method runs to its end before the next one starts, save for the calls of a stdio
-- backend, whose steps come in any order (StdioBackend/Reachable), and the streams of the stdio
-- transport: other interleavings at await points are left out. So are the order in which a hash map is walked (a map is a list in
-- some order), the text of log lines, the spawned timer of the health checks and its handle, the
-- tokio channels under a subscription, sockets and the routing of other paths, the writer of stdout,
-- the capture of a process's stderr, the command line, and the reading of the master key of the
-- secrets.
pub mod Prelude
pub mod Dict
pub mod Json
pub mod Exec
pub mod Core
pub mod Wire
pub mod Registry
pub mod Server
pub mod Http
pub mod Secrets
pub mod OAuth2
pub mod HttpBackend
pub mod StdioBackend
pub mod Config
pub mod StdioTransport
