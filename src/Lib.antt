-- ===== src/Lib.antt =====
-- Verification of awp, the client that binds agent sessions to providers and wakes them.
--
-- The program's daemon receives deliveries from providers over a socket, and for each of them asks the
-- permission store whether the session may be woken, records the delivery in the event store, runs an
-- adapter, and records how the event ended. The command line and the MCP server change the same two
-- stores. Each store is a file that is loaded, changed and saved; inside the daemon this is done under a
-- lock, so that the calls on it are a sequence, which is how they are modelled here: a function from a
-- store to a result and a store, and a history as a list of calls in any order. No lock keeps two
-- processes apart: what two of them do at once, each between the load and the save of the other, is not
-- modelled, nor are two calls of the daemon's Start at once.
--
--   Common         shared helpers: Boolean tests, lists, results, texts (strings.TrimSpace and the
--                  byte order of strings), sorting, and keyed lists (find, replace or append)
--   Permissions    internal/permissions/store.go. The store is the record `Store`; `record_request`,
--                  `request_local`, `grant_permissions`, `authorize`, `revoke` and the lists are
--                  RecordRequest, RequestLocal, GrantPermissions, Authorize, Revoke, ListRequests and
--                  ListGrants
--   Wake           internal/wake/store.go and the value that internal/wake/projection.go writes.
--                  `record_delivery`, `complete_event`, `pause`, `mark_crashed`, `resume`, `gate`,
--                  `set_permissions`, `pending` are RecordDelivery, CompleteEvent, Pause, MarkCrashed,
--                  Resume, Gate, SetPermissions and Pending
--   Sessions       internal/sessions/registry.go: `bind`, `get`, `remove`, `list` are Bind, Get, Remove
--                  and List; filepath.Abs is a parameter
--   Files          Load and Save of internal/permissions/store.go, internal/wake/store.go and
--                  internal/sessions/registry.go: `save_permissions`, `load_permissions` and so on, all by
--                  `save`, `load` and `atomic_write`, in which each call on the operating system may
--                  fail, the deferred os.Remove of the temporary file included. The JSON codec is a
--                  parameter. `save_token` is SaveToken of internal/config/token.go, with the same
--                  calls. Bytes are a text with one character for each, whose code is the byte
--   Client         internal/client/reconnect.go: `run_with_reconnect` is runWithReconnect, its delays
--                  64-bit words that wrap around. internal/client/client.go and
--                  internal/protocol/message.go: `run` is Run behind the dial, `dispatch` its switch on
--                  the action, `validate` Message.Validate; a goroutine that processes a delivery is an
--                  entry of `processing` that an event of its own ends. The JSON decoders and the parser
--                  of times are parameters
--   Config         internal/config/config.go: `validate`, `validate_provider`, `set_provider` and
--                  `default` are Validate, ValidateProvider, SetProvider and Default; url.Parse is a
--                  parameter
--   Updater        internal/updater/updater.go: `compare_versions` and `parse_version` are CompareVersions
--                  and parseVersion, with strconv.Atoi and the splitting of strings written out; `check`,
--                  `install`, `find_checksum` and `extract_binary` are Check, Install, findChecksum and
--                  extractBinary, `load_policy`, `save_policy` and `due` LoadPolicy, SavePolicy and Due.
--                  internal/cli/update.go: `run_update_check`, `run_update_install`, `run_update_auto` and
--                  `run_automatic_update` are runUpdateCheck and so on. The answers of the server, JSON,
--                  SHA-256, gzip, tar and the reading of bytes as UTF-8 are parameters
--   Mcp            internal/mcpserver/server.go. A tool is a chain of steps on a `Machine`, which has the
--                  files of the stores, the tokens and the processes; `Io` says what the files and the
--                  network do in one call. `resolve_session`, `wake_context`, `pause_session`, `set_awp`,
--                  `configure_provider`, `request_permissions`, `grant` are resolveSession, wakeContext,
--                  pauseSession, setAWP, configureProvider, requestPermissions and grantPermissions;
--                  `handle_tool_call`, `handle_request` and `run` are handleToolCall, handleRequest and
--                  Run. The JSON decoders and strings.ToUpper are parameters
--   Daemonctl      internal/daemonctl/daemonctl.go: `running_pid`, `start`, `stop` and `status` are
--                  RunningPID, Start, Stop and Status on a `System`: the PID file and the processes
--   Cli            internal/cli/sessions.go, permissions.go, daemonctl.go and cli.go: the commands, on the
--                  machine of Mcp. `run_grant`, `run_remove_all`, `run_doctor`, `connect_handle` and so on are
--                  runPermissionsGrant, runSessionsRemove with --all, runDoctor and the closure handle of
--                  runConnect; flags are parsed, and what is printed is a value
--   Adapters       internal/adapters/adapter.go: `resolve` is Resolve, which the daemon calls for each
--                  binding when it starts
--   Daemon         internal/cli/daemon.go: `handle` is the closure of that name, in the steps that it
--                  takes under its locks (`record_or_gate`, `authorize_and_wake`, `wake`, `refuse`),
--                  `mutate_event_store` is mutateEventStore, `receive_request` the part of `receive`
--                  that stores a permission request. The state has the event file, the permissions in
--                  memory and the permission file. What the files and the adapter do, and the calls
--                  that others make on the event store in between, are arguments
--
-- Conventions. A clock's reading is an argument, one for each call of time.Now. Go errors are
-- constructors of an `Error` type, with the values that their text shows. A pointer into a slice is
-- modelled by writing the element back. All loops are structural recursion; only
-- `decimal` has fuel, one more than the number that it writes, which has no more digits than that. The
-- hash of a permission (SHA-256 of its JSON text) is a parameter of the operations that use it, on
-- which no hypothesis is made. Maps are association lists.
--
-- Not modelled: the places of the files, JSON, the locks and goroutines as such (the order in which
-- calls take effect is an argument), the text that commands print, the parsing of flags, and the
-- adapters.
pub mod Common
pub mod Adapters
pub mod Cli
pub mod Client
pub mod Config
pub mod Daemon
pub mod Daemonctl
pub mod Files
pub mod Mcp
pub mod Permissions
pub mod Sessions
pub mod Updater
pub mod Wake
