-- ===== src/Lib.antt =====
-- Verification of the Cozmio relay engine and of the parts of the desktop application that keep state:
-- its agent memories with their consolidation, its event ledger, the sessions it dispatches and the
-- windows it observes. Paths are from the repository's root.
--
-- The relay engine (cozmio/relay-engine) runs tasks on the user's machine for the desktop application
-- and routes inference requests to box workers. A client sends one request over a connection
-- (cozmio/relay-client); the engine creates a session, starts the Claude Code command line for it, and
-- answers queries on the session; a subscriber hears of its progress over a connection of its own. A box
-- worker (cozmio/cozmio-box-worker) registers over a third port and is then given inference requests.
-- The desktop application (cozmio/src-tauri) observes windows, dispatches tasks to the engine through
-- the relay bridge and keeps a list of the sessions that it has dispatched. It records events in the
-- ledger and facts in the memory store (cozmio/cozmio_memory); consolidation turns the facts into
-- memories, each operation checked against the packet of sources that it cites.
--
-- Which file models what:
--   Prelude.antt, Prelude/   Boolean tests, lists over the native numbers, keys, dictionaries, signed
--                            integers, texts and numerals, sorting, outcomes.
--   Session.antt, Session/   cozmio/relay-engine/src/session.rs: `SessionManager` and its methods;
--                            sequences of calls (Runs); `add_progress` and `subscribe` as they
--                            interleave, as a step relation (Race).
--   Frames.antt, Frames/     the length-prefixed frames of main.rs, worker_session.rs,
--                            cozmio/relay-client/src/client.rs and cozmio/cozmio-box-worker/src/protocol.rs
--                            and worker.rs, as functions on lists of bytes.
--   Workers.antt, Workers/   cozmio/relay-engine/src/worker_registry.rs: `WorkerRegistry`.
--   Router.antt, Router/     cozmio/relay-engine/src/inference_router.rs: `InferenceRouter`, and all
--                            the requests under way as a step relation (Traffic).
--   Links.antt, Links/       cozmio/relay-engine/src/worker_session.rs: `WorkerSessionManager`.
--   Incoming.antt, Incoming/ cozmio/relay-engine/src/main.rs: `handle_worker_connection` and
--                            `handle_worker_messages_for_worker`.
--   Connector.antt, Connector/  cozmio/relay-engine/src/agents/claude_code.rs: `ClaudeCodeConnector`.
--   Engine.antt, Engine/     cozmio/relay-engine/src/main.rs and agent.rs: `handle_connection`,
--                            `handle_subscribe` and the handlers of requests.
--   Executors.antt, Executors/  cozmio/src-tauri/src/executor_session_registry.rs.
--   Relays.antt, Relays/     cozmio/src-tauri/src/relay_bridge.rs: starting a session, following its
--                            progress and fetching its result.
--   Memories.antt, Memories/ cozmio/cozmio_memory/src/agent_memory.rs and its tables in schema.rs: the
--                            methods on memories and operations (Writes), on sources and runs
--                            (Sources), and recall (Recall).
--   Experience.antt, Experience/  cozmio/src-tauri/src/experience_recorder.rs.
--   Consolidation.antt, Consolidation/  cozmio/src-tauri/src/memory_consolidation.rs: the checks of an
--                            operation, its application (Applying, Operations) and runs (Runs).
--   Ledger.antt, Ledger/     cozmio/src-tauri/src/ledger.rs: the log and its table, the queries
--                            (Queries) and the content store (Contents).
--   Windows.antt, Windows/   cozmio/src-tauri/src/window_monitor.rs: the buffer and the context.
--
-- State and operations. A component's state is a record with the fields of the source's struct, and a
-- method is a function of the same name from the state to the state, which also returns the method's
-- result and, where it calls subscribers, what they are sent, in order. A method that waits is two
-- functions, up to the wait and from its end. A `HashMap` is an association list; its iteration order,
-- which the source leaves open, is the list's. The clock, fresh identifiers, the outcome of a system
-- call, the bytes that a connection holds and whether a thread is in a tokio runtime are arguments; a
-- panic is `none`. The protobuf library (prost) is a record of
-- its encoders and decoders; what a theorem relies on of them is a hypothesis of it. Lengths and
-- registration ids wrap as in the source. A table of SQLite is the list of its rows; a transaction that
-- fails leaves the state as it was, and other statements are committed one by one. JSON, digests, UTF-8,
-- the case of letters and dates are records of functions, given as arguments. The message loop of
-- a worker runs on fuel, of which one round for each byte and one more are enough; every other
-- function is a structural recursion.
--
-- Not modelled: the accept loops, the sockets, the log and poisoned locks; `normalize_task_for_cli` and
-- the command line's arguments; process_worker_commands in main.rs and send_inference_request in
-- worker_session.rs, with the lock of a worker's stream, and the threads that run beside the message
-- loop; the encoding of protobuf messages, which is a library's; the box worker
-- but for its frames; the client but for its frames; in memory_consolidation.rs the prompt, the model
-- call, the scheduling and the inspector; in relay_bridge.rs finding and spawning the local relay, and
-- the polling of the result, whose outcome is an argument; the rest of the desktop application
-- (evaluation, distillation, prompts, windows, updates), the rest of the memory crate, the model and
-- capture crates, the command-line tools, the web API and the site.
pub mod Prelude
pub mod Session
pub mod Frames
pub mod Memories
pub mod Experience
pub mod Consolidation
pub mod Incoming
pub mod Ledger
pub mod Relays
pub mod Windows
pub mod Workers
pub mod Router
pub mod Links
pub mod Connector
pub mod Engine
pub mod Executors
