-- ===== src/Lib.antt =====
-- Verification of securecrt-mcp, a program that lets a client run commands in the terminals of
-- SecureCRT, Xshell and OpenSSH under a local policy.
--
-- The parts and how they interact. A request to execute a command (src/model.rs) goes to the engine of
-- src/execution.rs. Under a lock on its registry the engine replays a known operation or enters a new
-- job; it then asks the policy engine (src/policy.rs, which asks the guard of src/critical.rs), records
-- the attempt in the audit log, and sends the command to the bridge. A task of the job polls the bridge,
-- feeds the captured text to a parser of markers, appends the output to the job and finishes it. Errors
-- are classified by src/fault.rs; limits come from src/config.rs. Sessions of OpenSSH have their own
-- transport (src/connector.rs): a persistent shell that a lock serves one command at a time, or a
-- terminal whose output goes to a ring buffer.
--
-- Which file models which part:
--   Prelude (Tests, Lists, Results): names and lemmas that all parts share.
--   Text (Utf8, Equality, Trim, Words): str and String as lists of code points, with lengths and
--     boundaries in bytes of UTF-8.
--   Assoc (Laws, Distinct, Values): HashMap<String, V> as a list of entries.
--   Config (Bounds): src/config.rs, the settings and Config::validate.
--   Fault: src/fault.rs, code, action and details.
--   Critical (Segments, Levels, Paths, Guarded): src/critical.rs, segments, normalized, protected, check.
--   Policy (Grammar and its Words, Alphabet, Decisions, Exact): src/policy.rs, PolicyEngine::new, classify_command,
--     safe_command.
--   Execution.Job (Cut, Life, Retention): Job, Job::snapshot, Job::append and prefix_len of
--     src/execution.rs.
--   Execution.Params: the parameters of src/model.rs and their checks in submit_internal.
--   Execution.Registry (Sweep, Ledger, Invariant, Ownership, Acknowledge): the sections of
--     submit_internal, finish, acknowledge_idle and interrupt that hold the registry's lock.
--   Execution.System (Changes, Soundness, Preserved, Requests, Dispatch, Submission, Theorems, Memory,
--     Evidence): these sections as interleaved steps; an event is one locked section with the answers of
--     the clock, the audit log and the bridge.
--   Execution.Guarded: the system with the decisions of the policy engine.
--   Execution.Marker (Lines, Chunks, Reads, Cuts, Roundtrip, Quoting, Done): envelope and MarkerParser of
--     src/execution.rs.
--   Execution.Note (Limit): what Engine::run writes into a job, each in one locked section.
--   Execution.Capture (Ending, Run, Evidence, Progress, Reading, Flushing, Release, Final, Refinement):
--     the loop of Engine::run, turn by turn, and everything behind it.
--   Execution.Waiting (Answers): wait_result and drain_on_disconnect of src/execution/convenience.rs, and
--     stream_read of src/execution/persistent.rs.
--   Execution.Prepare (Faithful): run_command_inner of src/execution/convenience.rs up to its submission.
--   Execution.Terminal (Latency, Attached): attachments, their commands and streams, and latency of
--     src/execution/persistent.rs.
--   Execution.Batches (Task): exec_batch, batch_status and quiescent of src/execution/persistent.rs.
--   Bytes (Encode, Prefix, Roundtrip): what is used of str::from_utf8, and the units of UTF-16.
--   Execution.NativeLog (Utf16, Chunks, Bounds, Settled): Reader of src/execution/native_log.rs.
--   Execution.Output (Pages): Engine::output of src/execution.rs.
--   Bridge (Calls, Routing, Steady, Answered, Frame): src/bridge.rs, the file transport with its instances,
--     routes and responses, the calls as interleaved sections, and the frames of the socket.
--   Connector.Exec (Interlock, Readback): src/connector/exec.rs, run_exec and finish_framed_output.
--   Connector.Buffer (Pages): RingBuffer of src/connector.rs.
--   Connector.Manager (Ledger): ConnectorManager::exec, its ledger of operations and its receipts.
--   Connector.Batch: ConnectorManager::batch.
--   Connector.Guard: DispatchGuard of src/connector/security.rs.
--   Connector.Sessions: the sessions of ConnectorManager: open, write, interrupt, acknowledge, close.
--   Connector.Output: command_page and read of src/connector.rs.
--   Examples (Values, Commands, Sessions, Captures, Pages, Connections,
--     Receipts, Polling, Waits, Routes): concrete runs.
--
-- How the code is represented. Characters are their code points; times are microseconds of one clock,
-- given as arguments where the code reads it. Numbers are natural numbers; saturating_add and
-- saturating_mul keep their bound, and subtraction stops at 0 where the code's cannot go below. A map's
-- order of entries stands for the unspecified order of iteration. The regular expressions of the regex
-- crate are parameters: a type, its compilation and its matching. Identifiers drawn by Uuid::new_v4 are
-- arguments of the submissions, and the theorems on runs assume that they are new. A turn of the
-- capture loop has the reply of the bridge as its argument, and a read of a log file its answer.
--
-- Fuel and bounds. check of src/critical.rs counts its depth up to 4; the model counts the levels left, 5
-- at the start. next_boundary takes the length of the text as fuel, and a boundary is at most three bytes
-- away. The readers of pages take the number of bytes plus one as fuel. The flush of a log takes
-- the limit on its file plus one, and each piece uses up at least one byte of it.
-- decimal prints indices below 128 with fuel 3. Every other function is recursive on its input.
--
-- Not modelled: of src/bridge.rs the pool of connections, the counters, the path of a capture log and the
-- stop of a host; the adapters (bridge/), the server and its transports (src/server.rs, src/daemon.rs),
-- installation and support, and the vendored portable-pty.
pub mod Prelude
pub mod Text
pub mod Assoc
pub mod Bridge
pub mod Config
pub mod Fault
pub mod Execution
pub mod Bytes
pub mod Connector
pub mod Critical
pub mod Policy
pub mod Examples
