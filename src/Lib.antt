-- ===== src/Lib.antt =====
-- plakar-edge: a daemon that enrolls with a control plane, polls it for work, and runs each work with the
-- plaklet executor, between two hook scripts that the task may name. This library models its Go code; the
-- paths below are from the repository's root.
--
-- The parts, and the code that they are about:
--
-- - Protocol: protocol.go and the record of sysinfo.go, the messages on the wire. A UUID is a list of
--   bytes, a Go map from strings a list of pairs, raw JSON its bytes.
-- - Client: client.go, `Client`. `do_status` is `doStatus` from the exchange on, `request` what it sends,
--   and the calls are `enroll`, `enroll_into_pool`, `poll` and `reply`; Client/Fetch is `FetchPackage`.
--   What the network makes of a request, the JSON decoder and the file system's answers are arguments.
-- - PollLoop: `pollLoop` of main.go. A `Loop` is the state that the loop and the goroutines of its works
--   share; each function is one section under the mutex, or one atomic operation on the slots, except that
--   `dispatch` takes three together: the end of the poll, the take of a slot and the registration of the
--   cancel function, and leaves out what the works may do between these. `Step` of PollLoop/Reach says in
--   which orders the functions may come, which is any. Numbers are Go's `int`, unbounded.
-- - LogStream: logstream.go, `logStreamer`. `write`, `next` and `mark_lost` are its critical sections,
--   `flush` the loop around them when nothing writes between its rounds, which is so for the last flush;
--   LogStream/Schedule takes the rounds of any flush apart, with writes between them. LogStream/Utf8 has
--   the two functions of unicode/utf8 that it calls, by their documentation.
-- - Hooks: hooks.go, which script a hook names, and the tail of its output. Paths is `filepath.Join` on
--   Unix paths.
-- - Tags: tags.go. `edge_tags` filters in the array that it reads, as the code does.
-- - Config: `Config` of main.go, and the paths that it derives.
-- - Startup: main.go from the parsed flags to the identity. `enroll_loop` is `enroll`, one `Round` for each
--   turn of its loop; `boot` (Startup/Boot) is that part of `main`. The files are those of the state
--   directory, and the JSON of the state file is a pair of arguments.
-- - Agent: sshagent.go, `startSSHAgent` on Unix: `launch`, and then the steps of the supervisor and of the
--   wait for the socket, in any order, and the end of the process at any time.
-- - Server: server.go, `startServer` by the path that is asked for, and the steps of main.go that make it
--   report ready.
-- - Run: `runWork` of run.go with all that it calls. A `Job` is the state of one work; the goroutines
--   beside the work's own, the log streamer's and the keepalive's, get their turns before each action of
--   the work, as often as the environment likes; a turn of the streamer's is one half of a round of its
--   periodic flush: the chunk is taken, or its reply is answered. A `Host` is that environment; each of
--   its answers may depend on the whole history, and the history records every reply, fetch, hook and
--   process.
--
-- How they meet: PollLoop starts a `runWork` for each new work and counts it as running until it
-- returns; Run calls the Client to reply and to fetch, the LogStream to buffer output, and Hooks to find
-- its scripts; these three call neither Run nor PollLoop.
-- Startup runs first, and its identity is the Client's token from then on.
--
-- Fuel: `flush` runs on fuel, and LogStream/Flush shows that one more than the bytes left and the notice
-- due is enough; Run gives it just that, where the log has no writer: in the last flush, and in what is
-- left of a periodic flush that `Close` waits for. `boundary_loop` and `dedup_loop` count the rounds that
-- the code's own loops make, four and the length of the tags. Everything else is structural recursion.
--
-- Left out: the process log, whose text no code reads; the copy of a job's output to the edge's stderr;
-- JSON, HTTP and the metrics collectors, which are other packages; and the timers, which are ways in which
-- an exchange or a process ends with an error.
pub mod Base
pub mod LogStream
pub mod Protocol
pub mod Client
pub mod PollLoop
pub mod Paths
pub mod Hooks
pub mod Tags
pub mod Config
pub mod Run
pub mod Startup
pub mod Agent
pub mod Server
pub mod Tests
