-- ===== src/Lib.antt =====
-- Verification of zattera: the replicated state, the raft state machine over it, the control loops of
-- the leader that place replicas, drive rollouts, run jobs and fire crons, and parts of the daemon on a
-- node: the mesh's paths and relay, the time series, the alerts and the proxy's balancer.
--
-- The program. Every node holds a copy of the state (internal/state), which changes only by the commands
-- of the raft log (internal/daemon/raftstore, FSM.apply). The leader's loops (internal/daemon/scheduler)
-- read the state and propose commands: the placement engine chooses nodes for new replicas, the
-- orchestrator moves each deployment along its phases, the scheduler runs one-shot jobs. Agents on the
-- nodes converge to what is assigned to them and report back by commands too. Between nodes, packets go
-- by a home route, by a UDP path that probes verified, or by a relay on a control node (mesh/meshsock and
-- mesh/relay under internal/daemon). Each node keeps time series of its metrics (tsdb), which the alert
-- engine (notify) reads, and balances requests over the endpoints of a route (proxy).
--
-- The files, each named for the code it is about:
--   Base, Base/*          tests on numbers, lists and tables keyed by ids, with their lemmas.
--   Platform              internal/pkgutil/platform/platform.go (Normalize, Supports); laws beside it.
--   State/Types           the messages of api/proto/zattera/v1, with the fields that the loops read.
--   State/Store           internal/state: one function per accessor, named as it (PutAssignment is
--                         put_assignment). State/Index: the secondary index of assignments by node.
--   Raft/Fsm              internal/daemon/raftstore/apply.go: commands and their handlers.
--   Raft/World            Store.Apply as a proposer sees it, and the `apply` wrappers of the loops.
--   State/Kv              PutKV and DeleteKV of internal/state/accessors_infra.go.
--   Raft/Applied          internal/daemon/raftstore/fsm.go (FSM.Apply) and Store.MarkApplied.
--   Raft/Replay, /Rules, /Frames   logs of commands; rules for proofs about the loops.
--   Scheduler/Helpers, /Placement  helpers.go and placement.go.
--   Scheduler/Rollout, /Stateful, /Orchestrator   deployment.go and stateful.go: reconcile is
--                         Orchestrator.reconcile, advance its switch on the phase.
--   Scheduler/Guards, /Passes   the conditions of the phases, and the lemmas that lift what single
--                         proposals keep to a whole pass.
--   Scheduler/Jobs        jobs.go.
--   Scheduler/Volumes     volumes.go.
--   Scheduler/Serverless  serverless.go.
--   Scheduler/Reconciler  scheduler.go (evaluateEnv, applyBatch), drain.go and teardown.go.
--   Scheduler/Cron        cron.go. Scheduler/Retention: retention.go (sweep, sweepEnv) with ListReleases.
--   Scheduler/Vips        vips.go (nextFreeVIP).
--   Wire                  words and reads of byte strings, for the codecs below.
--   Mesh/Probe            internal/daemon/mesh/meshsock/frame.go. Mesh/Paths: path.go, with the fields of
--                         endpoint.go: evaluate_peer is evaluatePeer, handle_probe is handleProbe.
--   Mesh/Relay            internal/daemon/mesh/relay/frame.go. Mesh/Relay/Server: server.go.
--   Tsdb, Tsdb/File       internal/daemon/tsdb/ring.go: the rings, and the file (encode, decode).
--   Notify                internal/daemon/notify/engine.go (evalMetric) and notify.go (compare).
--   Proxy                 internal/daemon/proxy/lb.go.
--   Modules below these hold proofs and are named for what they prove (Mesh/Relay/Server/Exclusive,
--                         Tsdb/Retention, Scheduler/Cron/Slots), with the lemmas they share beside them.
--   Tests                 a small cluster on which each theorem is applied.
--
-- How the code is modelled. A loop's step is an action on a world: the store, the answers that raft will
-- give to the proposals, whether this node leads, the clock and the source of new ids. The answers, the
-- clock and the ids are parameters that a theorem leaves arbitrary. A proposal is committed and applied,
-- refused because this node does not lead, reported as leadership lost although it is applied, or failed
-- otherwise; the wrappers return the loss of leadership and drop every other error, as the code does. A
-- pass reads one time. Commands of the loops carry fresh request ids, so the deduplication of FSM.Apply
-- never fires for them and is left out there; Raft/Applied has it, over the same handlers.
--
-- Ids and other opaque texts are numbers in the order of the texts, with 0 for "". Times are numbers of
-- nanoseconds, an unset one is none. Texts that the code shows to a user are constructors of Message.
-- Unsigned fields keep their wrap-around written out. A Go map is a list of entries in the order of the
-- keys: the accessors sort by id, so no order of a map shows. Objects are copied on every read and write
-- of the store, as the code clones them. Locks and the watch hub are left out: every accessor is one
-- atomic step. Loops are recursion on the list they run over, or on the count of iterations. Two have
-- fuel: the reader of a relay connection takes one unit per byte received, and each frame has a header;
-- enqueue takes two rounds, since a round that drops a frame leaves room for the next.
--
-- The relay server is a table of connections, and each goroutine's round is one step; the steps come in
-- any order. The path manager is the session of one peer, with the ticks of its loop and the probe
-- frames received as steps at arbitrary times; a step reads the clock once. The alert engine is
-- one rule on one scope. The reads of a file or a connection are reads of the bytes that are there.
--
-- Parameters, for code outside the repository: the HMAC (a key and a message), how an address is printed,
-- the mean that the downsampled ring keeps (floats are 32-bit words), the metric source and the order of
-- its values, the cron parser with the next slot of a schedule, the hash of the jitter and the key of a
-- cron. The sizes of the rings of samples and of applied requests are parameters too, so that small ones
-- run; the code's are given beside them.
--
-- Not modelled: the tickers, watches and logging of the loops; sockets, TLS and files; the tables of the
-- state that nothing here reads (domains, tokens, alerts, members) and its snapshots; the punch bursts and
-- the send path of the mesh; event rules and the delivery of notifications; untagging of images; the
-- autoscaler, the pass that assigns VIPs, the agent, the rest of the proxy, the registry, the builder,
-- the API and the command line.
pub mod Base
pub mod Platform
pub mod State
pub mod Raft
pub mod Wire
pub mod Mesh
pub mod Tsdb
pub mod Notify
pub mod Proxy
pub mod Scheduler
pub mod Tests
