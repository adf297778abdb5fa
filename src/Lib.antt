-- ===== src/Lib.antt =====
-- Sand-King runs harnesses for a project: a Host launches an adapter process for each run, keeps the
-- run's history, and answers controllers and cockpits over a framed protocol. This library models the
-- parts of it that decide:
--
-- Runs: src/harness-runs. Runs/Types, Events and State are the records of schemas.mjs with
-- `appendEvent`, `persist` and `updateRun`. Runs/Supervision and Commit are the updates that
-- `supervise` of run-supervision.mjs makes. Runs/Observation, Interruption and Reconcile are
-- reconciliation.mjs with the schemas of recoveries. Runs/Requests, Manager and Cancel are
-- operations/cancel.mjs, Runs/Intent and Recover are operations/recover.mjs, and Runs/Query is
-- operations/queries.mjs. The source makes each operation under one mutation lock: here it is one
-- step. Runs/History says what a well-formed run is; the other modules there hold proofs.
-- Launch: src/harness-runs/operations/launch.mjs, in Launch/Codes, Request, Preparation and Operation,
-- with proofs in Accepted, Repeated and Held. Its run is a run of Runs. Launch/Parameters are the
-- parameters of a launch, as src/harness-adapter-protocol.mjs declares them, src/harness-launch.mjs
-- validates them and the form of src/cockpit-launch-parameters.mjs reads them; Form holds proofs.
-- Launch/Lookup are the lookups of operations/queries.mjs.
-- Launch/Lease are the leases of provider preparations that launches of one project share, as turns
-- between the waits of the source (Holders, Turns; proofs in Counted).
-- Adapter: src/harness-runs/adapter-supervision.mjs (`consumeFrames`, in Adapter/Consume) and
-- src/harness-runs/cancellation-escalation.mjs (Adapter/Deadline). What Adapter lets through is what
-- Runs/Supervision persists.
-- Frames: the framing of src/protocol.mjs, by which controllers talk to the Host.
-- Delivery: .sandcastle/issue-delivery.mjs, the claims on an issue, the review loop and the completion
-- of parents (Delivery/Parents), and the scope of a run, .sandcastle/run-scope.mjs (Delivery/Scope;
-- proofs in Scoped, ScopeFuel and Descendants).
-- Sessions: src/controller-sessions.mjs while the terminal of a session runs. Sessions/Terminal is
-- `runtimeSession`, Sessions/Output are the callbacks of the terminal, Sessions/Attach is `attach`,
-- cut where it waits for its audit, with `activate` and `detach`, Sessions/Input is `write` and
-- `resize`, and Sessions/Steps puts them in any order. Numbering, Buffered, Attached, Soundness,
-- Delivered, Gapless, Served, Advance, Delivery, Entered, Relay and Exclusive hold proofs.
-- Host: src/private-state-lock.mjs (Host/Lock): Turns is `withPrivateStateLock`, cut at every access to
-- the file system, with the crashes of processes; Exclusive and Abandoned hold proofs. A turn is blind
-- where the source acts on what may have changed since it looked (`is_blind`), and hasty where it takes a
-- file that a running process still writes for more than a second old (`is_hasty`).
-- Projects: src/project-registration. Types are the retained records of schemas.mjs, Location is
-- `resolveProjectLocation` of path-resolution.mjs, Requests are keys, outcomes and failures, Resolution is
-- resolution.mjs, Preparing are the checks of a retained production project, and the operations of
-- registry.mjs are in Registry (`inspectProject` and `registerProject`), Harnesses (`registerBundledHarness`),
-- Pinning (`pinConformanceHarness`) and LaunchContext (`loadLaunchContext`, from which Launch gets its
-- context). Located, Advanced, Settled, Found, Repeated, Registered, Standing, Pinned, Launched and Bundled
-- hold proofs. What the file system says of a path is an argument, for each time it is asked.
-- Base: what the others share, with the identifiers of src/common/identifiers.mjs.
--
-- Numbers that the source keeps below 2 ^ 53 are natural numbers; bytes and fields of the wire have
-- their bounds written out. Times are numbers; ids, times and what processes report are arguments.
-- Digests, JSON, UTF-8 and the message schemas are parameters. The review loop runs on fuel: nine turns
-- for each attempt that is left and nine more are enough, as it ends with the third turn without progress. The visit of a
-- parent's issues runs on fuel for its depth: as much as there are issues is enough; the completion of
-- parents needs more than the depth of the issue. Not modelled
-- are audits, fault injection, processes, files, sockets and the other components of the Host.
pub mod Adapter
pub mod Base
pub mod Delivery
pub mod Frames
pub mod Host
pub mod Launch
pub mod Projects
pub mod Runs
pub mod Sessions
