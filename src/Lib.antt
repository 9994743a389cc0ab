-- ===== src/Lib.antt =====
-- A model of esxi-mover, a program that moves or copies a virtual machine between datastores of one
-- ESXi host, and the theorems about it.
--
-- The program analyses a machine (internal/migration/analyzer.go), shows a report, and on request
-- runs a job: it repeats the analysis, takes a lock on the host, shuts the machine down, clones its
-- disks with a detached worker, writes and verifies the configuration, and for a MOVE switches the
-- registration from the source to the target. All of it goes through the interface Host of
-- internal/migration/types.go.
--
-- Types       internal/migration/types.go: requests, reports, options, errors.
-- Job         internal/migration/state.go: the job, its phases, and what an operator may ask of it.
-- Host        The interface Host as a type of calls, each with the type of its answer, and the monad
--             of the engine: a step from a job, a machine and the calls so far to a result. A host is
--             any function that answers calls, also with errors; what a theorem assumes of it
--             besides, of its clock, its errors or its inventory, stands among its hypotheses. After
--             each call the operator may make any requests of the job, which is how the goroutine of
--             the web server interleaves. Host/Hoare, Outcome, Under, Carry, From, Triple, Whole and
--             Sound are the program logic; Host/Frame, Host/Tasks and
--             Host/Trace say which properties of a trace the calls keep.
-- Engine      internal/migration/engine.go: Steps (matchPlan, guard, requireOff, registrations),
--             Shutdown (shutdown), Clone (waitClone), Commit (commit), Start (powerOn), Rollback
--             (Rollback), Run (run, stopped, Run). Engine/Frame carries a property over all of them;
--             Engine/Fresh, Guard, Power, Copy, Quiet, Refusals, Registry, Switch, Clone/Exits,
--             Clone/Errors, Clone/Deadline, Start/Deadline and Rollback/Power hold the theorems.
-- Verify      internal/migration/verify.go: verifyDisk and copyConfig.
-- Snapshot    internal/migration/snapshot.go: the signs of a snapshot.
-- Live        internal/migration/live.go: Space (the space that deltas grow into), Deltas (liveDeltas,
--             liveGuard), Checks (what is read back of a live copy), Metadata (liveMetadata), Merge
--             (mergeCopy, restoreSource) and Run (live, runLive). Live/Frame carries a property over
--             all of them; Live/Power, Quiet and Outcome hold the theorems.
-- Analyzer    Parts of internal/migration/analyzer.go and external.go: Files (localFile, freeFolder,
--             externalFile, vmxUses) and Shared (sharedCheck, otherChain), with the theorem in
--             Isolation/Walk.
-- Vmdk        internal/vmdk/descriptor.go: Parse and Standalone.
-- Vmx         internal/vmx/parser.go and Rewrite of analyzer.go; Vmx/Escape the escapes of values;
--             Vmx/Analysis Analyze.
-- Esxi        internal/esxi: Paths and Numbers (inventory.go), SnapshotTree and OwnSnapshot
--             (snapshot.go), Audit, Quoting, Shell and Files (executor.go), Machine (vm.go),
--             Operation and Worker (detached.go). Shell has its own monad, over an arbitrary
--             executor of commands.
-- Prelude     Texts as lists of bytes, paths and maps of the Go library, as the sources use them.
-- Tests       A small host, and the theorems applied to runs on it.
--
-- Numbers are natural: sizes are never negative in the program, and where it guards an int64 against
-- overflow the bound is written out. Times are milliseconds of the clock of the host. The loops that
-- poll the host run on fuel; a run whose fuel is used up is cut off, which is a result of its own, and
-- the theorems about calls hold of it too. For the loops of waitClone and powerOn enough fuel is one
-- round more than there are pauses up to the deadline; the shutdown waits for the operator without a
-- bound, so no fuel is enough for it. A Go map is an association list, and the maps that the
-- sources range over are compared or sorted, so their order does not show, but in the error message
-- of a map with several faulty entries, where Go takes any and the model the first.
--
-- Not modelled: the analyzer's inspection as a whole, which is one call answered by an arbitrary
-- report, and its advice; the transport of commands over SSH, which is the parameter Executor; what a
-- script does on the host: the calls of Host are answered by any machine, and the commands of Esxi by
-- any executor; the readers of the host's lists that only inform; the Unicode case and space of Go's
-- strings, of which the ASCII part stands; the web server (internal/web); cancelled contexts, which
-- show as errors of the call `pause` or `await`, or of a command.
pub mod Prelude
pub mod Types
pub mod Job
pub mod Host
pub mod Vmdk
pub mod Vmx
pub mod Esxi
pub mod Snapshot
pub mod Verify
pub mod Engine
pub mod Analyzer
pub mod Live
mod Tests
