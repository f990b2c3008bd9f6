-- ===== src/Lib.antt =====
-- tasklite: a task orchestration engine.
--
-- A pipeline keeps jobs in a queue, in memory (tasklite/models/state.py) and in a backend
-- (tasklite/backend). The scheduler scans the queue for a job whose dependencies are done and whose
-- resources are there; the dispatcher reserves these, takes the job out of the queue and registers
-- it as in flight; its end is committed to the backend and then to the state, and the jobs that
-- waited for a failed one fall with it. Between rounds the loop sleeps as `decide_wait` says.
--
-- Models.Job: Job.from_dict and the validators of tasklite/models/job.py and tasklite/models/task.py;
--   Utils.Encoding has the file name of a uid, tasklite/utils/encoding.py.
-- Models.Attempt: tasklite/models/attempt.py and the guards of tasklite/backend/base.py.
-- Models.Json: the values in metadata. Models.Artifact: tasklite/models/artifact.py.
-- Models.State: PipelineState of tasklite/models/state.py, a record with the same sets, one function
--   per method; a method that may raise returns an Option. Below it, Consistent is the invariant,
--   Terminal and Active its preservation, Runs the states that are reached, and Cascade the method
--   cascade_fail with its specification in Cascade.Falls.
-- Backend.Memory: InMemoryStateBackend of tasklite/backend/memory.py, the tables passed from call to
--   call. Valid, Batches and Calls have the invariant, Runs sequences of calls, and Commits the
--   effects of commit_job_success.
-- Backend.Contract: AbstractStateBackend of tasklite/backend/base.py, a record of operations and a
--   record of their laws, which the store takes; Contract.Cursors compares the two ways of merging
--   cursor updates; Contract.OfMemory is about the memory backend.
-- Engine.ErrorClass: the error texts, archives and process deaths of tasklite/engine/errorclass.py.
-- Engine.Store: StateStore of tasklite/engine/store.py over any backend. An exit answers by an `Exit`:
--   it returns, it raises one of the two signals, or another exception leaves it. Strikes has refused
--   commits, Succeeding, Exits and Failures the apply_ methods, Traces the rows of attempts, and
--   Coherent what holds between memory and disk.
-- Engine.Governor: tasklite/engine/governor.py: the grace and the gap as fields that the calls pass
--   on, and below it Arbitrate, over an interface to the store and the selection machine, which
--   OverStore fills with the store.
-- Engine.Admission: the trusted baseline of tasklite/engine/admission.py.
-- Engine.Wait: tasklite/engine/wait.py.
-- Engine.Resource: the resources and the manager of tasklite/engine/resource.py; Suspend is about
--   suspension and Saved about keeping it across a restart, and Lease has reserve and the leases,
--   with Accounts, Atomic, Admits and Within about them.
-- Selection: tasklite/selection.py.
-- Engine.Scheduler: JobFacts and what the scan of tasklite/engine/scheduler.py makes of one row;
--   Scan has scan_next_runnable, Scan.First which row it chooses, Ready which rows may run.
-- Engine.InFlight: tasklite/engine/in_flight.py, with Synced on the agreement of tracker and state.
-- Common holds Python's containers and tests; Samples holds examples.
--
-- Numbers. Times are whole milliseconds, and what a call reads from the clock is an argument. Amounts
-- of resources are natural numbers of one common unit, of which each float is a multiple, so that
-- sums are exact; the rounding of floats is not modelled. Python's integers have no bound.
-- Fuel. The loop of cascade_fail has fuel for two rounds more than the queue has rows: a round takes
-- one uid off the stack, and each uid of a row enters the stack once at most.
-- Agreement of memory and backend is IsCoherent of Engine.Store.Coherent: the same successes with
-- their metadata, the same cursors, the same failures with metadata that is the same or is in memory
-- a normalization of the one on disk, and on disk the uids that are queued or in flight in memory.
-- Parameters. RowHash is the digest of hashlib for a row that has no identity. The ordering policy of
-- a scan is the list of indices that it returns. A selection's custom rule is its test,
-- which answers; a test that raises, and passes its exception through the scan, is not modelled.
-- Builtins is Python's str() and int() on JSON values, int() without its OverflowError; Paths is os.path and
-- pathlib; Platform the signals. A hook of the store is whether it raises; a store's clock stands
-- still during an exit; a backend answers a commit and does not raise.
--
-- Not modelled: the SQLite backend, whose statements a database runs; processes, files and locks
-- (tasklite/engine/channel.py, tasklite/utils/ipc.py); the runtime around a round, recovery,
-- triggers, the completion and dispatch of jobs, the enqueueing of the store, exception classes and payload
-- schemas, the search for dependency cycles, which the governor's interface has as an operation,
-- and the selection machine of tasklite/engine; the clients in tasklite/wrappers; the cache
-- of parsed rows in the scheduler; logging.
pub mod Backend
pub mod Common
pub mod Engine
pub mod Models
pub mod Samples
pub mod Selection
pub mod Utils
