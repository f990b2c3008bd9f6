-- ===== src/Backend/Memory.antt =====
-- tasklite/backend/memory.py: the backend that keeps the tables in memory. A method returns the new
-- backend with its result; `none` is an exception, after which the tables are as they were. A deep
-- copy of a value is the value.
pub mod Batches
pub mod Valid
mod Calls
pub mod Runs
pub mod Commits
use tasklite.Common.{
  ℕ, zero, suc, ◌+◌, ◌-◌, String, Bool, true, false, not, ◌&&◌, ◌||◌, Option, none, some, List, [],
  ◌∷◌, ◌++◌, map, Dict, lookup, insert, erase, has, keys, contains, add, keep, exists, length,
  eq_nat, eq_string, ◌==◌, if◌then◌else◌,
}
use tasklite.Models.Job.{JobSnapshot, RowHash, job_uid_from_snapshot, ◌>>=◌, ◌>>◌, forbid}
use tasklite.Models.State.{Metadata, row_uids, rows_without}
use tasklite.Models.Attempt.{
  AttemptRecord, Outcome, succeeded, is_running, validate_attempt_dispatch, validate_attempt_finish,
}

abbrev pub Payload : Type 0
Payload = List (String × String)

pub record MemoryBackend : Type 0 where
  pub successes : Dict String Metadata
  pub failed : Dict String Metadata
  pub failure_payloads : Dict String Payload
  pub cursors : Dict String String
  pub queue : List JobSnapshot
  pub engine_metadata : Dict String String
  pub attempts : Dict ℕ AttemptRecord
  pub attempt_seq : ℕ

-- `InMemoryStateBackend.__init__`
abbrev pub empty_backend : MemoryBackend
empty_backend = record {
  successes = [];
  failed = [];
  failure_payloads = [];
  cursors = [];
  queue = [];
  engine_metadata = [];
  attempts = [];
  attempt_seq = 1;
}

-- What `commit_job_success` is told of the execution that ended.
pub record Finish : Type 0 where
  pub attempt_id : Option ℕ
  pub execution_id : Option String
  pub finished_at : Option String

-- `execution_id is not None and not execution_id`
abbrev empty_id : Option String → Bool
empty_id none = false
empty_id (some id) = id == ""

abbrev other_id : Option String → String → Bool
other_id none id = false
other_id (some expected) id = not (id == expected)

unfoldable pub set_cursors : List (String × Option String) → Dict String String → Dict String String
set_cursors [] cursors = cursors
set_cursors ((k, some v) ∷ more) cursors = set_cursors more (insert k v cursors)
set_cursors ((k, none) ∷ more) cursors = set_cursors more cursors

unfoldable pub drop_cursors :
    List (String × Option String) → Dict String String → Dict String String
drop_cursors [] cursors = cursors
drop_cursors ((k, some v) ∷ more) cursors = drop_cursors more cursors
drop_cursors ((k, none) ∷ more) cursors = drop_cursors more (erase k cursors)

-- `False` on any failure, with the tables as they were.
abbrev pub committed : MemoryBackend → Option MemoryBackend → Bool × MemoryBackend
committed b none = (false, b)
committed b (some b') = (true, b')

-- The attempt that a success may close.
unfoldable pub open_attempt : String → Finish → MemoryBackend → Option AttemptRecord
open_attempt job_uid finish b = do
  attempt_id ← finish.attempt_id
  forbid (empty_id finish.execution_id)
  finished ← validate_attempt_finish succeeded finish.finished_at none
  current ← lookup attempt_id b.attempts
  forbid (not (current.job_uid == job_uid))
  forbid (other_id finish.execution_id current.execution_id)
  forbid (not (is_running current.outcome))
  some current

-- `self._attempts[attempt_id] = updated_attempt`
unfoldable pub close_attempt : Finish → AttemptRecord → Dict ℕ AttemptRecord → Dict ℕ AttemptRecord
close_attempt finish current attempts = elim finish.attempt_id [
  | none ↦ attempts
  | some attempt_id ↦
      insert attempt_id
        (record current {
          outcome = succeeded;
          finished_at = finish.finished_at;
          error_message = none;
        })
        attempts
]

-- A payload replaces the stored one; `None` leaves it.
unfoldable pub keep_payload : String → Option Payload → Dict String Payload → Dict String Payload
keep_payload job_uid none payloads = payloads
keep_payload job_uid (some p) payloads = insert job_uid p payloads

module _ ⦃h : RowHash⦄ where
  -- A spawned uid that is queued already, or that stands twice in the batch.
  unfoldable pub spawn_conflict : List String → List String → List JobSnapshot → Bool
  spawn_conflict remaining seen [] = false
  spawn_conflict remaining seen (row ∷ rows) =
      let u = job_uid_from_snapshot row in
      contains u remaining || contains u seen || spawn_conflict remaining (add u seen) rows

  -- The writes that follow the checks.
  unfoldable pub write_success :
      String
      → Metadata
      → Finish
      → AttemptRecord
      → List JobSnapshot
      → List (String × Option String)
      → MemoryBackend
      → MemoryBackend
  write_success job_uid metadata finish current spawned cursor_updates b = record b {
    attempts = close_attempt finish current b.attempts;
    successes = insert job_uid metadata b.successes;
    queue = spawned ++ rows_without job_uid b.queue;
    failed = erase job_uid b.failed;
    failure_payloads = erase job_uid b.failure_payloads;
    cursors = drop_cursors cursor_updates (set_cursors cursor_updates b.cursors);
  }

  unfoldable pub commit_job_success :
      String
      → Metadata
      → Finish
      → List JobSnapshot
      → List (String × Option String)
      → MemoryBackend
      → Bool × MemoryBackend
  commit_job_success job_uid metadata finish spawned cursor_updates b = committed b (do
    current ← open_attempt job_uid finish b
    forbid (spawn_conflict (row_uids (rows_without job_uid b.queue)) [] spawned)
    some (write_success job_uid metadata finish current spawned cursor_updates b))

  unfoldable pub commit_job_failure :
      String → Metadata → Option Payload → MemoryBackend → Bool × MemoryBackend
  commit_job_failure job_uid metadata payload b = (
    true,
    record b {
      failed = insert job_uid metadata b.failed;
      failure_payloads = keep_payload job_uid payload b.failure_payloads;
      queue = rows_without job_uid b.queue;
      successes = erase job_uid b.successes;
    },
  )

  unfoldable pub commit_retry : String → JobSnapshot → Bool → MemoryBackend → Bool × MemoryBackend
  commit_retry popped_uid requeued front b =
      let ruid = job_uid_from_snapshot requeued in
      let remaining = rows_without popped_uid b.queue in
      if not (ruid == popped_uid) && contains ruid (row_uids remaining) then (false, b) else (
        true,
        record b { queue = if front then requeued ∷ remaining else remaining ++ requeued ∷ [] },
      )

  -- The rows that a list of uids does not name.
  unfoldable pub rows_outside : List String → List JobSnapshot → List JobSnapshot
  rows_outside uids rows = keep (λ row. not (contains (job_uid_from_snapshot row) uids)) rows

  -- `commit_job_failures`, whose loop writes one archive row after the other.
  unfoldable pub archive_all : List (String × Metadata) → MemoryBackend → MemoryBackend
  archive_all [] b = b
  archive_all ((uid, metadata) ∷ more) b =
      archive_all more
        (record b { failed = insert uid metadata b.failed; successes = erase uid b.successes })

  unfoldable pub commit_job_failures :
      List (String × Metadata) → MemoryBackend → Bool × MemoryBackend
  commit_job_failures entries b =
      let archived = archive_all entries b in
      (true, record archived { queue = rows_outside (keys entries) b.queue })

  unfoldable pub commit_skip : String → MemoryBackend → Bool × MemoryBackend
  commit_skip job_uid b = (true, record b { queue = rows_without job_uid b.queue })

  -- The rows of `enqueue_jobs` that are new.
  unfoldable pub fresh_rows : List String → List String → List JobSnapshot → List JobSnapshot
  fresh_rows existing batch_seen [] = []
  fresh_rows existing batch_seen (row ∷ rows) =
      let u = job_uid_from_snapshot row in
      let rest = fresh_rows existing batch_seen rows in
      let taken = row ∷ fresh_rows existing (add u batch_seen) rows in
      if contains u existing || contains u batch_seen then rest else taken

  unfoldable pub enqueue_jobs :
      List JobSnapshot → Bool → MemoryBackend → List String × MemoryBackend
  enqueue_jobs rows front b =
      let fresh = fresh_rows (row_uids b.queue) [] rows in
      (row_uids fresh, record b { queue = if front then fresh ++ b.queue else b.queue ++ fresh })

  -- `_dedup_copy`: the first row of each uid.
  unfoldable pub dedup_copy : List String → List JobSnapshot → List JobSnapshot
  dedup_copy seen [] = []
  dedup_copy seen (row ∷ rows) =
      let u = job_uid_from_snapshot row in
      let rest = dedup_copy seen rows in
      let taken = row ∷ dedup_copy (add u seen) rows in if contains u seen then rest else taken

  unfoldable pub save_queue : List JobSnapshot → MemoryBackend → MemoryBackend
  save_queue rows b = record b { queue = dedup_copy [] rows }

  -- `compute` may raise.
  unfoldable pub replace_queue_atomic :
      (List JobSnapshot → Option (List JobSnapshot)) → MemoryBackend → Option MemoryBackend
  replace_queue_atomic compute b = do
    rows ← compute b.queue
    some (record b { queue = dedup_copy [] rows })

  -- The number of rows that went, and what is left.
  unfoldable pub delete_queue_uids : List String → MemoryBackend → ℕ × MemoryBackend
  delete_queue_uids uids b =
      let kept = rows_outside uids b.queue in
      (length b.queue - length kept, record b { queue = kept })

unfoldable pub append_failed : String → Metadata → MemoryBackend → MemoryBackend
append_failed uid metadata b = record b { failed = insert uid metadata b.failed }

-- The uids come from `set(job_uids)`, each once.
unfoldable pub delete_failed : List String → MemoryBackend → ℕ × MemoryBackend
delete_failed [] b = (0, b)
delete_failed (uid ∷ uids) b =
    let (count, rest) = delete_failed uids b in
    if has uid rest.failed
    then (
      count + 1,
      record rest {
        failed = erase uid rest.failed;
        failure_payloads = erase uid rest.failure_payloads;
      },
    )
    else (count, rest)

unfoldable pub delete_successes : List String → MemoryBackend → ℕ × MemoryBackend
delete_successes [] b = (0, b)
delete_successes (uid ∷ uids) b =
    let (count, rest) = delete_successes uids b in
    if has uid rest.successes
    then (count + 1, record rest { successes = erase uid rest.successes })
    else (count, rest)

unfoldable pub seed_all : List String → MemoryBackend → MemoryBackend
seed_all [] b = b
seed_all (uid ∷ uids) b = seed_all uids (record b { successes = insert uid [] b.successes })

unfoldable pub seed_successes : List String → MemoryBackend → Option (ℕ × MemoryBackend)
seed_successes uids b =
    if exists (λ u. has u b.failed) uids then none else some (length uids, seed_all uids b)

unfoldable pub seed_cursor : String → String → MemoryBackend → Option MemoryBackend
seed_cursor key value b =
    if key == "" then none else some (record b { cursors = insert key value b.cursors })

unfoldable pub append_attempt : AttemptRecord → MemoryBackend → Option (ℕ × MemoryBackend)
append_attempt r b = do
  validate_attempt_dispatch r
  some (
    b.attempt_seq,
    record b { attempts = insert b.attempt_seq r b.attempts; attempt_seq = b.attempt_seq + 1 },
  )

-- `False` for an unknown id; a second finish raises.
unfoldable pub update_attempt :
    ℕ → Outcome → Option String → Option String → MemoryBackend → Option (Bool × MemoryBackend)
update_attempt attempt_id outcome finished_at error_message b = do
  finished ← validate_attempt_finish outcome finished_at error_message
  elim (lookup attempt_id b.attempts) [
    | none ↦ some (false, b)
    | some current ↦
        if is_running current.outcome
        then some (
          true,
          record b {
            attempts =
                insert attempt_id
                  (record current {
                    outcome = outcome;
                    finished_at = some finished;
                    error_message = error_message;
                  })
                  b.attempts;
          },
        )
        else none
  ]

unfoldable pub load_attempts : String → MemoryBackend → List AttemptRecord
load_attempts job_uid b = keep (λ r. r.job_uid == job_uid) (map (λ entry. entry.1) b.attempts)
