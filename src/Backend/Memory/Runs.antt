-- ===== src/Backend/Memory/Runs.antt =====
-- Sequences of calls to the methods of tasklite/backend/memory.py.
use tasklite.Common.{
  ℕ, String, Bool, Option, none, some, List, [], ◌∷◌, has, exists, lookup, eq_nat, eq_string,
  Bool-cases, Option-cases, inl, inr, ◌==◌,
}
use tasklite.Models.Job.{JobSnapshot, RowHash}
use tasklite.Models.State.{Metadata}
use tasklite.Models.Attempt.{
  AttemptRecord, Outcome, is_running, validate_attempt_dispatch, validate_attempt_finish,
}
use tasklite.Backend.Memory.{
  MemoryBackend, Payload, Finish, commit_job_success, commit_job_failure, commit_retry,
  commit_job_failures, commit_skip, enqueue_jobs, save_queue, replace_queue_atomic,
  delete_queue_uids, delete_failed, delete_successes, seed_successes, seed_cursor, append_attempt,
  update_attempt,
}
use tasklite.Backend.Memory.Valid.{
  IsValid, commit_job_success-IsValid, commit_job_failure-IsValid, commit_retry-IsValid,
}
use tasklite.Backend.Memory.Calls

-- Every method that writes, but `append_failed`, which is for use from outside of a run.
pub data Call : Type 0 where
  success : String → Metadata → Finish → List JobSnapshot → List (String × Option String) → Call
  failure : String → Metadata → Option Payload → Call
  failures : List (String × Metadata) → Call
  retry : String → JobSnapshot → Bool → Call
  skip : String → Call
  enqueue : List JobSnapshot → Bool → Call
  save : List JobSnapshot → Call
  replace : (List JobSnapshot → Option (List JobSnapshot)) → Call
  unqueue : List String → Call
  clear_failures : List String → Call
  clear_successes : List String → Call
  seed : List String → Call
  cursor : String → String → Call
  dispatch : AttemptRecord → Call
  finish : ℕ → Outcome → Option String → Option String → Call

-- After an exception the tables are as they were.
abbrev after : MemoryBackend → Option MemoryBackend → MemoryBackend
after b none = b
after b (some b') = b'

abbrev after_with : {A : Type 0} → MemoryBackend → Option (A × MemoryBackend) → MemoryBackend
after_with b none = b
after_with b (some (a, b')) = b'

module _ ⦃h : RowHash⦄ where
  unfoldable pub perform : Call → MemoryBackend → MemoryBackend
  perform (success u m f rows cursors) b = (commit_job_success u m f rows cursors b).1
  perform (failure u m payload) b = (commit_job_failure u m payload b).1
  perform (failures entries) b = (commit_job_failures entries b).1
  perform (retry popped row front) b = (commit_retry popped row front b).1
  perform (skip u) b = (commit_skip u b).1
  perform (enqueue rows front) b = (enqueue_jobs rows front b).1
  perform (save rows) b = save_queue rows b
  perform (replace compute) b = after b (replace_queue_atomic compute b)
  perform (unqueue uids) b = (delete_queue_uids uids b).1
  perform (clear_failures uids) b = (delete_failed uids b).1
  perform (clear_successes uids) b = (delete_successes uids b).1
  perform (seed uids) b = after_with b (seed_successes uids b)
  perform (cursor k v) b = after b (seed_cursor k v b)
  perform (dispatch r) b = after_with b (append_attempt r b)
  perform (finish k outcome at error) b = after_with b (update_attempt k outcome at error b)

  unfoldable pub run : List Call → MemoryBackend → MemoryBackend
  unfolding perform
  run [] b = b
  run (call ∷ calls) b = run calls (perform call b)

  seed-IsValid :
      (uids : List String) (b : MemoryBackend)
      → IsValid b
      → IsValid (after_with b (seed_successes uids b))
  unfolding seed_successes
  seed-IsValid uids b v = elim (Bool-cases (exists (λ u. has u b.failed) uids)) [
    | inl conflict ↦ rw conflict v
    | inr free ↦ rw free (Calls.seed_all-IsValid uids b free v)
  ]

  cursor-IsValid :
      (k w : String) (b : MemoryBackend) → IsValid b → IsValid (after b (seed_cursor k w b))
  unfolding seed_cursor
  cursor-IsValid k w b v = elim (Bool-cases (k == "")) [
    | inl bad ↦ rw bad v
    | inr ok ↦ rw ok (record {
      distinct = v.distinct;
      one_outcome = v.one_outcome;
      snapshots = v.snapshots;
      ids = v.ids;
    })
  ]

  dispatch-IsValid :
      (r : AttemptRecord) (b : MemoryBackend)
      → IsValid b
      → IsValid (after_with b (append_attempt r b))
  unfolding append_attempt
  dispatch-IsValid r b v = elim (Option-cases (validate_attempt_dispatch r)) [
    | inl bad ↦ rw bad v
    | inr (_, ok) ↦ rw ok (Calls.append_attempt-IsValid b v r)
  ]

  finish-IsValid :
      (k : ℕ) (outcome : Outcome) (at error : Option String) (b : MemoryBackend)
      → IsValid b
      → IsValid (after_with b (update_attempt k outcome at error b))
  unfolding update_attempt
  finish-IsValid k outcome at error b v =
      elim (Option-cases (validate_attempt_finish outcome at error)) [
        | inl bad ↦ rw bad v
        | inr (finished, ok) ↦ rw ok (elim (Option-cases (lookup k b.attempts)) [
          | inl missing ↦ rw missing v
          | inr (current, found) ↦ rw found (elim (Bool-cases (is_running current.outcome)) [
            | inl running ↦ rw running (Calls.update_attempt-IsValid b v k _ current found)
            | inr over ↦ rw over v
          ])
        ])
      ]

  replace-IsValid :
      (compute : List JobSnapshot → Option (List JobSnapshot)) (b : MemoryBackend)
      → IsValid b
      → IsValid (after b (replace_queue_atomic compute b))
  unfolding replace_queue_atomic
  replace-IsValid compute b v = elim (Option-cases (compute b.queue)) [
    | inl bad ↦ rw bad v
    | inr (rows, ok) ↦ rw ok (unfold save_queue in Calls.save_queue-IsValid b v rows)
  ]

  perform-IsValid : (call : Call) (b : MemoryBackend) → IsValid b → IsValid (perform call b)
  unfolding perform
  perform-IsValid (success u m f rows cursors) b v =
      commit_job_success-IsValid b v u m f rows cursors
  perform-IsValid (failure u m payload) b v = commit_job_failure-IsValid b v u m payload
  perform-IsValid (failures entries) b v = Calls.commit_job_failures-IsValid entries b v
  perform-IsValid (retry popped row front) b v = commit_retry-IsValid b v popped row front
  perform-IsValid (skip u) b v = Calls.commit_skip-IsValid b v u
  perform-IsValid (enqueue rows front) b v = Calls.enqueue_jobs-IsValid b v rows front
  perform-IsValid (save rows) b v = Calls.save_queue-IsValid b v rows
  perform-IsValid (replace compute) b v = replace-IsValid compute b v
  perform-IsValid (unqueue uids) b v = Calls.delete_queue_uids-IsValid b v uids
  perform-IsValid (clear_failures uids) b v = Calls.delete_failed-IsValid uids b v
  perform-IsValid (clear_successes uids) b v = Calls.delete_successes-IsValid uids b v
  perform-IsValid (seed uids) b v = seed-IsValid uids b v
  perform-IsValid (cursor k w) b v = cursor-IsValid k w b v
  perform-IsValid (dispatch r) b v = dispatch-IsValid r b v
  perform-IsValid (finish k outcome at error) b v = finish-IsValid k outcome at error b v

  -- Whatever writing calls but `append_failed` are made, in whatever order, and whether they succeed,
  -- are refused or raise: from valid tables they lead to valid tables.
  pub run-IsValid : (calls : List Call) (b : MemoryBackend) → IsValid b → IsValid (run calls b)
  unfolding run
  run-IsValid [] b v = v
  run-IsValid (call ∷ calls) b v = run-IsValid calls (perform call b) (perform-IsValid call b v)
