-- ===== src/Backend/Contract/OfMemory.antt =====
-- tasklite/backend/memory.py as an implementation of tasklite/backend/base.py.
use tasklite.Common.{
  ℕ, String, Bool, true, false, not, ◌&&◌, ◌||◌, ◌≡◌, refl, ◌∙◌, ap, inl, inr, some, Dict, keep,
  IsDistinct, ==_refl, Option, none, List, [], ◌∷◌, ◌++◌, lookup, insert, erase, keys, contains,
  eq_string, eq_nat, ◌==◌, if◌then◌else◌, ==_iff, arith, lookup-insert, lookup-erase, contains-keep,
  contains-append, Bool-cases, Option-cases,
}
use tasklite.Models.Job.{JobSnapshot, RowHash, job_uid_from_snapshot}
use tasklite.Models.State.{Metadata, row_uids, rows_without}
use tasklite.Models.State.Active.{row_uids-append}
use tasklite.Models.Attempt.{
  AttemptRecord, Outcome, is_running, validate_attempt_dispatch, validate_attempt_finish,
}
use tasklite.Backend.Memory.{
  MemoryBackend, Finish, Payload, open_attempt, spawn_conflict, write_success, commit_job_success,
  commit_job_failure, commit_retry, archive_all, commit_job_failures, commit_skip, enqueue_jobs,
  close_attempt, rows_outside, keep_payload, append_attempt, update_attempt,
}
use tasklite.Backend.Memory.Batches.{
  row_uids-rows_outside, spawn_conflict-members, spawn_conflict-IsDistinct,
}
use tasklite.Backend.Memory.Valid.{contains-rows_without, open_attempt-found}
use tasklite.Backend.Contract.Cursors.{drop_cursors-set_cursors}
use tasklite.Backend.Contract.{
  StateBackend, IsUnchanged, IsFinished, IsSucceeded, AreFailed, IsFailed, IsRequeued, Answers,
  Traces, Opens, IsContract, failure_after, payload_after,
}

module _ ⦃h : RowHash⦄ where
  abbrev pub memory_backend : StateBackend MemoryBackend
  memory_backend = record {
    load_successes = λ b. b.successes;
    load_failed = λ b. b.failed;
    load_queue = λ b. b.queue;
    load_cursors = λ b. b.cursors;
    load_failure_payloads = λ b. b.failure_payloads;
    attempt_of = λ k b. lookup k b.attempts;
    commit_success = commit_job_success;
    commit_failure = commit_job_failure;
    commit_requeue = commit_retry;
    commit_failures = commit_job_failures;
    commit_removal = commit_skip;
    enqueue = enqueue_jobs;
    open_trace = append_attempt;
    close_trace = update_attempt;
  }

  unchanged : (b : MemoryBackend) → IsUnchanged memory_backend b b
  unchanged b = (
    record { successes = refl; failed = refl; queue = refl; cursors = refl; payloads = refl },
    λ k. refl,
  )

  -- The attempt that a success closes.
  closed-IsFinished :
      (u : String) (m : Metadata) (f : Finish) (current : AttemptRecord) (rows : List JobSnapshot)
      (updates : List (String × Option String)) (b : MemoryBackend)
      → open_attempt u f b ≡ some current
      → IsFinished memory_backend u f b (write_success u m f current rows updates b)
  unfolding write_success close_attempt
  closed-IsFinished u m f current rows updates b e =
      let (k, given, found, mine, running) = open_attempt-found u f b e in
      record {
        attempt_id = k;
        row = current;
        given = given;
        found = found;
        mine = mine;
        running = running;
        closed = rw given (rw lookup-insert (rw (==_refl k) refl));
        others = λ j apart. rw given (rw lookup-insert (rw apart refl));
      }

  conflict_free :
      (u v : String) (rows : List JobSnapshot) (b : MemoryBackend)
      → spawn_conflict (row_uids (rows_without u b.queue)) [] rows ≡ false
      → (contains v (row_uids rows) && (not (u == v) && contains v (row_uids b.queue))) ≡ false
  conflict_free u v rows b ok = ground (
    arith,
    spawn_conflict-members (row_uids (rows_without u b.queue)) [] rows v ok,
    contains-rows_without u v b.queue,
  )

  success-Answers :
      (u : String) (m : Metadata) (f : Finish) (rows : List JobSnapshot)
      (cursors : List (String × Option String))
      → IsDistinct (keys cursors)
      → (b : MemoryBackend)
      → Answers memory_backend
          (IsSucceeded memory_backend u m f rows cursors b)
          b
          (commit_job_success u m f rows cursors b)
  unfolding commit_job_success
  success-Answers u m f rows cursors d b = elim (Option-cases (open_attempt u f b)) [
    | inl e ↦ rw e (unchanged b)
    | inr (current, e) ↦
        elim (Bool-cases (spawn_conflict (row_uids (rows_without u b.queue)) [] rows)) [
          | inl bad ↦ rw e (rw bad (unchanged b))
          | inr ok ↦ rw e (
              rw ok (
                let finished = closed-IsFinished u m f current rows cursors b e in
                unfold write_success in
                record {
                  attempt = finished;
                  successes = λ v. lookup-insert v u m b.successes;
                  failed = λ v. lookup-erase v u b.failed;
                  payloads = λ v. lookup-erase v u b.failure_payloads;
                  cursors = λ v. drop_cursors-set_cursors v cursors b.cursors d;
                  order = refl;
                  queue = λ v.
                      rw row_uids-append
                        (rw contains-append (rw (contains-rows_without u v b.queue) refl));
                  distinct =
                      spawn_conflict-IsDistinct (row_uids (rows_without u b.queue)) [] rows ok;
                  fresh = λ v. conflict_free u v rows b ok;
                }))
        ]
  ]

  rows_outside_one :
      (u : String) (rows : List JobSnapshot) → rows_without u rows ≡ rows_outside (u ∷ []) rows
  unfolding rows_without rows_outside keep contains
  rows_outside_one u [] = refl
  rows_outside_one u (row ∷ rows) = ground (
    arith,
    rows_outside_one u rows,
    ==_iff (job_uid_from_snapshot row) u,
    ==_iff u (job_uid_from_snapshot row),
  )

  lookup-keep_payload :
      (u v : String) (payload : Option Payload) (payloads : Dict String Payload)
      → lookup v (keep_payload u payload payloads)
        ≡ (if u == v then payload_after payload (lookup v payloads) else lookup v payloads)
  unfolding keep_payload
  lookup-keep_payload u v none payloads = ground arith
  lookup-keep_payload u v (some p) payloads = lookup-insert v u p payloads

  failure-Answers :
      (u : String) (m : Metadata) (payload : Option Payload) (b : MemoryBackend)
      → Answers memory_backend
          (IsFailed memory_backend u m payload b)
          b
          (commit_job_failure u m payload b)
  unfolding commit_job_failure contains keys
  failure-Answers u m payload b = (
    record {
      attempts = λ k. refl;
      cursors = refl;
      successes = λ v. ground (arith, lookup-erase v u b.successes);
      failed = λ v. lookup-insert v u m b.failed;
      order = rows_outside_one u b.queue;
      queue = λ v. ground (arith, contains-rows_without u v b.queue);
    },
    λ v. lookup-keep_payload u v payload b.failure_payloads,
  )

  contains_placed :
      (front : Bool) (v : String) (row : JobSnapshot) (rows : List JobSnapshot)
      → contains v (row_uids (if front then row ∷ rows else rows ++ row ∷ []))
        ≡ (contains v (row_uids (row ∷ [])) || contains v (row_uids rows))
  unfolding row_uids contains
  contains_placed true v row rows = ground arith
  contains_placed false v row rows =
      rw row_uids-append (ground (arith, contains-append v (row_uids rows) (row_uids (row ∷ []))))

  requeue-Answers :
      (u : String) (row : JobSnapshot) (front : Bool) (b : MemoryBackend)
      → Answers memory_backend
          (IsRequeued memory_backend u (row ∷ []) front b)
          b
          (commit_retry u row front b)
  unfolding commit_retry
  requeue-Answers u row front b =
      let ruid = job_uid_from_snapshot row in
      let remaining = rows_without u b.queue in
      elim (Bool-cases (not (ruid == u) && contains ruid (row_uids remaining))) [
        | inl bad ↦ rw bad (unchanged b)
        | inr ok ↦ rw ok (record {
          attempts = λ k. refl;
          cursors = refl;
          payloads = refl;
          successes = refl;
          failed = refl;
          order = refl;
          queue = λ v. rw contains_placed (rw (contains-rows_without u v b.queue) refl);
          fresh = λ v.
              unfold row_uids contains in
              ground (
                arith,
                contains-rows_without u ruid b.queue,
                ==_iff ruid v,
                ==_iff ruid u,
                ==_iff u v,
              );
        })
      ]

  failed_archive_all :
      (v : String) (entries : List (String × Metadata)) (b : MemoryBackend)
      → lookup v (archive_all entries b).failed
        ≡ failure_after (λ m. m) entries v (lookup v b.failed)
  unfolding archive_all
  failed_archive_all v [] b = refl
  failed_archive_all v ((u, m) ∷ more) b =
      failed_archive_all v more
        (record b { failed = insert u m b.failed; successes = erase u b.successes })
      ∙ ap (λ old. failure_after (λ n. n) more v old) (lookup-insert v u m b.failed)

  -- The loop writes the two archives only.
  archive_all_keeps :
      (entries : List (String × Metadata)) (b : MemoryBackend)
      → ((archive_all entries b).cursors ≡ b.cursors)
        × ((archive_all entries b).failure_payloads ≡ b.failure_payloads)
        × ((archive_all entries b).attempts ≡ b.attempts)
  unfolding archive_all
  archive_all_keeps [] b = (refl, refl, refl)
  archive_all_keeps ((u, m) ∷ more) b =
      archive_all_keeps more
        (record b { failed = insert u m b.failed; successes = erase u b.successes })

  lookup-archive_all :
      (v : String) (entries : List (String × Metadata)) (b : MemoryBackend)
      → lookup v (archive_all entries b).successes
        ≡ (if contains v (keys entries) then none else lookup v b.successes)
  unfolding archive_all contains keys
  lookup-archive_all v [] b = refl
  lookup-archive_all v ((u, m) ∷ more) b = ground (
    arith,
    lookup-archive_all v more
        (record b { failed = insert u m b.failed; successes = erase u b.successes }),
    lookup-erase v u b.successes,
  )

  failures-Answers :
      (entries : List (String × Metadata)) (b : MemoryBackend)
      → Answers memory_backend
          (λ b'. AreFailed memory_backend entries b b' × (b'.failure_payloads ≡ b.failure_payloads))
          b
          (commit_job_failures entries b)
  unfolding commit_job_failures
  failures-Answers entries b = (
    record {
      attempts = λ k. ap (lookup k) (archive_all_keeps entries b).2;
      cursors = (archive_all_keeps entries b).0;
      successes = λ v. lookup-archive_all v entries b;
      failed = λ v. failed_archive_all v entries b;
      order = refl;
      queue = λ v. rw row_uids-rows_outside (
          ground
            (arith, contains-keep (λ u. not (contains u (keys entries))) v (row_uids b.queue)));
    },
    (archive_all_keeps entries b).1,
  )

  removal-Answers :
      (u : String) (b : MemoryBackend)
      → Answers memory_backend (IsRequeued memory_backend u [] true b) b (commit_skip u b)
  unfolding commit_skip row_uids contains
  removal-Answers u b = record {
    attempts = λ k. refl;
    cursors = refl;
    payloads = refl;
    successes = refl;
    failed = refl;
    order = refl;
    queue = λ v. ground (arith, contains-rows_without u v b.queue);
    fresh = λ v. refl;
  }

  open-Traces :
      (r : AttemptRecord) (b : MemoryBackend) → Traces memory_backend b (append_attempt r b)
  unfolding append_attempt
  open-Traces r b = elim (Option-cases (validate_attempt_dispatch r)) [
    | inl e ↦ rw e tt
    | inr (_, e) ↦
        rw e (record {
          successes = refl;
          failed = refl;
          queue = refl;
          cursors = refl;
          payloads = refl;
        })
  ]

  open-Opens : (r : AttemptRecord) (b : MemoryBackend) → Opens memory_backend r (append_attempt r b)
  unfolding append_attempt
  open-Opens r b = elim (Option-cases (validate_attempt_dispatch r)) [
    | inl e ↦ rw e tt
    | inr (_, e) ↦ rw e (rw lookup-insert (rw (==_refl b.attempt_seq) refl))
  ]

  close-Traces :
      (k : ℕ) (outcome : Outcome) (at error : Option String) (b : MemoryBackend)
      → Traces memory_backend b (update_attempt k outcome at error b)
  unfolding update_attempt
  close-Traces k outcome at error b =
      elim (Option-cases (validate_attempt_finish outcome at error)) [
        | inl e ↦ rw e tt
        | inr (finished, e) ↦ elim (Option-cases (lookup k b.attempts)) [
          | inl missing ↦ rw e (rw missing (unchanged b).0)
          | inr (current, found) ↦ elim (Bool-cases (is_running current.outcome)) [
            | inl yes_ ↦ rw e (
                rw found (
                  rw yes_ (record {
                    successes = refl;
                    failed = refl;
                    queue = refl;
                    cursors = refl;
                    payloads = refl;
                  })))
            | inr no_ ↦ rw e (rw found (rw no_ tt))
          ]
        ]
      ]

  -- The memory backend keeps the promises of the abstract one. A commit that answers `False` leaves
  -- archives, queue, cursors, payloads and attempts as they were. One that answers `True` has the
  -- documented effects on each of these: a success closes its running attempt, archives its metadata,
  -- drops the failure and its payload, merges the cursor updates (a mapping, each key once) and puts
  -- the spawned rows in front; failures store their metadata and take away the success and the queued
  -- row; a retry puts its row in front or at the end; a skip deletes its row.
  pub memory_backend-IsContract : IsContract memory_backend
  memory_backend-IsContract = record {
    commit_success-Answers = success-Answers;
    commit_failure-Answers = failure-Answers;
    commit_requeue-Answers = requeue-Answers;
    commit_failures-Answers = failures-Answers;
    commit_removal-Answers = removal-Answers;
    open_trace-Traces = open-Traces;
    open_trace-Opens = open-Opens;
    close_trace-Traces = close-Traces;
  }
