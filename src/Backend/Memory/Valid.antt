-- ===== src/Backend/Memory/Valid.antt =====
-- The invariant of the tables of tasklite/backend/memory.py, call by call.
use tasklite.Common.{
  ℕ, ◌<◌, String, Bool, true, false, not, ◌&&◌, ◌≡◌, refl, Option, none, some, List, [], ◌∷◌, ◌++◌,
  Dict, insert, has, contains, IsDistinct, has-insert, has-erase, contains-discard, keep-IsDistinct,
  append-IsDistinct, eq_nat, eq_string, ==_iff, arith, ◌==◌, Bool-cases, Option-cases, inl, inr,
  if◌then◌else◌, has_when_found, nat_eq_iff, lookup,
}
use tasklite.Models.Job.{JobSnapshot, RowHash, job_uid_from_snapshot}
use tasklite.Models.State.{Metadata, row_uids, rows_without}
use tasklite.Models.State.Active.{row_uids-append, row_uids-rows_without, discard-IsDistinct}
use tasklite.Models.Attempt.{AttemptRecord, is_running}
use tasklite.Backend.Memory.{
  MemoryBackend, Payload, Finish, open_attempt, close_attempt, spawn_conflict, write_success,
  keep_payload, commit_job_success, commit_job_failure, commit_retry, rows_outside,
}
use tasklite.Backend.Memory.Batches.{
  row_uids-rows_outside, spawn_conflict-members, spawn_conflict-IsDistinct,
}

-- The queue repeats no uid, a job has one outcome, a payload belongs to an archived failure, and
-- the next attempt gets an id of its own.
pub record IsValid ⦃h : RowHash⦄ (b : MemoryBackend) : Type 0 where
  pub distinct : IsDistinct (row_uids b.queue)
  pub one_outcome : (u : String) → (has u b.successes && has u b.failed) ≡ false
  pub snapshots : (u : String) → (has u b.failure_payloads && not (has u b.failed)) ≡ false
  pub ids : (n : ℕ) → has n b.attempts ≡ true → n < b.attempt_seq

pub open_attempt-found :
    (job_uid : String) (finish : Finish) (b : MemoryBackend) {current : AttemptRecord}
    → open_attempt job_uid finish b ≡ some current
    → (k : ℕ) × (finish.attempt_id ≡ some k)
      × (lookup k b.attempts ≡ some current)
      × (current.job_uid ≡ job_uid)
      × (is_running current.outcome ≡ true)
unfolding open_attempt
open_attempt-found job_uid finish b {current} e = elim (Option-cases finish.attempt_id) [
  | inl missing ↦ absurd (ground arith)
  | inr (k, given) ↦
      (k, given, ground arith, ground (arith, ==_iff current.job_uid job_uid), ground arith)
]

-- Writing to a key that is there adds no key.
pub has-insert_known :
    (n k : ℕ) (r : AttemptRecord) (attempts : Dict ℕ AttemptRecord)
    → has k attempts ≡ true
    → has n (insert k r attempts) ≡ true
    → has n attempts ≡ true
has-insert_known n k r attempts known m = ground (arith, has-insert n k r attempts, nat_eq_iff k n)

module _ ⦃h : RowHash⦄ where
  pub contains-rows_without :
      (u v : String) (rows : List JobSnapshot)
      → contains v (row_uids (rows_without u rows)) ≡ (not (u == v) && contains v (row_uids rows))
  contains-rows_without u v rows = rw row_uids-rows_without (contains-discard v u (row_uids rows))

  one-IsDistinct : (row : JobSnapshot) → IsDistinct (row_uids (row ∷ []))
  unfolding row_uids contains
  one-IsDistinct row = (refl, tt)

  pub rows_without-IsDistinct :
      (u : String) (rows : List JobSnapshot)
      → IsDistinct (row_uids rows)
      → IsDistinct (row_uids (rows_without u rows))
  rows_without-IsDistinct u rows d =
      rw row_uids-rows_without (discard-IsDistinct u (row_uids rows) d)

  pub rows_outside-IsDistinct :
      (uids : List String) (rows : List JobSnapshot)
      → IsDistinct (row_uids rows)
      → IsDistinct (row_uids (rows_outside uids rows))
  rows_outside-IsDistinct uids rows d =
      rw row_uids-rows_outside (keep-IsDistinct (λ u. not (contains u uids)) (row_uids rows) d)

  pub joined-IsDistinct :
      (xs ys : List JobSnapshot)
      → IsDistinct (row_uids xs)
      → IsDistinct (row_uids ys)
      → ((u : String) → (contains u (row_uids xs) && contains u (row_uids ys)) ≡ false)
      → IsDistinct (row_uids (xs ++ ys))
  joined-IsDistinct xs ys dx dy apart =
      rw row_uids-append (append-IsDistinct (row_uids xs) (row_uids ys) dx dy apart)

  module _ (b : MemoryBackend) (v : IsValid b) where
    close_attempt-ids :
        (job_uid : String) (finish : Finish) (current : AttemptRecord)
        → open_attempt job_uid finish b ≡ some current
        → (n : ℕ) → has n (close_attempt finish current b.attempts) ≡ true
        → n < b.attempt_seq
    unfolding close_attempt
    close_attempt-ids job_uid finish current e n m =
        let (k, given, found, mine, open_) = open_attempt-found job_uid finish b e in
        v.ids n
          (has-insert_known n k _ b.attempts (has_when_found k b.attempts found) (rw given at m))

    write_success-IsValid :
        (job_uid : String) (metadata : Metadata) (finish : Finish) (current : AttemptRecord)
        (spawned : List JobSnapshot) (updates : List (String × Option String))
        → open_attempt job_uid finish b ≡ some current
        → spawn_conflict (row_uids (rows_without job_uid b.queue)) [] spawned ≡ false
        → IsValid (write_success job_uid metadata finish current spawned updates b)
    unfolding write_success
    write_success-IsValid job_uid metadata finish current spawned updates e ok = record {
      distinct =
          joined-IsDistinct spawned (rows_without job_uid b.queue)
            (spawn_conflict-IsDistinct _ [] spawned ok)
            (rows_without-IsDistinct job_uid b.queue v.distinct)
            (λ u. ground (arith, spawn_conflict-members _ [] spawned u ok));
      one_outcome = λ u. ground (
        arith,
        v.one_outcome u,
        has-insert u job_uid metadata b.successes,
        has-erase u job_uid b.failed,
      );
      snapshots = λ u. ground (
        arith,
        v.snapshots u,
        has-erase u job_uid b.failure_payloads,
        has-erase u job_uid b.failed,
      );
      ids = close_attempt-ids job_uid finish current e;
    }

    pub commit_job_success-IsValid :
        (job_uid : String) (metadata : Metadata) (finish : Finish) (spawned : List JobSnapshot)
        (updates : List (String × Option String))
        → IsValid (commit_job_success job_uid metadata finish spawned updates b).1
    unfolding commit_job_success
    commit_job_success-IsValid job_uid metadata finish spawned updates =
        let remaining = row_uids (rows_without job_uid b.queue) in
        elim (Option-cases (open_attempt job_uid finish b)) [
          | inl e ↦ rw e v
          | inr (current, e) ↦ rw e (elim (Bool-cases (spawn_conflict remaining [] spawned)) [
            | inl bad ↦ rw bad v
            | inr ok ↦
                rw ok (write_success-IsValid job_uid metadata finish current spawned updates e ok)
          ])
        ]

    keep_payload-snapshots :
        (job_uid : String) (metadata : Metadata) (payload : Option Payload) (u : String)
        → (has u (keep_payload job_uid payload b.failure_payloads)
            && not (has u (insert job_uid metadata b.failed)))
          ≡ false
    unfolding keep_payload
    keep_payload-snapshots job_uid metadata none u =
        ground (arith, v.snapshots u, has-insert u job_uid metadata b.failed)
    keep_payload-snapshots job_uid metadata (some p) u = ground (
      arith,
      v.snapshots u,
      has-insert u job_uid metadata b.failed,
      has-insert u job_uid p b.failure_payloads,
    )

    pub commit_job_failure-IsValid :
        (job_uid : String) (metadata : Metadata) (payload : Option Payload)
        → IsValid (commit_job_failure job_uid metadata payload b).1
    unfolding commit_job_failure
    commit_job_failure-IsValid job_uid metadata payload = record {
      distinct = rows_without-IsDistinct job_uid b.queue v.distinct;
      one_outcome = λ u. ground (
        arith,
        v.one_outcome u,
        has-insert u job_uid metadata b.failed,
        has-erase u job_uid b.successes,
      );
      snapshots = keep_payload-snapshots job_uid metadata payload;
      ids = v.ids;
    }

    requeued-IsValid :
        (popped : String) (row : JobSnapshot) (front : Bool)
        → contains (job_uid_from_snapshot row) (row_uids (rows_without popped b.queue)) ≡ false
        → IsValid (record b {
          queue =
              if front
              then row ∷ rows_without popped b.queue
              else rows_without popped b.queue ++ row ∷ [];
        })
    unfolding row_uids contains
    requeued-IsValid popped row true new = record {
      distinct = (new, rows_without-IsDistinct popped b.queue v.distinct);
      one_outcome = v.one_outcome;
      snapshots = v.snapshots;
      ids = v.ids;
    }
    requeued-IsValid popped row false new = record {
      distinct =
          joined-IsDistinct (rows_without popped b.queue) (row ∷ [])
            (rows_without-IsDistinct popped b.queue v.distinct) (one-IsDistinct row)
            (λ u. ground (arith, ==_iff (job_uid_from_snapshot row) u));
      one_outcome = v.one_outcome;
      snapshots = v.snapshots;
      ids = v.ids;
    }

    pub commit_retry-IsValid :
        (popped : String) (row : JobSnapshot) (front : Bool)
        → IsValid (commit_retry popped row front b).1
    unfolding commit_retry
    commit_retry-IsValid popped row front =
        let remaining = row_uids (rows_without popped b.queue) in
        let ruid = job_uid_from_snapshot row in
        elim (Bool-cases (not (ruid == popped) && contains ruid remaining)) [
          | inl bad ↦ rw bad v
          | inr ok ↦ rw ok (
              requeued-IsValid popped row front (
                ground (
                  arith,
                  contains-rows_without popped ruid b.queue,
                  ==_iff ruid popped,
                  ==_iff popped ruid,
                )))
        ]
