-- ===== src/Backend/Memory/Calls.antt =====
-- Every sequence of calls keeps the invariant of the tables of tasklite/backend/memory.py.
use tasklite.Common.{
  ℕ, ◌+◌, ◌<◌, String, Bool, true, false, ◌≡◌, some, List, [], ◌∷◌, insert, erase, has, keys,
  exists, has-insert, has-erase, eq_nat, eq_string, ==_iff, arith, Bool-cases, inl, inr,
  has_when_found, nat_eq_iff, lookup,
}
use tasklite.Models.Job.{JobSnapshot, RowHash}
use tasklite.Models.State.{Metadata, row_uids}
use tasklite.Models.Attempt.{AttemptRecord}
use tasklite.Backend.Memory.{
  MemoryBackend, archive_all, commit_job_failures, commit_skip, fresh_rows, enqueue_jobs,
  save_queue, delete_queue_uids, delete_failed, delete_successes, seed_all,
}
use tasklite.Backend.Memory.Batches.{
  fresh_rows-members, fresh_rows-IsDistinct, dedup_copy-IsDistinct,
}
use tasklite.Backend.Memory.Valid.{
  IsValid, rows_without-IsDistinct, rows_outside-IsDistinct, joined-IsDistinct, has-insert_known,
}

module _ ⦃h : RowHash⦄ where
  module _ (b : MemoryBackend) (v : IsValid b) where
    pub commit_skip-IsValid : (job_uid : String) → IsValid (commit_skip job_uid b).1
    unfolding commit_skip
    commit_skip-IsValid job_uid = record {
      distinct = rows_without-IsDistinct job_uid b.queue v.distinct;
      one_outcome = v.one_outcome;
      snapshots = v.snapshots;
      ids = v.ids;
    }

    pub enqueue_jobs-IsValid :
        (rows : List JobSnapshot) (front : Bool) → IsValid (enqueue_jobs rows front b).1
    unfolding enqueue_jobs
    enqueue_jobs-IsValid rows true = record {
      distinct =
          joined-IsDistinct (fresh_rows (row_uids b.queue) [] rows) b.queue
            (fresh_rows-IsDistinct (row_uids b.queue) [] rows) v.distinct
            (λ u. ground (arith, fresh_rows-members (row_uids b.queue) [] rows u));
      one_outcome = v.one_outcome;
      snapshots = v.snapshots;
      ids = v.ids;
    }
    enqueue_jobs-IsValid rows false = record {
      distinct =
          joined-IsDistinct b.queue (fresh_rows (row_uids b.queue) [] rows) v.distinct
            (fresh_rows-IsDistinct (row_uids b.queue) [] rows)
            (λ u. ground (arith, fresh_rows-members (row_uids b.queue) [] rows u));
      one_outcome = v.one_outcome;
      snapshots = v.snapshots;
      ids = v.ids;
    }

    pub save_queue-IsValid : (rows : List JobSnapshot) → IsValid (save_queue rows b)
    unfolding save_queue
    save_queue-IsValid rows = record {
      distinct = dedup_copy-IsDistinct [] rows;
      one_outcome = v.one_outcome;
      snapshots = v.snapshots;
      ids = v.ids;
    }

    pub delete_queue_uids-IsValid : (uids : List String) → IsValid (delete_queue_uids uids b).1
    unfolding delete_queue_uids
    delete_queue_uids-IsValid uids = record {
      distinct = rows_outside-IsDistinct uids b.queue v.distinct;
      one_outcome = v.one_outcome;
      snapshots = v.snapshots;
      ids = v.ids;
    }

    append_attempt-ids :
        (r : AttemptRecord) (n : ℕ)
        → has n (insert b.attempt_seq r b.attempts) ≡ true
        → n < b.attempt_seq + 1
    append_attempt-ids r n m = elim (Bool-cases (has n b.attempts)) [
      | inl old ↦ omega (arith, v.ids n old)
      | inr new ↦ omega (
        arith,
        (nat_eq_iff b.attempt_seq n).0 (ground (arith, has-insert n b.attempt_seq r b.attempts)),
      )
    ]

    pub append_attempt-IsValid :
        (r : AttemptRecord)
        → IsValid (record b {
          attempts = insert b.attempt_seq r b.attempts;
          attempt_seq = b.attempt_seq + 1;
        })
    append_attempt-IsValid r = record {
      distinct = v.distinct;
      one_outcome = v.one_outcome;
      snapshots = v.snapshots;
      ids = append_attempt-ids r;
    }

    pub update_attempt-IsValid :
        (k : ℕ) (r current : AttemptRecord)
        → lookup k b.attempts ≡ some current
        → IsValid (record b { attempts = insert k r b.attempts })
    update_attempt-IsValid k r current found = record {
      distinct = v.distinct;
      one_outcome = v.one_outcome;
      snapshots = v.snapshots;
      ids =
          λ n m. v.ids n (has-insert_known n k r b.attempts (has_when_found k b.attempts found) m);
    }

    pub archived-IsValid :
        (u : String) (m : Metadata)
        → IsValid (record b { failed = insert u m b.failed; successes = erase u b.successes })
    archived-IsValid u m = record {
      distinct = v.distinct;
      one_outcome = λ w.
          ground (arith, v.one_outcome w, has-insert w u m b.failed, has-erase w u b.successes);
      snapshots = λ w. ground (arith, v.snapshots w, has-insert w u m b.failed);
      ids = v.ids;
    }

    pub cleared_failure-IsValid :
        (u : String)
        → IsValid
            (record b { failed = erase u b.failed; failure_payloads = erase u b.failure_payloads })
    cleared_failure-IsValid u = record {
      distinct = v.distinct;
      one_outcome = λ w. ground (arith, v.one_outcome w, has-erase w u b.failed);
      snapshots = λ w.
          ground (arith, v.snapshots w, has-erase w u b.failed, has-erase w u b.failure_payloads);
      ids = v.ids;
    }

    pub cleared_success-IsValid :
        (u : String) → IsValid (record b { successes = erase u b.successes })
    cleared_success-IsValid u = record {
      distinct = v.distinct;
      one_outcome = λ w. ground (arith, v.one_outcome w, has-erase w u b.successes);
      snapshots = v.snapshots;
      ids = v.ids;
    }

    pub seeded-IsValid :
        (u : String)
        → has u b.failed ≡ false
        → IsValid (record b { successes = insert u [] b.successes })
    seeded-IsValid u free = record {
      distinct = v.distinct;
      one_outcome = λ w. ground (arith, v.one_outcome w, has-insert w u [] b.successes, ==_iff u w);
      snapshots = v.snapshots;
      ids = v.ids;
    }

  pub archive_all-IsValid :
      (entries : List (String × Metadata)) (b : MemoryBackend)
      → IsValid b
      → IsValid (archive_all entries b)
  unfolding archive_all
  archive_all-IsValid [] b v = v
  archive_all-IsValid ((u, m) ∷ more) b v = archive_all-IsValid more _ (archived-IsValid b v u m)

  pub commit_job_failures-IsValid :
      (entries : List (String × Metadata)) (b : MemoryBackend)
      → IsValid b
      → IsValid (commit_job_failures entries b).1
  unfolding commit_job_failures
  commit_job_failures-IsValid entries b v =
      let a = archive_all-IsValid entries b v in
      record {
        distinct = rows_outside-IsDistinct (keys entries) b.queue v.distinct;
        one_outcome = a.one_outcome;
        snapshots = a.snapshots;
        ids = a.ids;
      }

  pub delete_failed-IsValid :
      (uids : List String) (b : MemoryBackend) → IsValid b → IsValid (delete_failed uids b).1
  unfolding delete_failed
  delete_failed-IsValid [] b v = v
  delete_failed-IsValid (u ∷ uids) b v =
      let rest = (delete_failed uids b).1 in
      let ih = delete_failed-IsValid uids b v in
      elim (Bool-cases (has u rest.failed)) [
        | inl there ↦ rw there (cleared_failure-IsValid rest ih u)
        | inr gone ↦ rw gone ih
      ]

  pub delete_successes-IsValid :
      (uids : List String) (b : MemoryBackend) → IsValid b → IsValid (delete_successes uids b).1
  unfolding delete_successes
  delete_successes-IsValid [] b v = v
  delete_successes-IsValid (u ∷ uids) b v =
      let rest = (delete_successes uids b).1 in
      let ih = delete_successes-IsValid uids b v in
      elim (Bool-cases (has u rest.successes)) [
        | inl there ↦ rw there (cleared_success-IsValid rest ih u)
        | inr gone ↦ rw gone ih
      ]

  pub seed_all-IsValid :
      (uids : List String) (b : MemoryBackend)
      → exists (λ u. has u b.failed) uids ≡ false
      → IsValid b
      → IsValid (seed_all uids b)
  unfolding seed_all exists
  seed_all-IsValid [] b free v = v
  seed_all-IsValid (u ∷ uids) b free v =
      seed_all-IsValid uids (record b { successes = insert u [] b.successes }) (ground arith)
        (seeded-IsValid b v u (ground arith))
