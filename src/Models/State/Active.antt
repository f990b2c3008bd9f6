-- ===== src/Models/State/Active.antt =====
-- The changes of the queue and of the jobs in flight in tasklite/models/state.py, and the invariant.
use tasklite.Common.{
  ℕ, String, Bool, true, false, not, ◌&&◌, ◌||◌, Bool-cases, inl, inr, union, ◌≡◌, refl, some, List,
  contains, discard, get_elem?, erase_idx, IsDistinct, contains-add, contains-discard,
  contains-union, contains-append, contains-erase_idx, erase_idx-IsDistinct, keep-IsDistinct,
  append-IsDistinct, get_elem?-map, map-erase_idx, map-keep, eq_string, ==_iff, arith, ◌==◌, ◌++◌,
}
use mathlib.Core.List.{map-append}
use tasklite.Models.Job.{JobSnapshot, RowHash, job_uid_from_snapshot}
use tasklite.Models.State.{
  PipelineState, row_uids, pop_job, spawn_jobs, remove_queued_uid, rows_without, register_in_flight,
  unregister_in_flight, clear_in_flight, replace_queue,
}
use tasklite.Models.State.Consistent.{IsConsistent, Succeeds, passes_uids, passes_state}

module _ ⦃h : RowHash⦄ where
  pub row_uids-erase_idx :
      (rows : List JobSnapshot) (idx : ℕ)
      → row_uids (erase_idx rows idx) ≡ erase_idx (row_uids rows) idx
  unfolding row_uids
  row_uids-erase_idx rows idx = map-erase_idx job_uid_from_snapshot rows idx

  pub row_uids-append :
      (xs ys : List JobSnapshot) → row_uids (xs ++ ys) ≡ row_uids xs ++ row_uids ys
  unfolding row_uids
  row_uids-append xs ys = map-append job_uid_from_snapshot xs ys

  pub row_uids-rows_without :
      (u : String) (rows : List JobSnapshot)
      → row_uids (rows_without u rows) ≡ discard u (row_uids rows)
  unfolding row_uids rows_without discard
  row_uids-rows_without u rows = map-keep job_uid_from_snapshot (λ v. not (v == u)) rows

  pub row_uids-get_elem? :
      (rows : List JobSnapshot) (idx : ℕ) {row : JobSnapshot}
      → get_elem? rows idx ≡ some row
      → get_elem? (row_uids rows) idx ≡ some (job_uid_from_snapshot row)
  unfolding row_uids
  row_uids-get_elem? rows idx e = get_elem?-map job_uid_from_snapshot rows idx e

  pub discard-IsDistinct :
      (u : String) (us : List String) → IsDistinct us → IsDistinct (discard u us)
  unfolding discard
  discard-IsDistinct u us d = keep-IsDistinct (λ v. not (v == u)) us d

module _ ⦃h : RowHash⦄ (s : PipelineState) (c : IsConsistent s) where
  pub register_in_flight-IsConsistent :
      (u : String) → contains u s.queue_uids ≡ false → Succeeds (register_in_flight u s)
  unfolding register_in_flight
  register_in_flight-IsConsistent u free = passes_state _ (record {
    queued = c.queued;
    distinct = c.distinct;
    succeeded = c.succeeded;
    archived = c.archived;
    one_outcome = c.one_outcome;
    not_both = λ v. ground (arith, c.not_both v, contains-add v u s.in_flight_uids, ==_iff u v);
  })

  pub unregister_in_flight-IsConsistent : (u : String) → Succeeds (unregister_in_flight u s)
  unfolding unregister_in_flight
  unregister_in_flight-IsConsistent u = passes_state _ (record {
    queued = c.queued;
    distinct = c.distinct;
    succeeded = c.succeeded;
    archived = c.archived;
    one_outcome = c.one_outcome;
    not_both = λ v. ground (arith, c.not_both v, contains-discard v u s.in_flight_uids);
  })

  pub clear_in_flight-IsConsistent : Succeeds (clear_in_flight s)
  unfolding clear_in_flight contains
  clear_in_flight-IsConsistent = passes_state _ (record {
    queued = c.queued;
    distinct = c.distinct;
    succeeded = c.succeeded;
    archived = c.archived;
    one_outcome = c.one_outcome;
    not_both = λ v. ground arith;
  })

  -- The row at a place of the queue can be taken out.
  pub pop_job-IsConsistent :
      (idx : ℕ) {row : JobSnapshot}
      → get_elem? s.queue idx ≡ some row
      → (s' : PipelineState) × (pop_job idx s ≡ some (row, s')) × IsConsistent s'
  unfolding pop_job
  pop_job-IsConsistent idx {row} e =
      let u = job_uid_from_snapshot row in
      let (s', p, c') =
        passes_uids
          (record s { queue = erase_idx s.queue idx; queue_uids = discard u s.queue_uids })
          (record {
            queued = λ v. rw row_uids-erase_idx (
                ground (
                  arith,
                  c.queued v,
                  contains-discard v u s.queue_uids,
                  contains-erase_idx (row_uids s.queue) idx u v c.distinct
                      (row_uids-get_elem? s.queue idx e),
                ));
            distinct =
                rw row_uids-erase_idx (erase_idx-IsDistinct (row_uids s.queue) idx c.distinct);
            succeeded = c.succeeded;
            archived = c.archived;
            one_outcome = c.one_outcome;
            not_both = λ v. ground (arith, c.not_both v, contains-discard v u s.queue_uids);
          }) in
      (s', rw e (rw p), c')

  pub remove_queued_uid-IsConsistent : (u : String) → Succeeds (remove_queued_uid u s)
  unfolding remove_queued_uid
  remove_queued_uid-IsConsistent u = elim (Bool-cases (contains u s.queue_uids)) [
    | inr gone ↦ (s, rw gone, c)
    | inl there ↦ rw there (
        passes_uids _ (record {
          queued = λ v. rw row_uids-rows_without (
              ground (
                arith,
                c.queued v,
                contains-discard v u s.queue_uids,
                contains-discard v u (row_uids s.queue),
              ));
          distinct = rw row_uids-rows_without (discard-IsDistinct u (row_uids s.queue) c.distinct);
          succeeded = c.succeeded;
          archived = c.archived;
          one_outcome = c.one_outcome;
          not_both = λ v. ground (arith, c.not_both v, contains-discard v u s.queue_uids);
        }))
  ]

  -- New rows may enter the queue if they repeat no uid of it, of themselves, or of those in flight.
  module _ (rows : List JobSnapshot) (d : IsDistinct (row_uids rows))
      (fresh : (u : String) → (contains u (row_uids rows) && contains u s.queue_uids) ≡ false)
      (idle : (u : String)
        → (contains u (row_uids rows) && contains u s.in_flight_uids) ≡ false) where
    with_rows :
        (queue : List JobSnapshot) (skipped : List String)
        → ((u : String)
            → contains u (row_uids queue)
              ≡ (contains u (row_uids rows) || contains u (row_uids s.queue)))
        → IsDistinct (row_uids queue)
        → IsConsistent (record s {
          queue = queue;
          queue_uids = union s.queue_uids (row_uids rows);
          trigger_skipped_uids = skipped;
        })
    with_rows queue skipped members distinct = record {
      queued =
          λ v. ground (arith, members v, c.queued v, contains-union v s.queue_uids (row_uids rows));
      distinct = distinct;
      succeeded = c.succeeded;
      archived = c.archived;
      one_outcome = c.one_outcome;
      not_both =
          λ v. ground (arith, c.not_both v, idle v, contains-union v s.queue_uids (row_uids rows));
    }

    pub spawn_jobs-IsConsistent : (front : Bool) → Succeeds (spawn_jobs rows front s)
    unfolding spawn_jobs
    spawn_jobs-IsConsistent true = passes_uids _ (
        with_rows (rows ++ s.queue) _
          (λ v. rw row_uids-append (contains-append v (row_uids rows) (row_uids s.queue)))
          (rw row_uids-append (
            append-IsDistinct (row_uids rows) (row_uids s.queue) d c.distinct
              (λ v. ground (arith, fresh v, c.queued v)))))
    spawn_jobs-IsConsistent false = passes_uids _ (
        with_rows (s.queue ++ rows) _
          (λ v.
            rw row_uids-append
              (ground (arith, contains-append v (row_uids s.queue) (row_uids rows))))
          (rw row_uids-append (
            append-IsDistinct (row_uids s.queue) (row_uids rows) c.distinct d
              (λ v. ground (arith, fresh v, c.queued v)))))

  -- A whole new queue must keep clear of the jobs in flight.
  pub replace_queue-IsConsistent :
      (rows : List JobSnapshot)
      → IsDistinct (row_uids rows)
      → ((u : String) → (contains u (row_uids rows) && contains u s.in_flight_uids) ≡ false)
      → Succeeds (replace_queue rows s)
  unfolding replace_queue
  replace_queue-IsConsistent rows d idle = passes_uids _ (record {
    queued = λ v. refl;
    distinct = d;
    succeeded = c.succeeded;
    archived = c.archived;
    one_outcome = c.one_outcome;
    not_both = idle;
  })
