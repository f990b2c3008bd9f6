-- ===== src/Models/State/Terminal.antt =====
-- The changes of the two archives in tasklite/models/state.py, and the invariant.
use tasklite.Common.{
  String, false, ◌≡◌, has, has-insert, has-erase, contains-add, contains-discard, eq_string, ==_iff,
  arith,
}
use tasklite.Models.Job.{RowHash}
use tasklite.Models.State.{
  PipelineState, Metadata, mark_success, mark_failed, discard_success, discard_failed, add_success,
}
use tasklite.Models.State.Consistent.{IsConsistent, Succeeds, passes_terminal}

module _ ⦃h : RowHash⦄ (s : PipelineState) (c : IsConsistent s) where
  -- A terminal record moves the job to one archive and out of the other.
  pub mark_success-IsConsistent : (u : String) (m : Metadata) → Succeeds (mark_success u m s)
  unfolding mark_success
  mark_success-IsConsistent u m = passes_terminal _ (record {
    queued = c.queued;
    distinct = c.distinct;
    succeeded = λ v.
        ground
          (arith, c.succeeded v, contains-add v u s.success_uids, has-insert v u m s.successes);
    archived = λ v.
        ground (arith, c.archived v, contains-discard v u s.failed_uids, has-erase v u s.failed);
    one_outcome =
        λ v. ground (arith, c.one_outcome v, has-insert v u m s.successes, has-erase v u s.failed);
    not_both = c.not_both;
  })

  pub mark_failed-IsConsistent : (u : String) (m : Metadata) → Succeeds (mark_failed u m s)
  unfolding mark_failed
  mark_failed-IsConsistent u m = passes_terminal _ (record {
    queued = c.queued;
    distinct = c.distinct;
    succeeded = λ v.
        ground
          (arith, c.succeeded v, contains-discard v u s.success_uids, has-erase v u s.successes);
    archived = λ v.
        ground (arith, c.archived v, contains-add v u s.failed_uids, has-insert v u m s.failed);
    one_outcome =
        λ v. ground (arith, c.one_outcome v, has-insert v u m s.failed, has-erase v u s.successes);
    not_both = c.not_both;
  })

  pub discard_success-IsConsistent : (u : String) → Succeeds (discard_success u s)
  unfolding discard_success
  discard_success-IsConsistent u = passes_terminal _ (record {
    queued = c.queued;
    distinct = c.distinct;
    succeeded = λ v.
        ground
          (arith, c.succeeded v, contains-discard v u s.success_uids, has-erase v u s.successes);
    archived = c.archived;
    one_outcome = λ v. ground (arith, c.one_outcome v, has-erase v u s.successes);
    not_both = c.not_both;
  })

  pub discard_failed-IsConsistent : (u : String) → Succeeds (discard_failed u s)
  unfolding discard_failed
  discard_failed-IsConsistent u = passes_terminal _ (record {
    queued = c.queued;
    distinct = c.distinct;
    succeeded = c.succeeded;
    archived = λ v.
        ground (arith, c.archived v, contains-discard v u s.failed_uids, has-erase v u s.failed);
    one_outcome = λ v. ground (arith, c.one_outcome v, has-erase v u s.failed);
    not_both = c.not_both;
  })

  -- `add_success` leaves the failure archive alone, so the job must not be in it.
  pub add_success-IsConsistent :
      (u : String) (m : Metadata) → has u s.failed ≡ false → Succeeds (add_success u m s)
  unfolding add_success
  add_success-IsConsistent u m free = passes_terminal _ (record {
    queued = c.queued;
    distinct = c.distinct;
    succeeded = λ v.
        ground
          (arith, c.succeeded v, contains-add v u s.success_uids, has-insert v u m s.successes);
    archived = c.archived;
    one_outcome = λ v. ground (arith, c.one_outcome v, has-insert v u m s.successes, ==_iff u v);
    not_both = c.not_both;
  })
