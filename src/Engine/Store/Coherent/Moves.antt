-- ===== src/Engine/Store/Coherent/Moves.antt =====
-- The states that the changes of tasklite/models/state.py leave in a consistent state.
use tasklite.Common.{
  String, Bool, false, ◌&&◌, ◌≡◌, refl, subst, inl, inr, Option, none, some, List, ◌++◌, insert,
  erase, add, contains, discard, union, difference, IsDistinct, eq_string, if◌then◌else◌,
  Bool-cases, arith,
}
use tasklite.Models.Job.{JobSnapshot, RowHash}
use tasklite.Models.State.{
  Metadata, PipelineState, row_uids, checked, uids_consistent, terminal_uids_consistent,
  state_consistent, spawn_jobs, requeue_jobs, unregister_in_flight, mark_success, mark_failed,
  replace_queue, rows_without,
}
use tasklite.Models.State.Consistent.{IsConsistent, Succeeds}
use tasklite.Models.State.Active
use tasklite.Models.State.Terminal

module _ ⦃h : RowHash⦄ where
  -- A change that succeeds leaves the state that it checks.
  abbrev pub Leaves : Option PipelineState → PipelineState → Type 0
  Leaves m s = (m ≡ some s) × IsConsistent s

  exact :
      (test : PipelineState → Bool) (s : PipelineState)
      → Succeeds (checked test s)
      → Leaves (checked test s) s
  exact test s sc = elim (Bool-cases (test s)) [
    | inl e ↦
        let left : checked test s ≡ some s = rw e refl in
        let same : sc.0 ≡ s = ground (arith, sc.1, left) in (left, subst IsConsistent same sc.2)
    | inr e ↦ let refused : checked test s ≡ none = rw e refl in let left = sc.1 in cc
  ]

  abbrev pub unregistered : String → PipelineState → PipelineState
  unregistered u s = record s { in_flight_uids = discard u s.in_flight_uids }

  abbrev pub spawned : List JobSnapshot → Bool → PipelineState → PipelineState
  spawned rows front s = record s {
    queue = if front then rows ++ s.queue else s.queue ++ rows;
    queue_uids = union s.queue_uids (row_uids rows);
    trigger_skipped_uids = difference s.trigger_skipped_uids (row_uids rows);
  }

  abbrev pub unqueued : String → PipelineState → PipelineState
  unqueued u s = record s { queue = rows_without u s.queue; queue_uids = discard u s.queue_uids }

  abbrev pub replaced : List JobSnapshot → PipelineState → PipelineState
  replaced rows s = record s {
    queue = rows;
    queue_uids = row_uids rows;
    trigger_skipped_uids = difference s.trigger_skipped_uids (row_uids rows);
  }

  abbrev pub as_failed : String → Metadata → PipelineState → PipelineState
  as_failed u m s = record s {
    trigger_skipped_uids = discard u s.trigger_skipped_uids;
    successes = erase u s.successes;
    success_uids = discard u s.success_uids;
    failed = insert u m s.failed;
    failed_uids = add u s.failed_uids;
  }

  abbrev pub as_succeeded : String → Metadata → PipelineState → PipelineState
  as_succeeded u m s = record s {
    trigger_skipped_uids = discard u s.trigger_skipped_uids;
    failed = erase u s.failed;
    failed_uids = discard u s.failed_uids;
    successes = insert u m s.successes;
    success_uids = add u s.success_uids;
  }

  module _ (s : PipelineState) (c : IsConsistent s) where
    pub unregister_in_flight-Leaves :
        (u : String) → Leaves (unregister_in_flight u s) (unregistered u s)
    unfolding unregister_in_flight
    unregister_in_flight-Leaves u =
        exact state_consistent (unregistered u s) (Active.unregister_in_flight-IsConsistent s c u)

    pub requeue_jobs-Leaves :
        (rows : List JobSnapshot) (front : Bool)
        → IsDistinct (row_uids rows)
        → ((u : String) → (contains u (row_uids rows) && contains u s.queue_uids) ≡ false)
        → ((u : String) → (contains u (row_uids rows) && contains u s.in_flight_uids) ≡ false)
        → Leaves (requeue_jobs rows front s) (spawned rows front s)
    unfolding requeue_jobs spawn_jobs
    requeue_jobs-Leaves rows front d fresh idle =
        exact uids_consistent (spawned rows front s)
          (Active.spawn_jobs-IsConsistent s c rows d fresh idle front)

    pub mark_failed-Leaves :
        (u : String) (m : Metadata) → Leaves (mark_failed u m s) (as_failed u m s)
    unfolding mark_failed
    mark_failed-Leaves u m =
        exact terminal_uids_consistent (as_failed u m s) (Terminal.mark_failed-IsConsistent s c u m)

    pub mark_success-Leaves :
        (u : String) (m : Metadata) → Leaves (mark_success u m s) (as_succeeded u m s)
    unfolding mark_success
    mark_success-Leaves u m =
        exact terminal_uids_consistent (as_succeeded u m s)
          (Terminal.mark_success-IsConsistent s c u m)

    pub replace_queue-Leaves :
        (rows : List JobSnapshot)
        → IsDistinct (row_uids rows)
        → ((u : String) → (contains u (row_uids rows) && contains u s.in_flight_uids) ≡ false)
        → Leaves (replace_queue rows s) (replaced rows s)
    unfolding replace_queue
    replace_queue-Leaves rows d idle =
        exact uids_consistent (replaced rows s) (Active.replace_queue-IsConsistent s c rows d idle)
