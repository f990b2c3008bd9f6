-- ===== src/Models/State.antt =====
-- tasklite/models/state.py: the state of a pipeline in memory. A method that changes the state
-- returns the new one, or `none` where Python raises: an index out of range, or an assertion of the
-- debug checks.
pub mod Consistent
pub mod Terminal
pub mod Active
pub mod Cascade
pub mod Runs
use tasklite.Common.{
  ℕ, String, Bool, true, false, not, ◌&&◌, ◌||◌, Option, none, some, List, [], ◌∷◌, ◌++◌, map, Dict,
  lookup, insert, erase, has, keys, contains, add, discard, union, difference, intersection,
  same_set, keep, get_elem?, erase_idx, ◌==◌, eq_string, if◌then◌else◌,
}
use tasklite.Models.Json.{Json}
use tasklite.Models.Job.{JobSnapshot, RowHash, job_uid_from_snapshot, ◌>>=◌}

-- The metadata of a finished job: a JSON object.
abbrev pub Metadata : Type 0
Metadata = Dict String Json

pub record PipelineState : Type 0 where
  pub successes : Dict String Metadata
  pub failed : Dict String Metadata
  pub cursors : Dict String String
  pub queue : List JobSnapshot
  pub success_uids : List String
  pub failed_uids : List String
  pub queue_uids : List String
  pub in_flight_uids : List String
  pub trigger_skipped_uids : List String

-- What an `assert` keeps.
abbrev pub checked : (PipelineState → Bool) → PipelineState → Option PipelineState
checked test s = if test s then some s else none

-- `_assert_terminal_uids_consistent`
unfoldable pub terminal_uids_consistent : PipelineState → Bool
terminal_uids_consistent s =
    same_set s.success_uids (keys s.successes) && same_set s.failed_uids (keys s.failed)

abbrev is_nil : List String → Bool
is_nil [] = true
is_nil (u ∷ us) = false

module _ ⦃h : RowHash⦄ where
  -- `{job_uid_from_snapshot(j) for j in rows}`
  unfoldable pub row_uids : List JobSnapshot → List String
  row_uids rows = map job_uid_from_snapshot rows

  -- `PipelineState.__init__`
  unfoldable pub new_state :
      Dict String Metadata
      → Dict String Metadata
      → Dict String String
      → List JobSnapshot
      → PipelineState
  new_state successes failed cursors queue = record {
    successes = successes;
    failed = failed;
    cursors = cursors;
    queue = queue;
    success_uids = keys successes;
    failed_uids = keys failed;
    queue_uids = row_uids queue;
    in_flight_uids = [];
    trigger_skipped_uids = [];
  }

  -- `_assert_uids_consistent`
  unfoldable pub uids_consistent : PipelineState → Bool
  uids_consistent s = same_set s.queue_uids (row_uids s.queue)

  -- `_assert_state_consistent`
  unfoldable pub state_consistent : PipelineState → Bool
  state_consistent s =
      is_nil (intersection s.queue_uids s.in_flight_uids)
      && is_nil (intersection s.success_uids s.failed_uids)
      && uids_consistent s
      && terminal_uids_consistent s

  unfoldable pub pop_job : ℕ → PipelineState → Option (JobSnapshot × PipelineState)
  pop_job idx s = do
    row ← get_elem? s.queue idx
    let uid = job_uid_from_snapshot row
    popped ←
        checked uids_consistent
          (record s { queue = erase_idx s.queue idx; queue_uids = discard uid s.queue_uids })
    some (row, popped)

  unfoldable pub spawn_jobs : List JobSnapshot → Bool → PipelineState → Option PipelineState
  spawn_jobs rows front s = checked uids_consistent (record s {
    queue = if front then rows ++ s.queue else s.queue ++ rows;
    queue_uids = union s.queue_uids (row_uids rows);
    trigger_skipped_uids = difference s.trigger_skipped_uids (row_uids rows);
  })

  unfoldable pub requeue_jobs : List JobSnapshot → Bool → PipelineState → Option PipelineState
  requeue_jobs rows front s = spawn_jobs rows front s

  -- The rows whose uid is another one.
  unfoldable pub rows_without : String → List JobSnapshot → List JobSnapshot
  rows_without uid rows = keep (λ row. not (job_uid_from_snapshot row == uid)) rows

  unfoldable pub remove_queued_uid : String → PipelineState → Option PipelineState
  remove_queued_uid uid s =
      if contains uid s.queue_uids
      then checked uids_consistent
          (record s { queue = rows_without uid s.queue; queue_uids = discard uid s.queue_uids })
      else some s

  unfoldable pub register_in_flight : String → PipelineState → Option PipelineState
  register_in_flight uid s =
      checked state_consistent (record s { in_flight_uids = add uid s.in_flight_uids })

  unfoldable pub unregister_in_flight : String → PipelineState → Option PipelineState
  unregister_in_flight uid s =
      checked state_consistent (record s { in_flight_uids = discard uid s.in_flight_uids })

  unfoldable pub clear_in_flight : PipelineState → Option PipelineState
  clear_in_flight s = checked state_consistent (record s { in_flight_uids = [] })

  unfoldable pub replace_queue : List JobSnapshot → PipelineState → Option PipelineState
  replace_queue rows s = checked uids_consistent (record s {
    queue = rows;
    queue_uids = row_uids rows;
    trigger_skipped_uids = difference s.trigger_skipped_uids (row_uids rows);
  })

unfoldable pub mark_success : String → Metadata → PipelineState → Option PipelineState
mark_success uid metadata s = checked terminal_uids_consistent (record s {
  trigger_skipped_uids = discard uid s.trigger_skipped_uids;
  failed = erase uid s.failed;
  failed_uids = discard uid s.failed_uids;
  successes = insert uid metadata s.successes;
  success_uids = add uid s.success_uids;
})

unfoldable pub mark_failed : String → Metadata → PipelineState → Option PipelineState
mark_failed uid metadata s = checked terminal_uids_consistent (record s {
  trigger_skipped_uids = discard uid s.trigger_skipped_uids;
  successes = erase uid s.successes;
  success_uids = discard uid s.success_uids;
  failed = insert uid metadata s.failed;
  failed_uids = add uid s.failed_uids;
})

-- The loop of `update_cursors`; `none` deletes a cursor.
unfoldable pub merge_cursors :
    List (String × Option String) → Dict String String → Dict String String
merge_cursors [] cursors = cursors
merge_cursors ((k, some v) ∷ more) cursors = merge_cursors more (insert k v cursors)
merge_cursors ((k, none) ∷ more) cursors = merge_cursors more (erase k cursors)

unfoldable pub update_cursors : List (String × Option String) → PipelineState → PipelineState
update_cursors updates s = record s { cursors = merge_cursors updates s.cursors }

unfoldable pub discard_success : String → PipelineState → Option PipelineState
discard_success uid s =
    checked terminal_uids_consistent
      (record s { successes = erase uid s.successes; success_uids = discard uid s.success_uids })

unfoldable pub discard_failed : String → PipelineState → Option PipelineState
discard_failed uid s =
    checked terminal_uids_consistent
      (record s { failed = erase uid s.failed; failed_uids = discard uid s.failed_uids })

unfoldable pub add_success : String → Metadata → PipelineState → Option PipelineState
add_success uid metadata s = checked terminal_uids_consistent (record s {
  successes = insert uid metadata s.successes;
  success_uids = add uid s.success_uids;
})

unfoldable pub set_cursor : String → String → PipelineState → PipelineState
set_cursor key v s = record s { cursors = insert key v s.cursors }

unfoldable pub mark_trigger_skipped : String → PipelineState → PipelineState
mark_trigger_skipped uid s = record s { trigger_skipped_uids = add uid s.trigger_skipped_uids }

unfoldable pub dependency_ready : PipelineState → String → Bool
dependency_ready s uid =
    not (contains uid s.queue_uids)
    && not (contains uid s.in_flight_uids)
    && (contains uid s.success_uids || contains uid s.trigger_skipped_uids)

unfoldable pub is_known : PipelineState → String → Bool
is_known s uid =
    has uid s.successes
    || has uid s.failed
    || contains uid s.queue_uids
    || contains uid s.in_flight_uids
