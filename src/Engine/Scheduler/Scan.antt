-- ===== src/Engine/Scheduler/Scan.antt =====
-- `JobScheduler.scan_next_runnable` of tasklite/engine/scheduler.py: the loop over the queue and
-- what it makes of its findings.
pub mod First
use tasklite.Common.{
  ℕ, zero, suc, String, Bool, true, false, not, ◌&&◌, ◌||◌, Option, none, some, List, [], ◌∷◌, ◌++◌,
  contains, union, difference, get_elem?, min, nat_eq, ◌==◌, eq_string, if◌then◌else◌,
}
use tasklite.Models.Job.{JobSnapshot, RowHash, job_uid_from_snapshot, Field, value, ◌>>=◌}
use tasklite.Models.State.{PipelineState}
use tasklite.Selection.{Rule, allows_task_type}
use tasklite.Selection
use tasklite.Engine.Wait.{Duration, for, forever}
use tasklite.Engine.Resource.{ResourceManager}
use tasklite.Engine.Scheduler.{
  JobFacts, from_job_snapshot, DeadlockAttribution, has_deadlock_causes, Kind, nothing, runnable,
  dep_failed, ScheduleResult, View, Verdict, malformed, deselected, waiting, unknown_resource,
  impossible_resource, blocked, runs, failed_on, misses_dependency, waits, assess,
}

-- What the loop has found so far. `first_dep_failed` is `dep_failed_idx` with `pending_dep_failure`,
-- which are set together.
pub record Scan : Type 0 where
  pub min_wait : Duration
  pub waiting_for_dependency : Bool
  pub has_potential_spawners : Bool
  pub first_dep_failed : Option (ℕ × String)
  pub attribution : DeadlockAttribution

abbrev pub nothing_found : Scan
nothing_found = record {
  min_wait = forever;
  waiting_for_dependency = false;
  has_potential_spawners = false;
  first_dep_failed = none;
  attribution = record {
    unknown_resource_uids = [];
    missing_dependency_uids = [];
    malformed_uids = [];
    impossible_resource_uids = [];
  };
}

abbrev pub shorter : Duration → ℕ → Duration
shorter forever t = for t
shorter (for w) t = for (min w t)

first_of : Option (ℕ × String) → ℕ → String → Option (ℕ × String)
first_of none i dep = some (i, dep)
first_of (some found) i dep = some found

-- What a row's verdict adds to the findings.
unfoldable pub note : Verdict → ℕ → String → Scan → Scan
unfolding first_of
note malformed i uid s =
    let a = s.attribution in
    record s { attribution = record a { malformed_uids = a.malformed_uids ++ uid ∷ [] } }
note deselected i uid s = s
note (failed_on dep) i uid s = record s { first_dep_failed = first_of s.first_dep_failed i dep }
note misses_dependency i uid s =
    let a = s.attribution in
    record s {
      waiting_for_dependency = true;
      attribution = record a { missing_dependency_uids = a.missing_dependency_uids ++ uid ∷ [] };
    }
note waiting i uid s = record s { waiting_for_dependency = true }
note unknown_resource i uid s =
    let a = s.attribution in
    record s {
      has_potential_spawners = true;
      min_wait = forever;
      attribution = record a { unknown_resource_uids = a.unknown_resource_uids ++ uid ∷ [] };
    }
note impossible_resource i uid s =
    let a = s.attribution in
    record s {
      has_potential_spawners = true;
      attribution = record a { impossible_resource_uids = a.impossible_resource_uids ++ uid ∷ [] };
    }
note (waits t) i uid s = record s { has_potential_spawners = true; min_wait = shorter s.min_wait t }
note blocked i uid s = record s { has_potential_spawners = true }
note runs i uid s = record s { has_potential_spawners = true }

-- The end of the scan: without a job to run, the first row with a failed dependency is the
-- candidate.
candidate : Option ℕ → Option (ℕ × String) → Kind × Option ℕ × Option String
candidate (some i) found = (runnable, some i, none)
candidate none (some (i, dep)) = (dep_failed, some i, some dep)
candidate none none = (nothing, none, none)

abbrev pub is_runs : Verdict → Bool
is_runs runs = true
is_runs _ = false

module _ ⦃h : RowHash⦄ where
  unfoldable pub row_uid : JobSnapshot → Option JobFacts → String
  row_uid row none = job_uid_from_snapshot row
  row_uid row (some job) = job.uid

  unfoldable pub scan_rows :
      (ℕ → String → ℕ) → View → List JobSnapshot → List ℕ → Scan → Option (Option ℕ × Scan)
  unfolding row_uid
  scan_rows clock v queue [] s = some (none, s)
  scan_rows clock v queue (i ∷ order) s = do
    row ← get_elem? queue i
    let facts = from_job_snapshot row
    let uid = row_uid row facts
    let verdict = assess (clock i) v facts
    let seen = note verdict i uid s
    let rest = scan_rows clock v queue order seen
    if is_runs verdict then some (some i, seen) else rest

  -- Rows whose task type is selected away still count as pending, not as active.
  excluded_row : List Rule → Field String → Bool
  excluded_row rules (value t) = not (t == "") && not (allows_task_type rules t)
  excluded_row rules _ = false

  unfoldable pub excluded_uids : List Rule → List JobSnapshot → List String
  unfolding excluded_row
  excluded_uids rules [] = []
  excluded_uids rules (row ∷ rows) =
      let rest = excluded_uids rules rows in
      if excluded_row rules row.task_type then job_uid_from_snapshot row ∷ rest else rest

  unfoldable pub view : PipelineState → List String → List Rule → ResourceManager → View
  view state in_flight rules manager =
      let pending = union state.queue_uids in_flight in
      record {
        state = state;
        rules = rules;
        manager = manager;
        pending_or_running = pending;
        active_uids =
            difference pending
              (if Selection.is_active rules then excluded_uids rules state.queue else []);
      }

  unfoldable pub conclude : List JobSnapshot → Option ℕ → Scan → ScheduleResult
  unfolding candidate
  conclude queue found s =
      let (kind, idx, failure) = candidate found s.first_dep_failed in
      record {
        runnable_idx = idx;
        pending_dep_failure = failure;
        min_wait = if has_deadlock_causes s.attribution then forever else s.min_wait;
        waiting_for_dependency = s.waiting_for_dependency;
        has_potential_spawners = s.has_potential_spawners;
        kind = kind;
        attribution = s.attribution;
        candidate_uid = do
          i ← idx
          row ← get_elem? queue i
          some (job_uid_from_snapshot row);
      }

  -- `order` is what the ordering policy returns; an index beyond the queue raises. `rules` is empty
  -- where no selection is set.
  unfoldable pub scan_next_runnable :
      (ℕ → String → ℕ)
      → ResourceManager
      → List Rule
      → List ℕ
      → PipelineState
      → List String
      → Option ScheduleResult
  scan_next_runnable clock manager rules order state in_flight = do
    (found, s) ←
        scan_rows clock (view state in_flight rules manager) state.queue order nothing_found
    some (conclude state.queue found s)
