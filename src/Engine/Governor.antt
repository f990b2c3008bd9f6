-- ===== src/Engine/Governor.antt =====
-- tasklite/engine/governor.py: what happens when the scan finds nothing to run. Times are whole
-- milliseconds.
pub mod Arbitrate
pub mod Grace
pub mod Decides
pub mod OverStore
use tasklite.Common.{
  ℕ, ◌+◌, String, Bool, true, false, not, ◌&&◌, ◌||◌, Option, none, some, List, [], ◌∷◌, map, keep,
  every, exists, contains, add, get_elem?, same_set, ltb, eq_string, ◌==◌, if◌then◌else◌,
}
use tasklite.Models.Job.{
  JobSnapshot, RowHash, Job, from_dict, job_uid_from_snapshot, ℤ, pos, negsuc, ◌>>=◌,
}
use tasklite.Models.Json.{text, flag}
use tasklite.Models.State.{Metadata, PipelineState, dependency_ready}
use tasklite.Engine.Wait.{Duration, for, forever}
use tasklite.Engine.Scheduler.{StandstillFacts, DeadlockAttribution, has_deadlock_causes}
use tasklite.Engine.Store.Exits.{BulkFailureOutcome}

-- `SelectionStandstill` of tasklite/engine/selection.py
pub record SelectionStandstill : Type 0 where
  pub excluded_uids : List String
  pub blocked_uids : List String
  pub unblocked_uids : List String
  pub stuck_uids : List String
  pub cycle_uids : List String
  pub blocked_by : List (String × String)

abbrev pub is_nil : List String → Bool
is_nil [] = true
is_nil (u ∷ us) = false

unfoldable pub only_blocked_by_exclusion : SelectionStandstill → Bool
only_blocked_by_exclusion s = is_nil s.stuck_uids && is_nil s.unblocked_uids

-- `ArbitrationStore` and `SelectionStandstillSource`. `apply_bulk_failure` is `none` where it raises;
-- `partition_standstill` is there if the selection is active.
pub record Arbitration (X : Type 0) : Type 0 where
  pub state : X → PipelineState
  pub find_dependency_cycles : PipelineState → List String
  pub apply_bulk_failure : List (String × Metadata) → X → Option (BulkFailureOutcome × X)
  pub partition_standstill : Option (X → Option SelectionStandstill)

pub data Action : Type 0 where
  resolved selection_blocked grace_waiting gap_retrying no_deadlock : Action

pub record DeadlockDecision : Type 0 where
  pub action : Action
  pub should_terminate : Bool
  pub wait_time : ℕ
  pub failed_uids : List String
  pub cascaded_uids : List String
  pub standstill : Option SelectionStandstill

abbrev pub decision : Action → Bool → ℕ → DeadlockDecision
decision action should_terminate wait_time = record {
  action = action;
  should_terminate = should_terminate;
  wait_time = wait_time;
  failed_uids = [];
  cascaded_uids = [];
  standstill = none;
}

pub record DeadlockGovernor : Type 0 where
  pub dependency_grace : ℕ
  pub deadlock_gap_max_rounds : ℕ
  pub dep_grace_deadline : Option ℕ
  pub dep_grace_missing : Option (List String)
  pub deadlock_gap_rounds : ℕ

unfoldable pub reset : DeadlockGovernor → DeadlockGovernor
reset g = record g { dep_grace_deadline = none; dep_grace_missing = none; deadlock_gap_rounds = 0 }

unfoldable pub end_grace_episode : DeadlockGovernor → DeadlockGovernor
end_grace_episode g = record g { dep_grace_deadline = none; dep_grace_missing = none }

unfoldable pub record_dispatch_progress : DeadlockGovernor → DeadlockGovernor
unfolding end_grace_episode
record_dispatch_progress g =
    let ended : DeadlockGovernor = elim g.dep_grace_deadline [
      | none ↦ g
      | some d ↦ end_grace_episode g
    ] in
    record ended { deadlock_gap_rounds = 0 }

abbrev or_else : Option ℕ → ℕ → ℕ
or_else none n = n
or_else (some m) n = m

-- `_grant_or_expire`: whether the grace goes on.
unfoldable pub grant_or_expire : ℕ → ℕ → DeadlockGovernor → Bool × DeadlockGovernor
grant_or_expire now grace g =
    let deadline = or_else g.dep_grace_deadline (now + grace) in
    if ltb now deadline
    then (true, record g { dep_grace_deadline = some deadline })
    else (false, end_grace_episode g)

-- What a caller names a job by: its uid, or its index in the queue.
pub data Identifier : Type 0 where
  uid_of : String → Identifier
  index : ℤ → Identifier

module _ ⦃h : RowHash⦄ where
  named_uids : List JobSnapshot → Identifier → List String → List String
  named_uids queue (uid_of u) us = add u us
  named_uids queue (index (negsuc n)) us = us
  named_uids queue (index (pos n)) us = elim (get_elem? queue n) [
    | none ↦ us
    | some row ↦ add (job_uid_from_snapshot row) us
  ]

  -- The set `missing_uids`.
  unfoldable pub missing_uids : List JobSnapshot → List Identifier → List String → List String
  unfolding named_uids
  missing_uids queue [] us = us
  missing_uids queue (i ∷ is) us = missing_uids queue is (named_uids queue i us)

  -- A row of the queue, not missing anything itself, whose dependencies are all done.
  unfoldable pub is_spawner : PipelineState → List String → JobSnapshot → Bool
  is_spawner s missing row =
      not (contains (job_uid_from_snapshot row) missing) && elim (from_dict row) [
        | none ↦ false
        | some job ↦ every (dependency_ready s) job.depends_on
      ]

-- `self.dep_grace_missing is not None and self.dep_grace_missing != missing_uids`
unfoldable pub is_new_episode : Option (List String) → List String → Bool
is_new_episode none missing = false
is_new_episode (some before) missing = not (same_set before missing)

-- `now - deadline > grace`
unfoldable pub is_stale : Option ℕ → ℕ → ℕ → Bool
is_stale none now grace = false
is_stale (some deadline) now grace = ltb (deadline + grace) now

-- The governor before the decision on a set of missing uids.
unfoldable pub enter_episode : List String → ℕ → ℕ → DeadlockGovernor → DeadlockGovernor
enter_episode missing now grace g =
    let deadline : Option ℕ =
      if is_new_episode g.dep_grace_missing missing then none else g.dep_grace_deadline in
    let entered = record g { dep_grace_deadline = deadline; dep_grace_missing = some missing } in
    if is_stale deadline now grace then end_grace_episode entered else entered

module _ ⦃h : RowHash⦄ where
  abbrev judge_spawners : Option Bool → Bool → ℕ → ℕ → DeadlockGovernor → Bool × DeadlockGovernor
  judge_spawners (some false) found now grace g = (false, end_grace_episode g)
  judge_spawners (some true) found now grace g = grant_or_expire now grace g
  judge_spawners none true now grace g = grant_or_expire now grace g
  judge_spawners none false now grace g = (false, g)

  unfoldable pub check_dependency_grace :
      PipelineState
      → List Identifier
      → Option Bool
      → ℕ
      → ℕ
      → DeadlockGovernor
      → Bool × DeadlockGovernor
  check_dependency_grace s identifiers has_potential_spawners now grace g =
      let missing = missing_uids s.queue identifiers [] in
      if is_nil missing
      then (false, g)
      else judge_spawners has_potential_spawners (exists (is_spawner s missing) s.queue) now grace
          (enter_episode missing now grace g)

-- `check_gap_or_escalate`: whether the limit is reached.
unfoldable pub check_gap_or_escalate : ℕ → DeadlockGovernor → Bool × DeadlockGovernor
check_gap_or_escalate max_rounds g =
    let rounds = g.deadlock_gap_rounds + 1 in
    (not (ltb rounds max_rounds), record g { deadlock_gap_rounds = rounds })
