-- ===== src/Engine/Scheduler.antt =====
-- tasklite/engine/scheduler.py: the read-only scan of the queue for a job to run. The cache of
-- `cached_job`, which spares parsing a row again, is left out: a row is parsed each time.
pub mod Scan
pub mod Ready
use Prim.Native.Nat.{Ordering}
use Prim.Native.String.{compare}
use tasklite.Common.{
  ℕ, zero, suc, ◌+◌, ◌-◌, String, Bool, true, false, not, ◌&&◌, ◌||◌, Option, none, some, List, [],
  ◌∷◌, ◌++◌, map, Dict, lookup, has, contains, union, difference, get_elem?, length, min, nat_eq,
  ◌==◌, eq_string, eq_nat, if◌then◌else◌,
}
use tasklite.Models.Job.{
  Job, JobSnapshot, RowHash, from_dict, uid, job_uid_from_snapshot, Field, absent, null, mistyped,
  value, ◌>>=◌,
}
use tasklite.Models.State.{PipelineState}
use tasklite.Selection.{Rule, allows_task_type}
use tasklite.Selection
use tasklite.Engine.Wait.{Duration, for, forever}
use tasklite.Engine.Resource.{
  ResourceManager, Evaluation, available, wait_for, unknown, impossible, evaluate,
}

pub record JobFacts : Type 0 where
  pub uid : String
  pub task_type : String
  pub resources : List (String × ℕ)
  pub depends_on : List String

-- `sorted(resources.items())`: the names of a dict differ, so they alone decide.
insert_sorted : String × ℕ → List (String × ℕ) → List (String × ℕ)
insert_sorted entry [] = entry ∷ []
insert_sorted entry (other ∷ more) =
    let rest = insert_sorted entry more in
    elim (compare entry.0 other.0) [ Ordering.gt ↦ other ∷ rest | _ ↦ entry ∷ other ∷ more ]

unfoldable pub sorted : List (String × ℕ) → List (String × ℕ)
unfolding insert_sorted
sorted [] = []
sorted (entry ∷ more) = insert_sorted entry (sorted more)

-- `(job.resources or {}).items()`
items : Option (List (String × ℕ)) → List (String × ℕ)
items none = []
items (some resources) = resources

-- `JobFacts.from_job_snapshot`; `none` is an exception.
unfoldable pub from_job_snapshot : JobSnapshot → Option JobFacts
unfolding items
from_job_snapshot d = do
  job ← from_dict d
  some (record {
    uid = uid job;
    task_type = job.task_type;
    resources = sorted (items job.resources);
    depends_on = job.depends_on;
  })

-- `DeadlockAttribution`
pub record DeadlockAttribution : Type 0 where
  pub unknown_resource_uids : List String
  pub missing_dependency_uids : List String
  pub malformed_uids : List String
  pub impossible_resource_uids : List String

abbrev is_nil : List String → Bool
is_nil [] = true
is_nil (u ∷ us) = false

unfoldable pub has_deadlock_causes : DeadlockAttribution → Bool
has_deadlock_causes a = not (
    is_nil a.unknown_resource_uids
    && is_nil a.missing_dependency_uids
    && is_nil a.malformed_uids
    && is_nil a.impossible_resource_uids)

pub data Kind : Type 0 where
  nothing runnable dep_failed : Kind

pub record ScheduleResult : Type 0 where
  pub runnable_idx : Option ℕ
  pub pending_dep_failure : Option String
  pub min_wait : Duration
  pub waiting_for_dependency : Bool
  pub has_potential_spawners : Bool
  pub kind : Kind
  pub attribution : DeadlockAttribution
  pub candidate_uid : Option String

-- `StandstillFacts` and `ScheduleResult.standstill_facts`
pub record StandstillFacts : Type 0 where
  pub min_wait : Duration
  pub waiting_for_dependency : Bool
  pub has_potential_spawners : Bool
  pub attribution : DeadlockAttribution

unfoldable pub standstill_facts : ScheduleResult → StandstillFacts
standstill_facts r = record {
  min_wait = r.min_wait;
  waiting_for_dependency = r.waiting_for_dependency;
  has_potential_spawners = r.has_potential_spawners;
  attribution = r.attribution;
}

-- `FifoOrderingPolicy.visit_order`
unfoldable pub indices_from : ℕ → List JobSnapshot → List ℕ
indices_from i [] = []
indices_from i (row ∷ rows) = i ∷ indices_from (suc i) rows

unfoldable pub visit_order : List JobSnapshot → List ℕ
unfolding indices_from
visit_order queue = indices_from 0 queue

-- What the scan reads of a dependency.
pub data Dependency : Type 0 where
  active trigger_skipped failed_before succeeded deferred missing : Dependency

-- The state and the sets that a scan computes first.
pub record View : Type 0 where
  pub state : PipelineState
  pub rules : List Rule
  pub manager : ResourceManager
  pub pending_or_running : List String
  pub active_uids : List String

unfoldable pub classify : View → String → Dependency
classify v dep =
    if contains dep v.active_uids
    then active
    else if contains dep v.state.trigger_skipped_uids
    then trigger_skipped
    else if has dep v.state.failed
    then failed_before
    else if has dep v.state.successes
    then succeeded
    else if contains dep v.pending_or_running
    then deferred
    else missing

-- `can_run`, `failed_dependency`, `has_missing_dep`, `waiting_for_dep`
pub record DepFacts : Type 0 where
  pub can_run : Bool
  pub failed_dependency : Option String
  pub has_missing_dep : Bool
  pub waiting_for_dep : Bool

abbrev pub ready : DepFacts
ready = record {
  can_run = true;
  failed_dependency = none;
  has_missing_dep = false;
  waiting_for_dep = false;
}

-- The loop over `job.depends_on`; a failed dependency ends it.
unfoldable pub check_dependencies : View → DepFacts → List String → DepFacts
check_dependencies v f [] = f
check_dependencies v f (dep ∷ deps) = elim (classify v dep) [
  | active ↦ check_dependencies v (record f { can_run = false; waiting_for_dep = true }) deps
  | trigger_skipped ↦ check_dependencies v f deps
  | failed_before ↦ record f { can_run = false; failed_dependency = some dep }
  | succeeded ↦ check_dependencies v f deps
  | deferred ↦ check_dependencies v (record f { can_run = false; waiting_for_dep = true }) deps
  | missing ↦ check_dependencies v (record f { can_run = false; has_missing_dep = true }) deps
]

-- What one row comes to. A row is `blocked` where `can_run` is false though its resources are there.
pub data Verdict : Type 0 where
  malformed deselected waiting unknown_resource impossible_resource blocked runs : Verdict
  failed_on : String → Verdict
  misses_dependency : Verdict
  waits : ℕ → Verdict

-- Python's `if failed_dependency:`, which the empty text fails.
unfoldable pub truthy : Option String → Option String
truthy none = none
truthy (some s) = if s == "" then none else some s

unfoldable pub judge_resources : Bool → Evaluation → Verdict
judge_resources can_run available = if can_run then runs else blocked
judge_resources can_run (wait_for t) = waits t
judge_resources can_run (unknown name) = unknown_resource
judge_resources can_run (impossible name) = impossible_resource

unfoldable pub judge_dependencies : DepFacts → Evaluation → Verdict
unfolding truthy judge_resources
judge_dependencies f evaluation = elim (truthy f.failed_dependency) [
  | some dep ↦ failed_on dep
  | none ↦
      if f.has_missing_dep
      then misses_dependency
      else if f.waiting_for_dep
      then waiting
      else judge_resources f.can_run evaluation
]

-- The body of the scan's loop for a row: `clock` is what the clock shows as the row is looked at.
unfoldable pub assess : (String → ℕ) → View → Option JobFacts → Verdict
unfolding judge_dependencies
assess clock v none = malformed
assess clock v (some job) =
    if Selection.is_active v.rules && not (allows_task_type v.rules job.task_type)
    then deselected
    else judge_dependencies (check_dependencies v ready job.depends_on)
        (evaluate clock v.manager job.task_type job.resources)
