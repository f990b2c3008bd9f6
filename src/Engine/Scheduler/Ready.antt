-- ===== src/Engine/Scheduler/Ready.antt =====
-- Which rows the scan lets run.
use tasklite.Common.{
  ℕ, suc, ◌+◌, ◌≤◌, String, Bool, true, false, not, ◌&&◌, ◌||◌, ◌≡◌, ◌↔◌, inl, inr, refl, sym, ◌∙◌,
  some, List, [], ◌∷◌, every, length, has, contains, union, contains-union, contains-difference,
  Bool-cases, eq_string, arith,
}
use tasklite.Models.Job.{JobSnapshot, RowHash}
use tasklite.Engine.Scheduler.Scan.{view}
use tasklite.Engine.Scheduler.Scan.First.{AreWithin}
use tasklite.Models.State.{PipelineState, dependency_ready}
use tasklite.Models.State.Consistent.{IsConsistent}
use tasklite.Selection
use tasklite.Selection.{allows_task_type}
use tasklite.Engine.Resource.{ResourceManager, Evaluation, available, evaluate}
use tasklite.Engine.Scheduler.{
  JobFacts, visit_order, indices_from, View, DepFacts, ready, classify, check_dependencies, runs,
  deselected, assess, judge_dependencies, judge_resources, truthy,
}

-- A dependency that keeps no job from running.
abbrev pub is_satisfied : View → String → Bool
is_satisfied v dep =
    not (contains dep v.active_uids)
    && (contains dep v.state.trigger_skipped_uids
        || not (has dep v.state.failed) && has dep v.state.successes)

check_dependencies_can_run :
    (v : View) (f : DepFacts) (deps : List String)
    → (check_dependencies v f deps).can_run ≡ (f.can_run && every (is_satisfied v) deps)
unfolding check_dependencies classify every
check_dependencies_can_run v f [] = ground arith
check_dependencies_can_run v f (dep ∷ deps) = ground (
  arith,
  check_dependencies_can_run v f deps,
  check_dependencies_can_run v (record f { can_run = false; waiting_for_dep = true }) deps,
  check_dependencies_can_run v (record f { can_run = false; has_missing_dep = true }) deps,
)

check_dependencies_satisfied :
    (v : View) (f : DepFacts) (deps : List String)
    → every (is_satisfied v) deps ≡ true
    → check_dependencies v f deps ≡ f
unfolding check_dependencies classify every
check_dependencies_satisfied v f [] h = refl
check_dependencies_satisfied v f (dep ∷ deps) h =
    ground (arith, check_dependencies_satisfied v f deps)

judge_runs :
    (f : DepFacts) (evaluation : Evaluation)
    → judge_dependencies f evaluation ≡ runs
    → (f.can_run ≡ true) × (evaluation ≡ available)
unfolding judge_dependencies judge_resources
judge_runs f evaluation h = ground arith

-- A row that parses runs exactly if the selection lets its type run, no dependency of it is active
-- and each was skipped by a trigger, or is among the successes and not among the failures, and
-- `evaluate` finds its resources available.
pub assess_runs :
    (clock : String → ℕ) (v : View) (job : JobFacts)
    → (assess clock v (some job) ≡ runs) ↔ (
        ((Selection.is_active v.rules && not (allows_task_type v.rules job.task_type)) ≡ false)
        × (every (is_satisfied v) job.depends_on ≡ true)
        × (evaluate clock v.manager job.task_type job.resources ≡ available))
unfolding assess judge_dependencies judge_resources truthy
assess_runs clock v job =
    let left_out = Selection.is_active v.rules && not (allows_task_type v.rules job.task_type) in
    let f = check_dependencies v ready job.depends_on in
    let evaluation = evaluate clock v.manager job.task_type job.resources in
    (
      λ h. elim (Bool-cases left_out) [
        | inl out ↦ let wrong : assess clock v (some job) ≡ deselected = rw (out, assess) refl in cc
        | inr in_ ↦
            let judged : assess clock v (some job) ≡ judge_dependencies f evaluation =
              rw (in_, assess) refl in
            let (can, found) = judge_runs f evaluation (sym judged ∙ h) in
            (in_, sym (check_dependencies_can_run v ready job.depends_on) ∙ can, found)
      ],
      λ (in_, satisfied, found).
          rw (in_, assess, check_dependencies_satisfied v ready job.depends_on satisfied, found)
            refl,
    )

satisfied-dependency_ready :
    ⦃h : RowHash⦄ (s : PipelineState) (manager : ResourceManager) (dep : String)
    → IsConsistent s
    → is_satisfied (view s s.in_flight_uids [] manager) dep ≡ dependency_ready s dep
unfolding view dependency_ready contains Selection.is_active
satisfied-dependency_ready s manager dep c = ground (
  arith,
  contains-difference dep (union s.queue_uids s.in_flight_uids) [],
  contains-union dep s.queue_uids s.in_flight_uids,
  c.succeeded dep,
  c.one_outcome dep,
)

every_satisfied :
    ⦃h : RowHash⦄ (s : PipelineState) (manager : ResourceManager) (deps : List String)
    → IsConsistent s
    → every (is_satisfied (view s s.in_flight_uids [] manager)) deps
      ≡ every (dependency_ready s) deps
unfolding every
every_satisfied s manager [] c = refl
every_satisfied s manager (dep ∷ deps) c =
    rw (satisfied-dependency_ready s manager dep c) (rw (every_satisfied s manager deps c) refl)

-- In a consistent state, and without a selection, the scan's loop over the dependencies of a job lets
-- it run exactly if `PipelineState.dependency_ready` holds for each of them.
pub check_dependencies-dependency_ready :
    ⦃h : RowHash⦄ (s : PipelineState) (manager : ResourceManager) (deps : List String)
    → IsConsistent s
    → (check_dependencies (view s s.in_flight_uids [] manager) ready deps).can_run
      ≡ every (dependency_ready s) deps
check_dependencies-dependency_ready s manager deps c =
    check_dependencies_can_run (view s s.in_flight_uids [] manager) ready deps
    ∙ every_satisfied s manager deps c

indices_from-AreWithin :
    (i : ℕ) (rows queue : List JobSnapshot)
    → i + length rows ≤ length queue
    → AreWithin (indices_from i rows) queue
unfolding indices_from
indices_from-AreWithin i [] queue h = tt
indices_from-AreWithin i (row ∷ rows) queue h =
    (omega arith, indices_from-AreWithin (suc i) rows queue (omega arith))

-- The default policy visits indices of the queue only.
pub visit_order-AreWithin : (queue : List JobSnapshot) → AreWithin (visit_order queue) queue
unfolding visit_order
visit_order-AreWithin queue = indices_from-AreWithin 0 queue queue (omega arith)
