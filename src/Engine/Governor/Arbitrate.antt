-- ===== src/Engine/Governor/Arbitrate.antt =====
-- tasklite/engine/governor.py: `arbitrate`, which names the jobs that a standstill fails.
use tasklite.Common.{
  ℕ, String, Bool, true, false, not, ◌&&◌, ◌||◌, Option, none, some, List, [], ◌∷◌, map, keep,
  contains, eq_string, if◌then◌else◌,
}
use tasklite.Models.Job.{JobSnapshot, RowHash, job_uid_from_snapshot}
use tasklite.Models.Json.{text, flag}
use tasklite.Models.State.{Metadata}
use tasklite.Engine.Wait.{Duration, for, forever}
use tasklite.Engine.Scheduler.{StandstillFacts, has_deadlock_causes}
use tasklite.Engine.Store.Exits.{BulkFailureOutcome}
use tasklite.Engine.Governor.{
  SelectionStandstill, only_blocked_by_exclusion, is_nil, Arbitration, Action, resolved,
  selection_blocked, grace_waiting, gap_retrying, no_deadlock, DeadlockDecision, decision,
  DeadlockGovernor, uid_of, check_dependency_grace, check_gap_or_escalate,
}

abbrev pub root_cause : String → Metadata
root_cause error = ("error_message", text error) ∷ ("root_cause", flag true) ∷ []

abbrev pub is_target : Option (List String) → String → Bool
is_target none u = true
is_target (some targets) u = contains u targets

-- `_split_deadlock_by_uids`
unfoldable pub split_deadlock_by_uids :
    ⦃h : RowHash⦄ → List JobSnapshot → Option (List String) → String → List (String × Metadata)
split_deadlock_by_uids queue targets error =
    map (λ row. (job_uid_from_snapshot row, root_cause error))
      (keep (λ row. is_target targets (job_uid_from_snapshot row)) queue)

abbrev pub row_count_is_zero : List JobSnapshot → Bool
row_count_is_zero [] = true
row_count_is_zero (row ∷ rows) = false

-- What `_resolve_deadlock` comes to before it writes: failures, or a decision to wait.
pub data Ruling : Type 0 where
  fails : List (String × Metadata) → Ruling
  waits : Action → Ruling

abbrev standstill_cycles : Option SelectionStandstill → List String
standstill_cycles none = []
standstill_cycles (some s) = s.cycle_uids

-- The cycles that the governor goes by.
unfoldable pub cycles : {X : Type 0} → Arbitration X → Option SelectionStandstill → X → List String
cycles a standstill x = elim a.partition_standstill [
  | none ↦ a.find_dependency_cycles (a.state x)
  | some partition ↦ standstill_cycles standstill
]

module _ ⦃h : RowHash⦄ where
  abbrev pub gap_ruling : List JobSnapshot → Bool × DeadlockGovernor → Ruling × DeadlockGovernor
  gap_ruling queue (true, g) =
      (fails (split_deadlock_by_uids queue none "DEADLOCK_CLASSIFICATION_GAP"), g)
  gap_ruling queue (false, g) = (waits gap_retrying, g)

  abbrev pub grace_ruling :
      List JobSnapshot → List String → Bool × DeadlockGovernor → Ruling × DeadlockGovernor
  grace_ruling queue missing (true, g) = (waits grace_waiting, record g { deadlock_gap_rounds = 0 })
  grace_ruling queue missing (false, g) =
      (fails (split_deadlock_by_uids queue (some missing) "DEPENDENCY_DEADLOCK"), g)

  -- The chain of causes of `_resolve_deadlock`.
  unfoldable pub rule :
      {X : Type 0}
      → ℕ
      → StandstillFacts
      → Arbitration X
      → Option SelectionStandstill
      → X
      → DeadlockGovernor
      → Ruling × DeadlockGovernor
  rule now facts a standstill x g =
      let s = a.state x in
      let queue = s.queue in
      let attr = facts.attribution in
      let looped = cycles a standstill x in
      let gap = gap_ruling queue (check_gap_or_escalate g.deadlock_gap_max_rounds g) in
      if not (is_nil attr.malformed_uids)
      then (fails (split_deadlock_by_uids queue (some attr.malformed_uids) "MALFORMED_JOB"), g)
      else if not (is_nil attr.unknown_resource_uids)
      then (
        fails (split_deadlock_by_uids queue (some attr.unknown_resource_uids) "RESOURCE_DEADLOCK"),
        g,
      )
      else if not (is_nil attr.missing_dependency_uids)
      then grace_ruling queue attr.missing_dependency_uids (
          check_dependency_grace s (map uid_of attr.missing_dependency_uids)
            (some facts.has_potential_spawners) now g.dependency_grace g)
      else if not (is_nil attr.impossible_resource_uids)
      then (
        fails
            (split_deadlock_by_uids queue (some attr.impossible_resource_uids) "RESOURCE_DEADLOCK"),
        g,
      )
      else if facts.waiting_for_dependency && not (is_nil looped)
      then (fails (split_deadlock_by_uids queue (some looped) "DEPENDENCY_DEADLOCK"), g)
      else gap

  -- The end of a resolution that may have left the queue empty.
  unfoldable pub archived_decision :
      {X : Type 0} → Arbitration X → Bool → BulkFailureOutcome × X → DeadlockDecision × X
  archived_decision a some_failed (outcome, x) = (
    record (decision resolved (some_failed && row_count_is_zero (a.state x).queue) 0) {
      failed_uids = outcome.failed_uids;
      cascaded_uids = outcome.cascaded_uids;
    },
    x,
  )

  -- Nothing was archived and stuck jobs are left: they are archived for the gap.
  unfoldable pub after_fallback :
      {X : Type 0} → Arbitration X → Option (BulkFailureOutcome × X) → Option (DeadlockDecision × X)
  after_fallback a none = none
  after_fallback a (some (outcome, x)) = some (
      if is_nil outcome.failed_uids
      then (decision resolved true 0, x)
      else archived_decision a true (outcome, x))

  unfoldable pub converge :
      {X : Type 0} → Arbitration X → Option SelectionStandstill → X → Option (DeadlockDecision × X)
  converge a none x = some (decision resolved true 0, x)
  converge a (some s) x =
      if only_blocked_by_exclusion s
      then some (record (decision selection_blocked true 0) { standstill = some s }, x)
      else if is_nil s.stuck_uids
      then some (decision resolved true 0, x)
      else after_fallback a (
          a.apply_bulk_failure
            (map (λ u. (u, root_cause "DEADLOCK_CLASSIFICATION_GAP")) s.stuck_uids) x)

  -- What follows the batch of failures.
  unfoldable pub after_batch :
      {X : Type 0} → Arbitration X → Option (BulkFailureOutcome × X) → Option (DeadlockDecision × X)
  after_batch a none = none
  after_batch a (some (outcome, x)) = elim a.partition_standstill [
    | none ↦ some (archived_decision a (not (is_nil outcome.failed_uids)) (outcome, x))
    | some partition ↦
        if is_nil outcome.failed_uids
        then converge a (partition x) x
        else some (archived_decision a true (outcome, x))
  ]

  abbrev pub with_governor :
      {X : Type 0}
      → DeadlockGovernor
      → Option (DeadlockDecision × X)
      → Option (DeadlockDecision × X × DeadlockGovernor)
  with_governor g none = none
  with_governor g (some (d, x)) = some (d, x, record g { deadlock_gap_rounds = 0 })

  -- The ruling, carried out.
  unfoldable pub carry_out :
      {X : Type 0}
      → Arbitration X
      → X
      → Ruling × DeadlockGovernor
      → Option (DeadlockDecision × X × DeadlockGovernor)
  carry_out a x (waits action, g) = some (decision action false 500, x, g)
  carry_out a x (fails uids_metas, g) =
      with_governor g (after_batch a (a.apply_bulk_failure uids_metas x))

  abbrev pub standstill_of :
      {X : Type 0} → Option (X → Option SelectionStandstill) → X → Option SelectionStandstill
  standstill_of none x = none
  standstill_of (some partition) x = partition x

  abbrev pub blocked_only : Option SelectionStandstill → Bool
  blocked_only none = false
  blocked_only (some s) = only_blocked_by_exclusion s

  abbrev pub is_forever : Duration → Bool
  is_forever forever = true
  is_forever (for t) = false

  -- `arbitrate` of facts.
  unfoldable pub arbitrate :
      {X : Type 0}
      → ℕ
      → StandstillFacts
      → Arbitration X
      → X
      → DeadlockGovernor
      → Option (DeadlockDecision × X × DeadlockGovernor)
  arbitrate now facts a x g =
      let standstill = standstill_of a.partition_standstill x in
      let calm = record g { deadlock_gap_rounds = 0 } in
      let resolution = carry_out a x (rule now facts a standstill x g) in
      if not (has_deadlock_causes facts.attribution) && blocked_only standstill
      then some (record (decision selection_blocked true 0) { standstill = standstill }, x, calm)
      else if is_forever facts.min_wait
          || facts.waiting_for_dependency && not (is_nil (cycles a standstill x))
      then resolution
      else some (decision no_deadlock false 0, x, calm)

  -- `arbitrate`, also without facts.
  unfoldable pub arbitrate_any :
      {X : Type 0}
      → ℕ
      → Option StandstillFacts
      → Arbitration X
      → X
      → DeadlockGovernor
      → Option (DeadlockDecision × X × DeadlockGovernor)
  arbitrate_any now none a x g =
      some (decision no_deadlock false 0, x, record g { deadlock_gap_rounds = 0 })
  arbitrate_any now (some facts) a x g = arbitrate now facts a x g

  unfoldable pub resolve_deadlock :
      {X : Type 0}
      → ℕ
      → StandstillFacts
      → Arbitration X
      → X
      → DeadlockGovernor
      → Option (DeadlockDecision × X × DeadlockGovernor)
  resolve_deadlock now facts a x g =
      carry_out a x (rule now facts a (standstill_of a.partition_standstill x) x g)
