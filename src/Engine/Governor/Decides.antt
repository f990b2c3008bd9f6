-- ===== src/Engine/Governor/Decides.antt =====
-- tasklite/engine/governor.py: the decisions about a standstill.
use tasklite.Common.{
  ℕ, ◌+◌, ◌≤◌, ◌<◌, String, Bool, true, false, not, ◌&&◌, ◌||◌, ◌≡◌, refl, keys, keep, eq_string,
  [], ◌∷◌, Option, none, some, List, map, ltb, arith, Bool-cases, inl, inr,
}
use tasklite.Models.Job.{JobSnapshot, RowHash}
use tasklite.Models.State.{Metadata, row_uids}
use tasklite.Engine.Scheduler.{StandstillFacts, has_deadlock_causes}
use tasklite.Engine.Store.Exits.{BulkFailureOutcome}
use tasklite.Engine.Governor.{
  SelectionStandstill, only_blocked_by_exclusion, is_nil, Arbitration, Action, grace_waiting,
  resolved, gap_retrying, no_deadlock, DeadlockDecision, decision, DeadlockGovernor,
  check_gap_or_escalate, check_dependency_grace, uid_of,
}
use tasklite.Engine.Governor.Arbitrate.{
  Ruling, fails, waits, cycles, split_deadlock_by_uids, rule, gap_ruling, grace_ruling,
  archived_decision, after_fallback, converge, after_batch, with_governor, carry_out, arbitrate,
  standstill_of, blocked_only, row_count_is_zero, is_forever,
}

-- The decisions that leave everything as it is for now.
abbrev is_waiting : Action → Bool
is_waiting grace_waiting = true
is_waiting gap_retrying = true
is_waiting no_deadlock = true
is_waiting _ = false

-- The decision waits, ends the run, or has failed a job; or an exception came before it.
abbrev moves_on : DeadlockDecision → Bool
moves_on d = is_waiting d.action || d.should_terminate || not (is_nil d.failed_uids)

abbrev Moves : {X : Type 0} → Option (DeadlockDecision × X) → Type 0
Moves none = Unit {0}
Moves (some (d, x)) = moves_on d ≡ true

abbrev pub MovesOn : {X : Type 0} → Option (DeadlockDecision × X × DeadlockGovernor) → Type 0
MovesOn none = Unit {0}
MovesOn (some (d, x, g)) = moves_on d ≡ true

module _ ⦃h : RowHash⦄ {X : Type 0} (a : Arbitration X) where
  after_fallback-Moves : (m : Option (BulkFailureOutcome × X)) → Moves (after_fallback a m)
  unfolding after_fallback archived_decision
  after_fallback-Moves none = tt
  after_fallback-Moves (some (outcome, x)) = elim (Bool-cases (is_nil outcome.failed_uids)) [
    | inl e ↦ rw e refl
    | inr e ↦ rw e (ground (arith, e))
  ]

  converge-Moves : (s : Option SelectionStandstill) (x : X) → Moves (converge a s x)
  unfolding converge
  converge-Moves none x = refl
  converge-Moves (some s) x = elim (Bool-cases (only_blocked_by_exclusion s)) [
    | inl e ↦ rw e refl
    | inr e ↦ elim (Bool-cases (is_nil s.stuck_uids)) [
      | inl f ↦ rw e (rw f refl)
      | inr f ↦ rw e (rw f (after_fallback-Moves _))
    ]
  ]

  after_batch-Moves :
      {partition : X → Option SelectionStandstill}
      → a.partition_standstill ≡ some partition
      → (m : Option (BulkFailureOutcome × X)) → Moves (after_batch a m)
  unfolding after_batch archived_decision
  after_batch-Moves active none = tt
  after_batch-Moves {partition} active (some (outcome, x)) =
      elim (Bool-cases (is_nil outcome.failed_uids)) [
        | inl e ↦ rw (after_batch, active) (rw e (converge-Moves (partition x) x))
        | inr e ↦ rw (after_batch, active) (rw e (ground (arith, e)))
      ]

  with_governor-MovesOn :
      (g : DeadlockGovernor) (m : Option (DeadlockDecision × X))
      → Moves m
      → MovesOn (with_governor g m)
  with_governor-MovesOn g none ok = tt
  with_governor-MovesOn g (some (d, x)) ok = ok

  abbrev is_sound : Ruling → Bool
  is_sound (fails uids_metas) = true
  is_sound (waits action) = is_waiting action

  gap_ruling-is_sound :
      (queue : List JobSnapshot) (answer : Bool × DeadlockGovernor)
      → is_sound (gap_ruling queue answer).0 ≡ true
  gap_ruling-is_sound queue (true, g) = refl
  gap_ruling-is_sound queue (false, g) = refl

  grace_ruling-is_sound :
      (queue : List JobSnapshot) (missing : List String) (answer : Bool × DeadlockGovernor)
      → is_sound (grace_ruling queue missing answer).0 ≡ true
  grace_ruling-is_sound queue missing (true, g) = refl
  grace_ruling-is_sound queue missing (false, g) = refl

  rule-is_sound :
      (now : ℕ) (facts : StandstillFacts) (standstill : Option SelectionStandstill) (x : X)
      (g : DeadlockGovernor)
      → is_sound (rule now facts a standstill x g).0 ≡ true
  unfolding rule
  rule-is_sound now facts standstill x g =
      let s = a.state x in
      let attr = facts.attribution in
      let gap = gap_ruling-is_sound s.queue (check_gap_or_escalate g.deadlock_gap_max_rounds g) in
      let grace = grace_ruling-is_sound s.queue attr.missing_dependency_uids (
        check_dependency_grace s (map uid_of attr.missing_dependency_uids)
          (some facts.has_potential_spawners) now g.dependency_grace g) in
      elim (Bool-cases (is_nil attr.malformed_uids)) [
        | inr e ↦ rw (rule, e) refl
        | inl e ↦ elim (Bool-cases (is_nil attr.unknown_resource_uids)) [
          | inr f ↦ rw (rule, e) (rw f refl)
          | inl f ↦ elim (Bool-cases (is_nil attr.missing_dependency_uids)) [
            | inr k ↦ rw (rule, e) (rw f (rw k grace))
            | inl k ↦ elim (Bool-cases (is_nil attr.impossible_resource_uids)) [
              | inr l ↦ rw (rule, e) (rw f (rw k (rw l refl)))
              | inl l ↦
                  elim (Bool-cases
                    (facts.waiting_for_dependency && not (is_nil (cycles a standstill x)))) [
                      | inl n ↦ rw (rule, e) (rw f (rw k (rw l (rw n refl))))
                      | inr n ↦ rw (rule, e) (rw f (rw k (rw l (rw n gap))))
                    ]
            ]
          ]
        ]
      ]

  carry_out-MovesOn :
      {partition : X → Option SelectionStandstill}
      → a.partition_standstill ≡ some partition
      → (x : X) (r : Ruling) (g : DeadlockGovernor) → is_sound r ≡ true
      → MovesOn (carry_out a x (r, g))
  unfolding carry_out
  carry_out-MovesOn active x (fails uids_metas) g ok =
      with_governor-MovesOn g _ (after_batch-Moves active (a.apply_bulk_failure uids_metas x))
  carry_out-MovesOn active x (waits action) g ok = ground (arith, ok)

  -- Under a selection of jobs every decision about a standstill waits for it to change, ends the run,
  -- or has failed at least one job: also when the selection kept every failure out of the archive.
  pub arbitrate-MovesOn :
      {partition : X → Option SelectionStandstill}
      → a.partition_standstill ≡ some partition
      → (now : ℕ) (facts : StandstillFacts) (x : X) (g : DeadlockGovernor)
      → MovesOn (arbitrate now facts a x g)
  unfolding arbitrate
  arbitrate-MovesOn active now facts x g =
      let standstill = standstill_of a.partition_standstill x in
      let resolution =
        carry_out-MovesOn active x (rule now facts a standstill x g).0
          (rule now facts a standstill x g).1 (rule-is_sound now facts standstill x g) in
      elim (Bool-cases (not (has_deadlock_causes facts.attribution) && blocked_only standstill)) [
        | inl e ↦ rw (arbitrate, e) refl
        | inr e ↦
            elim (Bool-cases (
              is_forever facts.min_wait
              || facts.waiting_for_dependency && not (is_nil (cycles a standstill x)))) [
                | inl f ↦ rw (arbitrate, e) (rw f resolution)
                | inr f ↦ rw (arbitrate, e) (rw f refl)
              ]
      ]

  rule_of_gap :
      (now : ℕ) (facts : StandstillFacts) (x : X) (g : DeadlockGovernor)
      → a.partition_standstill ≡ none
      → has_deadlock_causes facts.attribution ≡ false
      → (facts.waiting_for_dependency && not (is_nil (a.find_dependency_cycles (a.state x))))
        ≡ false
      → (cycles a none x ≡ a.find_dependency_cycles (a.state x))
        × (rule now facts a none x g
            ≡ gap_ruling (a.state x).queue (check_gap_or_escalate g.deadlock_gap_max_rounds g))
  unfolding rule cycles has_deadlock_causes
  rule_of_gap now facts x g inactive uncaused acyclic =
      let attr = facts.attribution in
      let looped : cycles a none x ≡ a.find_dependency_cycles (a.state x) =
        rw (cycles, inactive) refl in
      let m : is_nil attr.malformed_uids ≡ true = ground arith in
      let u : is_nil attr.unknown_resource_uids ≡ true = ground arith in
      let d : is_nil attr.missing_dependency_uids ≡ true = ground arith in
      let i : is_nil attr.impossible_resource_uids ≡ true = ground arith in
      (looped, rw (rule, m) (rw u (rw d (rw i (rw looped (rw acyclic refl))))))

  -- The end of a round that handed a batch to the store.
  abbrev pub ended :
      DeadlockGovernor
      → Option (BulkFailureOutcome × X)
      → Option (DeadlockDecision × X × DeadlockGovernor)
  ended g none = none
  ended g (some (outcome, x)) = some (
    record (decision resolved
        (not (is_nil outcome.failed_uids) && row_count_is_zero (a.state x).queue) 0) {
          failed_uids = outcome.failed_uids;
          cascaded_uids = outcome.cascaded_uids;
        },
    x,
    record g { deadlock_gap_rounds = 0 },
  )

  ended-after_batch :
      (g : DeadlockGovernor)
      → a.partition_standstill ≡ none
      → (m : Option (BulkFailureOutcome × X)) → with_governor g (after_batch a m) ≡ ended g m
  unfolding after_batch archived_decision
  ended-after_batch g inactive none = refl
  ended-after_batch g inactive (some (outcome, x)) = rw (after_batch, inactive) refl

  keys_of_gap :
      (queue : List JobSnapshot) (error : String)
      → keys (split_deadlock_by_uids queue none error) ≡ row_uids queue
  unfolding keys split_deadlock_by_uids keep row_uids
  keys_of_gap [] error = refl
  keys_of_gap (row ∷ rows) error = rw (keys_of_gap rows error) refl

  -- A standstill without a selection, a known cause, a cycle of waiting jobs or an end of the wait
  -- is retried below the limit of rounds, with one round more on the count. At the limit one batch
  -- of failures is handed to the store, whose uids are those of all queued rows in their order; if
  -- the store returns an outcome, the decision reports its failed and cascaded jobs, ends the run
  -- exactly if a job failed and the queue is empty, and the count starts again; if the store
  -- raises, so does the arbitration.
  pub arbitrate_gap_ends :
      (now : ℕ) (facts : StandstillFacts) (x : X) (g : DeadlockGovernor)
      → a.partition_standstill ≡ none
      → has_deadlock_causes facts.attribution ≡ false
      → is_forever facts.min_wait ≡ true
      → (facts.waiting_for_dependency && not (is_nil (a.find_dependency_cycles (a.state x))))
        ≡ false
      → (g.deadlock_gap_rounds + 1 < g.deadlock_gap_max_rounds
          → arbitrate now facts a x g
            ≡ some (
              decision gap_retrying false 500,
              x,
              record g { deadlock_gap_rounds = g.deadlock_gap_rounds + 1 },
            ))
        × (g.deadlock_gap_max_rounds ≤ g.deadlock_gap_rounds + 1
            → (batch : List (String × Metadata)) × (keys batch ≡ row_uids (a.state x).queue)
              × (arbitrate now facts a x g ≡ ended g (a.apply_bulk_failure batch x)))
  unfolding arbitrate carry_out check_gap_or_escalate
  arbitrate_gap_ends now facts x g inactive uncaused endless acyclic =
      let (looped, gap) = rule_of_gap now facts x g inactive uncaused acyclic in
      let none_standing : standstill_of a.partition_standstill x ≡ none = rw inactive refl in
      (
        λ early.
            let below : ltb (g.deadlock_gap_rounds + 1) g.deadlock_gap_max_rounds ≡ true =
              ground arith in
            rw (arbitrate, none_standing) (rw uncaused (rw endless (rw gap (rw below refl)))),
        λ late.
            let over : ltb (g.deadlock_gap_rounds + 1) g.deadlock_gap_max_rounds ≡ false =
              ground arith in
            let batch =
              split_deadlock_by_uids (a.state x).queue none "DEADLOCK_CLASSIFICATION_GAP" in
            (
              batch,
              keys_of_gap (a.state x).queue _,
              rw (arbitrate, none_standing)
                  (rw uncaused (
                    rw endless (
                      rw gap
                        (rw over (ended-after_batch g inactive (a.apply_bulk_failure batch x)))))),
            ),
      )
