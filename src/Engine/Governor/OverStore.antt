-- ===== src/Engine/Governor/OverStore.antt =====
-- The arbitration of tasklite/engine/governor.py over the store of tasklite/engine/store.py.
use tasklite.Common.{
  ℕ, String, Bool, true, false, not, ◌&&◌, ◌||◌, ◌≡◌, refl, Option, none, some, List, [], ◌∷◌, keep,
  keys, contains, IsDistinct, eq_string, arith, Bool-cases, inl, inr, contains-keep,
  keep-IsDistinct,
}
use tasklite.Models.Job.{JobSnapshot, RowHash, job_uid_from_snapshot}
use tasklite.Models.Json.{Builtins}
use tasklite.Models.State.{Metadata, PipelineState, row_uids}
use tasklite.Backend.Contract.{IsContract}
use tasklite.Engine.Scheduler.{StandstillFacts, has_deadlock_causes}
use tasklite.Engine.Store.{Setup, Store, Exit, done, crashed, terminated, raised}
use tasklite.Engine.Store.Exits.{BulkFailureOutcome}
use tasklite.Engine.Store.Failures.{apply_bulk_failure}
use tasklite.Engine.Store.Coherent.{IsCoherentStore, EndsCoherent}
use tasklite.Engine.Store.Coherent.Named.{AreNamed}
use tasklite.Engine.Store.Coherent.Failed.{apply_bulk_failure-EndsCoherent}
use tasklite.Engine.Governor.{Arbitration, DeadlockDecision, DeadlockGovernor, is_nil}
use tasklite.Engine.Governor.Arbitrate.{
  Ruling, fails, waits, cycles, split_deadlock_by_uids, is_target, rule, gap_ruling, grace_ruling,
  after_batch, archived_decision, with_governor, carry_out, arbitrate, is_forever,
}

abbrev returned : {B A : Type 0} → Exit B A → Option (A × Store B)
returned (done a st) = some (a, st)
returned (crashed st) = none
returned (terminated st) = none
returned raised = none

-- The store as the governor sees it, without a selection; `search` finds the cycles.
abbrev pub store_arbitration :
    {B : Type 0}
    → Setup B
    → ⦃h : RowHash⦄ → ⦃p : Builtins⦄ → (PipelineState → List String)
    → Arbitration (Store B)
store_arbitration setup search = record {
  state = λ st. st.state;
  find_dependency_cycles = search;
  apply_bulk_failure = λ uids_metas st. returned (apply_bulk_failure setup uids_metas st);
  partition_standstill = none;
}

module _ ⦃h : RowHash⦄ where
  -- The failures are of jobs on the queue, each once.
  abbrev OnQueue : List JobSnapshot → Ruling → Type 0
  OnQueue queue (fails m) =
      IsDistinct (keys m)
      × ((v : String) → contains v (keys m) ≡ true → contains v (row_uids queue) ≡ true)
  OnQueue queue (waits action) = Unit {0}

  keys-split_deadlock_by_uids :
      (queue : List JobSnapshot) (targets : Option (List String)) (error : String)
      → keys (split_deadlock_by_uids queue targets error)
        ≡ keep (is_target targets) (row_uids queue)
  unfolding keys split_deadlock_by_uids keep row_uids
  keys-split_deadlock_by_uids [] targets error = refl
  keys-split_deadlock_by_uids (row ∷ rows) targets error =
      elim (Bool-cases (is_target targets (job_uid_from_snapshot row))) [
        | inl t ↦ rw t (rw (keys-split_deadlock_by_uids rows targets error) refl)
        | inr f ↦ rw f (keys-split_deadlock_by_uids rows targets error)
      ]

  split_is_queued :
      (queue : List JobSnapshot) (targets : Option (List String)) (error : String)
      → IsDistinct (row_uids queue)
      → OnQueue queue (fails (split_deadlock_by_uids queue targets error))
  split_is_queued queue targets error d = rw keys-split_deadlock_by_uids (
    keep-IsDistinct (is_target targets) (row_uids queue) d,
    λ v m. ground (arith, contains-keep (is_target targets) v (row_uids queue)),
  )

-- Memory and backend agree after a decision. Without one, the store has crashed over a batch, and
-- memory and backend agree at that crash.
abbrev pub Kept :
    ⦃h : RowHash⦄ ⦃p : Builtins⦄ {B : Type 0}
    → Setup B
    → Store B
    → Option (DeadlockDecision × Store B × DeadlockGovernor)
    → Type 0
Kept setup st none =
    (batch : List (String × Metadata)) × EndsCoherent setup.ops (apply_bulk_failure setup batch st)
    × (returned (apply_bulk_failure setup batch st) ≡ none)
Kept setup before (some (d, st, g)) = IsCoherentStore setup.ops st

module _ ⦃h : RowHash⦄ ⦃p : Builtins⦄ {B : Type 0} (setup : Setup B) (law : IsContract setup.ops)
    (search : PipelineState → List String) (st : Store B) (c : IsCoherentStore setup.ops st)
    (named : AreNamed st.state.queue) where
  gap_ruling-OnQueue :
      (answer : Bool × DeadlockGovernor)
      → OnQueue st.state.queue (gap_ruling st.state.queue answer).0
  gap_ruling-OnQueue (true, g) = split_is_queued st.state.queue none _ c.consistent.distinct
  gap_ruling-OnQueue (false, g) = tt

  grace_ruling-OnQueue :
      (missing : List String) (answer : Bool × DeadlockGovernor)
      → OnQueue st.state.queue (grace_ruling st.state.queue missing answer).0
  grace_ruling-OnQueue missing (true, g) = tt
  grace_ruling-OnQueue missing (false, g) =
      split_is_queued st.state.queue (some missing) _ c.consistent.distinct

  rule-OnQueue :
      (now : ℕ) (facts : StandstillFacts) (g : DeadlockGovernor)
      → OnQueue st.state.queue (rule now facts (store_arbitration setup search) none st g).0
  unfolding rule
  rule-OnQueue now facts g =
      let a = store_arbitration setup search in
      let attr = facts.attribution in
      let splits : (us : List String) (error : String)
          → OnQueue st.state.queue (fails (split_deadlock_by_uids st.state.queue (some us) error)) =
        λ us error. split_is_queued st.state.queue (some us) error c.consistent.distinct in
      elim (Bool-cases (is_nil attr.malformed_uids)) [
        | inr e ↦ rw (rule, e) (splits attr.malformed_uids _)
        | inl e ↦ elim (Bool-cases (is_nil attr.unknown_resource_uids)) [
          | inr f ↦ rw (rule, e) (rw f (splits attr.unknown_resource_uids _))
          | inl f ↦ elim (Bool-cases (is_nil attr.missing_dependency_uids)) [
            | inr k ↦
                rw (rule, e) (rw f (rw k (grace_ruling-OnQueue attr.missing_dependency_uids _)))
            | inl k ↦ elim (Bool-cases (is_nil attr.impossible_resource_uids)) [
              | inr l ↦ rw (rule, e) (rw f (rw k (rw l (splits attr.impossible_resource_uids _))))
              | inl l ↦
                  elim (Bool-cases
                    (facts.waiting_for_dependency && not (is_nil (cycles a none st)))) [
                      | inl n ↦
                          rw (rule, e) (rw f (rw k (rw l (rw n (splits (cycles a none st) _)))))
                      | inr n ↦ rw (rule, e) (rw f (rw k (rw l (rw n (gap_ruling-OnQueue _)))))
                    ]
            ]
          ]
        ]
      ]

  after_exit-Kept :
      (g : DeadlockGovernor) (batch : List (String × Metadata)) (exit : Exit B BulkFailureOutcome)
      → apply_bulk_failure setup batch st ≡ exit
      → EndsCoherent setup.ops exit
      → Kept setup st
          (with_governor g (after_batch (store_arbitration setup search) (returned exit)))
  unfolding after_batch archived_decision
  after_exit-Kept g batch (done outcome st') e ok = ok
  after_exit-Kept g batch (crashed st') e ok = (batch, rw e ok, rw e refl)
  after_exit-Kept g batch (terminated st') e ok = (batch, rw e ok, rw e refl)
  after_exit-Kept g batch raised e ok = absurd ok

  carry_out-Kept :
      (r : Ruling) (g : DeadlockGovernor)
      → OnQueue st.state.queue r
      → Kept setup st (carry_out (store_arbitration setup search) st (r, g))
  unfolding carry_out
  carry_out-Kept (fails m) g (d, members) =
      after_exit-Kept g m (apply_bulk_failure setup m st) refl
        (apply_bulk_failure-EndsCoherent setup law m st c named d members)
  carry_out-Kept (waits action) g ok = c

  -- The governor over the store, without a selection, on a queue whose rows have a task type and a job
  -- id: whatever stands still and whatever the backend answers, memory and backend agree after the
  -- decision, if they did before; and if there is no decision, the store has crashed over a batch of
  -- failures, with memory and backend in agreement, and no assertion has failed.
  pub arbitrate-Kept :
      (now : ℕ) (facts : StandstillFacts) (g : DeadlockGovernor)
      → Kept setup st (arbitrate now facts (store_arbitration setup search) st g)
  unfolding arbitrate
  arbitrate-Kept now facts g =
      let a = store_arbitration setup search in
      let resolution =
        carry_out-Kept (rule now facts a none st g).0 (rule now facts a none st g).1
          (rule-OnQueue now facts g) in
      elim (Bool-cases (has_deadlock_causes facts.attribution)) [
        | inl causes ↦
            elim (Bool-cases (
              is_forever facts.min_wait
              || facts.waiting_for_dependency && not (is_nil (cycles a none st)))) [
                | inl f ↦ rw (arbitrate, causes) (rw f resolution)
                | inr f ↦ rw (arbitrate, causes) (rw f c)
              ]
        | inr none_known ↦
            elim (Bool-cases (
              is_forever facts.min_wait
              || facts.waiting_for_dependency && not (is_nil (cycles a none st)))) [
                | inl f ↦ rw (arbitrate, none_known) (rw f resolution)
                | inr f ↦ rw (arbitrate, none_known) (rw f c)
              ]
      ]
