-- ===== src/Engine/Store/Coherent/Counted.antt =====
-- tasklite/engine/store.py: how often a commit may be refused.
use tasklite.Common.{
  ℕ, lookup, has, String, true, false, ◌≡◌, refl, ◌∙◌, ap, Option, none, some, [], ◌∷◌, contains,
  eq_string, arith, ==_iff, contains-discard, lookup-insert, has-erase, Bool, inl, inr, ◌⊎◌,
}
use tasklite.Models.Job.{
  JobSnapshot, RowHash, job_uid_from_snapshot, Job, from_dict, uid, read_runtime,
  from_dict-uid_of_runtime,
}
use tasklite.Models.Job.{ℤ}
use tasklite.Models.Job.RoundTrip.{read_state-write_state}
use tasklite.Models.Json.{Builtins}
use tasklite.Models.Attempt.{failed, requeued}
use tasklite.Engine.ErrorClass.{normalize_failure_metadata}
use tasklite.Engine.Store.{
  Setup, Store, crashed, terminated, continue, record_stat, fire_attempt_finished, finish_attempt,
  failed_for_good,
}
use tasklite.Engine.Store.Strikes.{
  requeue_and_crash, after_strike, strike, handle_commit_failure_strike, register_commit_failure,
  one_more, reaches, strike_meta, job_payload,
}
use tasklite.Engine.Store.Coherent.{IsCoherentStore}
use tasklite.Engine.Store.Coherent.Moves.{unregistered, spawned, as_failed}
use tasklite.Engine.Store.Coherent.Struck.{failed_in_memory, requeued-Leaves}
use tasklite.Engine.Store.Coherent.Fallen.{fire_keeps}
use tasklite.Engine.Store.Coherent.Failed.{finish_keeps}

-- The refusals that a row has counted.
abbrev pub refusals : JobSnapshot → ℤ
refusals row = (read_runtime row.runtime).commit_failures

module _ ⦃h : RowHash⦄ ⦃p : Builtins⦄ {B : Type 0} (setup : Setup B) (u : String)
    (row : JobSnapshot) (st : Store B) where
  -- What a refusal leaves when the job comes back: its row with one refusal more, in front of the
  -- queue, and the archives as they were.
  abbrev pub ComesBack : Store B → Type 0
  ComesBack st' =
      (next : JobSnapshot) × (next ≡ (register_commit_failure row).0)
      × (job_uid_from_snapshot next ≡ u)
      × (refusals next ≡ one_more (refusals row))
      × (st'.state.queue ≡ next ∷ st.state.queue)
      × (contains u st'.state.in_flight_uids ≡ false)
      × (st'.state.successes ≡ st.state.successes)
      × (st'.state.failed ≡ st.state.failed)

  -- What the threshold leaves when the archive takes the failure.
  abbrev pub HasArchived : Store B → Type 0
  HasArchived st' =
      (lookup u st'.state.failed
        ≡ some (normalize_failure_metadata setup.now none (strike_meta (one_more (refusals row)))))
      × (has u st'.state.successes ≡ false)
      × (contains u st'.state.in_flight_uids ≡ false)

  -- The failure that is written at the threshold.
  abbrev pub last_commit : Bool × B
  last_commit =
      setup.ops.commit_failure u (strike_meta (one_more (refusals row)))
        (job_payload (register_commit_failure row).0) st.backend

module _ ⦃h : RowHash⦄ ⦃p : Builtins⦄ {B : Type 0} (setup : Setup B) (u : String)
    (row : JobSnapshot) {job : Job} (reason : String) (k : Option ℕ) (A : Type 0) (st : Store B)
    (c : IsCoherentStore setup.ops st) (flying : contains u st.state.in_flight_uids ≡ true)
    (parsed : from_dict row ≡ some job) (named : uid job ≡ u) where
  come_back :
      (b : B)
      → (st' : Store B) × (requeue_and_crash setup {A = A} u
            (some (register_commit_failure row).0)
            reason
            k
            (record st { backend = b })
          ≡ crashed st')
        × ComesBack setup u row st st'
  unfolding requeue_and_crash continue register_commit_failure
  come_back b =
      let next = (register_commit_failure row).0 in
      let here = from_dict-uid_of_runtime row parsed next.runtime ∙ named in
      let (moved, _) = requeued-Leaves u st.state c.consistent next flying here in
      let back = record st {
        backend = b;
        state = spawned (next ∷ []) true (unregistered u st.state);
      } in
      let same = finish_keeps setup k requeued (some reason) back in
      let counted : refusals next ≡ one_more (refusals row) =
        ap (λ rt. rt.commit_failures) (read_state-write_state _) in
      (
        finish_attempt setup k requeued (some reason) back,
        rw moved refl,
        (
          next,
          refl,
          here,
          counted,
          ap (λ s. s.queue) same,
          ground (
            arith,
            ap (λ s. contains u s.in_flight_uids) same,
            contains-discard u u st.state.in_flight_uids,
            ==_iff u u,
          ),
          ap (λ s. s.successes) same,
          ap (λ s. s.failed) same,
        ),
      )

  over_taken :
      {b : B}
      → reaches setup.threshold (one_more (refusals row)) ≡ true
      → setup.ops.commit_failure u
          (strike_meta (one_more (refusals row)))
          (job_payload (register_commit_failure row).0)
          st.backend
        ≡ (true, b)
      → (st' : Store B) × (handle_commit_failure_strike setup {A = A} u reason (some row) k st
          ≡ terminated st')
        × HasArchived setup u row st st'
  unfolding handle_commit_failure_strike strike register_commit_failure after_strike continue
      record_stat
  over_taken {b} late taken =
      let m = strike_meta (one_more (refusals row)) in
      let s = st.state in
      let last : reaches setup.threshold (one_more (refusals row)) ≡ true = late in
      let moved = failed_in_memory u s c.consistent setup.now m in
      let n = normalize_failure_metadata setup.now none m in
      let counted =
        record_stat "failed" 1
          (record st { backend = b; state = unregistered u (as_failed u n s) }) in
      let traced = finish_attempt setup k failed (some "COMMIT_FAILURE") counted in
      let (same, _) = fire_keeps setup u (failed_for_good m) traced in
      let e = same ∙ finish_keeps setup k failed (some "COMMIT_FAILURE") counted in
      (
        fire_attempt_finished setup u (failed_for_good m) traced,
        rw last (rw taken (rw moved.0 refl)),
        (
          ground (arith, ap (λ x. lookup u x.failed) e, lookup-insert u u n s.failed, ==_iff u u),
          ground (arith, ap (λ x. has u x.successes) e, has-erase u u s.successes, ==_iff u u),
          ground (
            arith,
            ap (λ x. contains u x.in_flight_uids) e,
            contains-discard u u s.in_flight_uids,
            ==_iff u u,
          ),
        ),
      )

  over_refused :
      {b : B}
      → reaches setup.threshold (one_more (refusals row)) ≡ true
      → last_commit setup u row st ≡ (false, b)
      → (st' : Store B) × (handle_commit_failure_strike setup {A = A} u reason (some row) k st
          ≡ crashed st')
        × ComesBack setup u row st st'
  unfolding handle_commit_failure_strike strike register_commit_failure after_strike
  over_refused {b} late refused =
      let last : reaches setup.threshold (one_more (refusals row)) ≡ true = late in
      let (st', e, back) = come_back b in (st', rw last (rw refused e), back)

  over_answered :
      (taken : Bool) (b : B)
      → last_commit setup u row st ≡ (taken, b)
      → reaches setup.threshold (one_more (refusals row)) ≡ true
      → (st' : Store B) × (((last_commit setup u row st).0 ≡ true)
            × (handle_commit_failure_strike setup {A = A} u reason (some row) k st ≡ terminated st')
            × HasArchived setup u row st st'
          ⊎ ((last_commit setup u row st).0 ≡ false)
            × (handle_commit_failure_strike setup {A = A} u reason (some row) k st ≡ crashed st')
            × ComesBack setup u row st st')
  over_answered true b e late =
      let (st', ended, over) = over_taken late e in (st', inl (ap (λ x. x.0) e, ended, over))
  over_answered false b e late =
      let (st', ended, back) = over_refused late e in (st', inr (ap (λ x. x.0) e, ended, back))

  -- From the threshold on a refused commit writes the job to the failure archive. If the backend takes
  -- that, the run terminates with the job archived in memory under the error that says so, not
  -- successful and no longer in flight; if the backend refuses that too, the run crashes and the row
  -- of the job comes back in front of the queue with one refusal more.
  pub handle_commit_failure_strike_over :
      reaches setup.threshold (one_more (refusals row)) ≡ true
      → (st' : Store B) × (((last_commit setup u row st).0 ≡ true)
            × (handle_commit_failure_strike setup {A = A} u reason (some row) k st ≡ terminated st')
            × HasArchived setup u row st st'
          ⊎ ((last_commit setup u row st).0 ≡ false)
            × (handle_commit_failure_strike setup {A = A} u reason (some row) k st ≡ crashed st')
            × ComesBack setup u row st st')
  handle_commit_failure_strike_over late =
      over_answered (last_commit setup u row st).0 (last_commit setup u row st).1 refl late
