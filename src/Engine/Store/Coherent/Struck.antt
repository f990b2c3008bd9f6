-- ===== src/Engine/Store/Coherent/Struck.antt =====
-- tasklite/engine/store.py: a job in flight whose commit was refused.
use tasklite.Common.{
  ℕ, String, Bool, true, false, ◌&&◌, ◌≡◌, refl, ◌∙◌, inl, inr, Option, none, some, [], ◌∷◌,
  contains, discard, IsDistinct, eq_string, Bool-cases, arith, ◌==◌, ==_iff, lookup-erase,
  lookup-insert, lookup, keys, ap, contains-union, contains-discard,
}
use tasklite.Models.Job.{
  JobSnapshot, RowHash, ℤ, Job, from_dict, uid, job_uid_from_snapshot, ◌>>=◌,
  from_dict-uid_of_runtime,
}
use tasklite.Models.Json.{Builtins}
use tasklite.Models.State.{Metadata, PipelineState, row_uids, requeue_jobs, unregister_in_flight}
use tasklite.Models.State.Consistent.{IsConsistent}
use tasklite.Models.Attempt.{failed, requeued}
use tasklite.Backend.Contract.{StateBackend, AreFailed, IsFailed, Answers, IsContract}
use tasklite.Engine.ErrorClass.{normalize_failure_metadata}
use tasklite.Engine.Store.{Setup, Store, continue, record_stat, mark_failed_memory}
use tasklite.Engine.Store.Strikes.{
  requeue_in_memory, requeue_and_crash, after_strike, strike, handle_commit_failure_strike,
  register_commit_failure, reaches, strike_meta, job_payload,
}
use tasklite.Engine.Store.Coherent.{
  IsCoherent, IsCoherentStore, EndsCoherent, chosen_failure, stored_failure, unchanged-IsCoherent,
  finish_attempt-IsCoherentStore, fire_attempt_finished-IsCoherentStore,
}
use tasklite.Engine.Store.Coherent.Moves.{
  unregistered, spawned, as_failed, Leaves, unregister_in_flight-Leaves, requeue_jobs-Leaves,
  mark_failed-Leaves,
}

module _ ⦃h : RowHash⦄ where
  pub row_uids_of_one :
      (v : String) (row : JobSnapshot)
      → contains v (row_uids (row ∷ [])) ≡ (job_uid_from_snapshot row == v)
  unfolding row_uids contains
  row_uids_of_one v row = ground arith

  pub one-IsDistinct : (row : JobSnapshot) → IsDistinct (row_uids (row ∷ []))
  unfolding row_uids contains
  one-IsDistinct row = (refl, tt)

module _ ⦃h : RowHash⦄ (u : String) (s : PipelineState) (c : IsConsistent s) where
  -- A job that was in flight comes back to the queue by another row.
  pub back_in_queue :
      (row : JobSnapshot) (front : Bool)
      → ((v : String) → (contains v (row_uids (row ∷ [])) && contains v s.queue_uids) ≡ false)
      → ((v : String)
          → (contains v (row_uids (row ∷ [])) && contains v (discard u s.in_flight_uids)) ≡ false)
      → Leaves
          (unregister_in_flight u s >>= λ idle. requeue_jobs (row ∷ []) front idle)
          (spawned (row ∷ []) front (unregistered u s))
  back_in_queue row front fresh idle =
      let (e, c') = unregister_in_flight-Leaves s c u in
      rw e
        (requeue_jobs-Leaves (unregistered u s) c' (row ∷ []) front (one-IsDistinct row) fresh idle)

  -- Its own row comes back in front.
  pub requeued-Leaves :
      (row : JobSnapshot)
      → contains u s.in_flight_uids ≡ true
      → job_uid_from_snapshot row ≡ u
      → Leaves (requeue_in_memory u (some row) s) (spawned (row ∷ []) true (unregistered u s))
  unfolding requeue_in_memory
  requeued-Leaves row flying e =
      back_in_queue row true
        (λ v.
          ground (arith, row_uids_of_one v row, c.not_both v, ==_iff (job_uid_from_snapshot row) v))
        (λ v. ground (
          arith,
          row_uids_of_one v row,
          contains-discard v u s.in_flight_uids,
          ==_iff (job_uid_from_snapshot row) v,
          ==_iff u v,
        ))

  pub failed_in_memory :
      ⦃p : Builtins⦄ (now : String) (m : Metadata)
      → Leaves
          (mark_failed_memory now u m true s)
          (unregistered u (as_failed u (normalize_failure_metadata now none m) s))
  unfolding mark_failed_memory
  failed_in_memory now m =
      let (e, c') = mark_failed-Leaves s c u (normalize_failure_metadata now none m) in
      let (e', c'') =
        unregister_in_flight-Leaves (as_failed u (normalize_failure_metadata now none m) s) c' u in
      (rw e e', c'')

module _ ⦃h : RowHash⦄ ⦃p : Builtins⦄ {B : Type 0} (be : StateBackend B) (u : String)
    (s : PipelineState) where
  -- Disk and memory after a failure that the backend accepted, of a job that is not queued.
  pub failed-IsCoherent :
      (b b' : B) (now : String) (m : Metadata)
      → IsCoherent be b s
      → contains u s.queue_uids ≡ false
      → AreFailed be ((u, m) ∷ []) b b'
      → IsCoherent be b' (unregistered u (as_failed u (normalize_failure_metadata now none m) s))
  unfolding contains keys
  failed-IsCoherent b b' now m c free written = record {
    consistent = (failed_in_memory u s c.consistent now m).1;
    successes =
        λ v. ground (arith, written.successes v, c.successes v, lookup-erase v u s.successes);
    failed = λ v.
        rw (written.failed v)
          (rw lookup-insert (chosen_failure (u == v) (stored_failure now m) (c.failed v)));
    cursors = λ v. ap (lookup v) written.cursors ∙ c.cursors v;
    queue = λ v.
        ground
          (arith, written.queue v, c.queue v, contains-discard v u s.in_flight_uids, ==_iff u v);
  }

  pub requeued-IsCoherent :
      (b : B) (row : JobSnapshot)
      → IsCoherent be b s
      → contains u s.in_flight_uids ≡ true
      → job_uid_from_snapshot row ≡ u
      → Leaves (requeue_in_memory u (some row) s) (spawned (row ∷ []) true (unregistered u s))
        × IsCoherent be b (spawned (row ∷ []) true (unregistered u s))
  unfolding requeue_in_memory
  requeued-IsCoherent b row c flying e =
      let kept = requeued-Leaves u s c.consistent row flying e in
      (
        kept,
        record {
          consistent = kept.1;
          successes = c.successes;
          failed = c.failed;
          cursors = c.cursors;
          queue = λ v. ground (
            arith,
            c.queue v,
            row_uids_of_one v row,
            contains-union v s.queue_uids (row_uids (row ∷ [])),
            contains-discard v u s.in_flight_uids,
            ==_iff (job_uid_from_snapshot row) v,
            ==_iff u v,
          );
        },
      )

-- A refused commit of a job in flight, whose row is known.
module _ ⦃h : RowHash⦄ ⦃p : Builtins⦄ {B : Type 0} (setup : Setup B) (law : IsContract setup.ops)
    (u : String) (A : Type 0) where
  pub requeue_and_crash-EndsCoherent :
      (row : JobSnapshot) (reason : String) (k : Option ℕ) (st : Store B)
      → IsCoherentStore setup.ops st
      → contains u st.state.in_flight_uids ≡ true
      → job_uid_from_snapshot row ≡ u
      → EndsCoherent {A = A} setup.ops (requeue_and_crash setup u (some row) reason k st)
  unfolding requeue_and_crash continue
  requeue_and_crash-EndsCoherent row reason k st c flying e =
      let (moved, c') = requeued-IsCoherent setup.ops u st.state st.backend row c flying e in
      rw moved.0 (
        finish_attempt-IsCoherentStore setup k requeued (some reason)
          (record st { state = spawned (row ∷ []) true (unregistered u st.state) }) law c')

  after_strike-EndsCoherent :
      (row : JobSnapshot) (failures : ℤ) (reason : String) (k : Option ℕ) (st : Store B)
      (answer : Bool × B)
      → Answers setup.ops
          (IsFailed setup.ops u (strike_meta failures) (job_payload row) st.backend)
          st.backend
          answer
      → IsCoherentStore setup.ops st
      → contains u st.state.in_flight_uids ≡ true
      → job_uid_from_snapshot row ≡ u
      → EndsCoherent {A = A} setup.ops (after_strike setup u row failures reason k st answer)
  unfolding after_strike continue record_stat
  after_strike-EndsCoherent row failures reason k st (true, b) (written, _) c flying e =
      let (marked, ok) =
        failed_in_memory u st.state c.consistent setup.now (strike_meta failures) in
      let c' =
        failed-IsCoherent setup.ops u st.state st.backend b setup.now (strike_meta failures) c
          (ground (arith, c.consistent.not_both u)) written in
      rw marked (
        fire_attempt_finished-IsCoherentStore setup u _ _
          (finish_attempt-IsCoherentStore setup k failed (some "COMMIT_FAILURE") _ law c'))
  after_strike-EndsCoherent row failures reason k st (false, b) same c flying e =
      requeue_and_crash-EndsCoherent row reason k (record st { backend = b })
        (unchanged-IsCoherent setup.ops st.backend b st.state same c) flying e

  strike-EndsCoherent :
      (reason : String) (row : JobSnapshot) (failures : ℤ) (k : Option ℕ) (st : Store B)
      → IsCoherentStore setup.ops st
      → contains u st.state.in_flight_uids ≡ true
      → job_uid_from_snapshot row ≡ u
      → EndsCoherent {A = A} setup.ops (strike setup u reason (row, failures) k st)
  unfolding strike
  strike-EndsCoherent reason row failures k st c flying e =
      elim (Bool-cases (reaches setup.threshold failures)) [
        | inl last ↦ rw last (
            after_strike-EndsCoherent row failures reason k st _
              (law.commit_failure-Answers u (strike_meta failures) (job_payload row) st.backend) c
              flying e)
        | inr again ↦ rw again (requeue_and_crash-EndsCoherent row reason k st c flying e)
      ]

  pub handle_commit_failure_strike-EndsCoherent :
      (reason : String) (row : JobSnapshot) {job : Job} (k : Option ℕ) (st : Store B)
      → IsCoherentStore setup.ops st
      → contains u st.state.in_flight_uids ≡ true
      → from_dict row ≡ some job
      → uid job ≡ u
      → EndsCoherent {A = A} setup.ops (handle_commit_failure_strike setup u reason (some row) k st)
  unfolding handle_commit_failure_strike register_commit_failure
  handle_commit_failure_strike-EndsCoherent reason row k st c flying parsed named =
      strike-EndsCoherent reason _ _ k st c flying (from_dict-uid_of_runtime row parsed _ ∙ named)
