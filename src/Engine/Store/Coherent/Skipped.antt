-- ===== src/Engine/Store/Coherent/Skipped.antt =====
-- tasklite/engine/store.py: `apply_skip` for a job that was taken off the queue and is not in flight,
-- as the dispatch loop of tasklite/engine/dispatch.py calls it.
use tasklite.Common.{
  ℕ, String, Bool, true, false, ◌≡◌, refl, sym, subst, Option, some, List, contains, discard, add,
  keep, get_elem?, eq_string, arith, ==_iff, ==_refl, contains-discard, contains-add,
  contains-get_elem?,
}
use tasklite.Models.Job.{
  JobSnapshot, RowHash, Job, from_dict, uid, job_uid_from_snapshot, from_dict-uid,
}
use tasklite.Models.Json.{Builtins}
use tasklite.Models.State.{
  PipelineState, row_uids, pop_job, remove_queued_uid, unregister_in_flight,
}
use tasklite.Models.State.Active.{pop_job-IsConsistent, row_uids-get_elem?}
use tasklite.Models.State.Consistent.{IsConsistent}
use tasklite.Backend.Contract.{IsContract}
use tasklite.Engine.Store.{Setup, Store}
use tasklite.Engine.Store.Exits.{after_skip, apply_skip}
use tasklite.Engine.Store.Strikes.{handle_skip_commit_strike, requeue_and_crash, requeue_in_memory}
use tasklite.Engine.Store.Coherent.{IsCoherent, IsCoherentStore, EndsCoherent}
use tasklite.Engine.Store.Coherent.Requeued.{popped, pop_job_leaves}
use tasklite.Engine.Store.Coherent.Exited.{apply_skip-EndsCoherent}

discard_added :
    (u : String) (us : List String) → contains u us ≡ false → discard u (add u us) ≡ discard u us
unfolding discard add keep
discard_added u us new = rw new (rw (==_refl u) refl)

-- The state with the job among those in flight.
abbrev flown : String → PipelineState → PipelineState
flown u s = record s { in_flight_uids = add u s.in_flight_uids }

module _ ⦃h : RowHash⦄ (u : String) (s : PipelineState)
    (idle : contains u s.in_flight_uids ≡ false) where
  unregister_flown : unregister_in_flight u (flown u s) ≡ unregister_in_flight u s
  unfolding unregister_in_flight
  unregister_flown = rw (discard_added u s.in_flight_uids idle) refl

module _ ⦃h : RowHash⦄ ⦃p : Builtins⦄ {B : Type 0} (setup : Setup B) (u : String)
    (row : JobSnapshot) (k : Option ℕ) (st : Store B) (s : PipelineState)
    (free : contains u s.queue_uids ≡ false) (idle : contains u s.in_flight_uids ≡ false) where
  -- A skip does not look at whether the job is in flight.
  after_skip-flown :
      (answer : Bool × B)
      → after_skip setup u (some row) k (record st { state = flown u s }) answer
        ≡ after_skip setup u (some row) k (record st { state = s }) answer
  unfolding after_skip handle_skip_commit_strike requeue_and_crash requeue_in_memory
      remove_queued_uid
  after_skip-flown (true, b) = rw free (rw (unregister_flown u s idle) refl)
  after_skip-flown (false, b) = rw (unregister_flown u s idle) refl

module _ ⦃h : RowHash⦄ ⦃p : Builtins⦄ {B : Type 0} (setup : Setup B)
    (law : IsContract setup.ops) where
  flown-IsCoherent :
      (idx : ℕ) (row : JobSnapshot) (st : Store B)
      → IsCoherentStore setup.ops st
      → get_elem? st.state.queue idx ≡ some row
      → IsConsistent (popped idx row st.state)
      → (contains (job_uid_from_snapshot row) st.state.in_flight_uids ≡ false)
        × IsCoherent setup.ops st.backend
            (flown (job_uid_from_snapshot row) (popped idx row st.state))
  flown-IsCoherent idx row st c e c' =
      let s = st.state in
      let u = job_uid_from_snapshot row in
      let queued : contains u s.queue_uids ≡ true = ground (
        arith,
        c.consistent.queued u,
        contains-get_elem? (row_uids s.queue) idx (row_uids-get_elem? s.queue idx e),
      ) in
      (
        ground (arith, queued, c.consistent.not_both u),
        record {
          consistent = record {
            queued = c'.queued;
            distinct = c'.distinct;
            succeeded = c'.succeeded;
            archived = c'.archived;
            one_outcome = c'.one_outcome;
            not_both = λ v. ground (
              arith,
              c'.not_both v,
              contains-add v u s.in_flight_uids,
              contains-discard v u s.queue_uids,
              ==_iff u v,
            );
          };
          successes = c.successes;
          failed = c.failed;
          cursors = c.cursors;
          queue = λ v. ground (
            arith,
            c.queue v,
            queued,
            contains-discard v u s.queue_uids,
            contains-add v u s.in_flight_uids,
            ==_iff u v,
          );
        },
      )

  -- A job that is taken off the queue and skipped before it is in flight leaves memory and backend in
  -- agreement and fails no assertion, whatever the backend answers, if its row can be read.
  pub pop_job-apply_skip :
      (idx : ℕ) {row taken : JobSnapshot} {job : Job} (s' : PipelineState) (st : Store B)
      → IsCoherentStore setup.ops st
      → get_elem? st.state.queue idx ≡ some row
      → pop_job idx st.state ≡ some (taken, s')
      → from_dict row ≡ some job
      → (k : Option ℕ)
      → EndsCoherent setup.ops
          (apply_skip setup (uid job) (some taken) k (record st { state = s' }))
  unfolding apply_skip
  pop_job-apply_skip idx {row} {taken} {job} s' st c e p parsed k =
      let s = st.state in
      let u = job_uid_from_snapshot row in
      let (same, left) = pop_job_leaves s s' idx {row = row} {taken = taken} e p in
      let (s'', p', c') = pop_job-IsConsistent s c.consistent idx {row = row} e in
      let ok = subst IsConsistent (pop_job_leaves s s'' idx {row = row} {taken = row} e p').1 c' in
      let (idle, flying) = flown-IsCoherent idx row st c e ok in
      let t = popped idx row s in
      let free : contains u t.queue_uids ≡ false =
        ground (arith, contains-discard u u s.queue_uids, ==_iff u u) in
      let named : uid job ≡ u = sym (from_dict-uid row parsed) in
      rw same (
        rw left (
          rw named (
            rw
              (sym (
                after_skip-flown setup u row k st t free idle
                  (setup.ops.commit_removal u st.backend)))
              (apply_skip-EndsCoherent setup law u row (record st { state = flown u t }) flying
                (ground (arith, contains-add u u s.in_flight_uids, ==_iff u u)) parsed named k))))
