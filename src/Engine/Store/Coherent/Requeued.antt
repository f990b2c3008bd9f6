-- ===== src/Engine/Store/Coherent/Requeued.antt =====
-- tasklite/engine/store.py: a job that was taken off the queue and comes back.
use tasklite.Common.{
  ℕ, String, Bool, true, ◌≡◌, refl, sym, ◌∙◌, subst, Option, none, some, [], ◌∷◌, contains, discard,
  get_elem?, erase_idx, eq_string, arith, ==_iff, contains-union, contains-discard,
  contains-get_elem?, inl, inr, Bool-cases,
}
use tasklite.Models.Job.{JobSnapshot, RowHash, job_uid_from_snapshot}
use tasklite.Models.Json.{Builtins}
use tasklite.Models.State.{PipelineState, row_uids, pop_job, requeue_jobs, uids_consistent}
use tasklite.Models.State.Active.{pop_job-IsConsistent, row_uids-get_elem?}
use tasklite.Models.State.Consistent.{IsConsistent}
use tasklite.Models.Attempt.{requeued}
use tasklite.Backend.Contract.{IsContract}
use tasklite.Engine.Store.{Setup, Store, continue}
use tasklite.Engine.Store.Exits.{transient_kind_stat}
use tasklite.Engine.Store.Traces.{requeue_transient}
use tasklite.Engine.Store.Coherent.{
  IsCoherent, IsCoherentStore, EndsCoherent, finish_attempt-IsCoherentStore,
}
use tasklite.Engine.Store.Coherent.Moves.{spawned, requeue_jobs-Leaves}
use tasklite.Engine.Store.Coherent.Struck.{row_uids_of_one, one-IsDistinct}
use tasklite.Engine.Store.Coherent.Exited.{record_kind-IsCoherentStore}

module _ ⦃h : RowHash⦄ where
  abbrev pub popped : ℕ → JobSnapshot → PipelineState → PipelineState
  popped idx row s = record s {
    queue = erase_idx s.queue idx;
    queue_uids = discard (job_uid_from_snapshot row) s.queue_uids;
  }

  -- The state that `pop_job` leaves.
  pub pop_job_leaves :
      (s s' : PipelineState) (idx : ℕ) {row taken : JobSnapshot}
      → get_elem? s.queue idx ≡ some row
      → pop_job idx s ≡ some (taken, s')
      → (taken ≡ row) × (s' ≡ popped idx row s)
  unfolding pop_job
  pop_job_leaves s s' idx {row} {taken} e p =
      elim (Bool-cases (uids_consistent (popped idx row s))) [
        | inl t ↦
            let q : pop_job idx s ≡ some (row, popped idx row s) = rw e (rw t refl) in
            let r : some (taken, s') ≡ some (row, popped idx row s) = sym p ∙ q in
            (ground (arith, r), ground (arith, r))
        | inr f ↦ let q : pop_job idx s ≡ none = rw e (rw f refl) in let taken_anyway = p in cc
      ]

module _ ⦃h : RowHash⦄ ⦃p : Builtins⦄ {B : Type 0} (setup : Setup B)
    (law : IsContract setup.ops) where
  -- The popped row goes back: the queue holds what it held.
  back-IsCoherent :
      (idx : ℕ) (row : JobSnapshot) (front : Bool) (st : Store B)
      → IsCoherentStore setup.ops st
      → get_elem? st.state.queue idx ≡ some row
      → IsConsistent (popped idx row st.state)
      → (requeue_jobs (row ∷ []) front (popped idx row st.state)
          ≡ some (spawned (row ∷ []) front (popped idx row st.state)))
        × IsCoherent setup.ops st.backend (spawned (row ∷ []) front (popped idx row st.state))
  back-IsCoherent idx row front st c e c' =
      let s = st.state in
      let u = job_uid_from_snapshot row in
      let queued : contains u s.queue_uids ≡ true = ground (
        arith,
        c.consistent.queued u,
        contains-get_elem? (row_uids s.queue) idx (row_uids-get_elem? s.queue idx e),
      ) in
      let moved =
        requeue_jobs-Leaves (popped idx row s) c' (row ∷ []) front (one-IsDistinct row)
          (λ v. ground (arith, row_uids_of_one v row, contains-discard v u s.queue_uids))
          (λ v.
            ground (arith, row_uids_of_one v row, queued, c.consistent.not_both v, ==_iff u v)) in
      (
        moved.0,
        record {
          consistent = moved.1;
          successes = c.successes;
          failed = c.failed;
          cursors = c.cursors;
          queue = λ v. ground (
            arith,
            c.queue v,
            queued,
            row_uids_of_one v row,
            contains-discard v u s.queue_uids,
            contains-union v (discard u s.queue_uids) (row_uids (row ∷ [])),
            ==_iff u v,
          );
        },
      )

  -- A job that is taken off the queue and, before it is in flight, put back for a transient reason
  -- leaves memory and backend in agreement, and no assertion fails.
  pub pop_job-requeue_transient :
      (idx : ℕ) {row taken : JobSnapshot} (s' : PipelineState) (st : Store B)
      → IsCoherentStore setup.ops st
      → get_elem? st.state.queue idx ≡ some row
      → pop_job idx st.state ≡ some (taken, s')
      → (kind : String) (k : Option ℕ) (error : Option String)
      → EndsCoherent setup.ops
          (requeue_transient setup taken kind k error (record st { state = s' }))
  unfolding requeue_transient continue
  pop_job-requeue_transient idx {row} {taken} s' st c e p kind k error =
      let (same, left) = pop_job_leaves st.state s' idx {row = row} {taken = taken} e p in
      let (s'', p', c') = pop_job-IsConsistent st.state c.consistent idx {row = row} e in
      let ok =
        subst IsConsistent (pop_job_leaves st.state s'' idx {row = row} {taken = row} e p').1 c' in
      let front = setup.plan_front row (some kind) in
      let (moved, c'') = back-IsCoherent idx row front st c e ok in
      rw same (
        rw left (
          rw moved (
            finish_attempt-IsCoherentStore setup k requeued error _ law
              (record_kind-IsCoherentStore setup.ops (transient_kind_stat (some kind)) _ c''))))
