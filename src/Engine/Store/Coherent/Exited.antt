-- ===== src/Engine/Store/Coherent/Exited.antt =====
-- The exits of a single job in tasklite/engine/store.py.
use tasklite.Common.{
  ℕ, lookup, String, Bool, true, false, ◌≡◌, refl, ◌∙◌, ap, sym, subst, keys, IsDistinct, Option,
  none, some, List, [], ◌∷◌, contains, eq_string, ◌++◌, if◌then◌else◌, arith, ==_iff,
  contains-union, contains-discard,
}
use tasklite.Models.Job.{JobSnapshot, RowHash, Job, from_dict, uid, from_dict-uid}
use tasklite.Models.Json.{Builtins}
use tasklite.Models.Artifact.{ArtifactDeclaration, Paths, validate_artifact_declarations}
use tasklite.Models.State.{Metadata, row_uids, rows_without, remove_queued_uid}
use tasklite.Models.Attempt.{requeued, skipped}
use tasklite.Backend.Memory.{Finish}
use tasklite.Backend.Contract.{StateBackend, IsSucceeded, IsRequeued, Answers, IsContract}
use tasklite.Engine.Store.{Setup, Store, Exit, done, continue, record_stat}
use tasklite.Engine.Store.Succeeding.{Success, success_metadata, time_or}
use tasklite.Engine.Store.Exits.{
  after_success, apply_success, after_retry, apply_retry, after_skip, apply_skip,
  transient_kind_stat, record_kind, SkipOutcome, SuccessOutcome, RetryOutcome,
}
use tasklite.Engine.Store.Strikes.{handle_skip_commit_strike}
use tasklite.Engine.Store.Coherent.{
  IsCoherent, IsCoherentStore, EndsCoherent, IsSameFailure, unchanged-IsCoherent,
  finish_attempt-IsCoherentStore, finish_attempt_keeps,
}
use tasklite.Engine.Store.Coherent.Moves.{unregistered, spawned, unregister_in_flight-Leaves}
use tasklite.Engine.Store.Coherent.Succeeded.{spawn_if_any-Leaves}
use tasklite.Engine.Store.Coherent.Struck.{
  back_in_queue, handle_commit_failure_strike-EndsCoherent, requeue_and_crash-EndsCoherent,
}

pub record_kind-IsCoherentStore :
    ⦃h : RowHash⦄ ⦃p : Builtins⦄ {B : Type 0} (be : StateBackend B) (key : Option String)
    (st : Store B)
    → IsCoherentStore be st
    → IsCoherentStore be (record_kind key st)
unfolding record_stat
record_kind-IsCoherentStore be none st c = c
record_kind-IsCoherentStore be (some key) st c = c

record_kind_keeps :
    {B : Type 0} (key : Option String) (st : Store B)
    → ((record_kind key st).state ≡ st.state) × ((record_kind key st).backend ≡ st.backend)
unfolding record_stat
record_kind_keeps none st = (refl, refl)
record_kind_keeps (some key) st = (refl, refl)

-- The row that a retry puts on a queue without the old row of the job.
abbrev pub placed : Bool → JobSnapshot → List JobSnapshot → List JobSnapshot
placed front retry rest = if front then (retry ∷ []) ++ rest else rest ++ (retry ∷ [])

-- A retry that was accepted has put the same row at the same end of the queue in memory and of the
-- one on disk.
abbrev pub PlacesRow :
    ⦃h : RowHash⦄ {B A : Type 0}
    → StateBackend B
    → String
    → JobSnapshot
    → Bool
    → Store B
    → Bool × B
    → Exit B A
    → Type 0
PlacesRow be u retry front st (true, b) (done outcome st') =
    (st'.state.queue ≡ placed front retry st.state.queue)
    × (be.load_queue st'.backend ≡ placed front retry (rows_without u (be.load_queue st.backend)))
PlacesRow be u retry front st (true, b) exit = ⊥
PlacesRow be u retry front st (false, b) exit = Unit {0}

module _ ⦃h : RowHash⦄ ⦃p : Builtins⦄ {B : Type 0} (setup : Setup B) (law : IsContract setup.ops)
    (u : String) (row : JobSnapshot) {job : Job} (st : Store B) (c : IsCoherentStore setup.ops st)
    (flying : contains u st.state.in_flight_uids ≡ true) (parsed : from_dict row ≡ some job)
    (named : uid job ≡ u) where
  after_retry-EndsCoherent :
      (retry : JobSnapshot) (front : Bool) (kind : Option String) (k : Option ℕ)
      (error : Option String) (answer : Bool × B)
      → Answers setup.ops (IsRequeued setup.ops u (retry ∷ []) front st.backend) st.backend answer
      → EndsCoherent setup.ops (after_retry setup u (some row) retry front kind k error st answer)
        × PlacesRow setup.ops u retry front st answer
            (after_retry setup u (some row) retry front kind k error st answer)
  unfolding after_retry continue record_stat
  after_retry-EndsCoherent retry front kind k error (true, b) written =
      let s = st.state in
      let moved =
        back_in_queue u s c.consistent retry front
          (λ v. ground (arith, written.fresh v, c.queue v, c.consistent.not_both u, ==_iff u v))
          (λ v.
            ground (arith, written.fresh v, c.queue v, contains-discard v u s.in_flight_uids)) in
      let c' : IsCoherent setup.ops b (spawned (retry ∷ []) front (unregistered u s)) = record {
        consistent = moved.1;
        successes = λ v. ap (λ d. lookup v d) written.successes ∙ c.successes v;
        failed = λ v.
            subst (λ d. IsSameFailure (lookup v d) (lookup v s.failed)) (sym written.failed)
              (c.failed v);
        cursors = λ v. ap (λ d. lookup v d) written.cursors ∙ c.cursors v;
        queue = λ v. ground (
          arith,
          written.queue v,
          c.queue v,
          c.consistent.not_both u,
          contains-union v s.queue_uids (row_uids (retry ∷ [])),
          contains-discard v u s.in_flight_uids,
          ==_iff u v,
        );
      } in
      let next =
        record_stat "retried" 1
          (record st { backend = b; state = spawned (retry ∷ []) front (unregistered u s) }) in
      let kinds = transient_kind_stat kind in
      let (same, kept) = record_kind_keeps kinds next in
      let (same', kept') =
        finish_attempt_keeps setup k requeued error (record_kind kinds next) law in
      rw moved.0 (
        finish_attempt-IsCoherentStore setup k requeued error (record_kind kinds next) law
            (record_kind-IsCoherentStore setup.ops kinds next c'),
        (ap (λ x. x.queue) (same' ∙ same), kept' ∙ ap setup.ops.load_queue kept ∙ written.order),
      )
  after_retry-EndsCoherent retry front kind k error (false, b) same = (
    handle_commit_failure_strike-EndsCoherent setup law u RetryOutcome "commit_retry" row k
        (record st { backend = b }) (unchanged-IsCoherent setup.ops st.backend b st.state same c)
        flying parsed named,
    tt,
  )

  -- A retry of a job in flight, whose row can be read, leaves memory and backend in agreement and fails
  -- no assertion, whatever the backend answers and whatever the uid of the new row is. If the backend
  -- accepts it, the new row stands at the same end of both queues, as `plan_front` says, on disk in
  -- place of the rows of the job.
  pub apply_retry-EndsCoherent :
      (retry : JobSnapshot) (kind : Option String) (k : Option ℕ) (error : Option String)
      → EndsCoherent setup.ops (apply_retry setup u (some row) retry kind k error st)
        × PlacesRow setup.ops u retry
            (setup.plan_front retry kind)
            st
            (setup.ops.commit_requeue u retry (setup.plan_front retry kind) st.backend)
            (apply_retry setup u (some row) retry kind k error st)
  unfolding apply_retry
  apply_retry-EndsCoherent retry kind k error =
      let front = setup.plan_front retry kind in
      after_retry-EndsCoherent retry front kind k error
        (setup.ops.commit_requeue u retry front st.backend)
        (law.commit_requeue-Answers u retry front st.backend)

  after_skip-EndsCoherent :
      (k : Option ℕ) (answer : Bool × B)
      → Answers setup.ops (IsRequeued setup.ops u [] true st.backend) st.backend answer
      → EndsCoherent setup.ops (after_skip setup u (some row) k st answer)
  unfolding after_skip continue record_stat row_uids contains
  after_skip-EndsCoherent k (true, b) written =
      let s = st.state in
      let idle : contains u s.queue_uids ≡ false = ground (arith, c.consistent.not_both u) in
      let kept : remove_queued_uid u s ≡ some s = unfold remove_queued_uid in rw idle refl in
      let moved = unregister_in_flight-Leaves s c.consistent u in
      let c' : IsCoherent setup.ops b (unregistered u s) = record {
        consistent = moved.1;
        successes = λ v. ap (λ d. lookup v d) written.successes ∙ c.successes v;
        failed = λ v.
            subst (λ d. IsSameFailure (lookup v d) (lookup v s.failed)) (sym written.failed)
              (c.failed v);
        cursors = λ v. ap (λ d. lookup v d) written.cursors ∙ c.cursors v;
        queue = λ v.
            ground (
              arith,
              written.queue v,
              c.queue v,
              contains-discard v u s.in_flight_uids,
              ==_iff u v,
            );
      } in
      rw kept (rw moved.0 (finish_attempt-IsCoherentStore setup k skipped none _ law c'))
  after_skip-EndsCoherent k (false, b) same =
      unfold handle_skip_commit_strike in
      requeue_and_crash-EndsCoherent setup law u SkipOutcome row "commit_skip" k
        (record st { backend = b }) (unchanged-IsCoherent setup.ops st.backend b st.state same c)
        flying (from_dict-uid row parsed ∙ named)

  -- A skip of a job in flight leaves memory and backend in agreement and fails no assertion, whatever
  -- the backend answers.
  pub apply_skip-EndsCoherent :
      (k : Option ℕ) → EndsCoherent setup.ops (apply_skip setup u (some row) k st)
  unfolding apply_skip
  apply_skip-EndsCoherent k =
      after_skip-EndsCoherent k (setup.ops.commit_removal u st.backend)
        (law.commit_removal-Answers u st.backend)

  after_success-EndsCoherent :
      (args : Success) (m : Metadata) (finish : Finish) (answer : Bool × B)
      → args.job_snapshot ≡ some row
      → IsDistinct (keys args.cursor_updates)
      → Answers setup.ops
          (IsSucceeded setup.ops u m finish args.spawned_job_snapshots args.cursor_updates
            st.backend)
          st.backend
          answer
      → EndsCoherent setup.ops (after_success setup u args m st answer)
  unfolding after_success continue record_stat
  after_success-EndsCoherent args m finish (true, b) given d written =
      let (s', e, c') =
        spawn_if_any-Leaves u m args.cursor_updates setup.ops st.backend b st.state c flying finish
          d args.spawned_job_snapshots written in
      rw e c'
  after_success-EndsCoherent args m finish (false, b) given d same = rw given (
      handle_commit_failure_strike-EndsCoherent setup law u SuccessOutcome "commit_job_success" row
        args.attempt_id (record st { backend = b })
        (unchanged-IsCoherent setup.ops st.backend b st.state same c) flying parsed named)

  -- A success of a job in flight whose row can be read, if its declarations of files are valid and
  -- its cursor updates name each cursor once, leaves memory and backend in agreement, as
  -- `IsCoherent` says, and fails no assertion: whatever the backend answers, and also if the job
  -- spawns a row with its own uid.
  pub apply_success-EndsCoherent :
      ⦃q : Paths⦄ (args : Success) {declarations : List ArtifactDeclaration}
      → args.job_snapshot ≡ some row
      → validate_artifact_declarations args.declared_artifacts ≡ some declarations
      → IsDistinct (keys args.cursor_updates)
      → EndsCoherent setup.ops (apply_success setup u args st)
  unfolding apply_success
  apply_success-EndsCoherent args {declarations} given valid d =
      rw (apply_success, valid)
        (after_success-EndsCoherent args _ _ _ given d (
          law.commit_success-Answers u
            (success_metadata (time_or setup.now args.finished_at) u args declarations st.state)
            (record {
              attempt_id = args.attempt_id;
              execution_id = args.execution_id;
              finished_at = some (time_or setup.now args.finished_at);
            })
            args.spawned_job_snapshots args.cursor_updates d st.backend))
