-- ===== src/Engine/Store/Exits.antt =====
-- tasklite/engine/store.py: the exits of a job. Each commits to the backend first and changes the
-- memory only if the backend accepted.
use tasklite.Common.{
  ℕ, String, Bool, true, false, Option, none, some, List, [], ◌∷◌, lookup, eq_string,
}
use tasklite.Models.Job.{JobSnapshot, RowHash, ◌>>=◌}
use tasklite.Models.Json.{Builtins}
use tasklite.Models.Artifact.{Paths, validate_artifact_declarations}
use tasklite.Models.State.{
  Metadata, PipelineState, row_uids, mark_success, unregister_in_flight, spawn_jobs, requeue_jobs,
  update_cursors, remove_queued_uid,
}
use tasklite.Models.Attempt.{requeued, skipped}
use tasklite.Engine.Store.{Setup, Store, Exit, done, raised, continue, record_stat, finish_attempt}
use tasklite.Engine.Store.Strikes.{handle_commit_failure_strike, handle_skip_commit_strike}
use tasklite.Engine.Store.Succeeding.{Success, success_metadata, time_or}

pub record SuccessOutcome : Type 0 where
  pub job_uid : String
  pub success_metadata : Metadata
  pub spawned_uids : List String

pub record FailureOutcome : Type 0 where
  pub job_uid : String
  pub failure_metadata : Metadata
  pub cascaded_uids : List String

pub record RetryOutcome : Type 0 where
  pub job_uid : String
  pub retry_job_snapshot : JobSnapshot
  pub transient_kind : Option String

pub record SkipOutcome : Type 0 where
  pub job_uid : String
  pub was_known : Bool

pub record BulkFailureOutcome : Type 0 where
  pub failed_uids : List String
  pub cascaded_uids : List String
  pub remaining_queue_count : ℕ

-- `TRANSIENT_KIND_STAT_KEYS`
unfoldable pub transient_kind_stat : Option String → Option String
transient_kind_stat none = none
transient_kind_stat (some kind) = lookup kind (
    ("interrupted", "interrupted_reruns")
    ∷ ("lock_conflict", "lock_conflict_reruns")
    ∷ ("rate_limited", "rate_limited_reruns")
    ∷ [])

abbrev pub record_kind : {B : Type 0} → Option String → Store B → Store B
record_kind none st = st
record_kind (some key) st = record_stat key 1 st

module _ ⦃h : RowHash⦄ where
  -- `if spawned_snapshots: spawn_jobs(spawned_snapshots, front=True)`
  unfoldable pub spawn_if_any : List JobSnapshot → PipelineState → Option PipelineState
  spawn_if_any [] s = some s
  spawn_if_any (row ∷ rows) s = spawn_jobs (row ∷ rows) true s

module _ {B : Type 0} (setup : Setup B) ⦃h : RowHash⦄ ⦃p : Builtins⦄ where
  -- What follows the commit, by its answer. A commit that is refused never returns an outcome.
  unfoldable pub after_success :
      String → Success → Metadata → Store B → Bool × B → Exit B SuccessOutcome
  after_success job_uid args meta st (true, b) =
      let change : Option PipelineState =
        spawn_if_any args.spawned_job_snapshots st.state >>= λ spawned.
        mark_success job_uid meta (update_cursors args.cursor_updates spawned) >>= λ marked.
        unregister_in_flight job_uid marked in
      continue change λ s.
        done
          (record {
            job_uid = job_uid;
            success_metadata = meta;
            spawned_uids = row_uids args.spawned_job_snapshots;
          })
          (record_stat "succeeded" 1 (record st { backend = b; state = s }))
  after_success job_uid args meta st (false, b) =
      handle_commit_failure_strike setup job_uid "commit_job_success" args.job_snapshot
        args.attempt_id (record st { backend = b })

  unfoldable pub apply_success : ⦃q : Paths⦄ → String → Success → Store B → Exit B SuccessOutcome
  apply_success job_uid args st = elim (validate_artifact_declarations args.declared_artifacts) [
    | none ↦ raised
    | some declarations ↦
        let at = time_or setup.now args.finished_at in
        let meta = success_metadata at job_uid args declarations st.state in
        after_success job_uid args meta st (
          setup.ops.commit_success job_uid meta
            (record {
              attempt_id = args.attempt_id;
              execution_id = args.execution_id;
              finished_at = some at;
            })
            args.spawned_job_snapshots args.cursor_updates st.backend)
  ]

  unfoldable pub after_retry :
      String
      → Option JobSnapshot
      → JobSnapshot
      → Bool
      → Option String
      → Option ℕ
      → Option String
      → Store B
      → Bool × B
      → Exit B RetryOutcome
  after_retry job_uid snapshot retry front kind attempt_id error st (true, b) =
      let change : Option PipelineState =
        unregister_in_flight job_uid st.state >>= λ idle. requeue_jobs (retry ∷ []) front idle in
      continue change λ s.
        done (record { job_uid = job_uid; retry_job_snapshot = retry; transient_kind = kind })
          (finish_attempt setup attempt_id requeued error (
            record_kind (transient_kind_stat kind)
              (record_stat "retried" 1 (record st { backend = b; state = s }))))
  after_retry job_uid snapshot retry front kind attempt_id error st (false, b) =
      handle_commit_failure_strike setup job_uid "commit_retry" snapshot attempt_id
        (record st { backend = b })

  unfoldable pub apply_retry :
      String
      → Option JobSnapshot
      → JobSnapshot
      → Option String
      → Option ℕ
      → Option String
      → Store B
      → Exit B RetryOutcome
  apply_retry job_uid snapshot retry kind attempt_id error st =
      let front = setup.plan_front retry kind in
      after_retry job_uid snapshot retry front kind attempt_id error st
        (setup.ops.commit_requeue job_uid retry front st.backend)

  unfoldable pub after_skip :
      String → Option JobSnapshot → Option ℕ → Store B → Bool × B → Exit B SkipOutcome
  after_skip job_uid snapshot attempt_id st (true, b) =
      let change : Option PipelineState =
        remove_queued_uid job_uid st.state >>= λ gone. unregister_in_flight job_uid gone in
      continue change λ s.
        done (record { job_uid = job_uid; was_known = true })
          (finish_attempt setup attempt_id skipped none
            (record_stat "skipped" 1 (record st { backend = b; state = s })))
  after_skip job_uid snapshot attempt_id st (false, b) =
      handle_skip_commit_strike setup job_uid snapshot attempt_id (record st { backend = b })

  unfoldable pub apply_skip : String → Option JobSnapshot → Option ℕ → Store B → Exit B SkipOutcome
  apply_skip job_uid snapshot attempt_id st =
      after_skip job_uid snapshot attempt_id st (setup.ops.commit_removal job_uid st.backend)
