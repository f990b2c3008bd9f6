-- ===== src/Engine/Store/Failures.antt =====
-- tasklite/engine/store.py: the exits that write failures, and the failure of the jobs that wait for a
-- failed one.
use tasklite.Common.{
  ℕ, String, Bool, true, false, not, ◌&&◌, Option, none, some, List, [], ◌∷◌, map, keys, contains,
  length, eq_string, if◌then◌else◌, keep,
}
use tasklite.Models.Job.{JobSnapshot, RowHash, ◌>>=◌}
use tasklite.Models.Json.{text, Builtins}
use tasklite.Models.State.{
  Metadata, PipelineState, mark_failed, unregister_in_flight, replace_queue,
}
use tasklite.Models.State.Cascade
use tasklite.Models.Attempt.{failed}
use tasklite.Backend.Memory.{Payload, rows_outside}
use tasklite.Engine.ErrorClass.{normalize_failure_metadata}
use tasklite.Engine.Store.{
  Setup, Store, Exit, done, crashed, terminated, raised, continue, record_stat,
  fire_attempt_finished, finish_attempt, failed_for_good, mark_failed_memory, attempt_error,
  selection_excluded_uids,
}
use tasklite.Engine.Store.Strikes.{
  handle_commit_failure_strike, handle_bulk_failure_strike, job_payload,
}
use tasklite.Engine.Store.Exits.{FailureOutcome, BulkFailureOutcome}

abbrev pub payload_of : Option JobSnapshot → Option Payload
payload_of none = none
payload_of (some row) = job_payload row

abbrev reason_or : Option String → String
reason_or none = "commit_job_failure"
reason_or (some error) = error

-- The metadata of `cascade_fail` for the jobs that fall.
unfoldable pub cascade_metas : String → List String → List (String × Metadata)
cascade_metas failed_uid uids =
    map
      (λ u.
        (u, ("error_message", text "JOB_DEPENDENCY") ∷ ("failed_dependency", text failed_uid) ∷ []))
      uids

-- The uids that a non-empty selection leaves.
unfoldable pub allowed_uids : List String → List String → List String
allowed_uids excluded uids = keep (λ u. not (contains u excluded)) uids

finished : {A B : Type 0} → (PipelineState → A) → Option (Store B) → Exit B A
finished answer none = raised
finished answer (some st) = done (answer st.state) st

-- The outcome of `apply_failure`, with what the cascade answers.
unfoldable pub with_cascade :
    {B : Type 0} → String → Metadata → Exit B (List String) → Exit B FailureOutcome
with_cascade job_uid meta (done uids st) =
    done (record { job_uid = job_uid; failure_metadata = meta; cascaded_uids = uids }) st
with_cascade job_uid meta (crashed st) = crashed st
with_cascade job_uid meta (terminated st) = terminated st
with_cascade job_uid meta raised = raised

bulk_outcome : List (String × Metadata) → PipelineState → BulkFailureOutcome
bulk_outcome entries s = record {
  failed_uids = keys entries;
  cascaded_uids = [];
  remaining_queue_count = length s.queue;
}

abbrev pub is_empty_batch : List (String × Metadata) → Bool
is_empty_batch [] = true
is_empty_batch (entry ∷ entries) = false

abbrev pub any_uid : List String → Bool
any_uid [] = false
any_uid (u ∷ us) = true

module _ {B : Type 0} (setup : Setup B) ⦃h : RowHash⦄ ⦃p : Builtins⦄ where
  -- The loop over the failed jobs; `written` is what becomes of their metadata in memory.
  unfoldable pub archive_each :
      (Metadata → Metadata) → List (String × Metadata) → Store B → Option (Store B)
  archive_each written [] st = some st
  archive_each written ((u, meta) ∷ more) st =
      let change : Option PipelineState =
        mark_failed u (written meta) st.state >>= λ marked. unregister_in_flight u marked in
      change >>= λ s.
      archive_each written more
        (fire_attempt_finished setup u (failed_for_good meta) (record st { state = s }))

  -- A batch that the backend accepted: the queue without it, the counter, and the loop.
  unfoldable pub archive_batch :
      String → (Metadata → Metadata) → List (String × Metadata) → Store B → Option (Store B)
  archive_batch stat written entries st =
      replace_queue (rows_outside (keys entries) st.state.queue) st.state >>= λ s.
      archive_each written entries (record_stat stat (length entries) (record st { state = s }))

  -- A batch that the backend refused.
  unfoldable pub strike_batch :
      {A : Type 0} → (PipelineState → A) → List String → Store B → Exit B A
  strike_batch answer uids st =
      elim (handle_bulk_failure_strike setup uids (st.state.queue, false, st)) [
        | none ↦ raised
        | some (queue, kept_any, struck) ↦ continue (replace_queue queue struck.state) λ s.
            if kept_any
            then crashed (record struck { state = s })
            else done (answer s) (record struck { state = s })
      ]

  unfoldable pub after_cascade :
      List String → List (String × Metadata) → Store B → Bool × B → Exit B (List String)
  unfolding finished
  after_cascade uids entries st (true, b) =
      finished (λ s. uids)
        (archive_batch "cascade_failed" (normalize_failure_metadata setup.now none) entries
          (record st { backend = b }))
  after_cascade uids entries st (false, b) =
      strike_batch (λ s. uids) (keys entries) (record st { backend = b })

  unfoldable pub cascade_on : String → List String → Store B → Exit B (List String)
  cascade_on failed_uid [] st = done [] st
  cascade_on failed_uid (u ∷ us) st =
      let entries = cascade_metas failed_uid (u ∷ us) in
      after_cascade (u ∷ us) entries st (setup.ops.commit_failures entries st.backend)

  unfoldable pub cascade_fail : String → Store B → Exit B (List String)
  cascade_fail failed_uid st =
      let excluded = selection_excluded_uids setup.rules st.state in
      elim (Cascade.cascade_fail st.state failed_uid excluded) [
        | none ↦ raised
        | some uids ↦ cascade_on failed_uid (allowed_uids excluded uids) st
      ]

  unfoldable pub after_failure :
      String
      → Metadata
      → Option JobSnapshot
      → String
      → Bool
      → Option ℕ
      → Store B
      → Bool × B
      → Exit B FailureOutcome
  after_failure job_uid meta snapshot count_as cascade attempt_id st (true, b) =
      continue (mark_failed_memory setup.now job_uid meta true st.state) λ s.
        let archived =
          finish_attempt setup attempt_id failed (attempt_error meta)
            (record_stat count_as 1 (record st { backend = b; state = s })) in
        with_cascade job_uid meta
          (if cascade then cascade_fail job_uid archived else done [] archived)
  after_failure job_uid meta snapshot count_as cascade attempt_id st (false, b) =
      handle_commit_failure_strike setup job_uid (reason_or (attempt_error meta)) snapshot
        attempt_id (record st { backend = b })

  unfoldable pub apply_failure :
      String
      → Metadata
      → Option JobSnapshot
      → String
      → Bool
      → Option ℕ
      → Store B
      → Exit B FailureOutcome
  apply_failure job_uid failure_metadata snapshot count_as cascade attempt_id st =
      let meta = normalize_failure_metadata setup.now none failure_metadata in
      after_failure job_uid meta snapshot count_as cascade attempt_id st
        (setup.ops.commit_failure job_uid meta (payload_of snapshot) st.backend)

  unfoldable pub after_bulk :
      List (String × Metadata) → Store B → Bool × B → Exit B BulkFailureOutcome
  unfolding finished bulk_outcome
  after_bulk entries st (true, b) =
      finished (bulk_outcome entries)
        (archive_batch "failed" (λ meta. meta) entries (record st { backend = b }))
  after_bulk entries st (false, b) =
      strike_batch (bulk_outcome entries) (keys entries) (record st { backend = b })

  -- A batch that the selection has emptied is left alone.
  unfoldable pub apply_bulk_failure : List (String × Metadata) → Store B → Exit B BulkFailureOutcome
  unfolding bulk_outcome
  apply_bulk_failure uids_metas st =
      let excluded = selection_excluded_uids setup.rules st.state in
      let left = keep (λ entry. not (contains entry.0 excluded)) uids_metas in
      let normalized : List (String × Metadata) =
        map (λ entry. (entry.0, normalize_failure_metadata setup.now none entry.1)) left in
      if any_uid excluded && is_empty_batch left
      then done (bulk_outcome [] st.state) st
      else after_bulk normalized st (setup.ops.commit_failures normalized st.backend)
