-- ===== src/Engine/Store/Strikes.antt =====
-- tasklite/engine/store.py: what a commit that the backend refused leads to. The third refusal in a row
-- counts as bad input and ends in the failure archive; before it the run crashes, to try again.
use Prim.Native.Char.{code}
use tasklite.Common.{
  zero, suc, ℕ, ◌+◌, String, Bool, true, false, Option, none, some, List, [], ◌∷◌, eq_string,
  eq_nat, ◌==◌, leb, if◌then◌else◌,
}
use tasklite.Models.Job.{
  JobSnapshot, RowHash, job_uid_from_snapshot, absent, value, ℤ, pos, negsuc, read_runtime,
  write_state, ◌>>=◌,
}
use tasklite.Models.Json.{flag, int, text, Builtins}
use tasklite.Models.State.{
  Metadata, PipelineState, unregister_in_flight, requeue_jobs, rows_without,
}
use tasklite.Models.Attempt.{failed, requeued}
use tasklite.Backend.Memory.{Payload}
use tasklite.Engine.Store.{
  Setup, Store, Exit, crashed, terminated, raised, continue, record_stat, fire_attempt_finished,
  finish_attempt, failed_for_good, mark_failed_memory,
}

after_colon : String → Option String
after_colon String.[] = none
after_colon (String.◌∷◌ c s) = if code c == b':' then some s else none

-- The text before the first `::` and the text behind it.
unfoldable pub cut : String → Option (String × String)
unfolding after_colon
cut String.[] = none
cut (String.◌∷◌ c s) =
    let rest = cut s in
    let further : Option (String × String) =
      rest >>= λ parts. some (String.◌∷◌ c parts.0, parts.1) in
    if code c == b':'
    then elim (after_colon s) [ none ↦ further | some behind ↦ some ("", behind) ]
    else further

-- `uid.split("::")[0]` and `uid.split("::")[1]`; `none` is an `IndexError`.
unfoldable pub split_uid : String → Option (String × String)
split_uid job_uid = cut job_uid >>= λ parts. elim (cut parts.1) [
  | none ↦ some parts
  | some (job_id, more) ↦ some (parts.0, job_id)
]

-- A dict with the two keys of an identity.
abbrev pub minimal_snapshot : String → String → JobSnapshot
minimal_snapshot task_type job_id = record {
  task_type = value task_type;
  job_id = value job_id;
  payload = absent;
  resources = absent;
  max_retries = absent;
  depends_on = absent;
  timeout_seconds = absent;
  timeout_is_transient = absent;
  trigger = absent;
  runtime = absent;
  attempt_no = absent;
  activation_no = absent;
  first_enqueued_at = absent;
  has_rerun = false;
  has_timeout = false;
}

unfoldable pub synthesized : String → Option JobSnapshot
synthesized job_uid = split_uid job_uid >>= λ parts. some (minimal_snapshot parts.0 parts.1)

-- `self.commit_failures += 1`
abbrev pub one_more : ℤ → ℤ
one_more (pos n) = pos (n + 1)
one_more (negsuc zero) = pos 0
one_more (negsuc (suc n)) = negsuc n

-- `failures >= self._threshold`
abbrev pub reaches : ℕ → ℤ → Bool
reaches threshold (pos n) = leb threshold n
reaches threshold (negsuc n) = false

-- `_register_commit_failure`: the row with one more failure, and how many there are now.
unfoldable pub register_commit_failure : JobSnapshot → JobSnapshot × ℤ
register_commit_failure row =
    let rt = read_runtime row.runtime in
    let failures = one_more rt.commit_failures in
    (
      record row { runtime = value (write_state (record rt { commit_failures = failures })) },
      failures,
    )

-- `_extract_job_payload`
unfoldable pub job_payload : JobSnapshot → Option Payload
job_payload row = elim row.payload [ value payload ↦ some payload | _ ↦ none ]

unfoldable pub strike_meta : ℤ → Metadata
strike_meta failures =
    ("error_message", text "COMMIT_FAILURE")
    ∷ ("is_fatal", flag true)
    ∷ ("commit_failures", int failures)
    ∷ []

abbrev snapshot_or : Option JobSnapshot → Option JobSnapshot → Option JobSnapshot
snapshot_or none other = other
snapshot_or (some row) other = some row

module _ ⦃h : RowHash⦄ where
  -- The change of the state in `_requeue_and_crash`.
  unfoldable pub requeue_in_memory :
      String → Option JobSnapshot → PipelineState → Option PipelineState
  requeue_in_memory job_uid none s = unregister_in_flight job_uid s
  requeue_in_memory job_uid (some row) s =
      unregister_in_flight job_uid s >>= λ idle. requeue_jobs (row ∷ []) true idle

  -- The first row of the queue that goes by the uid. Its dict is the one of the queue, so that the
  -- count is written there.
  unfoldable pub first_match : String → List JobSnapshot → Option JobSnapshot
  first_match job_uid [] = none
  first_match job_uid (row ∷ rows) =
      if job_uid_from_snapshot row == job_uid then some row else first_match job_uid rows

  unfoldable pub write_first : String → JobSnapshot → List JobSnapshot → List JobSnapshot
  write_first job_uid new [] = []
  write_first job_uid new (row ∷ rows) =
      let rest = write_first job_uid new rows in
      if job_uid_from_snapshot row == job_uid then new ∷ rows else row ∷ rest

module _ {B : Type 0} (setup : Setup B) ⦃h : RowHash⦄ ⦃p : Builtins⦄ where
  unfoldable pub requeue_and_crash :
      {A : Type 0} → String → Option JobSnapshot → String → Option ℕ → Store B → Exit B A
  requeue_and_crash job_uid snapshot reason attempt_id st =
      continue (requeue_in_memory job_uid snapshot st.state) λ s.
        crashed (finish_attempt setup attempt_id requeued (some reason) (record st { state = s }))

  -- What follows the failure that is written at the threshold.
  unfoldable pub after_strike :
      {A : Type 0} → String → JobSnapshot → ℤ → String → Option ℕ → Store B → Bool × B → Exit B A
  after_strike job_uid row failures reason attempt_id st (true, b) =
      continue (mark_failed_memory setup.now job_uid (strike_meta failures) true st.state) λ s.
        terminated (
          fire_attempt_finished setup job_uid (failed_for_good (strike_meta failures)) (
            finish_attempt setup attempt_id failed (some "COMMIT_FAILURE")
              (record_stat "failed" 1 (record st { backend = b; state = s }))))
  after_strike job_uid row failures reason attempt_id st (false, b) =
      requeue_and_crash job_uid (some row) reason attempt_id (record st { backend = b })

  unfoldable pub strike :
      {A : Type 0} → String → String → JobSnapshot × ℤ → Option ℕ → Store B → Exit B A
  strike job_uid reason (row, failures) attempt_id st =
      if reaches setup.threshold failures
      then after_strike job_uid row failures reason attempt_id st
          (setup.ops.commit_failure job_uid (strike_meta failures) (job_payload row) st.backend)
      else requeue_and_crash job_uid (some row) reason attempt_id st

  unfoldable pub handle_commit_failure_strike :
      {A : Type 0} → String → String → Option JobSnapshot → Option ℕ → Store B → Exit B A
  handle_commit_failure_strike job_uid reason snapshot attempt_id st =
      elim (snapshot_or snapshot (synthesized job_uid)) [
        | none ↦ raised
        | some row ↦ strike job_uid reason (register_commit_failure row) attempt_id st
      ]

  unfoldable pub handle_skip_commit_strike :
      {A : Type 0} → String → Option JobSnapshot → Option ℕ → Store B → Exit B A
  handle_skip_commit_strike job_uid snapshot attempt_id st =
      requeue_and_crash job_uid snapshot "commit_skip" attempt_id st

  -- `_bulk_strike_finalize`, behind its commit: whether the failure is archived.
  unfoldable pub bulk_strike_finalize : String → ℤ → Store B → Bool × B → Option (Bool × Store B)
  bulk_strike_finalize job_uid failures st (false, b) = some (false, record st { backend = b })
  bulk_strike_finalize job_uid failures st (true, b) =
      mark_failed_memory setup.now job_uid (strike_meta failures) false st.state >>= λ s. some (
        true,
        fire_attempt_finished setup job_uid (failed_for_good (strike_meta failures))
            (record_stat "failed" 1 (record st { backend = b; state = s })),
      )

  -- One round of the loop of `handle_bulk_failure_strike`, on the queue, whether a job was kept, and
  -- the store.
  unfoldable pub bulk_strike_one :
      String → List JobSnapshot × Bool × Store B → Option (List JobSnapshot × Bool × Store B)
  bulk_strike_one job_uid (queue, kept_any, st) =
      snapshot_or (first_match job_uid queue) (synthesized job_uid) >>= λ found.
      let (row, failures) = register_commit_failure found in
      let counted = write_first job_uid row queue in
      if reaches setup.threshold failures
      then (bulk_strike_finalize job_uid failures st
            (setup.ops.commit_failure job_uid (strike_meta failures) (job_payload row) st.backend)
          >>= λ answer. some (
              if answer.0
              then (rows_without job_uid counted, kept_any, answer.1)
              else (counted, true, answer.1)))
      else some (counted, true, st)

  unfoldable pub handle_bulk_failure_strike :
      List String → List JobSnapshot × Bool × Store B → Option (List JobSnapshot × Bool × Store B)
  handle_bulk_failure_strike [] loop = some loop
  handle_bulk_failure_strike (u ∷ us) loop =
      bulk_strike_one u loop >>= λ more. handle_bulk_failure_strike us more
