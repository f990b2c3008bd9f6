-- ===== src/Engine/Store/Traces.antt =====
-- tasklite/engine/store.py: the traces of attempts, and the requeueing of a job that did not start.
use tasklite.Common.{ℕ, String, Option, none, some, [], ◌∷◌, ◌⧺◌, eq_string, ◌==◌, if◌then◌else◌}
use tasklite.Models.Job.{Job, JobSnapshot, RowHash, uid}
use tasklite.Models.State.{requeue_jobs}
use tasklite.Models.Attempt.{AttemptRecord, running, skipped, requeued, new_attempt}
use tasklite.Engine.Store.{Setup, Store, Exit, done, raised, continue, finish_attempt}
use tasklite.Engine.Store.Exits.{transient_kind_stat, record_kind}

-- The row of an attempt that starts.
abbrev started : Job → String → String → String → AttemptRecord
started job execution_id run_id now = record {
  job_uid = uid job;
  activation_no = job.activation_no;
  attempt_no = job.attempt_no;
  execution_id = execution_id;
  run_id = run_id;
  started_at = now;
  outcome = running;
  finished_at = none;
  error_message = none;
}

module _ {B : Type 0} (setup : Setup B) where
  abbrev opened : Option (ℕ × B) → Store B → Exit B (Option ℕ)
  opened none st = raised
  opened (some (k, b)) st = done (some k) (record st { backend = b })

  open_row : Option AttemptRecord → Store B → Exit B (Option ℕ)
  open_row none st = raised
  open_row (some r) st = opened (setup.ops.open_trace r st.backend) st

  -- An attempt is not started without its row: what the backend raises goes on to the caller.
  unfoldable pub record_attempt_dispatch :
      Job → String → Option String → Store B → Exit B (Option ℕ)
  unfolding open_row
  record_attempt_dispatch job execution_id none st = done none st
  record_attempt_dispatch job execution_id (some run_id) st =
      let row = open_row (new_attempt (started job execution_id run_id setup.now)) st in
      if run_id == "" then done none st else row

  abbrev skip_id : String → String → String
  skip_id run_id dispatch_no = run_id ⧺ ".skip." ⧺ dispatch_no

  closed_skip : String → Option (ℕ × B) → Store B → Store B
  closed_skip error none st = st
  closed_skip error (some (k, b)) st =
      finish_attempt setup (some k) skipped (some error) (record st { backend = b })

  open_skip : String → Option AttemptRecord → Store B → Store B
  unfolding closed_skip
  open_skip error none st = st
  open_skip error (some r) st = closed_skip error (setup.ops.open_trace r st.backend) st

  -- The row of a skip is opened and closed; an exception is only warned about. `dispatch_no` is the
  -- number's text.
  unfoldable pub record_attempt_skip : Job → String → Option String → String → Store B → Store B
  unfolding open_skip
  record_attempt_skip job error none dispatch_no st = st
  record_attempt_skip job error (some run_id) dispatch_no st =
      let row =
        open_skip error (new_attempt (started job (skip_id run_id dispatch_no) run_id setup.now))
          st in
      if run_id == "" then st else row

  unfoldable pub requeue_transient :
      ⦃h : RowHash⦄ → JobSnapshot → String → Option ℕ → Option String → Store B → Exit B (Unit {0})
  requeue_transient row kind attempt_id error st =
      continue (requeue_jobs (row ∷ []) (setup.plan_front row (some kind)) st.state) λ s. done tt (
        finish_attempt setup attempt_id requeued error
          (record_kind (transient_kind_stat (some kind)) (record st { state = s })))
