-- ===== src/Models/Job.antt =====
-- tasklite/models/job.py and the validators of tasklite/models/task.py: what a queue row holds, and
-- how `Job.from_dict` reads it. A Python value that may have any type is a `Field`.
mod Validate
pub mod RoundTrip
unfoldable pub use Validate.*
use tasklite.Common.{
  eq_nat, eq_string, ◌==◌, if◌then◌else◌, ℕ, zero, suc, String, Bool, true, false, Option, none,
  some, List, [], ◌≡◌, arith, ◌⧺◌,
}

-- `JobRuntimeState`: the side band of the framework, and the user's data.
pub record JobRuntimeState : Type 0 where
  pub commit_failures : ℤ
  pub dispatch_failures : ℤ
  pub last_retry_error : String
  pub extra : List (String × String)

abbrev pub fresh_runtime : JobRuntimeState
fresh_runtime = record {
  commit_failures = pos 0;
  dispatch_failures = pos 0;
  last_retry_error = "";
  extra = [];
}

-- The `runtime` of a row, a dict: what stands under `_commit_failures`, `_dispatch_failures` and
-- `_last_retry_error`, and the user's keys. The value of a count is what `int` makes of it, and it is
-- `mistyped` where `int` refuses it by a `ValueError` or a `TypeError`; an infinite float is not
-- modelled. The value of the error is a text, and it is `mistyped`, with what `str` makes of it, where
-- it is another value that is true.
pub record RuntimeDict : Type 0 where
  pub commit_failures : Field ℤ
  pub dispatch_failures : Field ℤ
  pub last_retry_error : Field String
  pub extra : List (String × String)

-- `int(raw) if raw is not None else 0`
unfoldable pub read_count : Field ℤ → ℤ
read_count (value n) = n
read_count _ = pos 0

-- `str(raw or "")`
unfoldable pub read_text : Field String → String
read_text (value s) = s
read_text (mistyped shown) = shown
read_text _ = ""

-- A key whose value is the empty one is left out.
unfoldable pub write_count : ℤ → Field ℤ
write_count (pos n) = if n == 0 then absent else value (pos n)
write_count (negsuc n) = value (negsuc n)

unfoldable pub write_text : String → Field String
write_text s = if s == "" then absent else value s

-- `JobRuntimeState.from_dict` of a dict
unfoldable pub read_state : RuntimeDict → JobRuntimeState
unfolding read_count read_text
read_state d = record {
  commit_failures = read_count d.commit_failures;
  dispatch_failures = read_count d.dispatch_failures;
  last_retry_error = read_text d.last_retry_error;
  extra = d.extra;
}

-- `JobRuntimeState.to_dict`
unfoldable pub write_state : JobRuntimeState → RuntimeDict
write_state s = record {
  commit_failures = write_count s.commit_failures;
  dispatch_failures = write_count s.dispatch_failures;
  last_retry_error = write_text s.last_retry_error;
  extra = s.extra;
}

-- A job as the dict that is queued and stored. `has_rerun` and `has_timeout` say whether the two
-- keys of older versions are there.
pub record JobSnapshot : Type 0 where
  pub task_type : Field String
  pub job_id : Field String
  pub payload : Field (List (String × String))
  pub resources : Field (List (String × Field Number))
  pub max_retries : Field ℤ
  pub depends_on : Field (List (Field String))
  pub timeout_seconds : Field Number
  pub timeout_is_transient : Field Bool
  pub trigger : Field String
  pub runtime : Field RuntimeDict
  pub attempt_no : Field ℤ
  pub activation_no : Field ℤ
  pub first_enqueued_at : Field String
  pub has_rerun : Bool
  pub has_timeout : Bool

pub record Job : Type 0 where
  pub task_type : String
  pub job_id : String
  pub payload : List (String × String)
  pub resources : Option (List (String × ℕ))
  pub max_retries : Option ℕ
  pub depends_on : List String
  pub timeout_seconds : Option ℕ
  pub timeout_is_transient : Option Bool
  pub trigger : Option String
  pub runtime : JobRuntimeState
  pub attempt_no : ℕ
  pub activation_no : ℕ
  pub first_enqueued_at : Option String

abbrev uid_text : String → String → String
uid_text task_type job_id = task_type ⧺ "::" ⧺ job_id

-- `Job.uid`
unfoldable pub uid : Job → String
uid job = uid_text job.task_type job.job_id

-- `JobRuntimeState.from_dict`: a value that is no dict reads as a fresh state.
abbrev pub read_runtime : Field RuntimeDict → JobRuntimeState
read_runtime (value d) = read_state d
read_runtime _ = fresh_runtime

-- `Job.from_dict`, with the checks of the constructor in its order; `none` is an exception.
unfoldable pub from_dict : JobSnapshot → Option Job
from_dict d = do
  forbid d.has_rerun
  forbid d.has_timeout
  task_type ← validate_task_type d.task_type
  job_id ← validate_job_id d.job_id
  validate_uid_ipc_filename (uid_text task_type job_id)
  payload ← normalize_payload d.payload
  resources ← normalize_resources d.resources
  max_retries ← validate_retry_budget d.max_retries
  depends_on ← normalize_depends_on d.depends_on
  timeout_seconds ← validate_timeout_seconds d.timeout_seconds
  timeout_is_transient ← validate_timeout_flag d.timeout_is_transient
  trigger ← validate_trigger d.trigger
  attempt_no ← validate_counter d.attempt_no
  activation_no ← validate_counter d.activation_no
  first_enqueued_at ← validate_first_enqueued_at d.first_enqueued_at
  some (record {
    task_type = task_type;
    job_id = job_id;
    payload = payload;
    resources = resources;
    max_retries = max_retries;
    depends_on = depends_on;
    timeout_seconds = timeout_seconds;
    timeout_is_transient = timeout_is_transient;
    trigger = trigger;
    runtime = read_runtime d.runtime;
    attempt_no = attempt_no;
    activation_no = activation_no;
    first_enqueued_at = first_enqueued_at;
  })

-- The hash that names a row with no identity, `sha256(json.dumps(row))`.
pub record RowHash : Type 0 where
  pub hexdigest : JobSnapshot → String

-- `job_uid_from_snapshot` of tasklite/models/state.py
present : Field String → Option String
present absent = none
present null = none
present (mistyped text) = some text
present (value s) = some s

identity : Option String → Option String → Option String
identity (some task_type) (some job_id) = some (uid_text task_type job_id)
identity _ _ = none

fallback : ⦃h : RowHash⦄ → JobSnapshot → Option Job → String
fallback d (some job) = uid job
fallback ⦃h⦄ d none = "_unknown::" ⧺ h.hexdigest d

unfoldable pub job_uid_from_snapshot : ⦃h : RowHash⦄ → JobSnapshot → String
unfolding present identity fallback
job_uid_from_snapshot d = elim (identity (present d.task_type) (present d.job_id)) [
  | some u ↦ u
  | none ↦ fallback d (from_dict d)
]

validate_task_type_inv :
    (f : Field String) {s : String} → validate_task_type f ≡ some s → f ≡ value s
unfolding validate_task_type
validate_task_type_inv f h = ground arith

validate_job_id_inv : (f : Field String) {s : String} → validate_job_id f ≡ some s → f ≡ value s
unfolding validate_job_id
validate_job_id_inv f h = ground arith

from_dict_names :
    (d : JobSnapshot) {job : Job}
    → from_dict d ≡ some job
    → (validate_task_type d.task_type ≡ some job.task_type)
      × (validate_job_id d.job_id ≡ some job.job_id)
unfolding from_dict
from_dict_names d h = ground arith

-- A row that parses goes by the uid of its job.
pub from_dict-uid :
    ⦃h : RowHash⦄ (d : JobSnapshot) {job : Job}
    → from_dict d ≡ some job
    → job_uid_from_snapshot d ≡ uid job
unfolding job_uid_from_snapshot uid
from_dict-uid d {job} p =
    let (t, i) = from_dict_names d p in
    rw (validate_task_type_inv d.task_type t, validate_job_id_inv d.job_id i)

-- The runtime side band has no part in the uid.
pub from_dict-uid_of_runtime :
    ⦃h : RowHash⦄ (d : JobSnapshot) {job : Job}
    → from_dict d ≡ some job
    → (runtime : Field RuntimeDict)
    → job_uid_from_snapshot (record d { runtime = runtime }) ≡ uid job
unfolding job_uid_from_snapshot uid
from_dict-uid_of_runtime d {job} p runtime =
    let (t, i) = from_dict_names d p in
    rw (validate_task_type_inv d.task_type t, validate_job_id_inv d.job_id i)
