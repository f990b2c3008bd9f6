-- ===== src/Samples/States.antt =====
-- Pipeline states, and rows that are read.
use tasklite.Common.{
  ◌∷◌, String, true, false, ◌&&◌, ◌≡◌, ◌↔◌, refl, none, some, List, [], IsDistinct, contains, has,
  eq_string,
}
use tasklite.Models.Job.{
  Job, from_dict, from_dict-uid, uid, job_uid_from_snapshot, fresh_runtime, validate_task_type,
  valid_name, has_separator, validate_job_id, validate_uid_ipc_filename, normalize_payload,
  normalize_resources, validate_retry_budget, normalize_depends_on, validate_timeout_seconds,
  validate_timeout_flag, validate_trigger, validate_counter, validate_first_enqueued_at,
}
use tasklite.Models.Job.RoundTrip.{to_dict, from_dict-to_dict}
use tasklite.Models.State.{PipelineState, Metadata, new_state, row_uids}
use tasklite.Models.State.Consistent.{IsConsistent, Succeeds}
use tasklite.Models.State.Runs
use tasklite.Models.State.Runs.{Op, apply, pop, Reaches, loaded, called}
use tasklite.Models.State.Cascade.{cascade_fail}
use tasklite.Models.State.Cascade.Reached
use tasklite.Models.State.Cascade.Reached.{queue_waits}
use tasklite.Models.State.Cascade.Falls.{Cascades, open_to_failure}
use tasklite.Utils.Encoding.{encode_job_uid_filename}
use tasklite.Samples.{hash, first_row, second_row, two_rows}

abbrev pub start : PipelineState
start = new_state ⦃h = hash⦄ [] [] [] two_rows

two_rows-IsDistinct : IsDistinct (row_uids ⦃h = hash⦄ two_rows)
unfolding row_uids job_uid_from_snapshot contains
two_rows-IsDistinct = (refl, (refl, tt))

no_outcome : (u : String) → (has {V = Metadata} u [] && has {V = Metadata} u []) ≡ false
unfolding has
no_outcome u = refl

pub start-IsConsistent : IsConsistent ⦃h = hash⦄ start
start-IsConsistent =
    Runs.new_state-Reaches ⦃h = hash⦄ [] [] [] two_rows start two_rows-IsDistinct no_outcome loaded

cascade_fail-Cascades_example :
    (result : List String) × (cascade_fail start "load::a" [] ≡ some result)
    × IsDistinct result
    × ((v : String)
        → (contains v result ≡ true)
          ↔ Cascades
              (queue_waits start.queue)
              (open_to_failure start.successes start.failed [])
              "load::a"
              v)
cascade_fail-Cascades_example = Reached.cascade_fail-Cascades start "load::a" []

apply-IsConsistent_example : Succeeds ⦃h = hash⦄ (apply ⦃h = hash⦄ (pop 1) start)
unfolding new_state
apply-IsConsistent_example =
    Runs.apply-IsConsistent ⦃h = hash⦄ (pop 1) start start-IsConsistent (first_row, refl)

abbrev pub first_job : Job
first_job = record {
  task_type = "load";
  job_id = "a";
  payload = [];
  resources = none;
  max_retries = none;
  depends_on = [];
  timeout_seconds = none;
  timeout_is_transient = none;
  trigger = none;
  runtime = fresh_runtime;
  attempt_no = 1;
  activation_no = 1;
  first_enqueued_at = none;
}

pub first_row_parses : from_dict first_row ≡ some first_job
unfolding from_dict validate_task_type valid_name has_separator validate_job_id
    validate_uid_ipc_filename encode_job_uid_filename normalize_payload normalize_resources
    validate_retry_budget normalize_depends_on validate_timeout_seconds validate_timeout_flag
    validate_trigger validate_counter validate_first_enqueued_at
first_row_parses = refl

abbrev pub second_job : Job
second_job = record first_job { job_id = "b"; depends_on = "load::a" ∷ [] }

pub second_row_parses : from_dict second_row ≡ some second_job
unfolding from_dict validate_task_type valid_name has_separator validate_job_id
    validate_uid_ipc_filename encode_job_uid_filename normalize_payload normalize_resources
    validate_retry_budget normalize_depends_on validate_timeout_seconds validate_timeout_flag
    validate_trigger validate_counter validate_first_enqueued_at
second_row_parses = refl

from_dict-uid_example : job_uid_from_snapshot ⦃h = hash⦄ first_row ≡ uid first_job
from_dict-uid_example = from_dict-uid ⦃h = hash⦄ first_row {job = first_job} first_row_parses

from_dict-to_dict_example : from_dict (to_dict first_job) ≡ some first_job
from_dict-to_dict_example = from_dict-to_dict first_row {job = first_job} first_row_parses
