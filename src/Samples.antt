-- ===== src/Samples.antt =====
-- Concrete jobs, tables and resources, and the properties at them.
pub mod States
pub mod Tables
pub mod Rounds
pub mod Flights
pub mod Stores
pub mod Governors
pub mod Values
use tasklite.Common.{ℕ, String, false, none, List, [], ◌∷◌}
use tasklite.Models.Job.{JobSnapshot, RowHash, Field, absent, value}

abbrev pub hash : RowHash
hash = record { hexdigest = λ d. "0" }

-- The job `load::<id>` that waits for `deps`.
abbrev pub job_row : String → List (Field String) → JobSnapshot
job_row id deps = record {
  task_type = value "load";
  job_id = value id;
  payload = absent;
  resources = absent;
  max_retries = absent;
  depends_on = value deps;
  timeout_seconds = absent;
  timeout_is_transient = absent;
  trigger = absent;
  runtime = absent;
  attempt_no = absent;
  activation_no = absent;
  first_enqueued_at = absent;
  has_rerun = false;
  has_timeout = false;
}

abbrev pub first_row : JobSnapshot
first_row = job_row "a" []

abbrev pub second_row : JobSnapshot
second_row = job_row "b" (value "load::a" ∷ [])

abbrev pub two_rows : List JobSnapshot
two_rows = second_row ∷ first_row ∷ []
