-- ===== src/Models/Attempt.antt =====
-- tasklite/models/attempt.py: one physical execution of a job, and the guards of
-- tasklite/backend/base.py for writing it. `none` is an exception.
use tasklite.Common.{
  ℕ, String, Bool, true, false, not, ◌||◌, Option, none, some, ◌==◌, eq_string, leb,
}
use tasklite.Models.Job.{◌>>=◌, ◌>>◌, forbid}

-- `ATTEMPT_OUTCOMES`
pub data Outcome : Type 0 where
  running succeeded failed requeued skipped : Outcome

pub record AttemptRecord : Type 0 where
  pub job_uid : String
  pub activation_no : ℕ
  pub attempt_no : ℕ
  pub execution_id : String
  pub run_id : String
  pub started_at : String
  pub outcome : Outcome
  pub finished_at : Option String
  pub error_message : Option String

abbrev pub is_running : Outcome → Bool
is_running running = true
is_running _ = false

-- A text that is there is not empty: `_validate_optional_str`.
abbrev pub optional_text_ok : Option String → Bool
optional_text_ok none = true
optional_text_ok (some s) = not (s == "")

abbrev pub is_none : Option String → Bool
is_none none = true
is_none (some s) = false

-- `AttemptRecord.__post_init__`
unfoldable pub new_attempt : AttemptRecord → Option AttemptRecord
new_attempt r = do
  forbid (r.job_uid == "")
  forbid (not (leb 1 r.activation_no))
  forbid (not (leb 1 r.attempt_no))
  forbid (r.execution_id == "")
  forbid (r.run_id == "")
  forbid (r.started_at == "")
  forbid (not (optional_text_ok r.finished_at))
  forbid (not (optional_text_ok r.error_message))
  some r

unfoldable pub validate_attempt_dispatch : AttemptRecord → Option (Unit {0})
validate_attempt_dispatch r =
    forbid
      (not (is_running r.outcome) || not (is_none r.finished_at) || not (is_none r.error_message))

-- The finishing time that passes the guard.
unfoldable pub validate_attempt_finish : Outcome → Option String → Option String → Option String
validate_attempt_finish outcome finished_at error_message = do
  forbid (is_running outcome)
  finished ← finished_at
  forbid (finished == "")
  forbid (not (optional_text_ok error_message))
  some finished
