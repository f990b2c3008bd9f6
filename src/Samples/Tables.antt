-- ===== src/Samples/Tables.antt =====
-- Tables of the memory backend.
use tasklite.Common.{
  String, Option, true, false, ◌≡◌, refl, none, some, List, [], ◌∷◌, has, lookup, insert, eq_nat,
  eq_string, arith,
}
use tasklite.Models.State.{row_uids}
use tasklite.Models.Attempt.{AttemptRecord, running, failed, validate_attempt_finish}
use tasklite.Backend.Memory.{
  MemoryBackend, empty_backend, Finish, commit_job_success, open_attempt, spawn_conflict,
  update_attempt,
}
use tasklite.Backend.Memory.Valid.{IsValid}
use tasklite.Backend.Memory.Commits
use tasklite.Backend.Memory.Runs
use tasklite.Backend.Memory.Runs.{Call, run, dispatch, enqueue, success, failure}
use tasklite.Samples.{hash, two_rows}

abbrev attempt : AttemptRecord
attempt = record {
  job_uid = "load::a";
  activation_no = 1;
  attempt_no = 1;
  execution_id = "e1";
  run_id = "r1";
  started_at = "2026-01-01T00:00:00";
  outcome = running;
  finished_at = none;
  error_message = none;
}

abbrev finish : Finish
finish = record {
  attempt_id = some 1;
  execution_id = some "e1";
  finished_at = some "2026-01-01T00:01:00";
}

abbrev tables : MemoryBackend
tables = record empty_backend { queue = two_rows; attempts = (1, attempt) ∷ []; attempt_seq = 2 }

empty_backend-IsValid : IsValid ⦃h = hash⦄ empty_backend
unfolding row_uids has
empty_backend-IsValid = record {
  distinct = tt;
  one_outcome = λ u. refl;
  snapshots = λ u. refl;
  ids = λ n known. ground arith;
}

abbrev calls : List Call
calls =
    enqueue two_rows false
    ∷ dispatch attempt
    ∷ success "load::a" [] finish [] []
    ∷ failure "load::a" [] none
    ∷ []

run-IsValid_example : IsValid ⦃h = hash⦄ (run ⦃h = hash⦄ calls empty_backend)
run-IsValid_example = Runs.run-IsValid ⦃h = hash⦄ calls empty_backend empty_backend-IsValid

abbrev moved_cursors : List (String × Option String)
moved_cursors = ("page", some "7") ∷ ("day", none) ∷ []

accepted : (commit_job_success ⦃h = hash⦄ "load::a" [] finish [] [] tables).0 ≡ true
unfolding commit_job_success open_attempt validate_attempt_finish lookup spawn_conflict
accepted = refl

commit_job_success_once_example :
    commit_job_success ⦃h = hash⦄ "load::a" [] finish [] []
      (commit_job_success ⦃h = hash⦄ "load::a" [] finish [] [] tables).1
    ≡ (false, (commit_job_success ⦃h = hash⦄ "load::a" [] finish [] [] tables).1)
commit_job_success_once_example =
    Commits.commit_job_success_once ⦃h = hash⦄ "load::a" "load::a" [] [] finish finish [] [] [] []
      tables accepted refl

abbrev closed : MemoryBackend
closed = record tables {
  attempts =
      (1, record attempt { outcome = failed; finished_at = some "t"; error_message = some "e" })
      ∷ [];
}

closing : update_attempt 1 failed (some "t") (some "e") tables ≡ some (true, closed)
unfolding update_attempt validate_attempt_finish lookup insert
closing = refl

update_attempt-commit_job_success_example :
    commit_job_success ⦃h = hash⦄ "load::a" [] finish [] [] closed ≡ (false, closed)
update_attempt-commit_job_success_example =
    Commits.update_attempt-commit_job_success ⦃h = hash⦄ 1 failed (some "t") (some "e") tables
      {b' = closed} closing "load::a" [] finish [] [] refl
