-- ===== src/Backend/Memory/Commits.antt =====
-- What `commit_job_success` of tasklite/backend/memory.py does to the tables.
use tasklite.Common.{
  ℕ, String, Bool, true, false, not, ◌&&◌, ◌||◌, ◌≡◌, ◌∙◌, refl, Option, none, some, List, [],
  lookup, insert, contains, lookup-insert, ◌++◌, if◌then◌else◌, eq_nat, eq_string, ==_refl, arith,
  ◌==◌, Bool-cases, Option-cases, inl, inr, ◌⊎◌,
}
use tasklite.Models.Job.{JobSnapshot, RowHash}
use tasklite.Models.State.{Metadata, row_uids, rows_without}
use tasklite.Models.Attempt.{AttemptRecord, Outcome, succeeded, is_running, validate_attempt_finish}
use tasklite.Backend.Memory.{
  MemoryBackend, Finish, open_attempt, close_attempt, spawn_conflict, write_success,
  commit_job_success, update_attempt,
}
use tasklite.Backend.Contract.{cursor_after}
use tasklite.Backend.Memory.Valid.{open_attempt-found}

-- The attempt `k` belongs to the job and is closed as a success.
pub record IsClosed (k : ℕ) (job_uid : String) (at : Option String) (b : MemoryBackend)
    : Type 0 where
  pub attempt : AttemptRecord
  pub found : lookup k b.attempts ≡ some attempt
  pub mine : attempt.job_uid ≡ job_uid
  pub outcome : attempt.outcome ≡ succeeded
  pub finished_at : attempt.finished_at ≡ at

-- The attempt that a success names was open and is closed.
pub record Closes (job_uid : String) (finish : Finish) (b b' : MemoryBackend) : Type 0 where
  pub attempt_id : ℕ
  pub given : finish.attempt_id ≡ some attempt_id
  pub closed : IsClosed attempt_id job_uid finish.finished_at b'
  pub others : (k : ℕ) → (attempt_id == k) ≡ false → lookup k b'.attempts ≡ lookup k b.attempts

-- What a success leaves behind, table by table; `updates` is a mapping of cursors.
pub record IsSuccess ⦃h : RowHash⦄ (job_uid : String) (metadata : Metadata) (finish : Finish)
    (spawned : List JobSnapshot) (updates : List (String × Option String)) (b b' : MemoryBackend)
    : Type 0 where
  pub attempts : Closes job_uid finish b b'
  pub successes :
      (u : String)
      → lookup u b'.successes ≡ (if job_uid == u then some metadata else lookup u b.successes)
  pub failed :
      (u : String) → lookup u b'.failed ≡ (if job_uid == u then none else lookup u b.failed)
  pub failure_payloads :
      (u : String)
      → lookup u b'.failure_payloads ≡ (if job_uid == u then none else lookup u b.failure_payloads)
  pub cursors :
      (key : String)
      → lookup key b'.cursors ≡ cursor_after (lookup key updates) (lookup key b.cursors)
  pub queue : b'.queue ≡ spawned ++ rows_without job_uid b.queue
  pub unqueued :
      (u : String)
      → contains u (row_uids b'.queue)
        ≡ (contains u (row_uids spawned) || (not (job_uid == u) && contains u (row_uids b.queue)))
  pub engine_metadata : b'.engine_metadata ≡ b.engine_metadata
  pub attempt_seq : b'.attempt_seq ≡ b.attempt_seq

lookup-close_attempt :
    (k : ℕ) (finish : Finish) (current : AttemptRecord) (b : MemoryBackend)
    → finish.attempt_id ≡ some k
    → lookup k (close_attempt finish current b.attempts)
      ≡ some (record current {
        outcome = succeeded;
        finished_at = finish.finished_at;
        error_message = none;
      })
unfolding close_attempt
lookup-close_attempt k finish current b given = rw given (rw lookup-insert (rw (==_refl k)))

-- An attempt that is over is not open to any job.
over-open_attempt :
    (k : ℕ) (r : AttemptRecord) (b : MemoryBackend)
    → lookup k b.attempts ≡ some r
    → is_running r.outcome ≡ false
    → (job_uid : String) (finish : Finish) → finish.attempt_id ≡ some k
    → open_attempt job_uid finish b ≡ none
over-open_attempt k r b stored over job_uid finish given =
    elim (Option-cases (open_attempt job_uid finish b)) [
      | inl none_open ↦ none_open
      | inr (current, e) ↦
          let (j, given', found, mine, running) = open_attempt-found job_uid finish b e in
          let same : j ≡ k = ground arith in absurd (ground (arith, rw same at found))
    ]

-- What an accepted `update_attempt` writes.
update_attempt-inv :
    (k : ℕ) (outcome : Outcome) (at error : Option String) (b : MemoryBackend) {b' : MemoryBackend}
    → update_attempt k outcome at error b ≡ some (true, b')
    → (finished : String) × (current : AttemptRecord) × (validate_attempt_finish outcome at error
        ≡ some finished)
      × (b' ≡ record b {
        attempts =
            insert k
              (record current {
                outcome = outcome;
                finished_at = some finished;
                error_message = error;
              })
              b.attempts;
      })
unfolding update_attempt
update_attempt-inv k outcome at error b e =
    elim (Option-cases (validate_attempt_finish outcome at error)) [
      | inl bad ↦ absurd (ground arith)
      | inr (finished, ok) ↦ elim (Option-cases (lookup k b.attempts)) [
        | inl missing ↦ absurd (ground arith)
        | inr (current, found) ↦ (finished, current, ok, ground arith)
      ]
    ]

not_running :
    (outcome : Outcome) (at error : Option String) {finished : String}
    → validate_attempt_finish outcome at error ≡ some finished
    → is_running outcome ≡ false
unfolding validate_attempt_finish
not_running outcome at error e = ground arith

update_attempt-over :
    (k : ℕ) (outcome : Outcome) (at error : Option String) (b : MemoryBackend) {b' : MemoryBackend}
    → update_attempt k outcome at error b ≡ some (true, b')
    → (r : AttemptRecord) × (lookup k b'.attempts ≡ some r) × (is_running r.outcome ≡ false)
update_attempt-over k outcome at error b e =
    let (finished, current, ok, written) = update_attempt-inv k outcome at error b e in
    (
      record current { outcome = outcome; finished_at = some finished; error_message = error },
      rw written (rw lookup-insert (rw (==_refl k))),
      not_running outcome at error ok,
    )

module _ ⦃h : RowHash⦄ where
  write_success-Closes :
      (job_uid : String) (metadata : Metadata) (finish : Finish) (current : AttemptRecord)
      (spawned : List JobSnapshot) (updates : List (String × Option String)) (b : MemoryBackend)
      → open_attempt job_uid finish b ≡ some current
      → Closes job_uid finish b (write_success job_uid metadata finish current spawned updates b)
  unfolding write_success close_attempt
  write_success-Closes job_uid metadata finish current spawned updates b e =
      let (k, given, found, mine, running) = open_attempt-found job_uid finish b e in
      record {
        attempt_id = k;
        given = given;
        closed = record {
          attempt = record current {
            outcome = succeeded;
            finished_at = finish.finished_at;
            error_message = none;
          };
          found = lookup-close_attempt k finish current b given;
          mine = mine;
          outcome = refl;
          finished_at = refl;
        };
        others = λ n apart. rw given (rw lookup-insert (rw apart refl));
      }

  -- What `commit_job_success` returns: `True` and the effects of `IsSuccess`, or `False` and the
  -- tables as they were, and then no open attempt was named or a spawned job was known.
  abbrev pub Outcomes :
      String
      → Metadata
      → Finish
      → List JobSnapshot
      → List (String × Option String)
      → MemoryBackend
      → Bool × MemoryBackend
      → Type 0
  Outcomes job_uid metadata finish spawned updates b (accepted, b') =
      (accepted ≡ true) × IsSuccess job_uid metadata finish spawned updates b b'
      ⊎ (accepted ≡ false)
        × (b' ≡ b)
        × ((open_attempt job_uid finish b ≡ none)
            ⊎ (spawn_conflict (row_uids (rows_without job_uid b.queue)) [] spawned ≡ true))

  -- A commit is refused, or closes an attempt.
  commit_job_success-Closes :
      (job_uid : String) (metadata : Metadata) (finish : Finish) (spawned : List JobSnapshot)
      (updates : List (String × Option String)) (b : MemoryBackend)
      → ((commit_job_success job_uid metadata finish spawned updates b).0 ≡ false)
        ⊎ Closes job_uid finish b (commit_job_success job_uid metadata finish spawned updates b).1
  unfolding commit_job_success
  commit_job_success-Closes job_uid metadata finish spawned updates b =
      let remaining = row_uids (rows_without job_uid b.queue) in
      elim (Option-cases (open_attempt job_uid finish b)) [
        | inl e ↦ rw (e) (inl refl)
        | inr (current, e) ↦ elim (Bool-cases (spawn_conflict remaining [] spawned)) [
          | inl bad ↦ rw (e) (rw bad (inl refl))
          | inr ok ↦ rw (e) (
              rw ok
                (inr (write_success-Closes job_uid metadata finish current spawned updates b e)))
        ]
      ]

  -- Once an attempt is committed as a success, every later commit that names it is refused and changes nothing.
  pub commit_job_success_once :
      (u v : String) (m n : Metadata) (f g : Finish) (rows more : List JobSnapshot)
      (updates later : List (String × Option String)) (b : MemoryBackend)
      → (commit_job_success u m f rows updates b).0 ≡ true
      → g.attempt_id ≡ f.attempt_id
      → commit_job_success v n g more later (commit_job_success u m f rows updates b).1
        ≡ (false, (commit_job_success u m f rows updates b).1)
  commit_job_success_once u v m n f g rows more updates later b ok same =
      elim (commit_job_success-Closes u m f rows updates b) [
        | inl refused ↦ cc
        | inr done ↦
            let b' = (commit_job_success u m f rows updates b).1 in
            unfold commit_job_success in
            let c = done.closed in
            rw
              (over-open_attempt done.attempt_id c.attempt b' c.found (ground (arith, c.outcome)) v
                g (same ∙ done.given))
              refl
      ]

  -- An attempt that `update_attempt` has closed cannot be committed as a success any more.
  pub update_attempt-commit_job_success :
      (k : ℕ) (outcome : Outcome) (at error : Option String) (b : MemoryBackend)
      {b' : MemoryBackend}
      → update_attempt k outcome at error b ≡ some (true, b')
      → (v : String) (n : Metadata) (g : Finish) (more : List JobSnapshot)
        (later : List (String × Option String))
      → g.attempt_id ≡ some k
      → commit_job_success v n g more later b' ≡ (false, b')
  update_attempt-commit_job_success k outcome at error b {b'} e v n g more later given =
      let (r, stored, over) = update_attempt-over k outcome at error b e in
      unfold commit_job_success in rw (over-open_attempt k r b' stored over v g given) refl
