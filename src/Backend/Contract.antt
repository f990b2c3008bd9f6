-- ===== src/Backend/Contract.antt =====
-- tasklite/backend/base.py: `AbstractStateBackend`, as the operations that the engine calls and what
-- their comments promise. `B` is what an implementation stores.
pub mod Cursors
pub mod OfMemory
use tasklite.Common.{
  ℕ, String, Bool, true, false, not, ◌&&◌, ◌||◌, ◌≡◌, Option, none, some, List, [], ◌∷◌, Dict,
  lookup, has, keys, contains, IsDistinct, eq_string, eq_nat, ◌==◌, ◌++◌, if◌then◌else◌,
}
use tasklite.Models.Job.{JobSnapshot, RowHash, job_uid_from_snapshot}
use tasklite.Models.State.{Metadata, row_uids, rows_without}
use tasklite.Models.Attempt.{AttemptRecord, Outcome, succeeded, is_running}
use tasklite.Backend.Memory.{Finish, Payload, rows_outside}

pub record StateBackend (B : Type 0) : Type 0 where
  pub load_successes : B → Dict String Metadata
  pub load_failed : B → Dict String Metadata
  pub load_queue : B → List JobSnapshot
  pub load_cursors : B → Dict String String
  pub load_failure_payloads : B → Dict String Payload
  -- The row of an attempt, as `load_attempts` reads it.
  pub attempt_of : ℕ → B → Option AttemptRecord
  pub commit_success :
      String → Metadata → Finish → List JobSnapshot → List (String × Option String) → B → Bool × B
  pub commit_failure : String → Metadata → Option Payload → B → Bool × B
  pub commit_requeue : String → JobSnapshot → Bool → B → Bool × B
  pub commit_failures : List (String × Metadata) → B → Bool × B
  pub commit_removal : String → B → Bool × B
  pub enqueue : List JobSnapshot → Bool → B → List String × B
  pub open_trace : AttemptRecord → B → Option (ℕ × B)
  pub close_trace : ℕ → Outcome → Option String → Option String → B → Option (Bool × B)

-- The archives, the queue and the cursors are as they were.
pub record KeepsTables {B : Type 0} (be : StateBackend B) (b b' : B) : Type 0 where
  pub successes : be.load_successes b' ≡ be.load_successes b
  pub failed : be.load_failed b' ≡ be.load_failed b
  pub queue : be.load_queue b' ≡ be.load_queue b
  pub cursors : be.load_cursors b' ≡ be.load_cursors b
  pub payloads : be.load_failure_payloads b' ≡ be.load_failure_payloads b

abbrev pub SameAttempts : {B : Type 0} → StateBackend B → B → B → Type 0
SameAttempts be b b' = (k : ℕ) → be.attempt_of k b' ≡ be.attempt_of k b

abbrev pub IsUnchanged : {B : Type 0} → StateBackend B → B → B → Type 0
IsUnchanged be b b' = KeepsTables be b b' × SameAttempts be b b'

-- The cursor behind an update of it: kept, deleted or set.
abbrev pub cursor_after : Option (Option String) → Option String → Option String
cursor_after none old = old
cursor_after (some new) old = new

-- The row of a failure archive behind a batch, whose later rows replace the earlier ones; `stored`
-- is what is done to a row before it is stored.
abbrev pub failure_after :
    (Metadata → Metadata) → List (String × Metadata) → String → Option Metadata → Option Metadata
failure_after stored [] v old = old
failure_after stored ((u, m) ∷ more) v old =
    failure_after stored more v (if u == v then some (stored m) else old)

-- The payload behind a failure: a new one replaces the old one, and none leaves it.
abbrev pub payload_after : Option Payload → Option Payload → Option Payload
payload_after none old = old
payload_after (some p) old = some p

-- The attempt that a success names was running for the job and is a success now; the other attempts
-- are as they were.
pub record IsFinished {B : Type 0} (be : StateBackend B) (u : String) (f : Finish) (b b' : B)
    : Type 0 where
  pub attempt_id : ℕ
  pub row : AttemptRecord
  pub given : f.attempt_id ≡ some attempt_id
  pub found : be.attempt_of attempt_id b ≡ some row
  pub mine : row.job_uid ≡ u
  pub running : is_running row.outcome ≡ true
  pub closed :
      be.attempt_of attempt_id b'
      ≡ some (record row { outcome = succeeded; finished_at = f.finished_at; error_message = none })
  pub others : (k : ℕ) → (attempt_id == k) ≡ false → be.attempt_of k b' ≡ be.attempt_of k b

module _ ⦃h : RowHash⦄ where
  -- Whether a job is on the queue that is stored.
  abbrev pub on_disk : {B : Type 0} → StateBackend B → B → String → Bool
  on_disk be b v = contains v (row_uids (be.load_queue b))

  -- `commit_job_success` that returned `True`: the spawned rows stand in front, in their order.
  pub record IsSucceeded {B : Type 0} (be : StateBackend B) (u : String) (m : Metadata) (f : Finish)
      (spawned : List JobSnapshot) (updates : List (String × Option String)) (b b' : B)
      : Type 0 where
    pub attempt : IsFinished be u f b b'
    pub successes :
        (v : String)
        → lookup v (be.load_successes b')
          ≡ (if u == v then some m else lookup v (be.load_successes b))
    pub failed :
        (v : String)
        → lookup v (be.load_failed b') ≡ (if u == v then none else lookup v (be.load_failed b))
    pub payloads :
        (v : String)
        → lookup v (be.load_failure_payloads b')
          ≡ (if u == v then none else lookup v (be.load_failure_payloads b))
    pub cursors :
        (v : String)
        → lookup v (be.load_cursors b')
          ≡ cursor_after (lookup v updates) (lookup v (be.load_cursors b))
    pub order : be.load_queue b' ≡ spawned ++ rows_without u (be.load_queue b)
    pub queue :
        (v : String)
        → on_disk be b' v ≡ (contains v (row_uids spawned) || not (u == v) && on_disk be b v)
    pub distinct : IsDistinct (row_uids spawned)
    pub fresh :
        (v : String) → (contains v (row_uids spawned) && (not (u == v) && on_disk be b v)) ≡ false

  -- `commit_job_failure` and `commit_job_failures` that returned `True`: the other rows keep their
  -- order.
  pub record AreFailed {B : Type 0} (be : StateBackend B) (entries : List (String × Metadata))
      (b b' : B) : Type 0 where
    pub attempts : SameAttempts be b b'
    pub cursors : be.load_cursors b' ≡ be.load_cursors b
    pub successes :
        (v : String)
        → lookup v (be.load_successes b')
          ≡ (if contains v (keys entries) then none else lookup v (be.load_successes b))
    pub failed :
        (v : String)
        → lookup v (be.load_failed b')
          ≡ failure_after (λ m. m) entries v (lookup v (be.load_failed b))
    pub order : be.load_queue b' ≡ rows_outside (keys entries) (be.load_queue b)
    pub queue : (v : String) → on_disk be b' v ≡ (not (contains v (keys entries)) && on_disk be b v)

  -- `commit_retry` and `commit_skip` that returned `True`: no archive is written, and the row stands
  -- in front or at the end.
  pub record IsRequeued {B : Type 0} (be : StateBackend B) (u : String) (rows : List JobSnapshot)
      (front : Bool) (b b' : B) : Type 0 where
    pub attempts : SameAttempts be b b'
    pub cursors : be.load_cursors b' ≡ be.load_cursors b
    pub payloads : be.load_failure_payloads b' ≡ be.load_failure_payloads b
    pub successes : be.load_successes b' ≡ be.load_successes b
    pub failed : be.load_failed b' ≡ be.load_failed b
    pub order : be.load_queue b' ≡ (
        if front
        then rows ++ rows_without u (be.load_queue b)
        else rows_without u (be.load_queue b) ++ rows)
    pub queue :
        (v : String)
        → on_disk be b' v ≡ (contains v (row_uids rows) || not (u == v) && on_disk be b v)
    pub fresh :
        (v : String) → (contains v (row_uids rows) && (not (u == v) && on_disk be b v)) ≡ false

  -- The failure of one job, with the payload that is kept for it.
  abbrev pub IsFailed :
      {B : Type 0} → StateBackend B → String → Metadata → Option Payload → B → B → Type 0
  IsFailed be u m payload b b' =
      AreFailed be ((u, m) ∷ []) b b'
      × ((v : String)
          → lookup v (be.load_failure_payloads b') ≡ (
              if u == v
              then payload_after payload (lookup v (be.load_failure_payloads b))
              else lookup v (be.load_failure_payloads b)))

  -- What an answer of a commit means.
  abbrev pub Answers : {B : Type 0} → StateBackend B → (B → Type 0) → B → Bool × B → Type 0
  Answers be effects b (true, b') = effects b'
  Answers be effects b (false, b') = IsUnchanged be b b'

  -- A trace is written to the attempts only.
  abbrev pub Traces : {A B : Type 0} → StateBackend B → B → Option (A × B) → Type 0
  Traces be b none = Unit {0}
  Traces be b (some (a, b')) = KeepsTables be b b'

  abbrev pub Opens : {B : Type 0} → StateBackend B → AttemptRecord → Option (ℕ × B) → Type 0
  Opens be r none = Unit {0}
  Opens be r (some (k, b')) = be.attempt_of k b' ≡ some r

  -- The promises: a commit that returns `False` leaves the tables as they were, and one that returns
  -- `True` has its effects. The updates of cursors are a mapping.
  pub record IsContract {B : Type 0} (be : StateBackend B) : Type 0 where
    pub commit_success-Answers :
        (u : String) (m : Metadata) (f : Finish) (rows : List JobSnapshot)
        (cursors : List (String × Option String))
        → IsDistinct (keys cursors)
        → (b : B)
        → Answers be
            (IsSucceeded be u m f rows cursors b)
            b
            (be.commit_success u m f rows cursors b)
    pub commit_failure-Answers :
        (u : String) (m : Metadata) (payload : Option Payload) (b : B)
        → Answers be (IsFailed be u m payload b) b (be.commit_failure u m payload b)
    pub commit_requeue-Answers :
        (u : String) (row : JobSnapshot) (front : Bool) (b : B)
        → Answers be (IsRequeued be u (row ∷ []) front b) b (be.commit_requeue u row front b)
    pub commit_failures-Answers :
        (entries : List (String × Metadata)) (b : B)
        → Answers be
            (λ b'.
              AreFailed be entries b b'
              × (be.load_failure_payloads b' ≡ be.load_failure_payloads b))
            b
            (be.commit_failures entries b)
    pub commit_removal-Answers :
        (u : String) (b : B) → Answers be (IsRequeued be u [] true b) b (be.commit_removal u b)
    pub open_trace-Traces : (r : AttemptRecord) (b : B) → Traces be b (be.open_trace r b)
    pub open_trace-Opens : (r : AttemptRecord) (b : B) → Opens be r (be.open_trace r b)
    pub close_trace-Traces :
        (k : ℕ) (outcome : Outcome) (at error : Option String) (b : B)
        → Traces be b (be.close_trace k outcome at error b)
