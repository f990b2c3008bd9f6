-- ===== src/Samples/Stores.antt =====
-- A store with a job in flight, a job that waits for it, and the memory backend.
use tasklite.Common.{
  ℕ, arith, String, true, false, ◌&&◌, ◌≡◌, refl, sym, ◌∙◌, Bool-cases, inl, inr, ◌⊎◌, Option, none,
  some, List, [], ◌∷◌, lookup, has, keys, contains, eq_string, ◌==◌, ==_iff, same_set, every,
  discard, keep,
}
use tasklite.Models.Job.{RowHash, uid, job_uid_from_snapshot, ℤ, value}
use tasklite.Models.Json.{Json, int, text, Builtins}
use tasklite.Models.Artifact.{Paths, validate_artifact_declarations, accept_all}
use tasklite.Models.State.{Metadata, PipelineState, row_uids, pop_job, uids_consistent}
use tasklite.Models.State.Consistent.{IsConsistent}
use tasklite.Backend.Memory.{MemoryBackend, commit_retry, empty_backend}
use tasklite.Backend.Contract.{IsContract}
use tasklite.Backend.Contract.OfMemory.{memory_backend, memory_backend-IsContract}
use tasklite.Engine.Store.{Setup, Store, Exit, crashed, terminated}
use tasklite.Engine.Store.Strikes.{handle_commit_failure_strike}
use tasklite.Engine.Store.Succeeding.{Success}
use tasklite.Engine.Store.Exits.{
  SuccessOutcome, RetryOutcome, apply_success, apply_retry, apply_skip,
}
use tasklite.Engine.Store.Failures.{apply_failure, apply_bulk_failure}
use tasklite.Engine.Store.Coherent.{IsCoherent, EndsCoherent}
use tasklite.Engine.Store.Coherent.Exited
use tasklite.Engine.Store.Coherent.Failed
use tasklite.Engine.Store.Coherent.Named.{AreNamed}
use tasklite.Engine.Store.Coherent.Counted.{refusals}
use tasklite.Engine.Store.Coherent.Counted
use tasklite.Engine.Store.Traces.{requeue_transient}
use tasklite.Engine.Store.Coherent.Skipped.{pop_job-apply_skip}
use tasklite.Engine.Store.Coherent.Requeued.{pop_job-requeue_transient}
use tasklite.Samples.{hash, first_row, second_row, two_rows}
use tasklite.Samples.States.{first_job, first_row_parses, second_job, second_row_parses}

instance abbrev pub sample_hash : RowHash
sample_hash = hash

abbrev read_int : Json → Option ℤ
read_int (int n) = some n
read_int _ = none

instance abbrev pub sample_builtins : Builtins
sample_builtins = record { show = λ v. "value"; int_of = read_int }

-- Absolute and normalized paths of one directory each, none below another.
instance abbrev pub sample_paths : Paths
sample_paths = record {
  is_absolute = λ path. true;
  is_normalized = λ path. true;
  is_relative_to = λ a b. a == b;
}

abbrev pub setup : ℕ → Setup MemoryBackend
setup threshold = record {
  ops = memory_backend;
  threshold = threshold;
  hook = some (λ u outcome. true);
  plan_front = λ row kind. true;
  rules = [];
  now = "2026-01-01T00:00:00Z";
}

abbrev on_hand : MemoryBackend
on_hand = record empty_backend { queue = two_rows }

abbrev pub running : PipelineState
running = record {
  successes = [];
  failed = [];
  cursors = [];
  queue = second_row ∷ [];
  success_uids = [];
  failed_uids = [];
  queue_uids = "load::b" ∷ [];
  in_flight_uids = "load::a" ∷ [];
  trigger_skipped_uids = [];
}

abbrev pub store : Store MemoryBackend
store = record { backend = on_hand; state = running; stats = some []; fired = [] }

one_uid : (a b v : String) → (a == b) ≡ false → ((b == v) && (a == v)) ≡ false
one_uid a b v h = elim (Bool-cases (a == v)) [
  | inr e ↦ ground arith
  | inl e ↦ elim (Bool-cases (b == v)) [
    | inr f ↦ ground arith
    | inl f ↦ let same = (==_iff a b).1 ((==_iff a v).0 e ∙ sym ((==_iff b v).0 f)) in cc
  ]
]

running-IsConsistent : IsConsistent running
unfolding contains has row_uids job_uid_from_snapshot
running-IsConsistent = record {
  queued = λ v. refl;
  distinct = (refl, tt);
  succeeded = λ v. refl;
  archived = λ v. refl;
  one_outcome = λ v. refl;
  not_both = λ v. ground (arith, one_uid "load::a" "load::b" v refl);
}

pub store-IsCoherent : IsCoherent memory_backend store.backend store.state
unfolding contains has lookup row_uids job_uid_from_snapshot
store-IsCoherent = record {
  consistent = running-IsConsistent;
  successes = λ v. refl;
  failed = λ v. inl refl;
  cursors = λ v. refl;
  queue = λ v. ground arith;
}

pub store-AreNamed : AreNamed store.state.queue
unfolding job_uid_from_snapshot
store-AreNamed = (λ runtime. refl, tt)

flying : contains "load::a" store.state.in_flight_uids ≡ true
unfolding contains
flying = refl

abbrev pub success : Success
success = record {
  result_metadata = [];
  spawned_job_snapshots = first_row ∷ [];
  cursor_updates = [];
  declared_inputs = value "in" ∷ [];
  declared_artifacts = [];
  run_id = some "run";
  job_snapshot = some first_row;
  attempt_id = none;
  execution_id = none;
  finished_at = none;
}

memory_backend-IsContract_example : IsContract memory_backend
memory_backend-IsContract_example = memory_backend-IsContract

no_artifacts : validate_artifact_declarations success.declared_artifacts ≡ some []
unfolding validate_artifact_declarations accept_all
no_artifacts = refl

first_row_uid : uid first_job ≡ "load::a"
unfolding uid
first_row_uid = refl

apply_success-EndsCoherent_example :
    EndsCoherent memory_backend (apply_success (setup 3) "load::a" success store)
apply_success-EndsCoherent_example =
    Exited.apply_success-EndsCoherent (setup 3) memory_backend-IsContract "load::a" first_row store
      store-IsCoherent flying first_row_parses first_row_uid success refl no_artifacts
      (unfold keys in tt)

abbrev retried : Exit MemoryBackend RetryOutcome
retried =
    apply_retry (setup 3) "load::a" (some first_row) first_row (some "interrupted") (some 1) none
      store

apply_retry-EndsCoherent_example :
    EndsCoherent memory_backend retried
    × Exited.PlacesRow memory_backend "load::a" first_row true store
        (commit_retry "load::a" first_row true store.backend)
        retried
apply_retry-EndsCoherent_example =
    Exited.apply_retry-EndsCoherent (setup 3) memory_backend-IsContract "load::a" first_row store
      store-IsCoherent flying first_row_parses first_row_uid first_row (some "interrupted") (some 1)
      none

apply_failure-EndsCoherent_example :
    EndsCoherent memory_backend
      (apply_failure (setup 3) "load::a" [] (some first_row) "failed" true (some 1) store)
apply_failure-EndsCoherent_example =
    Failed.apply_failure-EndsCoherent (setup 3) memory_backend-IsContract "load::a" first_row store
      store-IsCoherent store-AreNamed flying first_row_parses first_row_uid [] "failed" true
      (some 1)

abbrev batch : List (String × Metadata)
batch = ("load::b", ("error_message", text "DEPENDENCY_DEADLOCK") ∷ []) ∷ []

batch_is_queued :
    (v : String) → contains v (keys batch) ≡ true → contains v (row_uids store.state.queue) ≡ true
unfolding contains keys row_uids job_uid_from_snapshot
batch_is_queued v m = m

apply_bulk_failure-EndsCoherent_example :
    EndsCoherent memory_backend (apply_bulk_failure (setup 3) batch store)
apply_bulk_failure-EndsCoherent_example =
    Failed.apply_bulk_failure-EndsCoherent (setup 3) memory_backend-IsContract batch store
      store-IsCoherent store-AreNamed (unfold keys contains in (refl, tt)) batch_is_queued

handle_commit_failure_strike_over_example :
    (st' : Store MemoryBackend) × (((Counted.last_commit (setup 1) "load::a" first_row store).0
          ≡ true)
        × (handle_commit_failure_strike
              (setup 1)
              {A = SuccessOutcome}
              "load::a"
              "commit_skip"
              (some first_row)
              none
              store
            ≡ terminated st')
        × Counted.HasArchived (setup 1) "load::a" first_row store st'
      ⊎ ((Counted.last_commit (setup 1) "load::a" first_row store).0 ≡ false)
        × (handle_commit_failure_strike
              (setup 1)
              {A = SuccessOutcome}
              "load::a"
              "commit_skip"
              (some first_row)
              none
              store
            ≡ crashed st')
        × Counted.ComesBack (setup 1) "load::a" first_row store st')
handle_commit_failure_strike_over_example =
    Counted.handle_commit_failure_strike_over (setup 1) "load::a" first_row "commit_skip" none
      SuccessOutcome store store-IsCoherent flying first_row_parses first_row_uid refl

abbrev emptied : PipelineState
emptied = record running { queue = []; queue_uids = [] }

row_is_popped : pop_job 0 running ≡ some (second_row, emptied)
unfolding pop_job uids_consistent same_set every row_uids job_uid_from_snapshot discard keep
    contains
row_is_popped = refl

pop_job-requeue_transient_example : EndsCoherent memory_backend (
    requeue_transient
      (setup 3)
      second_row
      "lock_conflict"
      (some 1)
      none
      (record store { state = emptied }))
pop_job-requeue_transient_example =
    pop_job-requeue_transient (setup 3) memory_backend-IsContract 0 {row = second_row} emptied store
      store-IsCoherent refl row_is_popped "lock_conflict" (some 1) none

pop_job-apply_skip_example : EndsCoherent memory_backend (
    apply_skip
      (setup 3)
      (uid second_job)
      (some second_row)
      (some 1)
      (record store { state = emptied }))
pop_job-apply_skip_example =
    pop_job-apply_skip (setup 3) memory_backend-IsContract 0 {row = second_row} {job = second_job}
      emptied store store-IsCoherent refl row_is_popped second_row_parses (some 1)
