-- ===== src/Engine/Store.antt =====
-- tasklite/engine/store.py: `StateStore`, the state in memory beside a backend. This module has what
-- its exits share.
pub mod Strikes
pub mod Succeeding
pub mod Exits
pub mod Failures
pub mod Traces
pub mod Coherent
use tasklite.Common.{
  ℕ, ◌+◌, String, Bool, true, false, not, Option, none, some, List, [], ◌∷◌, ◌++◌, Dict, lookup,
  insert, contains, add, eq_string, ◌==◌, if◌then◌else◌,
}
use tasklite.Models.Job.{JobSnapshot, RowHash, Job, from_dict, uid, ◌>>=◌}
use tasklite.Models.Json.{Json, Builtins, shown, is_truthy}
use tasklite.Models.State.{Metadata, PipelineState, mark_failed, unregister_in_flight}
use tasklite.Models.Attempt.{Outcome}
use tasklite.Selection.{Rule, is_active, allows_task_type}
use tasklite.Backend.Contract.{StateBackend}
use tasklite.Engine.ErrorClass.{normalize_failure_metadata}

-- `AttemptOutcome` of tasklite/engine/types.py
pub record AttemptOutcome : Type 0 where
  pub success : Bool
  pub will_retry : Bool
  pub metadata : Metadata

abbrev pub failed_for_good : Metadata → AttemptOutcome
failed_for_good metadata = record { success = false; will_retry = false; metadata = metadata }

-- What a store is built with. `hook` is `on_attempt_finished` by whether it raises, `plan_front` is
-- `plan_requeue(...).front`, and `now` the time that the clock shows during an exit.
pub record Setup (B : Type 0) : Type 0 where
  pub ops : StateBackend B
  pub threshold : ℕ
  pub hook : Option (String → AttemptOutcome → Bool)
  pub plan_front : JobSnapshot → Option String → Bool
  pub rules : List Rule
  pub now : String

-- `fired` lists the calls of the hook, the last one first.
pub record Store (B : Type 0) : Type 0 where
  pub backend : B
  pub state : PipelineState
  pub stats : Option (Dict String ℕ)
  pub fired : List (String × AttemptOutcome)

-- How an exit of the store ends: it returns, it raises `_CommitCrashSignal` or `_JobTerminated`, or
-- an assertion or another exception leaves it.
pub data Exit (B A : Type 0) : Type 0 where
  done : A → Store B → Exit B A
  crashed : Store B → Exit B A
  terminated : Store B → Exit B A
  raised : Exit B A

-- The rest of an exit, after a change of the state that may raise.
unfoldable pub continue :
    {B A : Type 0} → Option PipelineState → (PipelineState → Exit B A) → Exit B A
continue none next = raised
continue (some s) next = next s

abbrev count : Option ℕ → ℕ
count none = 0
count (some n) = n

-- `_record_stat`
unfoldable pub bump : String → ℕ → Option (Dict String ℕ) → Option (Dict String ℕ)
bump key amount none = none
bump key amount (some stats) = some (insert key (count (lookup key stats) + amount) stats)

unfoldable pub record_stat : {B : Type 0} → String → ℕ → Store B → Store B
record_stat key amount st = record st { stats = bump key amount st.stats }

module _ {B : Type 0} (setup : Setup B) where
  -- `fire_attempt_finished`
  unfoldable pub fire_attempt_finished : String → AttemptOutcome → Store B → Store B
  fire_attempt_finished job_uid outcome st = elim setup.hook [
    | none ↦ st
    | some raises ↦
        let called = record st { fired = (job_uid, outcome) ∷ st.fired } in
        if raises job_uid outcome then record_stat "hook_errors" 1 called else called
  ]

  -- `_finish_attempt`; a backend that raises is only warned about.
  unfoldable pub finish_attempt : Option ℕ → Outcome → Option String → Store B → Store B
  finish_attempt none outcome error st = st
  finish_attempt (some k) outcome error st =
      elim (setup.ops.close_trace k outcome (some setup.now) error st.backend) [
        | none ↦ st
        | some (found, b) ↦ record st { backend = b }
      ]

-- `str(metadata.get("error_message") or "")`, with `None` for an empty text: `_attempt_error`.
error_text : ⦃p : Builtins⦄ → Option Json → String
error_text none = ""
error_text (some v) = if is_truthy v then shown v else ""

unfoldable pub attempt_error : ⦃p : Builtins⦄ → Metadata → Option String
unfolding error_text
attempt_error metadata =
    let error = error_text (lookup "error_message" metadata) in
    if error == "" then none else some error

-- The change of the state in `mark_failed_memory`.
module _ ⦃h : RowHash⦄ ⦃p : Builtins⦄ where
  unfoldable pub mark_failed_memory :
      String → String → Metadata → Bool → PipelineState → Option PipelineState
  mark_failed_memory now job_uid metadata unregister s =
      mark_failed job_uid (normalize_failure_metadata now none metadata) s >>= λ marked.
      if unregister then unregister_in_flight job_uid marked else some marked

-- `_selection_excluded_uids`
unfoldable pub excluded_in : List Rule → List JobSnapshot → List String
excluded_in rules [] = []
excluded_in rules (row ∷ rows) =
    let rest = excluded_in rules rows in
    elim (from_dict row) [
      | none ↦ rest
      | some job ↦ if allows_task_type rules job.task_type then rest else add (uid job) rest
    ]

unfoldable pub selection_excluded_uids : List Rule → PipelineState → List String
selection_excluded_uids rules s = if is_active rules then excluded_in rules s.queue else []
