-- ===== src/Engine/Store/Coherent.antt =====
-- What holds between memory and backend at an exit of tasklite/engine/store.py, as the comments of
-- tasklite/backend/base.py put it: the queue in memory is the queue on disk without the jobs in flight.
-- Queues are compared by the uids of their rows.
pub mod Moves
pub mod Struck
pub mod Succeeded
pub mod Exited
pub mod Fallen
pub mod Named
pub mod Bulk
pub mod Cascaded
pub mod Failed
pub mod Counted
pub mod Requeued
pub mod Skipped
use tasklite.Common.{
  ℕ, String, Bool, true, false, not, ◌&&◌, ◌||◌, ◌≡◌, refl, sym, ◌∙◌, ap, inl, inr, Option, none,
  some, List, ◌⊎◌, subst, ◌==◌, [], ◌∷◌, Dict, lookup, has, contains, eq_string, if◌then◌else◌,
  Option-cases, Bool-cases,
}
use tasklite.Models.Job.{JobSnapshot, RowHash}
use tasklite.Models.State.{Metadata, PipelineState, row_uids}
use tasklite.Models.State.Consistent.{IsConsistent}
use tasklite.Models.Attempt.{Outcome}
use tasklite.Models.Json.{Builtins}
use tasklite.Engine.ErrorClass.{normalize_failure_metadata}
use tasklite.Backend.Contract.{
  StateBackend, IsUnchanged, KeepsTables, failure_after, Answers, Traces, IsContract, on_disk,
}
use tasklite.Engine.Store.{
  Setup, Store, Exit, done, crashed, terminated, raised, AttemptOutcome, record_stat,
  fire_attempt_finished, finish_attempt,
}

-- A failure on disk and in memory. The strikes and the cascade of the store write their metadata to
-- disk before it is normalized, so that memory may hold what a normalization makes of it.
abbrev pub IsSameFailure : ⦃p : Builtins⦄ → Option Metadata → Option Metadata → Type 0
IsSameFailure disk memory =
    (disk ≡ memory)
    ⊎ (m : Metadata) × (now : String) × (disk ≡ some m)
      × (memory ≡ some (normalize_failure_metadata now none m))

pub record IsCoherent ⦃h : RowHash⦄ ⦃p : Builtins⦄ {B : Type 0} (be : StateBackend B) (b : B)
    (s : PipelineState) : Type 0 where
  pub consistent : IsConsistent s
  pub successes : (v : String) → lookup v (be.load_successes b) ≡ lookup v s.successes
  pub failed : (v : String) → IsSameFailure (lookup v (be.load_failed b)) (lookup v s.failed)
  pub cursors : (v : String) → lookup v (be.load_cursors b) ≡ lookup v s.cursors
  pub queue :
      (v : String) → on_disk be b v ≡ (contains v s.queue_uids || contains v s.in_flight_uids)

module _ ⦃p : Builtins⦄ where
  pub stored_failure :
      (now : String) (m : Metadata)
      → IsSameFailure (some m) (some (normalize_failure_metadata now none m))
  stored_failure now m = inr (m, now, refl, refl)

  -- A test that both sides read chooses between two rows that agree.
  pub chosen_failure :
      {x y d m : Option Metadata} (t : Bool)
      → IsSameFailure x y
      → IsSameFailure d m
      → IsSameFailure (if t then x else d) (if t then y else m)
  chosen_failure true new old = new
  chosen_failure false new old = old

  -- The rows that a batch leaves on disk and, by `stored`, in memory.
  pub failure_after-IsSameFailure :
      (stored : Metadata → Metadata) (entries : List (String × Metadata)) (v : String)
      {d m : Option Metadata}
      → ((n : Metadata) → IsSameFailure (some n) (some (stored n)))
      → IsSameFailure d m
      → IsSameFailure (failure_after (λ n. n) entries v d) (failure_after stored entries v m)
  failure_after-IsSameFailure stored [] v ok old = old
  failure_after-IsSameFailure stored ((u, n) ∷ more) v ok old =
      failure_after-IsSameFailure stored more v ok (chosen_failure (u == v) (ok n) old)

module _ ⦃h : RowHash⦄ ⦃p : Builtins⦄ {B : Type 0} where
  abbrev pub IsCoherentStore : StateBackend B → Store B → Type 0
  IsCoherentStore be st = IsCoherent be st.backend st.state

  -- However the exit ends, memory and backend agree; and no assertion fails.
  abbrev pub EndsCoherent : {A : Type 0} → StateBackend B → Exit B A → Type 0
  EndsCoherent be (done a st) = IsCoherentStore be st
  EndsCoherent be (crashed st) = IsCoherentStore be st
  EndsCoherent be (terminated st) = IsCoherentStore be st
  EndsCoherent be raised = ⊥

  kept-IsCoherent :
      (be : StateBackend B) (b b' : B) (s : PipelineState)
      → KeepsTables be b b'
      → IsCoherent be b s
      → IsCoherent be b' s
  kept-IsCoherent be b b' s same c = record {
    consistent = c.consistent;
    successes = λ v. ap (lookup v) same.successes ∙ c.successes v;
    failed = λ v.
        subst (λ d. IsSameFailure (lookup v d) (lookup v s.failed)) (sym same.failed) (c.failed v);
    cursors = λ v. ap (lookup v) same.cursors ∙ c.cursors v;
    queue = λ v. ap (λ rows. contains v (row_uids rows)) same.queue ∙ c.queue v;
  }

  pub unchanged-IsCoherent :
      (be : StateBackend B) (b b' : B) (s : PipelineState)
      → IsUnchanged be b b'
      → IsCoherent be b s
      → IsCoherent be b' s
  unchanged-IsCoherent be b b' s (same, _) c = kept-IsCoherent be b b' s same c

  -- The state is the same, and the queue on disk.
  abbrev HoldsQueue : StateBackend B → Store B → Store B → Type 0
  HoldsQueue be st st' =
      (st'.state ≡ st.state) × (be.load_queue st'.backend ≡ be.load_queue st.backend)

  traced :
      (be : StateBackend B) (st : Store B) (answer : Option (Bool × B))
      → Traces be st.backend answer
      → IsCoherentStore be st
      → IsCoherentStore be (elim answer [ none ↦ st | some (found, b) ↦ record st { backend = b } ])
  traced be st none t c = c
  traced be st (some (found, b)) t c = kept-IsCoherent be st.backend b st.state t c

  pub finish_attempt-IsCoherentStore :
      (setup : Setup B) (k : Option ℕ) (outcome : Outcome) (error : Option String) (st : Store B)
      → IsContract setup.ops
      → IsCoherentStore setup.ops st
      → IsCoherentStore setup.ops (finish_attempt setup k outcome error st)
  unfolding finish_attempt
  finish_attempt-IsCoherentStore setup none outcome error st law c = c
  finish_attempt-IsCoherentStore setup (some k) outcome error st law c =
      traced setup.ops st (setup.ops.close_trace k outcome (some setup.now) error st.backend)
        (law.close_trace-Traces k outcome (some setup.now) error st.backend) c

  traced_keeps :
      (be : StateBackend B) (st : Store B) (answer : Option (Bool × B))
      → Traces be st.backend answer
      → HoldsQueue be st (elim answer [ none ↦ st | some (found, b) ↦ record st { backend = b } ])
  traced_keeps be st none t = (refl, refl)
  traced_keeps be st (some (found, b)) t = (refl, t.queue)

  -- The end of an attempt changes no row of a queue.
  pub finish_attempt_keeps :
      (setup : Setup B) (k : Option ℕ) (outcome : Outcome) (error : Option String) (st : Store B)
      → IsContract setup.ops
      → HoldsQueue setup.ops st (finish_attempt setup k outcome error st)
  unfolding finish_attempt
  finish_attempt_keeps setup none outcome error st law = (refl, refl)
  finish_attempt_keeps setup (some k) outcome error st law =
      traced_keeps setup.ops st (setup.ops.close_trace k outcome (some setup.now) error st.backend)
        (law.close_trace-Traces k outcome (some setup.now) error st.backend)

  called :
      (be : StateBackend B) (raises : Bool) (u : String) (outcome : AttemptOutcome) (st : Store B)
      → IsCoherentStore be st
      → IsCoherentStore be (
          let next = record st { fired = (u, outcome) ∷ st.fired } in
          if raises then record_stat "hook_errors" 1 next else next)
  unfolding record_stat
  called be true u outcome st c = c
  called be false u outcome st c = c

  pub fire_attempt_finished-IsCoherentStore :
      (setup : Setup B) (u : String) (outcome : AttemptOutcome) (st : Store B)
      → IsCoherentStore setup.ops st
      → IsCoherentStore setup.ops (fire_attempt_finished setup u outcome st)
  unfolding fire_attempt_finished
  fire_attempt_finished-IsCoherentStore setup u outcome st c = elim (Option-cases setup.hook) [
    | inl e ↦ rw e c
    | inr (raises, e) ↦ rw e (called setup.ops (raises u outcome) u outcome st c)
  ]
