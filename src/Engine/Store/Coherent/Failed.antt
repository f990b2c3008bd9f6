-- ===== src/Engine/Store/Coherent/Failed.antt =====
-- The exits of tasklite/engine/store.py that write failures.
use tasklite.Common.{
  ℕ, keys, map, String, Bool, true, false, not, ◌&&◌, ◌≡◌, refl, sym, subst, inl, inr, Option, none,
  some, List, [], ◌∷◌, contains, keep, eq_string, Option-cases, Bool-cases, arith, contains-keep,
  keep-IsDistinct, IsDistinct,
}
use tasklite.Models.Job.{JobSnapshot, RowHash, Job, from_dict, uid}
use tasklite.Models.Json.{Builtins}
use tasklite.Models.State.{Metadata, row_uids}
use tasklite.Models.Attempt.{Outcome, failed}
use tasklite.Backend.Memory.{Payload}
use tasklite.Backend.Contract.{IsFailed, Answers, IsContract}
use tasklite.Engine.ErrorClass.{normalize_failure_metadata}
use tasklite.Engine.Store.{
  Setup, Store, done, continue, record_stat, finish_attempt, attempt_error, selection_excluded_uids,
}
use tasklite.Engine.Store.Failures.{
  after_failure, apply_failure, apply_bulk_failure, payload_of, any_uid, is_empty_batch,
}
use tasklite.Engine.Store.Exits.{FailureOutcome}
use tasklite.Engine.Store.Coherent.{
  IsCoherentStore, EndsCoherent, unchanged-IsCoherent, finish_attempt-IsCoherentStore,
}
use tasklite.Engine.Store.Coherent.Moves.{unregistered, as_failed}
use tasklite.Engine.Store.Coherent.Struck.{
  failed_in_memory, failed-IsCoherent, handle_commit_failure_strike-EndsCoherent,
}
use tasklite.Engine.Store.Coherent.Named.{AreNamed}
use tasklite.Engine.Store.Coherent.Cascaded.{
  after_bulk-EndsCoherent, cascade_fail-EndsCoherent, with_cascade-EndsCoherent,
}

pub finish_keeps :
    {B : Type 0} (setup : Setup B) (k : Option ℕ) (outcome : Outcome) (error : Option String)
    (st : Store B)
    → (finish_attempt setup k outcome error st).state ≡ st.state
unfolding finish_attempt
finish_keeps setup none outcome error st = refl
finish_keeps setup (some k) outcome error st =
    elim (Option-cases (setup.ops.close_trace k outcome (some setup.now) error st.backend)) [
      | inl e ↦ rw (finish_attempt, e) refl
      | inr (answer, e) ↦ rw (finish_attempt, e) refl
    ]

module _ ⦃h : RowHash⦄ ⦃p : Builtins⦄ {B : Type 0} (setup : Setup B) (law : IsContract setup.ops)
    (u : String) (row : JobSnapshot) {job : Job} (st : Store B) (c : IsCoherentStore setup.ops st)
    (named_queue : AreNamed st.state.queue) (flying : contains u st.state.in_flight_uids ≡ true)
    (parsed : from_dict row ≡ some job) (named : uid job ≡ u) where
  after_failure-EndsCoherent :
      (m : Metadata) (payload : Option Payload) (count_as : String) (cascade : Bool) (k : Option ℕ)
      (answer : Bool × B)
      → Answers setup.ops (IsFailed setup.ops u m payload st.backend) st.backend answer
      → EndsCoherent setup.ops (after_failure setup u m (some row) count_as cascade k st answer)
  unfolding after_failure continue record_stat
  after_failure-EndsCoherent m payload count_as cascade k (true, b) (w, _) =
      let (marked, ok) = failed_in_memory u st.state c.consistent setup.now m in
      let state =
        unregistered u (as_failed u (normalize_failure_metadata setup.now none m) st.state) in
      let c' =
        failed-IsCoherent setup.ops u st.state st.backend b setup.now m c
          (ground (arith, c.consistent.not_both u)) w in
      let counted = record_stat count_as 1 (record st { backend = b; state = state }) in
      let archived = finish_attempt setup k failed (attempt_error m) counted in
      let c'' = finish_attempt-IsCoherentStore setup k failed (attempt_error m) counted law c' in
      let same = finish_keeps setup k failed (attempt_error m) counted in
      elim (Bool-cases cascade) [
        | inl t ↦ rw marked (
            rw t (
              with_cascade-EndsCoherent setup law u m _ (
                cascade_fail-EndsCoherent setup law u archived c''
                  (subst (λ s. AreNamed s.queue) (sym same) named_queue))))
        | inr f ↦ rw marked (rw f (with_cascade-EndsCoherent setup law u m (done [] archived) c''))
      ]
  after_failure-EndsCoherent m payload count_as cascade k (false, b) same =
      handle_commit_failure_strike-EndsCoherent setup law u FailureOutcome _ row k
        (record st { backend = b }) (unchanged-IsCoherent setup.ops st.backend b st.state same c)
        flying parsed named

  -- A permanent failure of a job in flight whose row can be read, with or without the cascade
  -- behind it, leaves memory and backend in agreement, as `IsCoherent` says, and fails no
  -- assertion, whichever commits the backend accepts: on a queue whose rows have a task type and a
  -- job id.
  pub apply_failure-EndsCoherent :
      (meta : Metadata) (count_as : String) (cascade : Bool) (k : Option ℕ)
      → EndsCoherent setup.ops (apply_failure setup u meta (some row) count_as cascade k st)
  unfolding apply_failure
  apply_failure-EndsCoherent meta count_as cascade k =
      let m = normalize_failure_metadata setup.now none meta in
      after_failure-EndsCoherent m (payload_of (some row)) count_as cascade k _
        (law.commit_failure-Answers u m (payload_of (some row)) st.backend)

keys_of_kept :
    (q : String → Bool) (n : Metadata → Metadata) (entries : List (String × Metadata))
    → keys (map (λ entry. (entry.0, n entry.1)) (keep (λ entry. q entry.0) entries))
      ≡ keep q (keys entries)
unfolding keys keep
keys_of_kept q n [] = refl
keys_of_kept q n ((u, m) ∷ more) = ground (arith, keys_of_kept q n more)

module _ ⦃h : RowHash⦄ ⦃p : Builtins⦄ {B : Type 0} (setup : Setup B)
    (law : IsContract setup.ops) where
  -- A batch of failures of distinct jobs on the queue, all of whose rows have a task type and a job
  -- id, ends by an outcome or a crash with memory and backend in agreement, as `IsCoherent` says,
  -- and without a failed assertion: also job by job when the backend refuses the batch, and when
  -- the selection empties it.
  pub apply_bulk_failure-EndsCoherent :
      (uids_metas : List (String × Metadata)) (st : Store B)
      → IsCoherentStore setup.ops st
      → AreNamed st.state.queue
      → IsDistinct (keys uids_metas)
      → ((v : String)
          → contains v (keys uids_metas) ≡ true
          → contains v (row_uids st.state.queue) ≡ true)
      → EndsCoherent setup.ops (apply_bulk_failure setup uids_metas st)
  unfolding apply_bulk_failure
  apply_bulk_failure-EndsCoherent uids_metas st c named d members =
      let excluded = selection_excluded_uids setup.rules st.state in
      let kept : String → Bool = λ u. not (contains u excluded) in
      let left = keep (λ entry. kept entry.0) uids_metas in
      let normalize = normalize_failure_metadata setup.now none in
      let normalized : List (String × Metadata) =
        map (λ entry. (entry.0, normalize entry.1)) left in
      let same = keys_of_kept kept normalize uids_metas in
      let after =
        after_bulk-EndsCoherent setup law normalized st c named
          (rw same (keep-IsDistinct kept (keys uids_metas) d))
          (λ v m. members v (
            ground (
              arith,
              subst (λ vs. contains v vs ≡ true) same m,
              contains-keep kept v (keys uids_metas),
            )))
          _ (law.commit_failures-Answers normalized st.backend) in
      elim (Bool-cases (any_uid excluded && is_empty_batch left)) [
        | inl t ↦ rw (apply_bulk_failure, t) c
        | inr f ↦ rw (apply_bulk_failure, f) after
      ]
