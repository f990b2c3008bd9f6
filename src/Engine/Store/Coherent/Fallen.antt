-- ===== src/Engine/Store/Coherent/Fallen.antt =====
-- A batch of failures in tasklite/engine/store.py that the backend accepted.
use tasklite.Common.{
  lookup, keys, length, String, not, ◌&&◌, ◌≡◌, refl, sym, ◌∙◌, ap, subst, inl, inr, none, some,
  List, [], ◌∷◌, contains, eq_string, if◌then◌else◌, Option-cases, Bool-cases, arith,
  contains-discard, contains-keep, keep-IsDistinct, lookup-erase, lookup-insert,
}
use tasklite.Models.Job.{RowHash}
use tasklite.Models.Json.{Builtins}
use tasklite.Models.State.{Metadata, row_uids}
use tasklite.Models.State.Consistent.{IsConsistent}
use tasklite.Backend.Memory.{rows_outside}
use tasklite.Backend.Memory.Batches.{row_uids-rows_outside}
use tasklite.Backend.Contract.{AreFailed, on_disk, failure_after}
use tasklite.Engine.Store.{
  Setup, Store, AttemptOutcome, record_stat, fire_attempt_finished, failed_for_good,
}
use tasklite.Engine.Store.Failures.{archive_each, archive_batch}
use tasklite.Engine.Store.Coherent.{IsCoherentStore, IsSameFailure, failure_after-IsSameFailure}
use tasklite.Engine.Store.Coherent.Moves.{
  unregistered, as_failed, replaced, unregister_in_flight-Leaves, mark_failed-Leaves,
  replace_queue-Leaves,
}

-- What a loop over failed jobs leaves alone, and what it writes.
pub record HasFallen ⦃h : RowHash⦄ {B : Type 0} (stored : Metadata → Metadata)
    (entries : List (String × Metadata)) (st st' : Store B) : Type 0 where
  pub backend : st'.backend ≡ st.backend
  pub consistent : IsConsistent st'.state
  pub successes :
      (v : String)
      → lookup v st'.state.successes
        ≡ (if contains v (keys entries) then none else lookup v st.state.successes)
  pub failed :
      (v : String)
      → lookup v st'.state.failed ≡ failure_after stored entries v (lookup v st.state.failed)
  pub cursors : st'.state.cursors ≡ st.state.cursors
  pub queued : (v : String) → contains v st'.state.queue_uids ≡ contains v st.state.queue_uids
  pub flights :
      (v : String)
      → contains v st'.state.in_flight_uids
        ≡ (not (contains v (keys entries)) && contains v st.state.in_flight_uids)

pub fire_keeps :
    {B : Type 0} (setup : Setup B) (u : String) (outcome : AttemptOutcome) (st : Store B)
    → ((fire_attempt_finished setup u outcome st).state ≡ st.state)
      × ((fire_attempt_finished setup u outcome st).backend ≡ st.backend)
unfolding fire_attempt_finished record_stat
fire_keeps setup u outcome st = elim (Option-cases setup.hook) [
  | inl e ↦ rw e (refl, refl)
  | inr (raises, e) ↦ elim (Bool-cases (raises u outcome)) [
    | inl t ↦ (rw (e, t) refl, rw (e, t) refl)
    | inr f ↦ (rw (e, f) refl, rw (e, f) refl)
  ]
]

module _ ⦃h : RowHash⦄ ⦃p : Builtins⦄ {B : Type 0} (setup : Setup B)
    (written : Metadata → Metadata) where
  archive_each-HasFallen :
      (entries : List (String × Metadata)) (st : Store B)
      → IsConsistent st.state
      → (st' : Store B) × (archive_each setup written entries st ≡ some st')
        × HasFallen written entries st st'
  unfolding archive_each keys contains
  archive_each-HasFallen [] st c = (
    st,
    refl,
    record {
      backend = refl;
      consistent = c;
      successes = λ v. refl;
      failed = λ v. refl;
      cursors = refl;
      queued = λ v. refl;
      flights = λ v. refl;
    },
  )
  archive_each-HasFallen ((u, m) ∷ more) st c =
      let s = st.state in
      let (marked, c1) = mark_failed-Leaves s c u (written m) in
      let (gone, c2) = unregister_in_flight-Leaves (as_failed u (written m) s) c1 u in
      let moved = unregistered u (as_failed u (written m) s) in
      let next = fire_attempt_finished setup u (failed_for_good m) (record st { state = moved }) in
      let (same, kept) = fire_keeps setup u (failed_for_good m) (record st { state = moved }) in
      let (st', e, r) = archive_each-HasFallen more next (subst IsConsistent (sym same) c2) in
      (
        st',
        rw marked (rw gone e),
        record {
          backend = r.backend ∙ kept;
          consistent = r.consistent;
          successes = λ v. ground (
            arith,
            r.successes v,
            ap (λ x. lookup v x.successes) same,
            lookup-erase v u s.successes,
          );
          failed = λ v.
              r.failed v
              ∙ ap (failure_after written more v)
                  (ap (λ x. lookup v x.failed) same ∙ lookup-insert v u (written m) s.failed);
          cursors = r.cursors ∙ ap (λ x. x.cursors) same;
          queued = λ v. r.queued v ∙ ap (λ x. contains v x.queue_uids) same;
          flights = λ v. ground (
            arith,
            r.flights v,
            ap (λ x. contains v x.in_flight_uids) same,
            contains-discard v u s.in_flight_uids,
          );
        },
      )

  -- The batch is gone from the queue, from the successes and from the jobs in flight, as on disk.
  pub archive_batch-IsCoherentStore :
      (stat : String) (entries : List (String × Metadata)) (st : Store B) (b : B)
      → IsCoherentStore setup.ops st
      → AreFailed setup.ops entries st.backend b
      → ((m : Metadata) → IsSameFailure (some m) (some (written m)))
      → (st' : Store B) × (archive_batch setup stat written entries (record st { backend = b })
          ≡ some st')
        × IsCoherentStore setup.ops st'
  unfolding archive_batch record_stat
  archive_batch-IsCoherentStore stat entries st b c w ok =
      let us = keys entries in
      let s = st.state in
      let kept = rows_outside us s.queue in
      let members : (v : String)
          → contains v (row_uids kept) ≡ (contains v s.queue_uids && not (contains v us)) =
        λ v. rw row_uids-rows_outside (
          ground (
            arith,
            contains-keep (λ u. not (contains u us)) v (row_uids s.queue),
            c.consistent.queued v,
          )) in
      let (e, c1) =
        replace_queue-Leaves s c.consistent kept
          (rw row_uids-rows_outside
            (keep-IsDistinct (λ u. not (contains u us)) (row_uids s.queue) c.consistent.distinct))
          (λ v. ground (arith, members v, c.consistent.not_both v)) in
      let next =
        record_stat stat (length entries) (record st { backend = b; state = replaced kept s }) in
      let (st', e', r) = archive_each-HasFallen entries next c1 in
      (
        st',
        rw e e',
        record {
          consistent = r.consistent;
          successes = λ v. ground (
            arith,
            ap (λ x. lookup v (setup.ops.load_successes x)) r.backend,
            r.successes v,
            w.successes v,
            c.successes v,
          );
          failed = λ v. rw (ap (λ x. lookup v (setup.ops.load_failed x)) r.backend) (
              rw (r.failed v)
                (rw (w.failed v) (failure_after-IsSameFailure written entries v ok (c.failed v))));
          cursors = λ v.
              ap (λ x. lookup v (setup.ops.load_cursors x)) r.backend
              ∙ ap (lookup v) w.cursors
              ∙ c.cursors v
              ∙ sym (ap (lookup v) r.cursors);
          queue = λ v. ground (
            arith,
            ap (λ x. on_disk setup.ops x v) r.backend,
            r.queued v,
            r.flights v,
            members v,
            w.queue v,
            c.queue v,
          );
        },
      )
