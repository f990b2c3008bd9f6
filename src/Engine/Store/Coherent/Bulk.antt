-- ===== src/Engine/Store/Coherent/Bulk.antt =====
-- tasklite/engine/store.py: `handle_bulk_failure_strike`, for jobs on the queue.
use tasklite.Common.{
  lookup, String, Bool, true, false, ◌&&◌, ◌||◌, ◌≡◌, refl, sym, ◌∙◌, ap, subst, inl, inr, Option,
  none, some, List, [], ◌∷◌, contains, eq_string, if◌then◌else◌, Bool-cases, arith, ◌==◌, ==_iff,
  contains-discard, lookup-erase, lookup-insert, keys, IsDistinct,
}
use tasklite.Models.Job.{JobSnapshot, RowHash, ℤ, job_uid_from_snapshot}
use tasklite.Models.Json.{Builtins}
use tasklite.Models.State.{Metadata, row_uids, rows_without}
use tasklite.Models.State.Active.{row_uids-rows_without, discard-IsDistinct}
use tasklite.Models.State.Consistent.{IsConsistent}
use tasklite.Backend.Contract.{
  StateBackend, IsUnchanged, AreFailed, IsFailed, Answers, IsContract, on_disk,
}
use tasklite.Engine.ErrorClass.{normalize_failure_metadata}
use tasklite.Engine.Store.{
  Setup, Store, record_stat, fire_attempt_finished, failed_for_good, mark_failed_memory,
}
use tasklite.Engine.Store.Strikes.{
  write_first, register_commit_failure, reaches, strike_meta, job_payload, bulk_strike_finalize,
  bulk_strike_one, handle_bulk_failure_strike,
}
use tasklite.Backend.Memory.{Payload}
use tasklite.Engine.Store.Coherent.{IsSameFailure, chosen_failure, stored_failure}
use tasklite.Engine.Store.Coherent.Moves.{as_failed, mark_failed-Leaves}
use tasklite.Engine.Store.Coherent.Fallen.{fire_keeps}
use tasklite.Engine.Store.Coherent.Named.{
  IsNamed, AreNamed, first_match_found, row_uids-write_first, write_first-AreNamed,
  rows_without-AreNamed,
}

-- Between two rounds of the loop: its own queue is what the backend has beside the jobs in flight.
pub record IsStriking ⦃h : RowHash⦄ ⦃p : Builtins⦄ {B : Type 0} (be : StateBackend B)
    (queue : List JobSnapshot) (st : Store B) : Type 0 where
  pub consistent : IsConsistent st.state
  pub distinct : IsDistinct (row_uids queue)
  pub named : AreNamed queue
  pub idle :
      (v : String) → (contains v (row_uids queue) && contains v st.state.in_flight_uids) ≡ false
  pub successes :
      (v : String) → lookup v (be.load_successes st.backend) ≡ lookup v st.state.successes
  pub failed :
      (v : String) → IsSameFailure (lookup v (be.load_failed st.backend)) (lookup v st.state.failed)
  pub cursors : (v : String) → lookup v (be.load_cursors st.backend) ≡ lookup v st.state.cursors
  pub disk :
      (v : String)
      → on_disk be st.backend v
        ≡ (contains v (row_uids queue) || contains v st.state.in_flight_uids)

module _ ⦃h : RowHash⦄ ⦃p : Builtins⦄ {B : Type 0} (setup : Setup B)
    (law : IsContract setup.ops) where
  -- The rows and the store that a round leaves, and that the other jobs stay where they are.
  abbrev GoesOn : String → List JobSnapshot → Option (List JobSnapshot × Bool × Store B) → Type 0
  GoesOn u queue m =
      (queue' : List JobSnapshot) × (kept : Bool) × (st' : Store B) × (m ≡ some (queue', kept, st'))
      × IsStriking setup.ops queue' st'
      × ((v : String)
          → (u == v) ≡ false
          → contains v (row_uids queue') ≡ contains v (row_uids queue))

  counted-IsStriking :
      (u : String) (row : JobSnapshot) (queue : List JobSnapshot) (st : Store B)
      → IsStriking setup.ops queue st
      → job_uid_from_snapshot row ≡ u
      → IsNamed row
      → IsStriking setup.ops (write_first u row queue) st
  counted-IsStriking u row queue st i e ok =
      let same = row_uids-write_first u row queue e in
      record {
        consistent = i.consistent;
        distinct = rw same i.distinct;
        named = write_first-AreNamed u row queue ok i.named;
        idle = λ v. rw same (i.idle v);
        successes = i.successes;
        failed = i.failed;
        cursors = i.cursors;
        disk = λ v. rw same (i.disk v);
      }

  refused-IsStriking :
      (queue : List JobSnapshot) (st : Store B) (b : B)
      → IsUnchanged setup.ops st.backend b
      → IsStriking setup.ops queue st
      → IsStriking setup.ops queue (record st { backend = b })
  refused-IsStriking queue st b (same, _) i = record {
    consistent = i.consistent;
    distinct = i.distinct;
    named = i.named;
    idle = i.idle;
    successes = λ v. ap (λ d. lookup v d) same.successes ∙ i.successes v;
    failed = λ v.
        subst (λ d. IsSameFailure (lookup v d) (lookup v st.state.failed)) (sym same.failed)
          (i.failed v);
    cursors = λ v. ap (λ d. lookup v d) same.cursors ∙ i.cursors v;
    disk = λ v. ap (λ rows. contains v (row_uids rows)) same.queue ∙ i.disk v;
  }

  archived-IsStriking :
      (u : String) (raw : Metadata) (queue : List JobSnapshot) (st st' : Store B) (b : B)
      → contains u (row_uids queue) ≡ true
      → AreFailed setup.ops ((u, raw) ∷ []) st.backend b
      → st'.state ≡ as_failed u (normalize_failure_metadata setup.now none raw) st.state
      → st'.backend ≡ b
      → IsStriking setup.ops queue st
      → IsStriking setup.ops (rows_without u queue) st'
  unfolding contains keys
  archived-IsStriking u raw queue st st' b there w e eb i =
      let m = normalize_failure_metadata setup.now none raw in
      let s = st.state in
      record {
        consistent = subst IsConsistent (sym e) (mark_failed-Leaves s i.consistent u m).1;
        distinct = rw row_uids-rows_without (discard-IsDistinct u (row_uids queue) i.distinct);
        named = rows_without-AreNamed u queue i.named;
        idle = λ v. rw row_uids-rows_without (
            ground (
              arith,
              i.idle v,
              contains-discard v u (row_uids queue),
              ap (λ x. contains v x.in_flight_uids) e,
            ));
        successes = λ v. ground (
          arith,
          ap (λ x. lookup v (setup.ops.load_successes x)) eb,
          w.successes v,
          i.successes v,
          ap (λ x. lookup v x.successes) e,
          lookup-erase v u s.successes,
        );
        failed = λ v. rw (ap (λ x. lookup v (setup.ops.load_failed x)) eb) (
            rw (w.failed v) (
              rw (ap (λ x. lookup v x.failed) e) (
                rw lookup-insert
                  (chosen_failure (u == v) (stored_failure setup.now raw) (i.failed v)))));
        cursors = λ v.
            ap (λ x. lookup v (setup.ops.load_cursors x)) eb
            ∙ ap (lookup v) w.cursors
            ∙ i.cursors v
            ∙ sym (ap (λ x. lookup v x.cursors) e);
        disk = λ v. rw row_uids-rows_without (
            ground (
              arith,
              ap (λ x. on_disk setup.ops x v) eb,
              w.queue v,
              i.disk v,
              i.idle u,
              ap (λ x. contains v x.in_flight_uids) e,
              contains-discard v u (row_uids queue),
              ==_iff u v,
            ));
      }

  bulk_strike_finalize-IsStriking :
      (u : String) (failures : ℤ) (payload : Option Payload) (queue : List JobSnapshot)
      (st : Store B) (answer : Bool × B)
      → contains u (row_uids queue) ≡ true
      → Answers setup.ops
          (IsFailed setup.ops u (strike_meta failures) payload st.backend)
          st.backend
          answer
      → IsStriking setup.ops queue st
      → (st' : Store B) × (bulk_strike_finalize setup u failures st answer ≡ some (answer.0, st'))
        × IsStriking setup.ops (if answer.0 then rows_without u queue else queue) st'
  unfolding bulk_strike_finalize mark_failed_memory record_stat
  bulk_strike_finalize-IsStriking u failures payload queue st (false, b) there same i =
      (record st { backend = b }, refl, refused-IsStriking queue st b same i)
  bulk_strike_finalize-IsStriking u failures payload queue st (true, b) there (w, _) i =
      let m = normalize_failure_metadata setup.now none (strike_meta failures) in
      let (marked, c) = mark_failed-Leaves st.state i.consistent u m in
      let struck =
        record_stat "failed" 1 (record st { backend = b; state = as_failed u m st.state }) in
      let (same, kept) = fire_keeps setup u (failed_for_good (strike_meta failures)) struck in
      (
        fire_attempt_finished setup u (failed_for_good (strike_meta failures)) struck,
        rw marked refl,
        archived-IsStriking u (strike_meta failures) queue st _ b there w same kept i,
      )

  answered :
      (u : String) (queue : List JobSnapshot) (kept_any : Bool) (archived : Bool) (st : Store B)
      → IsStriking setup.ops (if archived then rows_without u queue else queue) st
      → GoesOn u queue
          (some (if archived then (rows_without u queue, kept_any, st) else (queue, true, st)))
  answered u queue kept_any true st i = (
    rows_without u queue,
    kept_any,
    st,
    refl,
    i,
    λ v apart. rw row_uids-rows_without (ground (arith, contains-discard v u (row_uids queue))),
  )
  answered u queue kept_any false st i = (queue, true, st, refl, i, λ v apart. refl)

  bulk_strike_one-GoesOn :
      (u : String) (queue : List JobSnapshot) (kept_any : Bool) (st : Store B)
      → contains u (row_uids queue) ≡ true
      → IsStriking setup.ops queue st
      → GoesOn u queue (bulk_strike_one setup u (queue, kept_any, st))
  unfolding bulk_strike_one register_commit_failure
  bulk_strike_one-GoesOn u queue kept_any st there i =
      let (row, found, e, ok) = first_match_found u queue there i.named in
      let counted = (register_commit_failure row).0 in
      let failures = (register_commit_failure row).1 in
      let named : job_uid_from_snapshot counted ≡ u = ok counted.runtime ∙ e in
      let same = row_uids-write_first u counted queue named in
      let i' =
        counted-IsStriking u counted queue st i named (λ r. ok r ∙ sym (ok counted.runtime)) in
      elim (Bool-cases (reaches setup.threshold failures)) [
        | inr again ↦
            rw found
              (rw again (write_first u counted queue, true, st, refl, i', λ v apart. rw same refl))
        | inl last ↦
            let answer =
              setup.ops.commit_failure u (strike_meta failures) (job_payload counted) st.backend in
            let (st', p', i'') =
              bulk_strike_finalize-IsStriking u failures (job_payload counted)
                (write_first u counted queue) st answer (rw same there)
                (law.commit_failure-Answers u (strike_meta failures) (job_payload counted)
                  st.backend)
                i' in
            let (q, k, s, eq, fin, others) =
              answered u (write_first u counted queue) kept_any answer.0 st' i'' in
            rw found
              (rw last (rw p' (q, k, s, eq, fin, λ v apart. others v apart ∙ ap (contains v) same)))
      ]

  pub handle_bulk_failure_strike-IsStriking :
      (us : List String) (queue : List JobSnapshot) (kept_any : Bool) (st : Store B)
      → IsDistinct us
      → ((v : String) → contains v us ≡ true → contains v (row_uids queue) ≡ true)
      → IsStriking setup.ops queue st
      → (queue' : List JobSnapshot) × (kept : Bool) × (st' : Store B) × (handle_bulk_failure_strike
            setup us
            (queue, kept_any, st)
          ≡ some (queue', kept, st'))
        × IsStriking setup.ops queue' st'
  unfolding handle_bulk_failure_strike contains
  handle_bulk_failure_strike-IsStriking [] queue kept_any st d members i =
      (queue, kept_any, st, refl, i)
  handle_bulk_failure_strike-IsStriking (u ∷ us) queue kept_any st d members i =
      let (q, k, s, e, i', others) =
        bulk_strike_one-GoesOn u queue kept_any st (members u (ground (arith, ==_iff u u))) i in
      let (q', k', s', e', i'') =
        handle_bulk_failure_strike-IsStriking us q k s d.1
          (λ v m. ground (arith, others v, members v, ==_iff u v)) i' in
      (q', k', s', rw e e', i'')
