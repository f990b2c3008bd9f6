-- ===== src/Engine/Store/Coherent/Succeeded.antt =====
-- tasklite/engine/store.py: what `apply_success` does to the state when its commit was accepted.
use tasklite.Common.{
  lookup, String, true, ◌||◌, ◌≡◌, refl, ap, Option, some, List, [], ◌∷◌, contains, eq_string,
  arith, ==_iff, ◌==◌, sym, ◌∙◌, none, inl, keys, IsDistinct, lookup-erase, contains-union,
  contains-discard, lookup-insert,
}
use tasklite.Models.Job.{JobSnapshot, RowHash, ◌>>=◌}
use tasklite.Models.State.{
  Metadata, PipelineState, row_uids, spawn_jobs, mark_success, update_cursors, unregister_in_flight,
}
use tasklite.Models.State.Consistent.{
  IsConsistent, uids_consistent_of, terminal_uids_consistent_of, state_consistent_of,
}
use tasklite.Models.Json.{Builtins}
use tasklite.Backend.Memory.{Finish}
use tasklite.Backend.Contract.Cursors.{lookup-merge_cursors}
use tasklite.Backend.Contract.{StateBackend, IsSucceeded, cursor_after}
use tasklite.Engine.Store.Exits.{spawn_if_any}
use tasklite.Engine.Store.Coherent.{IsCoherent, chosen_failure}
use tasklite.Engine.Store.Coherent.Moves.{
  unregistered, spawned, Leaves, unregister_in_flight-Leaves, requeue_jobs-Leaves,
  mark_success-Leaves, as_succeeded,
}

module _ ⦃h : RowHash⦄ ⦃p : Builtins⦄ (u : String) (m : Metadata)
    (updates : List (String × Option String)) where
  -- The state at the end of the exit, from the one that the new rows leave.
  abbrev pub finished : PipelineState → PipelineState
  finished y = unregistered u (as_succeeded u m (update_cursors updates y))

  -- The changes behind the spawning, from a state that is consistent but for the finished job.
  finish-Leaves :
      (y : PipelineState)
      → IsConsistent (unregistered u y)
      → Leaves
          (mark_success u m (update_cursors updates y) >>= λ marked. unregister_in_flight u marked)
          (finished y)
  unfolding update_cursors
  finish-Leaves y c =
      let (marked, c') =
        mark_success-Leaves (update_cursors updates (unregistered u y))
          (record {
            queued = c.queued;
            distinct = c.distinct;
            succeeded = c.succeeded;
            archived = c.archived;
            one_outcome = c.one_outcome;
            not_both = c.not_both;
          })
          u m in
      let first : mark_success u m (update_cursors updates y)
          ≡ some (as_succeeded u m (update_cursors updates y)) =
        unfold mark_success in
        rw
          (terminal_uids_consistent_of (as_succeeded u m (update_cursors updates y)) c'.succeeded
            c'.archived)
          refl in
      let second : unregister_in_flight u (as_succeeded u m (update_cursors updates y))
          ≡ some (finished y) =
        unfold unregister_in_flight in rw (state_consistent_of (finished y) c') refl in
      (rw first second, c')

  module _ {B : Type 0} (be : StateBackend B) (b b' : B) (s : PipelineState) (c : IsCoherent be b s)
      (flying : contains u s.in_flight_uids ≡ true) (f : Finish)
      (d : IsDistinct (keys updates)) where
    -- Disk and memory, if the new rows are on the queue of the state.
    finished-IsCoherent :
        (rows : List JobSnapshot) (y : PipelineState)
        → IsSucceeded be u m f rows updates b b'
        → IsConsistent (finished y)
        → ((v : String)
            → contains v y.queue_uids ≡ (contains v (row_uids rows) || contains v s.queue_uids))
        → y.in_flight_uids ≡ s.in_flight_uids
        → y.successes ≡ s.successes
        → y.failed ≡ s.failed
        → y.cursors ≡ s.cursors
        → IsCoherent be b' (finished y)
    unfolding update_cursors
    finished-IsCoherent rows y written ok queued flights succ fail curs = record {
      consistent = ok;
      successes = λ v. ground (
        arith,
        written.successes v,
        c.successes v,
        lookup-insert v u m y.successes,
        ap (lookup v) succ,
      );
      failed = λ v. rw (written.failed v) (
          rw lookup-erase
            (rw fail (chosen_failure {x = none} {y = none} (u == v) (inl refl) (c.failed v))));
      cursors = λ v.
          written.cursors v
          ∙ ap (cursor_after (lookup v updates)) (c.cursors v ∙ ap (lookup v) (sym curs))
          ∙ sym (lookup-merge_cursors v updates y.cursors d);
      queue = λ v. ground (
        arith,
        written.queue v,
        c.queue v,
        queued v,
        c.consistent.not_both u,
        contains-discard v u y.in_flight_uids,
        ap (contains v) flights,
        ==_iff u v,
      );
    }

    pub spawn_if_any-Leaves :
        (rows : List JobSnapshot)
        → IsSucceeded be u m f rows updates b b'
        → (s' : PipelineState) × ((spawn_if_any rows s >>= λ y.
              mark_success u m (update_cursors updates y) >>= λ marked.
              unregister_in_flight u marked)
            ≡ some s')
          × IsCoherent be b' s'
    unfolding spawn_if_any
    spawn_if_any-Leaves [] written =
        let (e, ok) = finish-Leaves s (unregister_in_flight-Leaves s c.consistent u).1 in
        (
          finished s,
          e,
          finished-IsCoherent [] s written ok (λ v. unfold row_uids contains in refl) refl refl refl
              refl,
        )
    spawn_if_any-Leaves (row ∷ rows) written =
        let idle = unregister_in_flight-Leaves s c.consistent u in
        let (p, c0) =
          requeue_jobs-Leaves (unregistered u s) idle.1 (row ∷ rows) true written.distinct
            (λ v. ground (arith, written.fresh v, c.queue v, c.consistent.not_both u, ==_iff u v))
            (λ v.
              ground (arith, written.fresh v, c.queue v, contains-discard v u s.in_flight_uids)) in
        let y = spawned (row ∷ rows) true s in
        let first : spawn_jobs (row ∷ rows) true s ≡ some y =
          unfold spawn_jobs in rw (uids_consistent_of y c0.queued) refl in
        let (e, ok) = finish-Leaves y c0 in
        (
          finished y,
          rw first e,
          finished-IsCoherent (row ∷ rows) y written ok
              (λ v. ground (arith, contains-union v s.queue_uids (row_uids (row ∷ rows)))) refl refl
              refl refl,
        )
