-- ===== src/Engine/Store/Coherent/Cascaded.antt =====
-- The batches of failures in tasklite/engine/store.py, and the cascade behind a failed job.
use tasklite.Common.{
  keys, String, Bool, true, false, not, ◌≡◌, refl, subst, inl, inr, none, List, [], ◌∷◌, contains,
  exists, eq_string, Option-cases, Bool-cases, arith, contains-keep, keep-IsDistinct, IsDistinct,
}
use tasklite.Models.Job.{JobSnapshot, RowHash, from_dict, from_dict-uid}
use tasklite.Models.Json.{Builtins}
use tasklite.Models.State.{Metadata, PipelineState, row_uids}
use tasklite.Models.State.Cascade.Edges.{row_waits}
use tasklite.Models.State.Cascade.Falls.{Cascades, direct, onward}
use tasklite.Models.State.Cascade.Reached.{cascade_fail-Cascades, queue_waits}
use tasklite.Backend.Contract.{AreFailed, Answers, IsContract}
use tasklite.Engine.ErrorClass.{normalize_failure_metadata}
use tasklite.Engine.Store.{
  Setup, Store, Exit, done, crashed, terminated, raised, continue, selection_excluded_uids,
}
use tasklite.Engine.Store.Failures.{
  strike_batch, after_cascade, cascade_metas, cascade_on, cascade_fail, allowed_uids, with_cascade,
  after_bulk,
}
use tasklite.Engine.Store.Coherent.{
  IsCoherent, IsCoherentStore, EndsCoherent, unchanged-IsCoherent, stored_failure,
}
use tasklite.Engine.Store.Coherent.Moves.{replaced, replace_queue-Leaves}
use tasklite.Engine.Store.Coherent.Fallen.{archive_batch-IsCoherentStore}
use tasklite.Engine.Store.Coherent.Named.{AreNamed}
use tasklite.Engine.Store.Coherent.Bulk.{IsStriking, handle_bulk_failure_strike-IsStriking}

module _ ⦃h : RowHash⦄ ⦃p : Builtins⦄ {B : Type 0} (setup : Setup B)
    (law : IsContract setup.ops) where
  -- What an accepted batch of failures has done.
  abbrev pub Batch : List (String × Metadata) → B → B → Type 0
  Batch entries b b' =
      AreFailed setup.ops entries b b'
      × (setup.ops.load_failure_payloads b' ≡ setup.ops.load_failure_payloads b)

  store-IsStriking :
      (st : Store B)
      → IsCoherentStore setup.ops st
      → AreNamed st.state.queue
      → IsStriking setup.ops st.state.queue st
  store-IsStriking st c named = record {
    consistent = c.consistent;
    distinct = c.consistent.distinct;
    named = named;
    idle = λ v. ground (arith, c.consistent.queued v, c.consistent.not_both v);
    successes = c.successes;
    failed = c.failed;
    cursors = c.cursors;
    disk = λ v. ground (arith, c.queue v, c.consistent.queued v);
  }

  -- A batch on the queue that the backend refused ends in agreement, job by job.
  strike_batch-EndsCoherent :
      {A : Type 0} (answer : PipelineState → A) (us : List String) (st : Store B)
      → IsCoherentStore setup.ops st
      → AreNamed st.state.queue
      → IsDistinct us
      → ((v : String) → contains v us ≡ true → contains v (row_uids st.state.queue) ≡ true)
      → EndsCoherent setup.ops (strike_batch setup answer us st)
  unfolding strike_batch continue
  strike_batch-EndsCoherent answer us st c named d members =
      let (queue, kept, struck, e, i) =
        handle_bulk_failure_strike-IsStriking setup law us st.state.queue false st d members
          (store-IsStriking st c named) in
      let (moved, c') = replace_queue-Leaves struck.state i.consistent queue i.distinct i.idle in
      let c'' : IsCoherent setup.ops struck.backend (replaced queue struck.state) = record {
        consistent = c';
        successes = i.successes;
        failed = i.failed;
        cursors = i.cursors;
        queue = i.disk;
      } in
      elim (Bool-cases kept) [
        | inl t ↦ rw (strike_batch, e) (rw moved (rw t c''))
        | inr f ↦ rw (strike_batch, e) (rw moved (rw f c''))
      ]

  module _ (entries : List (String × Metadata)) (st : Store B) (c : IsCoherentStore setup.ops st)
      (named : AreNamed st.state.queue) (d : IsDistinct (keys entries))
      (members : (v : String)
        → contains v (keys entries) ≡ true
        → contains v (row_uids st.state.queue) ≡ true) where
    after_cascade-EndsCoherent :
        (us : List String) (answer : Bool × B)
        → Answers setup.ops (Batch entries st.backend) st.backend answer
        → EndsCoherent setup.ops (after_cascade setup us entries st answer)
    unfolding after_cascade
    after_cascade-EndsCoherent us (true, b) (w, _) =
        let (st', e, c') =
          archive_batch-IsCoherentStore setup (normalize_failure_metadata setup.now none)
            "cascade_failed" entries st b c w (stored_failure setup.now) in
        rw e c'
    after_cascade-EndsCoherent us (false, b) same =
        strike_batch-EndsCoherent (λ s. us) (keys entries) (record st { backend = b })
          (unchanged-IsCoherent setup.ops st.backend b st.state same c) named d members

    pub after_bulk-EndsCoherent :
        (answer : Bool × B)
        → Answers setup.ops (Batch entries st.backend) st.backend answer
        → EndsCoherent setup.ops (after_bulk setup entries st answer)
    unfolding after_bulk
    after_bulk-EndsCoherent (true, b) (w, _) =
        let (st', e, c') =
          archive_batch-IsCoherentStore setup (λ meta. meta) "failed" entries st b c w
            (λ m. inl refl) in
        rw e c'
    after_bulk-EndsCoherent (false, b) same =
        strike_batch-EndsCoherent _ (keys entries) (record st { backend = b })
          (unchanged-IsCoherent setup.ops st.backend b st.state same c) named d members

keys-cascade_metas : (root : String) (us : List String) → keys (cascade_metas root us) ≡ us
unfolding cascade_metas keys
keys-cascade_metas root [] = refl
keys-cascade_metas root (u ∷ us) = rw (keys-cascade_metas root us)

module _ ⦃h : RowHash⦄ where
  waits_is_queued :
      (u v : String) (rows : List JobSnapshot)
      → queue_waits rows u v ≡ true
      → contains v (row_uids rows) ≡ true
  unfolding exists row_waits row_uids contains
  waits_is_queued u v [] w = cc
  waits_is_queued u v (row ∷ rows) w = elim (Option-cases (from_dict row)) [
    | inl e ↦ ground (arith, waits_is_queued u v rows, e)
    | inr (job, e) ↦ ground (arith, waits_is_queued u v rows, e, from_dict-uid row e)
  ]

  cascaded_is_queued :
      (rows : List JobSnapshot) (opened : String → Bool) (root v : String)
      → Cascades (queue_waits rows) opened root v
      → contains v (row_uids rows) ≡ true
  cascaded_is_queued rows opened root v (direct w o n) = waits_is_queued root v rows w
  cascaded_is_queued rows opened root v (onward {u} before w o n) = waits_is_queued u v rows w

module _ ⦃h : RowHash⦄ ⦃p : Builtins⦄ {B : Type 0} (setup : Setup B)
    (law : IsContract setup.ops) where
  cascade_on-EndsCoherent :
      (root : String) (us : List String) (st : Store B)
      → IsCoherentStore setup.ops st
      → AreNamed st.state.queue
      → IsDistinct us
      → ((v : String) → contains v us ≡ true → contains v (row_uids st.state.queue) ≡ true)
      → EndsCoherent setup.ops (cascade_on setup root us st)
  unfolding cascade_on
  cascade_on-EndsCoherent root [] st c named d members = c
  cascade_on-EndsCoherent root (u ∷ us) st c named d members =
      let entries = cascade_metas root (u ∷ us) in
      let same = keys-cascade_metas root (u ∷ us) in
      after_cascade-EndsCoherent setup law entries st c named (rw same d)
        (λ v m. members v (subst (λ vs. contains v vs ≡ true) same m)) (u ∷ us) _
        (law.commit_failures-Answers entries st.backend)

  -- The cascade behind a failed job returns or crashes, and then memory and backend agree: on a queue
  -- whose rows have a task type and a job id.
  pub cascade_fail-EndsCoherent :
      (root : String) (st : Store B)
      → IsCoherentStore setup.ops st
      → AreNamed st.state.queue
      → EndsCoherent setup.ops (cascade_fail setup root st)
  unfolding cascade_fail allowed_uids
  cascade_fail-EndsCoherent root st c named =
      let excluded = selection_excluded_uids setup.rules st.state in
      let (us, e, d, falls) = cascade_fail-Cascades st.state root excluded in
      rw (cascade_fail, e)
        (cascade_on-EndsCoherent root (allowed_uids excluded us) st c named
          (keep-IsDistinct (λ u. not (contains u excluded)) us d)
          (λ v m.
            cascaded_is_queued st.state.queue _ root v
              ((falls v).0 (ground (arith, contains-keep (λ u. not (contains u excluded)) v us)))))

  pub with_cascade-EndsCoherent :
      (u : String) (m : Metadata) (exit : Exit B (List String))
      → EndsCoherent setup.ops exit
      → EndsCoherent setup.ops (with_cascade u m exit)
  unfolding with_cascade
  with_cascade-EndsCoherent u m (done us st) c = c
  with_cascade-EndsCoherent u m (crashed st) c = c
  with_cascade-EndsCoherent u m (terminated st) c = c
  with_cascade-EndsCoherent u m raised c = c
