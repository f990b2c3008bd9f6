-- ===== src/Models/State/Runs.antt =====
-- The life of a `PipelineState` of tasklite/models/state.py: the calls that the engine makes, the
-- conditions under which it makes them, and the states that they lead to.
use tasklite.Common.{
  ℕ, String, Bool, false, ◌&&◌, ◌≡◌, refl, subst, Option, none, some, List, contains, contains-keys,
  get_elem?, has, IsDistinct, eq_string, arith, Dict,
}
use tasklite.Models.Job.{JobSnapshot, RowHash}
use tasklite.Models.State.{
  PipelineState, Metadata, row_uids, new_state, pop_job, spawn_jobs, remove_queued_uid,
  register_in_flight, unregister_in_flight, clear_in_flight, replace_queue, mark_success,
  mark_failed, discard_success, discard_failed, add_success,
}
use tasklite.Models.State.Consistent.{IsConsistent, Succeeds}
use tasklite.Models.State.Active
use tasklite.Models.State.Terminal

pub data Op : Type 0 where
  pop : ℕ → Op
  spawn : List JobSnapshot → Bool → Op
  unqueue : String → Op
  register : String → Op
  unregister : String → Op
  clear : Op
  replace : List JobSnapshot → Op
  succeed : String → Metadata → Op
  fail : String → Metadata → Op
  forget_success : String → Op
  forget_failure : String → Op
  seed : String → Metadata → Op

-- The state without the row that `pop_job` returns beside it.
abbrev dropped : Option (JobSnapshot × PipelineState) → Option PipelineState
dropped none = none
dropped (some (row, s)) = some s

module _ ⦃h : RowHash⦄ where
  unfoldable pub apply : Op → PipelineState → Option PipelineState
  apply (pop idx) s = dropped (pop_job idx s)
  apply (spawn rows front) s = spawn_jobs rows front s
  apply (unqueue u) s = remove_queued_uid u s
  apply (register u) s = register_in_flight u s
  apply (unregister u) s = unregister_in_flight u s
  apply clear s = clear_in_flight s
  apply (replace rows) s = replace_queue rows s
  apply (succeed u m) s = mark_success u m s
  apply (fail u m) s = mark_failed u m s
  apply (forget_success u) s = discard_success u s
  apply (forget_failure u) s = discard_failed u s
  apply (seed u m) s = add_success u m s

  abbrev AreApart : List String → List String → Type 0
  AreApart us vs = (u : String) → (contains u us && contains u vs) ≡ false

  -- What a caller sees to: it pops a row that is there, queues no uid twice and none that is in
  -- flight, starts no queued job, and seeds no failed one.
  abbrev pub IsAllowed : Op → PipelineState → Type 0
  IsAllowed (pop idx) s = (row : JobSnapshot) × (get_elem? s.queue idx ≡ some row)
  IsAllowed (spawn rows front) s =
      IsDistinct (row_uids rows)
      × AreApart (row_uids rows) s.queue_uids
      × AreApart (row_uids rows) s.in_flight_uids
  IsAllowed (register u) s = contains u s.queue_uids ≡ false
  IsAllowed (replace rows) s =
      IsDistinct (row_uids rows) × AreApart (row_uids rows) s.in_flight_uids
  IsAllowed (seed u m) s = has u s.failed ≡ false
  IsAllowed _ s = Unit {0}

  -- In a consistent state a call that its caller may make passes the debug assertions, and leaves
  -- a consistent state.
  pub apply-IsConsistent :
      (op : Op) (s : PipelineState) → IsConsistent s → IsAllowed op s → Succeeds (apply op s)
  unfolding apply
  apply-IsConsistent (pop idx) s c (row, e) =
      let (s', p, c') = Active.pop_job-IsConsistent s c idx {row = row} e in (s', rw p refl, c')
  apply-IsConsistent (spawn rows front) s c (d, fresh, idle) =
      Active.spawn_jobs-IsConsistent s c rows d fresh idle front
  apply-IsConsistent (unqueue u) s c a = Active.remove_queued_uid-IsConsistent s c u
  apply-IsConsistent (register u) s c a = Active.register_in_flight-IsConsistent s c u a
  apply-IsConsistent (unregister u) s c a = Active.unregister_in_flight-IsConsistent s c u
  apply-IsConsistent clear s c a = Active.clear_in_flight-IsConsistent s c
  apply-IsConsistent (replace rows) s c (d, idle) =
      Active.replace_queue-IsConsistent s c rows d idle
  apply-IsConsistent (succeed u m) s c a = Terminal.mark_success-IsConsistent s c u m
  apply-IsConsistent (fail u m) s c a = Terminal.mark_failed-IsConsistent s c u m
  apply-IsConsistent (forget_success u) s c a = Terminal.discard_success-IsConsistent s c u
  apply-IsConsistent (forget_failure u) s c a = Terminal.discard_failed-IsConsistent s c u
  apply-IsConsistent (seed u m) s c a = Terminal.add_success-IsConsistent s c u m a

  -- The states that a loaded one reaches by such calls.
  pub data Reaches (start : PipelineState) : PipelineState → Type 0 where
    loaded : Reaches start start
    called :
        {s s' : PipelineState} (op : Op)
        → Reaches start s
        → IsAllowed op s
        → apply op s ≡ some s'
        → Reaches start s'

  Reaches-IsConsistent :
      (start s : PipelineState) → IsConsistent start → Reaches start s → IsConsistent s
  Reaches-IsConsistent start s c loaded = c
  Reaches-IsConsistent start s' c (called {s} op before allowed e) =
      let (t, p, ok) = apply-IsConsistent op s (Reaches-IsConsistent start s c before) allowed in
      let same : t ≡ s' = cc in subst IsConsistent same ok

  -- From what is loaded, if it queues no job twice and gives none two outcomes, only consistent
  -- states are reached: the indices follow the queue and the archives, no uid is queued twice, no
  -- queued job is in flight, and no job is both successful and failed.
  pub new_state-Reaches :
      (successes failed : Dict String Metadata) (cursors : Dict String String)
      (queue : List JobSnapshot) (s : PipelineState)
      → IsDistinct (row_uids queue)
      → ((u : String) → (has u successes && has u failed) ≡ false)
      → Reaches (new_state successes failed cursors queue) s
      → IsConsistent s
  unfolding new_state contains
  new_state-Reaches successes failed cursors queue s d one reached =
      Reaches-IsConsistent (new_state successes failed cursors queue) s
        (record {
          queued = λ u. refl;
          distinct = d;
          succeeded = λ u. contains-keys u successes;
          archived = λ u. contains-keys u failed;
          one_outcome = one;
          not_both = λ u. ground arith;
        })
        reached
