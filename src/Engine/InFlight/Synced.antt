-- ===== src/Engine/InFlight/Synced.antt =====
-- The tracker of tasklite/engine/in_flight.py beside the state.
use tasklite.Common.{
  String, false, not, ◌&&◌, ◌≡◌, refl, some, lookup, lookup-insert, ==_refl, ◌==◌, insert, erase,
  has, contains, add, discard, has-insert, has-erase, contains-add, contains-discard, Bool-cases,
  inl, inr, ==_iff, eq_string, arith,
}
use tasklite.Models.Job.{RowHash}
use tasklite.Models.State.{PipelineState, register_in_flight, unregister_in_flight}
use tasklite.Models.State.Consistent.{IsConsistent}
use tasklite.Models.State.Active.{
  register_in_flight-IsConsistent, unregister_in_flight-IsConsistent,
}
use tasklite.Engine.InFlight.{InFlightJob, InFlightTracker, track, settle}

-- The same jobs are in the tracker and in flight for the state.
abbrev pub AreSynced : InFlightTracker → PipelineState → Type 0
AreSynced entries s = (u : String) → has u entries ≡ contains u s.in_flight_uids

module _ ⦃h : RowHash⦄ where
  registered :
      (u : String) (s : PipelineState) {s' : PipelineState}
      → register_in_flight u s ≡ some s'
      → s'.in_flight_uids ≡ add u s.in_flight_uids
  unfolding register_in_flight
  registered u s e = ground arith

  unregistered :
      (u : String) (s : PipelineState) {s' : PipelineState}
      → unregister_in_flight u s ≡ some s'
      → s'.in_flight_uids ≡ discard u s.in_flight_uids
  unfolding unregister_in_flight
  unregistered u s e = ground arith

  -- A dispatched job that is not queued is tracked without a failed assertion, and tracker and
  -- state, in agreement before, are so after it, in a consistent state.
  pub track-AreSynced :
      (e : InFlightJob) (entries : InFlightTracker) (s : PipelineState)
      → IsConsistent s
      → AreSynced entries s
      → contains e.job_uid s.queue_uids ≡ false
      → (entries' : InFlightTracker) × (s' : PipelineState) × (track e entries s
          ≡ some (entries', s'))
        × IsConsistent s'
        × AreSynced entries' s'
        × (lookup e.job_uid entries' ≡ some e)
  unfolding track
  track-AreSynced e entries s c synced free =
      let (s', eq, c') = register_in_flight-IsConsistent s c e.job_uid free in
      (
        insert e.job_uid e entries,
        s',
        rw eq refl,
        c',
        λ u. rw (registered e.job_uid s {s' = s'} eq) (
            ground (
              arith,
              has-insert u e.job_uid e entries,
              contains-add u e.job_uid s.in_flight_uids,
              synced u,
            )),
        ground (arith, lookup-insert e.job_uid e.job_uid e entries, ==_refl e.job_uid),
      )

  -- In a consistent state, with tracker and state in agreement on every other job, a settled job is
  -- in neither of the two afterwards, whether or not the commit has taken it out of the state before;
  -- they agree on every job then, and no assertion fails.
  pub settle-AreSynced :
      (u : String) (entries : InFlightTracker) (s : PipelineState)
      → IsConsistent s
      → ((v : String)
          → (not (u == v) && has v entries) ≡ (not (u == v) && contains v s.in_flight_uids))
      → (entries' : InFlightTracker) × (s' : PipelineState) × (settle u entries s
          ≡ some (lookup u entries, entries', s'))
        × IsConsistent s'
        × AreSynced entries' s'
        × (has u entries' ≡ false)
  unfolding settle
  settle-AreSynced u entries s c synced =
      let gone : has u (erase u entries) ≡ false =
        ground (arith, has-erase u u entries, ==_refl u) in
      elim (Bool-cases (contains u s.in_flight_uids)) [
        | inl there ↦
            let (s', eq, c') = unregister_in_flight-IsConsistent s c u in
            (
              erase u entries,
              s',
              rw (there, settle, eq) refl,
              c',
              λ v. rw (unregistered u s {s' = s'} eq) (
                  ground (
                    arith,
                    has-erase v u entries,
                    contains-discard v u s.in_flight_uids,
                    synced v,
                  )),
              gone,
            )
        | inr before ↦ (
          erase u entries,
          s,
          rw (before, settle) refl,
          c,
          λ v. ground (arith, has-erase v u entries, synced v, ==_iff u v),
          gone,
        )
      ]
