-- ===== src/Samples/Flights.antt =====
-- Jobs in flight.
use tasklite.Common.{
  arith, String, false, not, ◌&&◌, ◌≡◌, refl, some, [], ◌∷◌, lookup, has, contains, eq_string, ◌==◌,
}
use tasklite.Models.State.{PipelineState, new_state, row_uids}
use tasklite.Models.State.Consistent.{IsConsistent}
use tasklite.Models.State.Runs.{new_state-Reaches, loaded}
use tasklite.Engine.InFlight.{InFlightJob, InFlightTracker, create_pseudo_entry, track, settle}
use tasklite.Engine.InFlight.Synced
use tasklite.Engine.InFlight.Synced.{AreSynced}
use tasklite.Samples.{hash, first_row}
use tasklite.Samples.States.{first_job}

abbrev idle : PipelineState
idle = new_state ⦃h = hash⦄ [] [] [] []

idle-IsConsistent : IsConsistent ⦃h = hash⦄ idle
idle-IsConsistent =
    new_state-Reaches ⦃h = hash⦄ [] [] [] [] idle (unfold row_uids in tt) (λ u. unfold has in refl)
      loaded

abbrev entry : InFlightJob
entry = create_pseudo_entry "load::a" first_row first_job

idle-AreSynced : AreSynced [] idle
unfolding new_state has contains
idle-AreSynced u = refl

not_queued : contains entry.job_uid idle.queue_uids ≡ false
unfolding new_state contains row_uids
not_queued = refl

track-AreSynced_example :
    (entries : InFlightTracker) × (s : PipelineState) × (track ⦃h = hash⦄ entry [] idle
      ≡ some (entries, s))
    × IsConsistent ⦃h = hash⦄ s
    × AreSynced entries s
    × (lookup entry.job_uid entries ≡ some entry)
track-AreSynced_example =
    Synced.track-AreSynced ⦃h = hash⦄ entry [] idle idle-IsConsistent idle-AreSynced not_queued

abbrev tracked : InFlightTracker
tracked = ("load::a", entry) ∷ []

-- The commit has taken the job out of the state already.
settled_before :
    (v : String)
    → (not ("load::a" == v) && has v tracked)
      ≡ (not ("load::a" == v) && contains v idle.in_flight_uids)
unfolding new_state has contains
settled_before v = ground arith

settle-AreSynced_example :
    (entries : InFlightTracker) × (s : PipelineState) × (settle ⦃h = hash⦄ "load::a" tracked idle
      ≡ some (lookup "load::a" tracked, entries, s))
    × IsConsistent ⦃h = hash⦄ s
    × AreSynced entries s
    × (has "load::a" entries ≡ false)
settle-AreSynced_example =
    Synced.settle-AreSynced ⦃h = hash⦄ "load::a" tracked idle idle-IsConsistent settled_before
