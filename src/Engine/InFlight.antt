-- ===== src/Engine/InFlight.antt =====
-- tasklite/engine/in_flight.py: the jobs that were dispatched and have not settled. A subprocess is
-- its number, and a call that reaches the resource manager takes it and returns it.
pub mod Synced
use tasklite.Common.{
  ℕ, String, Bool, true, false, Option, none, some, List, [], ◌∷◌, Dict, lookup, insert, erase, has,
  keys, contains, eq_string, if◌then◌else◌,
}
use tasklite.Models.Job.{Job, JobSnapshot, RowHash, ◌>>=◌}
use tasklite.Models.State.{PipelineState, register_in_flight, unregister_in_flight}
use tasklite.Engine.Resource.{ResourceManager}
use tasklite.Engine.Resource.Lease.{ResourceLease, release_all, release_lease}

-- A `NullResourceLease` or a lease.
pub data JobLease : Type 0 where
  null_lease : JobLease
  held : ResourceLease → JobLease

pub record InFlightJob : Type 0 where
  pub job_uid : String
  pub job_snapshot : JobSnapshot
  pub job : Job
  pub acquired : List (String × ℕ)
  pub handle : Option ℕ
  pub started_monotonic : Option ℕ
  pub lease : Option JobLease
  pub attempt_id : Option ℕ
  pub execution_id : Option String

leased_amounts : JobLease → List (String × ℕ)
leased_amounts null_lease = []
leased_amounts (held l) = l.acquired

fill_lease : Option JobLease → List (String × ℕ) → Option JobLease
fill_lease none [] = some null_lease
fill_lease none (amount ∷ more) = none
fill_lease (some l) amounts = some l

fill_acquired : Option JobLease → List (String × ℕ) → List (String × ℕ)
fill_acquired (some l) [] = leased_amounts l
fill_acquired _ amounts = amounts

-- `InFlightJob.__post_init__`
unfoldable pub new_entry : InFlightJob → InFlightJob
unfolding fill_lease fill_acquired leased_amounts
new_entry e = record e {
  lease = fill_lease e.lease e.acquired;
  acquired = fill_acquired e.lease e.acquired;
}

unfoldable pub is_pseudo : InFlightJob → Bool
is_pseudo e = elim e.handle [ none ↦ true | some pid ↦ false ]

-- `release_resources`, called with the manager that the lease holds.
unfoldable pub release_resources : InFlightJob → ResourceManager → InFlightJob × ResourceManager
release_resources e m = elim e.lease [
  | some null_lease ↦ (record e { acquired = [] }, m)
  | some (held l) ↦
      let (l', m') = release_lease l m in (record e { lease = some (held l'); acquired = [] }, m')
  | none ↦ (record e { acquired = [] }, release_all e.acquired m)
]

-- `self._entries`
abbrev pub InFlightTracker : Type 0
InFlightTracker = Dict String InFlightJob

module _ ⦃h : RowHash⦄ where
  -- `track` with a state; `none` is a failed assertion of the state.
  unfoldable pub track :
      InFlightJob → InFlightTracker → PipelineState → Option (InFlightTracker × PipelineState)
  track e entries state = do
    state' ← register_in_flight e.job_uid state
    some (insert e.job_uid e entries, state')

  -- `settle` with a state
  unfoldable pub settle :
      String
      → InFlightTracker
      → PipelineState
      → Option (Option InFlightJob × InFlightTracker × PipelineState)
  settle job_uid entries state = do
    state' ←
        (if contains job_uid state.in_flight_uids
          then unregister_in_flight job_uid state
          else some state)
    some (lookup job_uid entries, erase job_uid entries, state')

unfoldable pub active_handles : InFlightTracker → List ℕ
active_handles [] = []
active_handles ((uid, e) ∷ more) =
    let rest = active_handles more in elim e.handle [ none ↦ rest | some pid ↦ pid ∷ rest ]

unfoldable pub active_uids : InFlightTracker → List String
active_uids entries = keys entries

abbrev sorted_in :
    {R : Type 0}
    → InFlightJob
    → Option R
    → List InFlightJob × List (InFlightJob × R)
    → List InFlightJob × List (InFlightJob × R)
sorted_in e none (cancelled, done) = (e ∷ cancelled, done)
sorted_in e (some r) (cancelled, done) = (cancelled, (e, r) ∷ done)

unfoldable pub classify_aborted :
    {R : Type 0} → Dict String R → InFlightTracker → List InFlightJob × List (InFlightJob × R)
classify_aborted completed [] = ([], [])
classify_aborted completed ((uid, e) ∷ more) =
    sorted_in e (lookup e.job_uid completed) (classify_aborted completed more)

unfoldable pub release_all_resources :
    InFlightTracker → ResourceManager → InFlightTracker × ResourceManager
release_all_resources [] m = ([], m)
release_all_resources ((uid, e) ∷ more) m =
    let (e', m') = release_resources e m in
    let (rest, m'') = release_all_resources more m' in ((uid, e') ∷ rest, m'')

unfoldable pub create_pseudo_entry : String → JobSnapshot → Job → InFlightJob
create_pseudo_entry uid snapshot job = new_entry (record {
  job_uid = uid;
  job_snapshot = snapshot;
  job = job;
  acquired = [];
  handle = none;
  started_monotonic = none;
  lease = some null_lease;
  attempt_id = none;
  execution_id = none;
})
