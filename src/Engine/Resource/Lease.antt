-- ===== src/Engine/Resource/Lease.antt =====
-- `ResourceManager.reserve` and `ResourceLease` of tasklite/engine/resource.py. A lease does not hold
-- the manager here: its methods take the manager and return it.
pub mod Accounts
pub mod Atomic
pub mod Admits
pub mod Within
use tasklite.Common.{
  ℕ, String, Bool, true, false, Option, none, some, List, [], ◌∷◌, ◌++◌, Dict, lookup, insert,
  eq_string, if◌then◌else◌,
}
use tasklite.Engine.Resource.{
  Resource, rate_limit, capacity, ResourceManager, effective_resources, can_acquire, acquire,
  release,
}

pub data LeaseStatus : Type 0 where
  reserved claimed released : LeaseStatus

pub record ResourceLease : Type 0 where
  pub acquired : List (String × ℕ)
  pub rate_limits : List (String × ℕ)
  pub status : LeaseStatus

-- Why a reservation fails: `KeyError`, `RateLimitUnavailable`, `ValueError`.
pub data Refusal : Type 0 where
  not_registered rate_limited over_capacity : Refusal

pub data Reservation : Type 0 where
  leased : ResourceLease → Reservation
  refused : Refusal → Reservation

abbrev put_back : Option Resource → ResourceManager → String → ResourceManager
put_back none m name = m
put_back (some r) m name = record m { resources = insert name r m.resources }

-- `release_all`; a resource that is gone is passed over.
unfoldable pub release_all : List (String × ℕ) → ResourceManager → ResourceManager
release_all [] m = m
release_all ((name, amount) ∷ more) m = elim (lookup name m.resources) [
  | none ↦ release_all more m
  | some r ↦ release_all more (record m { resources = insert name (release amount r) m.resources })
]

-- The exception handler of `reserve`.
abbrev roll_back : List (String × ℕ) → Refusal → ResourceManager → Reservation × ResourceManager
roll_back acquired why m = (refused why, release_all acquired m)

-- The loop of `reserve`: a capacity is taken at once, a rate limit only looked at.
unfoldable pub reserve_all :
    (String → ℕ)
    → List (String × ℕ)
    → List (String × ℕ)
    → Dict String ℕ
    → ResourceManager
    → Reservation × ResourceManager
reserve_all clock acquired rate_limits [] m = (
  leased (record { acquired = acquired; rate_limits = rate_limits; status = LeaseStatus.reserved }),
  m,
)
reserve_all clock acquired rate_limits ((name, amount) ∷ more) m = elim (lookup name m.resources) [
  | none ↦ roll_back acquired not_registered m
  | some (rate_limit r) ↦
      let rest = reserve_all clock acquired (rate_limits ++ (name, amount) ∷ []) more m in
      if (can_acquire (clock name) amount (rate_limit r)).0
      then rest
      else roll_back acquired rate_limited m
  | some (capacity c) ↦ elim (acquire (clock name) amount (capacity c)) [
    | none ↦ roll_back acquired over_capacity m
    | some r ↦
        reserve_all clock (acquired ++ (name, amount) ∷ []) rate_limits more
          (record m { resources = insert name r m.resources })
  ]
]

unfoldable pub reserve :
    (String → ℕ) → String → Dict String ℕ → ResourceManager → Reservation × ResourceManager
reserve clock task_type base m = reserve_all clock [] [] (effective_resources m task_type base) m

-- The loop of `claim`; `false` is the `ValueError` of a capacity that has taken the place of a rate
-- limit, after what was acquired before it.
unfoldable pub claim_all :
    (String → ℕ) → List (String × ℕ) → ResourceManager → Bool × ResourceManager
claim_all clock [] m = (true, m)
claim_all clock ((name, amount) ∷ more) m = elim (lookup name m.resources) [
  | none ↦ claim_all clock more m
  | some r ↦ elim (acquire (clock name) amount r) [
    | none ↦ (false, m)
    | some r' ↦ claim_all clock more (record m { resources = insert name r' m.resources })
  ]
]

abbrev claimed_if : Bool → ResourceLease → ResourceLease
claimed_if ok l = if ok then record l { status = LeaseStatus.claimed } else l

-- `claim`: whether it returned, and the lease and the manager after it.
unfoldable pub claim :
    (String → ℕ) → ResourceLease → ResourceManager → Bool × ResourceLease × ResourceManager
claim clock l m = elim l.status [
  | LeaseStatus.reserved ↦
      let (ok, m') = claim_all clock l.rate_limits m in (ok, claimed_if ok l, m')
  | _ ↦ (true, l, m)
]

-- `release`, `cancel`
unfoldable pub release_lease : ResourceLease → ResourceManager → ResourceLease × ResourceManager
release_lease l m = elim l.status [
  | LeaseStatus.released ↦ (l, m)
  | _ ↦ (record l { status = LeaseStatus.released }, release_all l.acquired m)
]
