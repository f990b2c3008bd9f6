-- ===== src/Engine/Resource/Lease/Atomic.antt =====
-- Refused reservations, and the release of a lease (tasklite/engine/resource.py).
use tasklite.Common.{
  ℕ, ◌+◌, ◌≤◌, String, ◌≡◌, refl, subst, Option, none, some, List, [], ◌∷◌, ◌++◌, Dict, lookup,
  insert, lookup-insert, eq_string, ==_iff, arith, Option-cases, Bool-cases, inl, inr,
}
use tasklite.Engine.Resource.{
  Resource, rate_limit, capacity, Capacity, ResourceManager, acquire, can_acquire,
  effective_resources,
}
use tasklite.Engine.Resource.Lease.{
  release_all, reserve_all, reserve, Reservation, leased, refused, ResourceLease, LeaseStatus,
  release_lease,
}
use tasklite.Engine.Resource.Lease.Accounts.{
  total, total-append, use_more, HasInUse, HasInUse-nothing, release_all_restores,
}

-- What an outcome of `reserve` means for the resources of before: a refusal leaves them as they
-- were, and after a success exactly the amounts of the lease are in use, at most the ones asked.
abbrev pub IsAccounted :
    Dict String Resource → List (String × ℕ) → Reservation × ResourceManager → Type 0
IsAccounted before asked (refused why, m) =
    (name : String) → lookup name m.resources ≡ lookup name before
IsAccounted before asked (leased l, m) =
    HasInUse before l.acquired m.resources
    × ((name : String) → total name l.acquired ≤ total name asked)
    × (l.status ≡ LeaseStatus.reserved)

acquire_capacity :
    (now amount : ℕ) (c : Capacity) {r : Resource}
    → acquire now amount (capacity c) ≡ some r
    → some r ≡ use_more amount (some (capacity c))
unfolding acquire
acquire_capacity now amount c h = ground arith

use_more_twice : (a b : ℕ) (o : Option Resource) → use_more b (use_more a o) ≡ use_more (a + b) o
use_more_twice a b none = refl
use_more_twice a b (some (rate_limit r)) = refl
use_more_twice a b (some (capacity c)) =
    let same : c.used + a + b ≡ c.used + (a + b) = omega arith in rw same refl

pub HasInUse-insert :
    (before after : Dict String Resource) (acquired : List (String × ℕ)) (taken : String)
    (now amount : ℕ) {c : Capacity} {r : Resource}
    → HasInUse before acquired after
    → lookup taken after ≡ some (capacity c)
    → acquire now amount (capacity c) ≡ some r
    → HasInUse before (acquired ++ (taken, amount) ∷ []) (insert taken r after)
HasInUse-insert before after acquired taken now amount {c} {r} h e taking name = ground (
  arith,
  ==_iff taken name,
  h name,
  lookup-insert name taken r after,
  total-append name acquired ((taken, amount) ∷ []),
  acquire_capacity now amount c taking,
  use_more_twice (total name acquired) amount (lookup name before),
)

reserve_all-IsAccounted :
    (clock : String → ℕ) (before : Dict String Resource)
    (asked acquired rate_limits : List (String × ℕ)) (eff : Dict String ℕ) (m : ResourceManager)
    → HasInUse before acquired m.resources
    → ((name : String) → total name acquired + total name eff ≤ total name asked)
    → IsAccounted before asked (reserve_all clock acquired rate_limits eff m)
unfolding reserve_all
reserve_all-IsAccounted clock before asked acquired rate_limits [] m h within =
    (h, (λ n. omega (arith, within n)), refl)
reserve_all-IsAccounted clock before asked acquired rate_limits ((name, amount) ∷ more) m h within =
    let back : (n : String) → lookup n (release_all acquired m).resources ≡ lookup n before =
      release_all_restores acquired before m h in
    elim (Option-cases (lookup name m.resources)) [
      | inl e ↦ rw (e, reserve_all) back
      | inr (rate_limit r, e) ↦
          elim (Bool-cases ((can_acquire (clock name) amount (rate_limit r)).0)) [
            | inl good ↦
                rw (e, reserve_all, good)
                  (reserve_all-IsAccounted clock before asked acquired
                    (rate_limits ++ (name, amount) ∷ []) more m h (λ n. ground (arith, within n)))
            | inr bad ↦ rw (e, reserve_all, bad) back
          ]
      | inr (capacity c, e) ↦ elim (Option-cases (acquire (clock name) amount (capacity c))) [
        | inl bad ↦ rw (e, reserve_all, bad) back
        | inr (r, good) ↦
            rw (e, reserve_all, good)
              (reserve_all-IsAccounted clock before asked (acquired ++ (name, amount) ∷ [])
                rate_limits more (record m { resources = insert name r m.resources })
                (HasInUse-insert before m.resources acquired name (clock name) amount {c = c}
                  {r = r} h e good)
                (λ n. ground (arith, within n, total-append n acquired ((name, amount) ∷ []))))
      ]
    ]

-- Whatever the resources and the amounts asked for, `reserve` that is refused (an unknown resource,
-- a rate limit that is not open, more than a whole capacity) leaves every resource as it was, also
-- where it had taken some before; and after a `reserve` that succeeds, every capacity has exactly the
-- lease's amounts more in use, no more than was asked for, and every rate limit is untouched.
pub reserve_atomic :
    (clock : String → ℕ) (task_type : String) (base : Dict String ℕ) (m : ResourceManager)
    → IsAccounted m.resources
        (effective_resources m task_type base)
        (reserve clock task_type base m)
unfolding reserve
reserve_atomic clock task_type base m =
    reserve_all-IsAccounted clock m.resources (effective_resources m task_type base) [] []
      (effective_resources m task_type base) m (HasInUse-nothing m.resources) (λ n. omega arith)

-- The lease of a successful reservation, released or cancelled before anything else touches the
-- resources, gives every resource back as it was; a second release changes nothing more.
pub reserve-release_lease :
    (clock : String → ℕ) (task_type : String) (base : Dict String ℕ) (m after : ResourceManager)
    (l : ResourceLease)
    → reserve clock task_type base m ≡ (leased l, after)
    → ((name : String) → lookup name (release_lease l after).1.resources ≡ lookup name m.resources)
      × (release_lease (release_lease l after).0 (release_lease l after).1 ≡ release_lease l after)
unfolding release_lease
reserve-release_lease clock task_type base m after l e =
    let asked = effective_resources m task_type base in
    let facts : IsAccounted m.resources asked (leased l, after) =
      subst (IsAccounted m.resources asked) e (reserve_atomic clock task_type base m) in
    let (used, most, fresh) = facts in
    let once : release_lease l after
        ≡ (record l { status = LeaseStatus.released }, release_all l.acquired after) =
      rw (fresh, release_lease) refl in
    (
      λ name.
          rw (fresh, release_lease) (release_all_restores l.acquired m.resources after used name),
      rw once refl,
    )
