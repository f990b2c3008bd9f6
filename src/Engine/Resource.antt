-- ===== src/Engine/Resource.antt =====
-- tasklite/engine/resource.py: capacities, rate limits, and the manager that jobs reserve them from.
-- Amounts are multiples of one unit, and times whole milliseconds of the monotonic clock; the
-- `interval` of a rate limit is the time that one unit of an amount takes. A call that reads the
-- clock takes the reading as an argument.
pub mod Lease
pub mod Suspend
pub mod Saved
use tasklite.Common.{
  ℕ, zero, suc, ◌+◌, ◌-◌, ◌*◌, ◌≤◌, ◌<◌, String, Bool, true, false, not, ◌&&◌, ◌||◌, ◌≡◌, Option,
  none, some, List, [], ◌∷◌, Dict, lookup, insert, has, min, max, ltb, leb, eq_string,
  if◌then◌else◌, arith,
}
use tasklite.Models.Job.{ℤ, pos, negsuc}
use tasklite.Engine.Wait.{Duration, for, forever}

-- `_MAX_SUSPEND_SECONDS` and `_CAPACITY_POLL_INTERVAL`
abbrev pub max_suspend : ℕ
max_suspend = 86_400_000

abbrev pub capacity_poll_interval : ℕ
capacity_poll_interval = 500

-- What a handler may pass as seconds: no number, NaN or an infinity, an int beyond the floats with
-- its sign, or a number of milliseconds.
pub data Seconds : Type 0 where
  not_a_number : Seconds
  non_finite : Seconds
  overflow : (positive : Bool) → Seconds
  millis : ℤ → Seconds

-- `Resource._clamp_suspend`
unfoldable pub clamp_suspend : Seconds → ℕ
clamp_suspend not_a_number = 0
clamp_suspend non_finite = 0
clamp_suspend (overflow positive) = if positive then max_suspend else 0
clamp_suspend (millis (pos n)) = if ltb max_suspend n then max_suspend else n
clamp_suspend (millis (negsuc n)) = 0

pub record RateLimit : Type 0 where
  pub interval : ℕ
  pub next_available : ℕ

pub record Capacity : Type 0 where
  pub max_capacity : ℕ
  pub used : ℕ
  pub suspended_until : ℕ
  pub release_overruns : ℕ

pub data Resource : Type 0 where
  rate_limit : RateLimit → Resource
  capacity : Capacity → Resource

-- Whether the amount is there, and else how long to wait.
unfoldable pub can_acquire : ℕ → ℕ → Resource → Bool × Duration
can_acquire now amount (rate_limit r) =
    if leb r.next_available now then (true, for 0) else (false, for (r.next_available - now))
can_acquire now amount (capacity c) =
    if ltb c.max_capacity amount
    then (false, forever)
    else if ltb now c.suspended_until
    then (false, for (c.suspended_until - now))
    else if leb (c.used + amount) c.max_capacity
    then (true, for 0)
    else (false, for capacity_poll_interval)

-- `none` is the `ValueError` for more than the whole capacity.
unfoldable pub acquire : ℕ → ℕ → Resource → Option Resource
acquire now amount (rate_limit r) =
    some (rate_limit (record r { next_available = max now r.next_available + r.interval * amount }))
acquire now amount (capacity c) =
    if ltb c.max_capacity amount
    then none
    else some (capacity (record c { used = c.used + amount }))

-- A release of more than is used counts as an overrun and leaves nothing used.
unfoldable pub release : ℕ → Resource → Resource
release amount (rate_limit r) = rate_limit r
release amount (capacity c) = capacity (record c {
  used = c.used - amount;
  release_overruns = if ltb c.used amount then c.release_overruns + 1 else c.release_overruns;
})

unfoldable pub suspend : ℕ → Seconds → Resource → Resource
suspend now seconds (rate_limit r) =
    rate_limit (record r { next_available = max r.next_available (now + clamp_suspend seconds) })
suspend now seconds (capacity c) =
    capacity (record c { suspended_until = max c.suspended_until (now + clamp_suspend seconds) })

abbrev later : ℕ → ℕ → Option ℕ
later now t = if ltb now t then some t else none

unfoldable pub suspended_until : ℕ → Resource → Option ℕ
suspended_until now (rate_limit r) = later now r.next_available
suspended_until now (capacity c) = later now c.suspended_until

-- `self._resources` and the default resources of the registered tasks.
pub record ResourceManager : Type 0 where
  pub resources : Dict String Resource
  pub tasks : Dict String (Dict String ℕ)

-- `{**defaults, **base}`
unfoldable pub merge : Dict String ℕ → Dict String ℕ → Dict String ℕ
merge defaults [] = defaults
merge defaults ((name, amount) ∷ base) = merge (insert name amount defaults) base

unfoldable pub effective_resources : ResourceManager → String → Dict String ℕ → Dict String ℕ
effective_resources m task_type base = elim (lookup task_type m.tasks) [
  | none ↦ base
  | some defaults ↦ merge defaults base
]

pub data Evaluation : Type 0 where
  available : Evaluation
  wait_for : ℕ → Evaluation
  unknown : String → Evaluation
  impossible : String → Evaluation

abbrev finish_evaluation : ℕ → Evaluation
finish_evaluation min_wait = if ltb 0 min_wait then wait_for min_wait else available

-- The wait of a refusal.
unfoldable pub refusal : Bool × Duration → Option Duration
refusal (ok, wait) = if ok then none else some wait

-- The loop of `evaluate`: an infinite wait ends it, and of the finite ones the longest counts.
unfoldable pub evaluate_all : (String → ℕ) → Dict String Resource → Dict String ℕ → ℕ → Evaluation
evaluate_all clock resources [] min_wait = finish_evaluation min_wait
evaluate_all clock resources ((name, amount) ∷ more) min_wait = elim (lookup name resources) [
  | none ↦ unknown name
  | some r ↦ elim (refusal (can_acquire (clock name) amount r)) [
    | none ↦ evaluate_all clock resources more min_wait
    | some (for t) ↦ evaluate_all clock resources more (max min_wait t)
    | some forever ↦ impossible name
  ]
]

-- `evaluate`. `clock name` is the reading of the clock when the resource `name` is asked.
unfoldable pub evaluate : (String → ℕ) → ResourceManager → String → Dict String ℕ → Evaluation
evaluate clock m task_type base =
    evaluate_all clock m.resources (effective_resources m task_type base) 0

-- `suspend_resource`
unfoldable pub suspend_resource : ℕ → String → Seconds → ResourceManager → Bool × ResourceManager
suspend_resource now name seconds m = elim (lookup name m.resources) [
  | none ↦ (false, m)
  | some r ↦ (true, record m { resources = insert name (suspend now seconds r) m.resources })
]

-- `WORKER_RESOURCE`
abbrev pub worker_resource : String
worker_resource = "__workers__"

unfoldable pub can_acquire_worker : ℕ → ℕ → ResourceManager → Bool × Duration
can_acquire_worker now amount m = elim (lookup worker_resource m.resources) [
  | none ↦ (true, for 0)
  | some r ↦ can_acquire now amount r
]
