-- ===== src/Samples/Rounds.antt =====
-- Resources, and rounds of the scheduler.
use tasklite.Common.{
  ◌-◌, ℕ, ◌+◌, ◌≤◌, ◌<◌, String, true, false, not, ◌&&◌, ◌≡◌, ◌↔◌, ◌⊎◌, refl, none, some, List, [],
  ◌∷◌, ◌++◌, Dict, lookup, insert, keys, contains, exists, every, IsDistinct, eq_string, arith,
}
use tasklite.Models.State.{dependency_ready}
use tasklite.Selection
use tasklite.Selection.{
  Rule, exclude, skip, allows_task_type, is_skipped, is_excluded, matches_task_type,
}
use tasklite.Engine.Wait
use tasklite.Engine.Wait.{LoopFacts, StopMode, decide_wait, wait_cap, in_flight_poll, for}
use tasklite.Engine.Resource.{
  Resource, rate_limit, capacity, Capacity, ResourceManager, overflow, millis, can_acquire, acquire,
  release, suspend, suspended_until, clamp_suspend, available, evaluate, evaluate_all,
  effective_resources, refusal,
}
use tasklite.Models.Job.{pos}
use tasklite.Engine.Resource.Suspend
use tasklite.Engine.Resource.Saved.{collect_suspensions, restore_suspensions, stored}
use tasklite.Engine.Resource.Saved.Kept
use tasklite.Engine.Resource.Lease.{
  reserve, reserve_all, leased, ResourceLease, LeaseStatus, release_lease,
}
use tasklite.Engine.Resource.Lease.Atomic
use tasklite.Engine.Resource.Lease.Atomic.{IsAccounted}
use tasklite.Engine.Resource.Lease.Admits
use tasklite.Engine.Resource.Lease.Within
use tasklite.Engine.Scheduler.{
  check_dependencies, ready, JobFacts, View, runs, assess, ScheduleResult, visit_order,
}
use tasklite.Engine.Scheduler.Ready
use tasklite.Engine.Scheduler.Ready.{is_satisfied}
use tasklite.Engine.Scheduler.Scan.{view, scan_next_runnable}
use tasklite.Engine.Scheduler.Scan.First
use tasklite.Engine.Scheduler.Scan.First.{AreWithin, IsChoice}
use tasklite.Samples.{hash}
use tasklite.Samples.States.{start, start-IsConsistent}

abbrev gpu : Capacity
gpu = record { max_capacity = 4; used = 1; suspended_until = 0; release_overruns = 0 }

abbrev manager : ResourceManager
manager = record {
  resources =
      ("gpu", capacity gpu)
      ∷ ("api", rate_limit (record { interval = 100; next_available = 0 }))
      ∷ [];
  tasks = [];
}

abbrev wanted : Dict String ℕ
wanted = ("gpu", 2) ∷ ("api", 1) ∷ []

abbrev clock : String → ℕ
clock name = 1000

abbrev busy_gpu : Capacity
busy_gpu = record gpu { used = 3 }

abbrev after : ResourceManager
after = record manager {
  resources =
      ("gpu", capacity busy_gpu)
      ∷ ("api", rate_limit (record { interval = 100; next_available = 0 }))
      ∷ [];
}

abbrev lease : ResourceLease
lease = record {
  acquired = ("gpu", 2) ∷ [];
  rate_limits = ("api", 1) ∷ [];
  status = LeaseStatus.reserved;
}

found_available : evaluate clock manager "load" wanted ≡ available
unfolding evaluate effective_resources evaluate_all lookup can_acquire refusal
found_available = refl

reserves : reserve clock "load" wanted manager ≡ (leased lease, after)
unfolding reserve effective_resources reserve_all lookup can_acquire acquire insert
reserves = refl

reserve_atomic_example :
    IsAccounted manager.resources
      (effective_resources manager "load" wanted)
      (reserve clock "load" wanted manager)
reserve_atomic_example = Atomic.reserve_atomic clock "load" wanted manager

reserve-release_lease_example :
    ((name : String)
      → lookup name (release_lease lease after).1.resources ≡ lookup name manager.resources)
    × (release_lease (release_lease lease after).0 (release_lease lease after).1
        ≡ release_lease lease after)
reserve-release_lease_example =
    Atomic.reserve-release_lease clock "load" wanted manager after lease reserves

evaluate-reserve_example :
    (l : ResourceLease) × (m : ResourceManager) × (reserve clock "load" wanted manager
      ≡ (leased l, m))
evaluate-reserve_example =
    Admits.evaluate-reserve clock clock "load" wanted manager (λ name. omega arith) found_available

wanted-IsDistinct : IsDistinct (keys (effective_resources manager "load" wanted))
unfolding effective_resources lookup keys contains
wanted-IsDistinct = (refl, (refl, tt))

asked_two : lookup "gpu" (effective_resources manager "load" wanted) ≡ some 2
unfolding effective_resources lookup
asked_two = refl

used_three : lookup "gpu" after.resources ≡ some (capacity busy_gpu)
unfolding lookup
used_three = refl

reserve-within_example : busy_gpu.used ≤ busy_gpu.max_capacity
reserve-within_example =
    Within.reserve-within clock clock "load" wanted manager after lease "gpu" busy_gpu 2
      wanted-IsDistinct found_available reserves asked_two used_three

before_the_end : 1500 < 1000 + clamp_suspend (millis (pos 1000))
unfolding clamp_suspend
before_the_end = omega arith

suspend_blocks_example :
    (can_acquire 1500 1 (release 1 (suspend 1000 (millis (pos 1000)) (capacity gpu)))).0 ≡ false
suspend_blocks_example =
    Suspend.suspend_blocks 1000 1500 1 1 (millis (pos 1000)) (capacity gpu) before_the_end

free_then : suspended_until 86_401_000 (capacity gpu) ≡ none
unfolding suspended_until
free_then = refl

suspend_bounded_example :
    suspended_until 86_401_000 (suspend 1000 (overflow true) (capacity gpu)) ≡ none
suspend_bounded_example =
    Suspend.suspend_bounded 1000 86_401_000 (overflow true) (capacity gpu) (omega arith) free_then

abbrev idle_loop : LoopFacts
idle_loop = record {
  stop_mode = StopMode.none;
  has_in_flight = false;
  store_empty = false;
  dispatched = 0;
  settled = 0;
  has_runnable = false;
  min_wait = for 300;
  worker_wait = 0;
  deadlock_wait = 0;
  should_terminate = false;
}

abbrev busy_loop : LoopFacts
busy_loop = record idle_loop { has_in_flight = true }

decide_wait_bounded_example :
    ((decide_wait idle_loop).wait_time ≤ wait_cap)
    × (((decide_wait idle_loop).should_wait ≡ true) ⊎ ((decide_wait idle_loop).wait_time ≡ 0))
decide_wait_bounded_example = Wait.decide_wait_bounded idle_loop

decide_wait_wakes_example : (decide_wait idle_loop).wait_time ≤ 300
decide_wait_wakes_example = Wait.decide_wait_wakes idle_loop 300 refl refl

abbrev rules : List Rule
rules = exclude "load" ∷ skip "render" ∷ []

allows_task_type_iff_example :
    (allows_task_type rules "load" ≡ not (exists (matches_task_type "load") rules))
    × ((is_skipped rules "load" && is_excluded rules "load") ≡ false)
    × (is_skipped (rules ++ skip "load" ∷ []) "load" ≡ is_skipped (skip "load" ∷ rules) "load")
    × (is_excluded (rules ++ skip "load" ∷ []) "load" ≡ is_excluded (skip "load" ∷ rules) "load")
allows_task_type_iff_example = Selection.allows_task_type_iff rules (skip "load" ∷ []) "load"

abbrev round_clock : ℕ → String → ℕ
round_clock i name = 1000 + i

scan_next_runnable_first_example :
    (r : ScheduleResult) × (scan_next_runnable ⦃h = hash⦄ round_clock manager []
        (visit_order start.queue)
        start
        []
      ≡ some r)
    × IsChoice ⦃h = hash⦄ round_clock
        (view ⦃h = hash⦄ start [] [] manager)
        start.queue
        (visit_order start.queue)
        r
scan_next_runnable_first_example =
    First.scan_next_runnable_first ⦃h = hash⦄ round_clock manager [] (visit_order start.queue) start
      [] (Ready.visit_order-AreWithin start.queue)

abbrev job_facts : JobFacts
job_facts = record {
  uid = "load::a";
  task_type = "load";
  resources = wanted;
  depends_on = "load::b" ∷ [];
}

abbrev seen : View
seen = view ⦃h = hash⦄ start [] rules manager

assess_runs_example : (assess clock seen (some job_facts) ≡ runs) ↔ (
    ((Selection.is_active seen.rules && not (allows_task_type seen.rules job_facts.task_type))
      ≡ false)
    × (every (is_satisfied seen) job_facts.depends_on ≡ true)
    × (evaluate clock seen.manager job_facts.task_type job_facts.resources ≡ available))
assess_runs_example = Ready.assess_runs clock seen job_facts

check_dependencies-dependency_ready_example :
    (check_dependencies
      (view ⦃h = hash⦄ start start.in_flight_uids [] manager)
      ready
      ("load::b" ∷ [])).can_run
    ≡ every (dependency_ready start) ("load::b" ∷ [])
check_dependencies-dependency_ready_example =
    Ready.check_dependencies-dependency_ready ⦃h = hash⦄ start manager ("load::b" ∷ [])
      start-IsConsistent

abbrev suspended_gpu : Resource
suspended_gpu = capacity (record gpu { suspended_until = 5000 })

abbrev before_restart : Dict String Resource
before_restart = ("gpu", suspended_gpu) ∷ []

before_restart-IsDistinct : IsDistinct (keys before_restart)
unfolding keys contains
before_restart-IsDistinct = (refl, tt)

gpu_before : lookup "gpu" before_restart ≡ some suspended_gpu
unfolding lookup
gpu_before = refl

until_five : suspended_until 1000 suspended_gpu ≡ some 5000
unfolding suspended_until
until_five = refl

gpu_there : lookup "gpu" manager.resources ≡ some (capacity gpu)
unfolding lookup
gpu_there = refl

collect-restore_example :
    lookup "gpu"
      (restore_suspensions
        (λ name. 30)
        70_000
        (stored (collect_suspensions clock 1000 69_000 before_restart []))
        manager.resources).1
    ≡ some (suspend 30 (millis (pos (69_000 + (5000 - 1000) - 70_000))) (capacity gpu))
collect-restore_example =
    Kept.collect-restore clock 1000 69_000 before_restart (λ name. 30) 70_000 manager.resources
      "gpu" 5000 {r = suspended_gpu} {r' = capacity gpu} before_restart-IsDistinct gpu_before
      until_five (omega arith) (omega arith) gpu_there
