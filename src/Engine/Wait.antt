-- ===== src/Engine/Wait.antt =====
-- tasklite/engine/wait.py: how long the event loop sleeps. Times are whole milliseconds.
use tasklite.Common.{
  ℕ, ◌≤◌, Bool, true, false, not, ◌&&◌, ◌||◌, ◌≡◌, ◌⊎◌, inl, inr, Bool-cases, min, nat_eq, ltb,
  if◌then◌else◌, arith,
}

-- A duration that may be infinite.
pub data Duration : Type 0 where
  for : ℕ → Duration
  forever : Duration

-- `IN_FLIGHT_POLL_SECONDS` and `_WAIT_CAP_SECONDS`
abbrev pub in_flight_poll : ℕ
in_flight_poll = 50

abbrev pub wait_cap : ℕ
wait_cap = 1000

pub data StopMode : Type 0 where
  none draining aborting : StopMode

pub record LoopFacts : Type 0 where
  pub stop_mode : StopMode
  pub has_in_flight : Bool
  pub store_empty : Bool
  pub dispatched : ℕ
  pub settled : ℕ
  pub has_runnable : Bool
  pub min_wait : Duration
  pub worker_wait : ℕ
  pub deadlock_wait : ℕ
  pub should_terminate : Bool

pub record WaitDecision : Type 0 where
  pub should_wait : Bool
  pub wait_time : ℕ

abbrev wait_for : ℕ → WaitDecision
wait_for t = record { should_wait = true; wait_time = t }

abbrev no_wait : WaitDecision
no_wait = record { should_wait = false; wait_time = 0 }

-- The branches below the resource wait.
abbrev wait_for_worker : LoopFacts → WaitDecision
wait_for_worker facts =
    if ltb 0 facts.worker_wait
    then wait_for (min facts.worker_wait wait_cap)
    else record { should_wait = nat_eq facts.dispatched 0 && nat_eq facts.settled 0; wait_time = 0 }

abbrev wait_for_candidate : Bool → Duration → LoopFacts → WaitDecision
wait_for_candidate false (for t) facts = wait_for (min t wait_cap)
wait_for_candidate false forever facts = wait_for_worker facts
wait_for_candidate true wait facts = wait_for_worker facts

unfoldable pub decide_wait : LoopFacts → WaitDecision
decide_wait facts =
    if facts.store_empty && not facts.has_in_flight || facts.should_terminate
    then no_wait
    else if facts.has_in_flight
    then (if nat_eq facts.settled 0 then wait_for in_flight_poll else no_wait)
    else if ltb 0 facts.deadlock_wait
    then wait_for (min facts.deadlock_wait wait_cap)
    else wait_for_candidate facts.has_runnable facts.min_wait facts

-- A pause is never longer than the cap, and either the loop waits or the pause is none.
pub decide_wait_bounded :
    (facts : LoopFacts)
    → ((decide_wait facts).wait_time ≤ wait_cap)
      × (((decide_wait facts).should_wait ≡ true) ⊎ ((decide_wait facts).wait_time ≡ 0))
unfolding decide_wait
decide_wait_bounded facts = elim (Bool-cases (decide_wait facts).should_wait) [
  | inl waits ↦ (ground arith, inl waits)
  | inr stays ↦ (ground arith, inr (ground arith))
]

-- With no job in flight and a finite `min_wait`, a pause does not pass the moment that the loop waits for: the end of the
-- deadlock's grace if there is one, else the first resource of a candidate if no job can run, else
-- the worker.
pub decide_wait_wakes :
    (facts : LoopFacts) (t : ℕ)
    → facts.has_in_flight ≡ false
    → facts.min_wait ≡ for t
    → (decide_wait facts).wait_time ≤ (
        if ltb 0 facts.deadlock_wait
        then facts.deadlock_wait
        else if facts.has_runnable
        then facts.worker_wait
        else t)
unfolding decide_wait
decide_wait_wakes facts t idle wait = ground arith

-- While jobs are in flight and work is left, the loop polls at the fixed interval after a round
-- in which none of them settled, and goes on at once after a round in which one did.
decide_wait_polls :
    (facts : LoopFacts)
    → facts.has_in_flight ≡ true
    → facts.should_terminate ≡ false
    → decide_wait facts ≡ record {
      should_wait = nat_eq facts.settled 0;
      wait_time = if nat_eq facts.settled 0 then in_flight_poll else 0;
    }
unfolding decide_wait
decide_wait_polls facts busy more = ground arith
