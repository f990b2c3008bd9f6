-- ===== src/Engine/Resource/Suspend.antt =====
-- Suspension of a resource by a handler.
use tasklite.Common.{ℕ, ◌+◌, ◌≤◌, ◌<◌, max, false, ◌≡◌, arith, none}
use tasklite.Models.Job.{pos, negsuc}
use tasklite.Engine.Resource.{
  Resource, rate_limit, capacity, Seconds, not_a_number, non_finite, overflow, millis, max_suspend,
  clamp_suspend, suspend, suspended_until, can_acquire, release,
}

clamp_suspend_bounded : (seconds : Seconds) → clamp_suspend seconds ≤ max_suspend
unfolding clamp_suspend
clamp_suspend_bounded not_a_number = ground arith
clamp_suspend_bounded non_finite = ground arith
clamp_suspend_bounded (overflow positive) = ground arith
clamp_suspend_bounded (millis (pos n)) = ground arith
clamp_suspend_bounded (millis (negsuc n)) = ground arith

-- However long a handler asks for, a suspension ends within `max_suspend` of the call, or when the
-- one that was there ends: no resource that is free at some time `t` that far ahead is suspended
-- at `t` by the call.
pub suspend_bounded :
    (now t : ℕ) (seconds : Seconds) (r : Resource)
    → now + max_suspend ≤ t
    → suspended_until t r ≡ none
    → suspended_until t (suspend now seconds r) ≡ none
unfolding suspend suspended_until
suspend_bounded now t seconds (rate_limit r) h free = ground (arith, clamp_suspend_bounded seconds)
suspend_bounded now t seconds (capacity c) h free = ground (arith, clamp_suspend_bounded seconds)

-- Until the seconds that the call was clamped to are over, `can_acquire` refuses every amount of a
-- suspended resource, whatever is released into it meanwhile.
pub suspend_blocks :
    (now t amount given : ℕ) (seconds : Seconds) (r : Resource)
    → t < now + clamp_suspend seconds
    → (can_acquire t amount (release given (suspend now seconds r))).0 ≡ false
unfolding suspend can_acquire release
suspend_blocks now t amount given seconds (rate_limit r) h = ground arith
suspend_blocks now t amount given seconds (capacity c) h = ground arith

-- Two suspensions have the same effect in either order, and neither shortens the other: until the
-- later of their ends the resource gives no amount away.
suspend_twice :
    (now now' t amount : ℕ) (seconds seconds' : Seconds) (r : Resource)
    → t < max (now + clamp_suspend seconds) (now' + clamp_suspend seconds')
    → (suspend now seconds (suspend now' seconds' r)
        ≡ suspend now' seconds' (suspend now seconds r))
      × ((can_acquire t amount (suspend now seconds (suspend now' seconds' r))).0 ≡ false)
unfolding suspend can_acquire
suspend_twice now now' t amount seconds seconds' (rate_limit r) h = (ground arith, ground arith)
suspend_twice now now' t amount seconds seconds' (capacity c) h = (ground arith, ground arith)
