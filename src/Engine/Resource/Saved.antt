-- ===== src/Engine/Resource/Saved.antt =====
-- `collect_suspensions` and `restore_suspensions` of tasklite/engine/resource.py: suspensions are kept
-- across a restart as times of the wall clock.
pub mod Kept
use tasklite.Common.{
  ℕ, ◌+◌, ◌-◌, ◌≤◌, ◌<◌, max, String, Bool, true, false, ◌≡◌, refl, sym, ◌∙◌, ap, subst, Bool-cases,
  Option, none, some, List, [], ◌∷◌, Dict, lookup, insert, has, keys, contains, IsDistinct,
  lookup-insert, has-insert, contains-keys, eq_string, ==_iff, ◌==◌, arith, ltb, leb, if◌then◌else◌,
  Option-cases, inl, inr,
}
use tasklite.Models.Job.{pos, negsuc}
use tasklite.Engine.Resource.{
  Resource, rate_limit, capacity, Capacity, RateLimit, ResourceManager, Seconds, not_a_number,
  non_finite, overflow, millis, max_suspend, clamp_suspend, suspend, suspended_until,
}

-- The deadline of a resource that is suspended, on the wall clock.
unfoldable pub wall_deadline : ℕ → ℕ → Option ℕ → Option ℕ
wall_deadline now_mono now_wall none = none
wall_deadline now_mono now_wall (some deadline) =
    if ltb now_mono deadline then some (now_wall + (deadline - now_mono)) else none

unfoldable pub record_deadline : String → Option ℕ → Dict String ℕ → Dict String ℕ
record_deadline name none saved = saved
record_deadline name (some wall) saved = insert name wall saved

-- `clock name` is the reading of the monotonic clock as the resource is asked.
unfoldable pub collect_suspensions :
    (String → ℕ) → ℕ → ℕ → Dict String Resource → Dict String ℕ → Dict String ℕ
unfolding wall_deadline record_deadline
collect_suspensions clock now_mono now_wall [] saved = saved
collect_suspensions clock now_mono now_wall ((name, r) ∷ more) saved =
    collect_suspensions clock now_mono now_wall more (
      record_deadline name (wall_deadline now_mono now_wall (suspended_until (clock name) r)) saved)

-- One entry: what is over, and what names no resource, is passed over.
unfoldable pub restore_entry :
    ℕ → ℕ → String → Seconds → Dict String Resource → Option (Dict String Resource)
restore_entry now now_wall name not_a_number resources = some resources
restore_entry now now_wall name non_finite resources = some resources
restore_entry now now_wall name (overflow positive) resources = none
restore_entry now now_wall name (millis (negsuc n)) resources = some resources
restore_entry now now_wall name (millis (pos wall)) resources =
    if leb wall now_wall then some resources else elim (lookup name resources) [
      | none ↦ some resources
      | some r ↦ some (insert name (suspend now (millis (pos (wall - now_wall))) r) resources)
    ]

-- Whether it returned (`math.isfinite` raises for an int beyond the floats), and the resources then.
unfoldable pub restore_suspensions :
    (String → ℕ) → ℕ → List (String × Seconds) → Dict String Resource → Bool × Dict String Resource
restore_suspensions clock now_wall [] resources = (true, resources)
restore_suspensions clock now_wall ((name, deadline) ∷ more) resources =
    elim (restore_entry (clock name) now_wall name deadline resources) [
      | none ↦ (false, resources)
      | some resources' ↦ restore_suspensions clock now_wall more resources'
    ]

-- The deadlines as they are read again.
abbrev pub stored : Dict String ℕ → List (String × Seconds)
stored [] = []
stored ((name, wall) ∷ more) = (name, millis (pos wall)) ∷ stored more
