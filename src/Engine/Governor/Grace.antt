-- ===== src/Engine/Governor/Grace.antt =====
-- tasklite/engine/governor.py: the grace for jobs that wait for missing ones.
use tasklite.Common.{
  ℕ, ◌+◌, ◌≤◌, ◌<◌, String, true, false, ◌≡◌, refl, none, some, List, [], same_set_of, ltb,
  eq_string, arith, Bool-cases, inl, inr,
}
use tasklite.Models.Job.{RowHash}
use tasklite.Models.State.{PipelineState}
use tasklite.Engine.Governor.{
  is_nil, DeadlockGovernor, Identifier, missing_uids, end_grace_episode, grant_or_expire,
  is_new_episode, is_stale, enter_episode, check_dependency_grace,
}

-- A governor without a deadline enters an episode without one.
enter_first :
    (missing : List String) (now grace : ℕ) (g : DeadlockGovernor)
    → g.dep_grace_deadline ≡ none
    → enter_episode missing now grace g
      ≡ record g { dep_grace_deadline = none; dep_grace_missing = some missing }
unfolding enter_episode is_stale
enter_first missing now grace g fresh =
    elim (Bool-cases (is_new_episode g.dep_grace_missing missing)) [
      | inl t ↦ rw (enter_episode, t) refl
      | inr f ↦ rw (enter_episode, f) (rw fresh refl)
    ]

-- The episode of the same jobs goes on unless its deadline is more than a grace ago.
enter_again :
    (missing : List String) (now grace deadline : ℕ) (g : DeadlockGovernor)
    → now ≤ deadline + grace
    → enter_episode missing now grace
        (record g { dep_grace_deadline = some deadline; dep_grace_missing = some missing })
      ≡ record g { dep_grace_deadline = some deadline; dep_grace_missing = some missing }
unfolding enter_episode is_new_episode is_stale
enter_again missing now grace deadline g soon =
    let same = same_set_of missing missing (λ u. refl) in
    let recent : ltb (deadline + grace) now ≡ false = ground arith in rw same (rw recent refl)

module _ ⦃h : RowHash⦄ (s : PipelineState) (identifiers : List Identifier) (grace : ℕ)
    (present : is_nil (missing_uids s.queue identifiers []) ≡ false) where
  -- The governor in an episode of the missing jobs that ends at a deadline.
  abbrev pub in_episode : ℕ → DeadlockGovernor → DeadlockGovernor
  in_episode deadline g = record g {
    dep_grace_deadline = some deadline;
    dep_grace_missing = some (missing_uids s.queue identifiers []);
  }

  -- A governor without a deadline grants the missing jobs the whole grace, while some job may still
  -- spawn them: it waits at every look before the deadline, the first one included, and keeps that
  -- deadline. The first look from the deadline on, no later than a second grace, ends the wait and
  -- leaves nothing of the episode behind.
  pub check_dependency_grace_ends :
      (g : DeadlockGovernor) (t : ℕ)
      → g.dep_grace_deadline ≡ none
      → 0 < grace
      → (check_dependency_grace s identifiers (some true) t grace g
          ≡ (true, in_episode (t + grace) g))
        × ((now : ℕ)
            → now < t + grace
            → check_dependency_grace s identifiers (some true) now grace (in_episode (t + grace) g)
              ≡ (true, in_episode (t + grace) g))
        × ((now : ℕ)
            → t + grace ≤ now
            → now ≤ t + grace + grace
            → check_dependency_grace s identifiers (some true) now grace (in_episode (t + grace) g)
              ≡ (false, end_grace_episode g))
  unfolding check_dependency_grace grant_or_expire end_grace_episode
  check_dependency_grace_ends g t fresh long =
      let missing = missing_uids s.queue identifiers [] in
      (
        rw (check_dependency_grace, present)
            (rw (enter_first missing t grace g fresh)
              (let before : ltb t (t + grace) ≡ true = ground arith in rw before refl)),
        λ now early.
            rw (check_dependency_grace, present)
              (rw (enter_again missing now grace (t + grace) g (omega arith))
                (let before : ltb now (t + grace) ≡ true = ground arith in rw before refl)),
        λ now late soon.
            rw (check_dependency_grace, present)
              (rw (enter_again missing now grace (t + grace) g soon)
                (let over : ltb now (t + grace) ≡ false = ground arith in rw over refl)),
      )
