-- ===== src/Samples/Governors.antt =====
-- A governor at a standstill.
use tasklite.Common.{
  ℕ, ◌≤◌, ◌<◌, String, true, false, ◌≡◌, refl, Option, none, some, List, [], ◌∷◌, arith, add, keys,
  eq_string, contains,
}
use tasklite.Models.State.{PipelineState, Metadata, row_uids}
use tasklite.Engine.Wait.{forever}
use tasklite.Engine.Scheduler.{StandstillFacts, has_deadlock_causes}
use tasklite.Engine.Governor.{
  SelectionStandstill, Arbitration, DeadlockGovernor, Identifier, uid_of, is_nil, missing_uids,
  check_dependency_grace, end_grace_episode, decision, gap_retrying,
}
use tasklite.Engine.Governor.Arbitrate.{arbitrate}
use tasklite.Engine.Governor.Grace.{check_dependency_grace_ends, in_episode}
use tasklite.Engine.Governor.Decides.{MovesOn, arbitrate-MovesOn, arbitrate_gap_ends, ended}
use tasklite.Backend.Contract.OfMemory.{memory_backend-IsContract}
use tasklite.Engine.Governor.OverStore.{Kept, store_arbitration, arbitrate-Kept}
use tasklite.Samples.Stores.{
  running, sample_hash, sample_builtins, setup, store, store-IsCoherent, store-AreNamed,
}

abbrev governor : DeadlockGovernor
governor = record {
  dependency_grace = 60000;
  deadlock_gap_max_rounds = 5;
  dep_grace_deadline = none;
  dep_grace_missing = none;
  deadlock_gap_rounds = 0;
}

abbrev awaited : List Identifier
awaited = uid_of "load::c" ∷ []

awaited_is_missing : is_nil (missing_uids running.queue awaited []) ≡ false
unfolding missing_uids add contains
awaited_is_missing = refl

check_dependency_grace_ends_example :
    (check_dependency_grace running awaited (some true) 10 60000 governor
      ≡ (true, in_episode running awaited 60000 awaited_is_missing 60010 governor))
    × ((now : ℕ)
        → now < 60010
        → check_dependency_grace running awaited
            (some true)
            now
            60000
            (in_episode running awaited 60000 awaited_is_missing 60010 governor)
          ≡ (true, in_episode running awaited 60000 awaited_is_missing 60010 governor))
    × ((now : ℕ)
        → 60010 ≤ now
        → now ≤ 120010
        → check_dependency_grace running awaited
            (some true)
            now
            60000
            (in_episode running awaited 60000 awaited_is_missing 60010 governor)
          ≡ (false, end_grace_episode governor))
check_dependency_grace_ends_example =
    check_dependency_grace_ends running awaited 60000 awaited_is_missing governor 10 refl
      (omega arith)

abbrev facts : List String → StandstillFacts
facts malformed = record {
  min_wait = forever;
  waiting_for_dependency = false;
  has_potential_spawners = false;
  attribution = record {
    unknown_resource_uids = [];
    missing_dependency_uids = [];
    malformed_uids = malformed;
    impossible_resource_uids = [];
  };
}

-- A store that keeps every failure out of its archive.
abbrev arbitration : Option (PipelineState → Option SelectionStandstill) → Arbitration PipelineState
arbitration partition = record {
  state = λ s. s;
  find_dependency_cycles = λ s. [];
  apply_bulk_failure = λ uids_metas s.
      some (record { failed_uids = []; cascaded_uids = []; remaining_queue_count = 1 }, s);
  partition_standstill = partition;
}

arbitrate-MovesOn_example :
    MovesOn (arbitrate 0 (facts ("load::b" ∷ [])) (arbitration (some (λ s. none))) running governor)
arbitrate-MovesOn_example =
    arbitrate-MovesOn (arbitration (some (λ s. none))) refl 0 (facts ("load::b" ∷ [])) running
      governor

uncaused : has_deadlock_causes (facts []).attribution ≡ false
unfolding has_deadlock_causes
uncaused = refl

arbitrate_gap_ends_example :
    (1 < 5
      → arbitrate 0 (facts []) (arbitration none) running governor
        ≡ some
            (decision gap_retrying false 500, running, record governor { deadlock_gap_rounds = 1 }))
    × (5 ≤ 1
        → (batch : List (String × Metadata)) × (keys batch ≡ row_uids running.queue)
          × (arbitrate 0 (facts []) (arbitration none) running governor
              ≡ ended
                  (arbitration none)
                  governor
                  ((arbitration none).apply_bulk_failure batch running)))
arbitrate_gap_ends_example =
    arbitrate_gap_ends (arbitration none) 0 (facts []) running governor refl uncaused refl refl

arbitrate-Kept_example :
    Kept
      (setup 3)
      store
      (arbitrate 0 (facts ("load::b" ∷ [])) (store_arbitration (setup 3) (λ s. [])) store governor)
arbitrate-Kept_example =
    arbitrate-Kept (setup 3) memory_backend-IsContract (λ s. []) store store-IsCoherent
      store-AreNamed 0 (facts ("load::b" ∷ [])) governor
