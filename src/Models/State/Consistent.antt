-- ===== src/Models/State/Consistent.antt =====
-- The invariant behind the debug assertions of tasklite/models/state.py.
use tasklite.Common.{
  String, true, false, ◌&&◌, ◌≡◌, sym, ◌∙◌, has, keys, contains, intersection, same_set_of,
  keep_none, eq_string, arith, IsDistinct, contains-keys, Bool, Option, some,
}
use tasklite.Models.Job.{RowHash}
use tasklite.Models.State.{
  PipelineState, terminal_uids_consistent, row_uids, uids_consistent, state_consistent, checked,
}

-- Indices, queue and archives agree; the queue repeats no uid; a queued job is not in flight; and
-- a job has one outcome.
pub record IsConsistent ⦃h : RowHash⦄ (s : PipelineState) : Type 0 where
  pub queued : (u : String) → contains u s.queue_uids ≡ contains u (row_uids s.queue)
  pub distinct : IsDistinct (row_uids s.queue)
  pub succeeded : (u : String) → contains u s.success_uids ≡ has u s.successes
  pub archived : (u : String) → contains u s.failed_uids ≡ has u s.failed
  pub one_outcome : (u : String) → (has u s.successes && has u s.failed) ≡ false
  pub not_both : (u : String) → (contains u s.queue_uids && contains u s.in_flight_uids) ≡ false

module _ ⦃h : RowHash⦄ where
  pub uids_consistent_of :
      (s : PipelineState)
      → ((u : String) → contains u s.queue_uids ≡ contains u (row_uids s.queue))
      → uids_consistent s ≡ true
  unfolding uids_consistent
  uids_consistent_of s q = same_set_of s.queue_uids (row_uids s.queue) q

  pub terminal_uids_consistent_of :
      (s : PipelineState)
      → ((u : String) → contains u s.success_uids ≡ has u s.successes)
      → ((u : String) → contains u s.failed_uids ≡ has u s.failed)
      → terminal_uids_consistent s ≡ true
  unfolding terminal_uids_consistent
  terminal_uids_consistent_of s p q = ground (
    arith,
    same_set_of s.success_uids (keys s.successes) (λ u. p u ∙ sym (contains-keys u s.successes)),
    same_set_of s.failed_uids (keys s.failed) (λ u. q u ∙ sym (contains-keys u s.failed)),
  )

  -- The four debug assertions hold in a consistent state.
  pub state_consistent_of : (s : PipelineState) → IsConsistent s → state_consistent s ≡ true
  unfolding state_consistent intersection
  state_consistent_of s c = ground (
    arith,
    keep_none (λ u. contains u s.in_flight_uids) s.queue_uids c.not_both,
    keep_none (λ u. contains u s.failed_uids) s.success_uids
        (λ u. ground (arith, c.succeeded u, c.archived u, c.one_outcome u)),
    uids_consistent_of s c.queued,
    terminal_uids_consistent_of s c.succeeded c.archived,
  )

-- `m` raises nothing, and the state that it leaves is consistent.
abbrev pub Succeeds : ⦃h : RowHash⦄ → Option PipelineState → Type 0
Succeeds m = (s : PipelineState) × (m ≡ some s) × IsConsistent s

module _ ⦃h : RowHash⦄ where
  passes :
      (test : PipelineState → Bool) (s : PipelineState)
      → test s ≡ true
      → IsConsistent s
      → Succeeds (checked test s)
  passes test s t c = (s, rw t, c)

  pub passes_uids : (s : PipelineState) → IsConsistent s → Succeeds (checked uids_consistent s)
  passes_uids s c = passes uids_consistent s (uids_consistent_of s c.queued) c

  pub passes_terminal :
      (s : PipelineState) → IsConsistent s → Succeeds (checked terminal_uids_consistent s)
  passes_terminal s c =
      passes terminal_uids_consistent s (terminal_uids_consistent_of s c.succeeded c.archived) c

  pub passes_state : (s : PipelineState) → IsConsistent s → Succeeds (checked state_consistent s)
  passes_state s c = passes state_consistent s (state_consistent_of s c) c
