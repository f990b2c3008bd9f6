-- ===== src/Models/State/Cascade/Reached.antt =====
-- What `cascade_fail` of tasklite/models/state.py returns.
use tasklite.Common.{
  suc, String, Bool, true, ◌≡◌, ◌↔◌, refl, sym, subst, fun_ext, ◌≤◌, ◌<◌, not, ◌∙◌, some, List, [],
  ◌∷◌, contains, exists, length, IsDistinct, difference, eq_string, arith, length-keep-le,
}
use tasklite.Models.Job.{JobSnapshot}
use tasklite.Models.State.{PipelineState}
use tasklite.Models.State.Cascade.{Walk, downstream, build_dependents, cascade_fail}
use tasklite.Models.State.Cascade.Edges.{
  row_waits, contains-build_dependents, parsed_uids, length-parsed_uids-le, contains-parsed_uids,
}
use tasklite.Models.State.Cascade.Falls.{Cascades, open_to_failure}
use tasklite.Models.State.Cascade.Walks.{IsWalk, load, walk_on-IsCascade}

-- Some row of the queue is the job `v` and waits for `u`.
abbrev pub queue_waits : List JobSnapshot → String → String → Bool
queue_waits queue u v = exists (row_waits u v) queue

start-IsWalk :
    (s : PipelineState) (root : String) (excluded : List String)
    → IsWalk s.successes s.failed excluded
        (build_dependents s.queue [])
        root
        []
        (record { cascade = []; seen = root ∷ []; stack = root ∷ [] })
unfolding contains
start-IsWalk s root excluded = record {
  falls = λ u m. cc;
  seen_iff = λ u. refl;
  on_stack = λ u m. m;
  fresh = refl;
  distinct = tt;
  sources = λ v m o r. cc;
  done = λ u v m t e o. cc;
}

abbrev Falls : PipelineState → String → List String → (String → String → Bool) → String → Type 0
Falls s root excluded waits v =
    Cascades waits (open_to_failure s.successes s.failed excluded) root v

index_waits :
    (s : PipelineState)
    → (λ (u v : String). contains v (downstream u (build_dependents s.queue [])))
      ≡ queue_waits s.queue
index_waits s = fun_ext (λ u. fun_ext (λ v. contains-build_dependents u v s.queue))

length-difference-le : (xs ys : List String) → length (difference xs ys) ≤ length xs
unfolding difference
length-difference-le xs ys = length-keep-le (λ x. not (contains x ys)) xs

start-load :
    (s : PipelineState) (root : String) (excluded : List String)
    → load s.successes s.failed excluded
        (build_dependents s.queue [])
        root
        (parsed_uids s.queue)
        (record { cascade = []; seen = root ∷ []; stack = root ∷ [] })
      < suc (suc (length s.queue))
unfolding load
start-load s root excluded =
    omega
      (arith, length-parsed_uids-le s.queue, length-difference-le (parsed_uids s.queue) (root ∷ []))

-- Whatever is in the queue, `cascade_fail` returns, and its result repeats no uid and holds exactly
-- the jobs that wait for the failed one, through jobs that are neither excluded nor finished.
pub cascade_fail-Cascades :
    (s : PipelineState) (root : String) (excluded : List String)
    → (result : List String) × (cascade_fail s root excluded ≡ some result)
      × IsDistinct result
      × ((v : String)
          → (contains v result ≡ true)
            ↔ Cascades (queue_waits s.queue) (open_to_failure s.successes s.failed excluded) root v)
unfolding cascade_fail
cascade_fail-Cascades s root excluded =
    let start : Walk = record { cascade = []; seen = root ∷ []; stack = root ∷ [] } in
    let (result, e, found) =
      walk_on-IsCascade s.successes s.failed excluded (build_dependents s.queue []) root
        (parsed_uids s.queue)
        (λ u v m.
          contains-parsed_uids u v s.queue (sym (contains-build_dependents u v s.queue) ∙ m))
        (suc (suc (length s.queue))) start (start-IsWalk s root excluded)
        (start-load s root excluded) in
    (
      result,
      e,
      found.distinct,
      λ v. (
        λ m. subst (λ w. Falls s root excluded w v) (index_waits s) ((found.members v).0 m),
        λ f. (found.members v).1 (subst (λ w. Falls s root excluded w v) (sym (index_waits s)) f),
      ),
    )
