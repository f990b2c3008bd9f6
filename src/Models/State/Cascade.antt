-- ===== src/Models/State/Cascade.antt =====
-- `PipelineState.cascade_fail` of tasklite/models/state.py: the jobs that fail because a job that they
-- wait for has failed. A set is walked in the order in which its members were added.
pub mod Edges
pub mod Falls
mod Walks
pub mod Reached
use tasklite.Common.{
  ℕ, zero, suc, String, Bool, true, false, not, ◌&&◌, ◌||◌, Option, none, some, List, [], ◌∷◌, ◌++◌,
  Dict, lookup, insert, has, contains, add, length, eq_string, if◌then◌else◌,
}
use tasklite.Models.Job.{JobSnapshot, Job, from_dict, uid}
use tasklite.Models.State.{PipelineState, Metadata}

abbrev pub Dependents : Type 0
Dependents = Dict String (List String)

-- `dependents.get(cur, ())`
unfoldable pub downstream : String → Dependents → List String
downstream cur dependents = elim (lookup cur dependents) [ none ↦ [] | some us ↦ us ]

-- `for dep_uid in job.depends_on: dependents.setdefault(dep_uid, set()).add(job_uid)`
unfoldable pub add_dependents : String → List String → Dependents → Dependents
add_dependents job_uid [] dependents = dependents
add_dependents job_uid (dep ∷ deps) dependents =
    add_dependents job_uid deps (insert dep (add job_uid (downstream dep dependents)) dependents)

-- The body of the loop of `_build_dependents`; a row that does not parse is passed over.
unfoldable pub add_row : JobSnapshot → Dependents → Dependents
add_row row dependents = elim (from_dict row) [
  | none ↦ dependents
  | some job ↦ add_dependents (uid job) job.depends_on dependents
]

unfoldable pub build_dependents : List JobSnapshot → Dependents → Dependents
build_dependents [] dependents = dependents
build_dependents (row ∷ rows) dependents = build_dependents rows (add_row row dependents)

-- The variables of the loop. The last element of the Python list `stack` is the first here.
pub record Walk : Type 0 where
  pub cascade : List String
  pub seen : List String
  pub stack : List String

module _ (successes failed : Dict String Metadata) (excluded : List String)
    (dependents : Dependents) where
  -- The body of the inner loop.
  unfoldable pub visit : String → Walk → Walk
  visit v w =
      if contains v excluded
      then w
      else if not (contains v w.seen) && not (has v successes) && not (has v failed)
      then record { cascade = w.cascade ++ v ∷ []; seen = add v w.seen; stack = v ∷ w.stack }
      else w

  unfoldable pub visit_all : List String → Walk → Walk
  visit_all [] w = w
  visit_all (v ∷ vs) w = visit_all vs (visit v w)

  -- `none`: the fuel ran out before the stack was empty.
  unfoldable pub walk_on : ℕ → Walk → Option (List String)
  walk_on zero w = none
  walk_on (suc fuel) w = elim w.stack [
    | [] ↦ some w.cascade
    | cur ∷ rest ↦ walk_on fuel (visit_all (downstream cur dependents) (record w { stack = rest }))
  ]

-- `cascade_fail`. A round takes one job off the stack, and a job of the queue enters it once.
unfoldable pub cascade_fail : PipelineState → String → List String → Option (List String)
cascade_fail s failed_uid excluded =
    walk_on s.successes s.failed excluded (build_dependents s.queue []) (suc (suc (length s.queue)))
      (record { cascade = []; seen = failed_uid ∷ []; stack = failed_uid ∷ [] })
