-- ===== src/Engine/Store/Succeeding.antt =====
-- tasklite/engine/store.py: what `apply_success` is given and the metadata that it writes.
use tasklite.Common.{
  ℕ, zero, suc, String, ◌||◌, Option, none, some, List, [], ◌∷◌, ◌++◌, Dict, lookup, insert, erase,
  contains, eq_string, ◌==◌, if◌then◌else◌,
}
use tasklite.Models.Job.{JobSnapshot, Field, value, ℤ, pos, negsuc}
use tasklite.Models.Json.{text, texts, table, int, Builtins}
use tasklite.Models.Artifact.{ArtifactDeclaration}
use tasklite.Models.State.{Metadata, PipelineState}

-- The arguments of `apply_success` but the uid.
pub record Success : Type 0 where
  pub result_metadata : Metadata
  pub spawned_job_snapshots : List JobSnapshot
  pub cursor_updates : List (String × Option String)
  pub declared_inputs : List (Field String)
  pub declared_artifacts : List ArtifactDeclaration
  pub run_id : Option String
  pub job_snapshot : Option JobSnapshot
  pub attempt_id : Option ℕ
  pub execution_id : Option String
  pub finished_at : Option String

-- `{d.name: ... for d in declarations if d.name is not None}`, a path for each name.
unfoldable pub artifact_paths : List ArtifactDeclaration → Dict String String → Dict String String
artifact_paths [] paths = paths
artifact_paths (d ∷ ds) paths = elim d.name [
  | none ↦ artifact_paths ds paths
  | some name ↦ artifact_paths ds (insert name d.path paths)
]

-- `list(dict.fromkeys(path for path in declared_inputs if isinstance(path, str) and path))`
unfoldable pub input_paths : List String → List (Field String) → List String
input_paths seen [] = seen
input_paths seen (value path ∷ more) =
    if path == "" || contains path seen
    then input_paths seen more
    else input_paths (seen ++ path ∷ []) more
input_paths seen (_ ∷ more) = input_paths seen more

abbrev pub with_text : String → Option String → Metadata → Metadata
with_text key none meta = erase key meta
with_text key (some v) meta = insert key (text v) meta

abbrev pub with_inputs : List String → Metadata → Metadata
with_inputs [] meta = meta
with_inputs (path ∷ more) meta = insert "inputs" (texts (path ∷ more)) meta

-- `successes.get(job_uid) or failed.get(job_uid)`
unfoldable pub previous_meta : String → PipelineState → Option Metadata
previous_meta job_uid s = elim (lookup job_uid s.successes) [
  | some (entry ∷ more) ↦ some (entry ∷ more)
  | _ ↦ lookup job_uid s.failed
]

abbrev or_zero : Option ℤ → ℤ
or_zero none = pos 0
or_zero (some n) = n

unfoldable pub add_one : ℤ → ℤ
add_one (pos n) = pos (suc n)
add_one (negsuc zero) = pos 0
add_one (negsuc (suc n)) = negsuc n

-- `prev_count`
unfoldable pub previous_count : ⦃p : Builtins⦄ → Option Metadata → ℤ
previous_count none = pos 0
previous_count ⦃p⦄ (some meta) = elim (lookup "success_count" meta) [
  | none ↦ pos 0
  | some v ↦ or_zero (p.int_of v)
]

abbrev pub time_or : String → Option String → String
time_or now none = now
time_or now (some at) = at

module _ ⦃p : Builtins⦄ where
  -- The metadata that `apply_success` writes.
  unfoldable pub success_metadata :
      String → String → Success → List ArtifactDeclaration → PipelineState → Metadata
  success_metadata finished_at job_uid args declarations s =
      let named =
        insert "artifacts" (table (artifact_paths declarations [])) args.result_metadata in
      let timed = insert "last_succeeded_at" (text finished_at) named in
      let by_run = with_text "last_success_run_id" args.run_id timed in
      let fed = with_inputs (input_paths [] args.declared_inputs) (erase "inputs" by_run) in
      insert "success_count" (int (add_one (previous_count (previous_meta job_uid s)))) fed
