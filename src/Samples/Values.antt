-- ===== src/Samples/Values.antt =====
-- A process death, and declared files.
use tasklite.Common.{
  String, true, false, ◌≡◌, refl, none, some, List, [], ◌∷◌, ◌++◌, lookup, eq_string, Option,
}
use tasklite.Models.Job.{ℤ, pos}
use tasklite.Models.Json.{int, text}
use tasklite.Models.Artifact.{
  ArtifactDeclaration, validate_artifact_declarations, append_artifact_declaration, accept_all,
  accept, is_new,
}
use tasklite.Models.Artifact.Declared.{append_artifact_declaration_lem}
use tasklite.Engine.ErrorClass.{category_value, normalize_failure_metadata}
use tasklite.Engine.ErrorClass.Death.{Platform, classify_process_death}
use tasklite.Engine.ErrorClass.Death.Archived.{classify_process_death-normalize}
use tasklite.Engine.Admission.{extract_trusted_metadata_timestamp_us, is_run_id}
use tasklite.Engine.Admission.Trusted.{success_metadata_trusted}
use tasklite.Engine.Store.Succeeding.{success_metadata, previous_count, previous_meta}
use tasklite.Samples.Stores.{running, success, sample_builtins, sample_paths}

abbrev platform : Platform
platform = record { signal_name = λ n. none; sigkill = some 9 }

classify_process_death-normalize_example :
    lookup "error_category" (
      normalize_failure_metadata "now" none
        (classify_process_death platform (some (pos 3)) false (int (pos 5)) true).result_metadata)
    ≡ some (
        text (
          category_value
            (classify_process_death platform
              (some (pos 3))
              false
              (int (pos 5))
              true).error_category))
classify_process_death-normalize_example =
    classify_process_death-normalize platform (some (pos 3)) false true (int (pos 5)) "now" none
      refl

abbrev artifact : String → String → ArtifactDeclaration
artifact path name = record {
  path = path;
  name = some name;
  delete_existing = false;
  delete_on_failure = false;
  delete_on_success = false;
  sandbox = true;
}

abbrev one_file : List ArtifactDeclaration
one_file = artifact "/out/a" "a" ∷ []

one_file_is_valid : validate_artifact_declarations one_file ≡ some one_file
unfolding validate_artifact_declarations accept_all accept is_new
one_file_is_valid = refl

append_artifact_declaration_lem_example :
    append_artifact_declaration one_file (artifact "/out/b" "b")
    ≡ validate_artifact_declarations (one_file ++ artifact "/out/b" "b" ∷ [])
append_artifact_declaration_lem_example =
    append_artifact_declaration_lem one_file one_file (artifact "/out/b" "b") one_file_is_valid

abbrev parse_time : String → Option ℤ
parse_time at = some (pos 5)

no_count_before : previous_count (previous_meta "load::a" running) ≡ pos 0
unfolding previous_count previous_meta lookup
no_count_before = refl

success_metadata_trusted_example :
    extract_trusted_metadata_timestamp_us parse_time
      (success_metadata "2026-01-01T00:00:00Z" "load::a" success [] running)
    ≡ parse_time "2026-01-01T00:00:00Z"
unfolding is_run_id
success_metadata_trusted_example =
    success_metadata_trusted "2026-01-01T00:00:00Z" "load::a" success [] running parse_time
      no_count_before refl refl
