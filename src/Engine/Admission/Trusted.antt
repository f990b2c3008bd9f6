-- ===== src/Engine/Admission/Trusted.antt =====
-- tasklite/engine/admission.py, on the rows that tasklite/engine/store.py writes.
use tasklite.Common.{
  ℕ, String, true, false, ◌≡◌, refl, Option, none, some, List, [], ◌∷◌, lookup, eq_string, ◌==◌,
  lookup-insert, lookup-erase, arith,
}
use tasklite.Models.Job.{ℤ, pos}
use tasklite.Models.Json.{Json, int, text, texts, Builtins}
use tasklite.Models.Artifact.{ArtifactDeclaration}
use tasklite.Models.State.{Metadata, PipelineState}
use tasklite.Engine.Store.Succeeding.{
  Success, success_metadata, previous_count, previous_meta, add_one, with_text, with_inputs,
}
use tasklite.Engine.Admission.{
  is_positive_count, is_run_id, timestamp_text, extract_trusted_metadata_timestamp_us,
}

lookup-with_inputs :
    (key : String) (paths : List String) (meta : Metadata)
    → ("inputs" == key) ≡ false
    → lookup key (with_inputs paths meta) ≡ lookup key meta
lookup-with_inputs key [] meta other = refl
lookup-with_inputs key (path ∷ more) meta other =
    ground (arith, lookup-insert key "inputs" (texts (path ∷ more)) meta)

abbrev pub run_id_value : Option String → Option Json
run_id_value none = none
run_id_value (some run_id) = some (text run_id)

run_id_written :
    (run_id : Option String) (meta : Metadata)
    → lookup "last_success_run_id" (with_text "last_success_run_id" run_id meta)
      ≡ run_id_value run_id
run_id_written none meta = rw lookup-erase refl
run_id_written (some run_id) meta = rw lookup-insert refl

time_kept :
    (run_id : Option String) (meta : Metadata)
    → lookup "last_succeeded_at" (with_text "last_success_run_id" run_id meta)
      ≡ lookup "last_succeeded_at" meta
time_kept none meta = rw lookup-erase refl
time_kept (some run_id) meta = rw lookup-insert refl

module _ ⦃p : Builtins⦄ (at job_uid : String) (args : Success)
    (declarations : List ArtifactDeclaration) (s : PipelineState) where
  count_written :
      lookup "success_count" (success_metadata at job_uid args declarations s)
      ≡ some (int (add_one (previous_count (previous_meta job_uid s))))
  unfolding success_metadata
  count_written = rw lookup-insert refl

  run_id_kept :
      lookup "last_success_run_id" (success_metadata at job_uid args declarations s)
      ≡ run_id_value args.run_id
  unfolding success_metadata
  run_id_kept = rw lookup-insert (
      rw (lookup-with_inputs "last_success_run_id" _ _ refl)
        (rw lookup-erase (run_id_written args.run_id _)))

  time_written :
      lookup "last_succeeded_at" (success_metadata at job_uid args declarations s) ≡ some (text at)
  unfolding success_metadata
  time_written = rw lookup-insert (
      rw (lookup-with_inputs "last_succeeded_at" _ _ refl)
        (rw lookup-erase (rw (time_kept args.run_id _) (rw lookup-insert refl))))

  -- The row that `apply_success` writes is a trusted baseline of its finishing time, if the count before
  -- was not negative, the time is not empty, and neither is the id of the run, where there is one.
  pub success_metadata_trusted :
      (parse : String → Option ℤ) {n : ℕ}
      → previous_count (previous_meta job_uid s) ≡ pos n
      → (at == "") ≡ false
      → is_run_id (run_id_value args.run_id) ≡ true
      → extract_trusted_metadata_timestamp_us parse
          (success_metadata at job_uid args declarations s)
        ≡ parse at
  unfolding extract_trusted_metadata_timestamp_us is_positive_count timestamp_text add_one
  success_metadata_trusted parse counted timed named =
      rw count_written (rw counted (rw run_id_kept (rw named (rw time_written (rw timed refl)))))
