-- ===== src/Engine/Admission.antt =====
-- tasklite/engine/admission.py: which archive row of a success can be trusted as a baseline.
pub mod Trusted
use tasklite.Common.{
  ℕ, suc, String, Bool, true, false, not, Option, none, some, List, [], ◌∷◌, lookup, eq_string,
  ◌==◌, if◌then◌else◌,
}
use tasklite.Models.Job.{ℤ, pos, ◌>>=◌, ◌>>◌, forbid}
use tasklite.Models.Json.{Json, int, text}
use tasklite.Models.State.{Metadata}

-- `isinstance(success_count, int)` and not a bool, and at least 1.
unfoldable pub is_positive_count : Option Json → Bool
is_positive_count (some (int (pos (suc n)))) = true
is_positive_count _ = false

unfoldable pub is_run_id : Option Json → Bool
is_run_id none = true
is_run_id (some (text run_id)) = not (run_id == "")
is_run_id (some v) = false

unfoldable pub timestamp_text : Option Json → Option String
timestamp_text (some (text at)) = if at == "" then none else some at
timestamp_text _ = none

-- `extract_trusted_metadata_timestamp_us`; `parse` is `parse_utc_iso_to_us`, `none` where it raises. An
-- empty dict has no count.
unfoldable pub extract_trusted_metadata_timestamp_us : (String → Option ℤ) → Metadata → Option ℤ
extract_trusted_metadata_timestamp_us parse metadata = do
  forbid (not (is_positive_count (lookup "success_count" metadata)))
  forbid (not (is_run_id (lookup "last_success_run_id" metadata)))
  at ← timestamp_text (lookup "last_succeeded_at" metadata)
  parse at
