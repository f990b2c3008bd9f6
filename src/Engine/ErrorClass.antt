-- ===== src/Engine/ErrorClass.antt =====
-- tasklite/engine/errorclass.py: the categories of errors, and what is written about a failure.
pub mod Death
use Prim.Native.Char.{code}
use tasklite.Common.{
  ℕ, String, Bool, true, false, not, ◌&&◌, ◌||◌, Option, none, some, List, [], ◌∷◌, Dict, lookup,
  insert, has, eq_string, eq_nat, ◌==◌, if◌then◌else◌,
}
use tasklite.Models.Job.{pos}
use tasklite.Models.Json.{Json, int, text, Builtins, shown, is_truthy}
use tasklite.Models.State.{Metadata}

pub data ErrorCategory : Type 0 where
  fatal transient_exhausted dependency deadlock no_handler validation : ErrorCategory
  commit_failure dispatch interrupted unknown : ErrorCategory

-- The members' values, which the archives hold.
unfoldable pub category_value : ErrorCategory → String
category_value fatal = "fatal"
category_value transient_exhausted = "transient_exhausted"
category_value dependency = "dependency"
category_value deadlock = "deadlock"
category_value no_handler = "no_handler"
category_value validation = "validation"
category_value commit_failure = "commit_failure"
category_value dispatch = "dispatch"
category_value interrupted = "interrupted"
category_value unknown = "unknown"

pub record ErrorClassification : Type 0 where
  pub category : ErrorCategory
  pub error_code : String
  pub error_category : Json
  pub is_transient : Bool
  pub is_fatal : Bool
  pub is_retry : Bool
  pub is_interrupted : Bool
  pub traceback_str : Option Json
  pub raw_error : String

-- A category, with its value for the archive.
abbrev pub classified : ErrorCategory → String → Bool → Bool → Bool → String → ErrorClassification
classified category error_code is_transient is_fatal is_retry raw_error = record {
  category = category;
  error_code = error_code;
  error_category = text (category_value category);
  is_transient = is_transient;
  is_fatal = is_fatal;
  is_retry = is_retry;
  is_interrupted = false;
  traceback_str = none;
  raw_error = raw_error;
}

-- `error.startswith(code)`
unfoldable pub starts_with : String → String → Bool
starts_with String.[] error = true
starts_with (String.◌∷◌ c prefix) String.[] = false
starts_with (String.◌∷◌ c prefix) (String.◌∷◌ d error) =
    code c == code d && starts_with prefix error

pub record CodeRow : Type 0 where
  pub code_prefix : String
  pub category : ErrorCategory
  pub is_transient : Bool
  pub is_fatal : Bool

abbrev code_row : String → ErrorCategory → Bool → Bool → CodeRow
code_row p c t f = record { code_prefix = p; category = c; is_transient = t; is_fatal = f }

-- The table of `_classify_string`; a code equals a text only if the text starts with it.
abbrev pub code_rows : List CodeRow
code_rows =
    code_row "DEPENDENCY_DEADLOCK" deadlock false false
    ∷ code_row "RESOURCE_DEADLOCK" deadlock false false
    ∷ code_row "MALFORMED_JOB" deadlock false false
    ∷ code_row "DEADLOCK_CLASSIFICATION_GAP" deadlock false false
    ∷ code_row "JOB_DEPENDENCY" dependency false false
    ∷ code_row "MAX_RETRIES_EXCEEDED" transient_exhausted false false
    ∷ code_row "NO_HANDLER" no_handler false true
    ∷ code_row "PAYLOAD_VALIDATION_FAILED" validation false false
    ∷ code_row "TIMEOUT (" fatal false true
    ∷ code_row "PROCESS_CRASH_EXITCODE_" transient_exhausted true false
    ∷ code_row "NO_IPC_RESULT" transient_exhausted true false
    ∷ code_row "PROCESS_SIGNAL_DEATH" transient_exhausted true false
    ∷ code_row "IPC_RESULT_WRITE_DEGRADED" transient_exhausted true false
    ∷ code_row "COMMIT_FAILURE" commit_failure false false
    ∷ code_row "DISPATCH_FAILURE" dispatch false false
    ∷ []

unfoldable pub classify_by : List CodeRow → String → ErrorClassification
classify_by [] error = classified unknown "" false false false error
classify_by (row ∷ rows) error =
    let rest = classify_by rows error in
    if starts_with row.code_prefix error
    then classified row.category row.code_prefix row.is_transient row.is_fatal false error
    else rest

-- `_classify_string`
unfoldable pub classify_string : String → ErrorClassification
classify_string error = classify_by code_rows error

module _ ⦃p : Builtins⦄ where
  -- `_safe_str(meta.get(key, ""))`
  unfoldable pub message : String → Metadata → String
  message key meta = elim (lookup key meta) [ none ↦ "" | some v ↦ shown v ]

  unfoldable pub truthy_at : String → Metadata → Bool
  truthy_at key meta = elim (lookup key meta) [ none ↦ false | some v ↦ is_truthy v ]

  unfoldable pub status : Metadata → Option String
  status meta = elim (lookup "status" meta) [ some (text s) ↦ some s | _ ↦ none ]

  -- `raw_category and raw_category != "unknown"`
  unfoldable pub own_category : Option Json → Option Json
  own_category none = none
  own_category (some (text s)) = if s == "" || s == "unknown" then none else some (text s)
  own_category (some v) = if is_truthy v then some v else none

  -- The archive branch of `_classify_dict`.
  unfoldable pub classify_archived : Metadata → ErrorClassification
  unfolding truthy_at message own_category
  classify_archived meta =
      let error = message "error_message" meta in
      let by_code = classify_string error in
      if truthy_at "is_fatal" meta
      then record (classified fatal error false true false error) {
        traceback_str = lookup "traceback" meta;
      }
      else elim (own_category (lookup "error_category" meta)) [
        | none ↦ by_code
        | some category ↦ record by_code {
          error_code = error;
          error_category = category;
          traceback_str = lookup "traceback" meta;
          raw_error = error;
        }
      ]

  unfoldable pub is_status : String → Option String → Bool
  is_status s none = false
  is_status s (some t) = s == t

  -- `_classify_dict`
  unfoldable pub classify_dict : Metadata → ErrorClassification
  unfolding classify_archived message status is_status
  classify_dict meta =
      let error = message "error_message" meta in
      if is_status "retry" (status meta)
      then record (classified transient_exhausted "MAX_RETRIES_EXCEEDED" true false true error) {
        traceback_str = lookup "traceback" meta;
      }
      else if is_status "fatal" (status meta)
      then record (classified fatal "" false true false error) {
        traceback_str = lookup "traceback" meta;
      }
      else if is_status "interrupted" (status meta)
      then record (classified interrupted "INTERRUPTED" false false false error) {
        error_category = text "unknown";
        is_interrupted = true;
      }
      else classify_archived meta

  unfoldable pub with_category : Metadata → Metadata
  unfolding truthy_at
  with_category meta =
      if truthy_at "error_category" meta
      then meta
      else insert "error_category" (classify_dict meta).error_category meta

  unfoldable pub set_default : String → Json → Metadata → Metadata
  set_default key v meta = if has key meta then meta else insert key v meta

  unfoldable pub with_attempt : Option ℕ → Metadata → Metadata
  unfolding set_default
  with_attempt none meta = set_default "attempt_no" (int (pos 0)) meta
  with_attempt (some n) meta = insert "attempt_no" (int (pos n)) meta

  -- `normalize_failure_metadata` of a dict; `now` is the clock's time.
  unfoldable pub normalize_failure_metadata : String → Option ℕ → Metadata → Metadata
  unfolding with_category set_default with_attempt
  normalize_failure_metadata now attempt_no meta =
      with_attempt attempt_no (set_default "failed_at" (text now) (with_category meta))
