-- ===== src/Engine/ErrorClass/Death.antt =====
-- `classify_process_death` of tasklite/engine/errorclass.py: the decision table for a subprocess that
-- ended without a result.
pub mod Archived
use tasklite.Common.{
  ℕ, zero, suc, String, Bool, true, false, Option, none, some, List, [], ◌∷◌, ◌⧺◌, nat_eq,
}
use tasklite.Models.Job.{ℤ, pos, negsuc}
use tasklite.Models.Json.{Json, int, text, flag, Builtins, shown}
use tasklite.Models.State.{Metadata}
use tasklite.Engine.ErrorClass.{ErrorCategory, fatal, transient_exhausted}

-- The operating system's signals: `signal.Signals(n).name`, and SIGKILL where there is one.
pub record Platform : Type 0 where
  pub signal_name : ℕ → Option String
  pub sigkill : Option ℕ

pub record DeathAttribution : Type 0 where
  pub retry_requested : Bool
  pub result_metadata : Metadata
  pub retry_error : Option String
  pub error_category : ErrorCategory

module _ ⦃b : Builtins⦄ (platform : Platform) where
  timeout_text : Json → String
  timeout_text seconds = "TIMEOUT (" ⧺ shown seconds ⧺ "s)"

  crash_message : ℤ → String × Json
  crash_message exitcode =
      ("error_message", text ("PROCESS_CRASH_EXITCODE_" ⧺ shown (int exitcode)))

  signal_text : ℕ → String
  signal_text n = elim (platform.signal_name n) [
    | none ↦ "SIGNO" ⧺ shown (int (pos n))
    | some name ↦ name
  ]

  is_sigkill : ℕ → Option ℕ → Bool
  is_sigkill n none = false
  is_sigkill n (some kill) = nat_eq n kill

  -- A retry for any death but a timeout.
  transient_death : Metadata → String → DeathAttribution
  transient_death metadata error = record {
    retry_requested = true;
    result_metadata = metadata;
    retry_error = some error;
    error_category = transient_exhausted;
  }

  no_result : DeathAttribution
  unfolding transient_death
  no_result =
      transient_death (("error_message", text "NO_IPC_RESULT") ∷ [])
        "NO_IPC_RESULT: worker exited without writing a result file"

  by_exitcode : Option ℤ → DeathAttribution
  unfolding no_result transient_death crash_message signal_text is_sigkill
  by_exitcode none = no_result
  by_exitcode (some (pos zero)) = no_result
  by_exitcode (some (pos (suc n))) =
      transient_death (crash_message (pos (suc n)) ∷ [])
        ("PROCESS_CRASH_EXIT: worker exited with code " ⧺ shown (int (pos (suc n))))
  by_exitcode (some (negsuc n)) =
      transient_death
        (crash_message (negsuc n)
          ∷ ("signal", text (signal_text (suc n)))
          ∷ ("oom_hint", flag (is_sigkill (suc n) platform.sigkill))
          ∷ [])
        ("PROCESS_SIGNAL_DEATH: killed by "
          ⧺ signal_text (suc n)
          ⧺ " ("
          ⧺ shown (int (negsuc n))
          ⧺ ")")

  unfoldable pub classify_process_death : Option ℤ → Bool → Json → Bool → DeathAttribution
  unfolding by_exitcode timeout_text
  classify_process_death exitcode true seconds true = record {
    retry_requested = true;
    result_metadata = [];
    retry_error = some (timeout_text seconds);
    error_category = transient_exhausted;
  }
  classify_process_death exitcode true seconds false = record {
    retry_requested = false;
    result_metadata = ("error_message", text (timeout_text seconds)) ∷ [];
    retry_error = none;
    error_category = fatal;
  }
  classify_process_death exitcode false seconds timeout_is_transient = by_exitcode exitcode
