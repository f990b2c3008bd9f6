-- ===== src/Engine/ErrorClass/Death/Archived.antt =====
-- What the archive of tasklite/engine/errorclass.py makes of the text of a process death.
use Prim.Native.Char.{code}
use Prim.Native.String.append
use tasklite.Common.{
  ℕ, zero, suc, String, Bool, true, false, not, ◌&&◌, ◌||◌, ◌≡◌, ◌∙◌, ap, refl, Option, none, some,
  List, [], ◌∷◌, ◌⧺◌, every, lookup, insert, lookup-insert, eq_string, eq_nat, ◌==◌, arith,
}
use tasklite.Models.Job.{ℤ, pos, negsuc}
use tasklite.Models.Json.{Json, int, text, Builtins, shown}
use tasklite.Models.State.{Metadata}
use tasklite.Engine.ErrorClass.{
  category_value, CodeRow, code_rows, starts_with, classify_string, classify_by, classify_dict,
  classify_archived, message, truthy_at, status, own_category, is_status,
  normalize_failure_metadata, with_category, with_attempt, set_default,
}
use tasklite.Engine.ErrorClass.Death.{Platform, classify_process_death}

-- Whether a text starts with `p` is decided by its first part `q`.
abbrev is_decided : String → String → Bool
is_decided String.[] q = true
is_decided (String.◌∷◌ c p) String.[] = false
is_decided (String.◌∷◌ c p) (String.◌∷◌ d q) = not (code c == code d) || is_decided p q

starts_with-append :
    (p q s : String) → is_decided p q ≡ true → starts_with p (q ⧺ s) ≡ starts_with p q
unfolding starts_with
starts_with-append String.[] q s h = refl
starts_with-append (String.◌∷◌ c p) String.[] s h = cc
starts_with-append (String.◌∷◌ c p) (String.◌∷◌ d q) s h =
    rw append.cons (ground (arith, starts_with-append p q s))

classify_by-append :
    (rows : List CodeRow) (q s : String)
    → every (λ row. is_decided row.code_prefix q) rows ≡ true
    → classify_by rows (q ⧺ s) ≡ record (classify_by rows q) { raw_error = q ⧺ s }
unfolding classify_by every
classify_by-append [] q s h = refl
classify_by-append (row ∷ rows) q s h =
    ground (arith, starts_with-append row.code_prefix q s, classify_by-append rows q s)

module _ ⦃b : Builtins⦄ where
  lookup-set_default :
      (j k : String) (v : Json) (meta : Metadata)
      → (k == j) ≡ false
      → lookup j (set_default k v meta) ≡ lookup j meta
  unfolding set_default
  lookup-set_default j k v meta apart = ground (arith, lookup-insert j k v meta)

  lookup-with_attempt :
      (attempt_no : Option ℕ) (meta : Metadata)
      → lookup "error_category" (with_attempt attempt_no meta) ≡ lookup "error_category" meta
  unfolding with_attempt
  lookup-with_attempt none meta =
      lookup-set_default "error_category" "attempt_no" (int (pos 0)) meta refl
  lookup-with_attempt (some n) meta = lookup-insert "error_category" "attempt_no" (int (pos n)) meta

  classify_dict-no_status :
      (meta : Metadata) → lookup "status" meta ≡ none → classify_dict meta ≡ classify_archived meta
  unfolding classify_dict is_status
  classify_dict-no_status meta h =
      let no_status : status meta ≡ none = unfold status in rw (h, status) refl in rw no_status refl

  truthy_at-absent :
      (key : String) (meta : Metadata) → lookup key meta ≡ none → truthy_at key meta ≡ false
  unfolding truthy_at
  truthy_at-absent key meta h = rw (h, truthy_at) refl

  message-text :
      (key : String) (meta : Metadata) {e : String}
      → lookup key meta ≡ some (text e)
      → message key meta ≡ e
  unfolding message shown
  message-text key meta h = rw (h, message) refl

  classify_archived-text :
      (meta : Metadata) (e : String)
      → lookup "error_message" meta ≡ some (text e)
      → lookup "is_fatal" meta ≡ none
      → lookup "error_category" meta ≡ none
      → classify_archived meta ≡ classify_string e
  unfolding classify_archived own_category
  classify_archived-text meta e m f c =
      rw (truthy_at-absent "is_fatal" meta f, c)
        (ap classify_string (message-text "error_message" meta {e = e} m))

  -- What is written for a failure with a message only.
  normalize-uncategorised :
      (now : String) (attempt_no : Option ℕ) (meta : Metadata) (e : String)
      → lookup "error_message" meta ≡ some (text e)
      → lookup "status" meta ≡ none
      → lookup "is_fatal" meta ≡ none
      → lookup "error_category" meta ≡ none
      → lookup "error_category" (normalize_failure_metadata now attempt_no meta)
        ≡ some (classify_string e).error_category
  unfolding normalize_failure_metadata
  normalize-uncategorised now attempt_no meta e m s f c =
      let by_code : classify_dict meta ≡ classify_string e =
        classify_dict-no_status meta s ∙ classify_archived-text meta e m f c in
      let category = (classify_string e).error_category in
      let written : with_category meta ≡ insert "error_category" category meta =
        unfold with_category in rw (truthy_at-absent "error_category" meta c, by_code) refl in
      lookup-with_attempt attempt_no (set_default "failed_at" (text now) (with_category meta))
      ∙ lookup-set_default "error_category" "failed_at" (text now) (with_category meta) refl
      ∙ rw written (lookup-insert "error_category" "error_category" category meta)

timeout_category : (s : String) → (classify_string ("TIMEOUT (" ⧺ s)).error_category ≡ text "fatal"
unfolding classify_string
timeout_category s =
    rw (classify_by-append code_rows "TIMEOUT (" s (unfold every in refl))
      (unfold classify_by starts_with category_value in refl)

crash_category :
    (s : String)
    → (classify_string ("PROCESS_CRASH_EXITCODE_" ⧺ s)).error_category ≡ text "transient_exhausted"
unfolding classify_string
crash_category s =
    rw (classify_by-append code_rows "PROCESS_CRASH_EXITCODE_" s (unfold every in refl))
      (unfold classify_by starts_with category_value in refl)

no_result_category : (classify_string "NO_IPC_RESULT").error_category ≡ text "transient_exhausted"
unfolding classify_string classify_by starts_with category_value
no_result_category = refl

module _ ⦃b : Builtins⦄ where
  -- For every death but one that is retried as a timeout: the archive row that is written of the
  -- table's metadata gets the category that the table names.
  pub classify_process_death-normalize :
      (platform : Platform) (exitcode : Option ℤ) (timed_out timeout_is_transient : Bool)
      (seconds : Json) (now : String) (attempt_no : Option ℕ)
      → (timed_out && timeout_is_transient) ≡ false
      → lookup "error_category" (
          normalize_failure_metadata now attempt_no
            (classify_process_death platform exitcode timed_out seconds
              timeout_is_transient).result_metadata)
        ≡ some (
            text (
              category_value
                (classify_process_death platform exitcode timed_out seconds
                  timeout_is_transient).error_category))
  unfolding classify_process_death category_value lookup
  classify_process_death-normalize platform exitcode true true seconds now attempt_no h = cc
  classify_process_death-normalize platform exitcode true false seconds now attempt_no h =
      normalize-uncategorised now attempt_no _ _ refl refl refl refl
      ∙ ap some (timeout_category (shown seconds ⧺ "s)"))
  classify_process_death-normalize platform none false tr seconds now attempt_no h =
      normalize-uncategorised now attempt_no _ "NO_IPC_RESULT" refl refl refl refl
      ∙ ap some no_result_category
  classify_process_death-normalize platform (some (pos zero)) false tr seconds now attempt_no h =
      normalize-uncategorised now attempt_no _ "NO_IPC_RESULT" refl refl refl refl
      ∙ ap some no_result_category
  classify_process_death-normalize platform (some (pos (suc n))) false tr seconds now attempt_no h =
      normalize-uncategorised now attempt_no _ _ refl refl refl refl
      ∙ ap some (crash_category (shown (int (pos (suc n)))))
  classify_process_death-normalize platform (some (negsuc n)) false tr seconds now attempt_no h =
      normalize-uncategorised now attempt_no _ _ refl refl refl refl
      ∙ ap some (crash_category (shown (int (negsuc n))))
