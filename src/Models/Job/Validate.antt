-- ===== src/Models/Job/Validate.antt =====
-- The validators of tasklite/models/job.py and tasklite/models/task.py. `none` is the exception.
use Prim.Native.Char.{code}
use Prim.Native.String.{len}
use tasklite.Common.{
  ℕ, suc, String, Bool, true, false, Option, none, some, List, [], ◌∷◌, ◌&&◌, ◌||◌, not, ◌==◌,
  eq_nat, eq_string, leb, if◌then◌else◌,
}
use tasklite.Utils.Encoding.{encode_job_uid_filename}

-- What a key of a dict holds: nothing, `None`, a value of another type (with its `str()`), or a
-- value of the type that is meant.
pub data Field {ℓ} (A : Type ℓ) : Type ℓ where
  absent null : Field A
  mistyped : String → Field A
  value : A → Field A

-- `negsuc n` is -(n + 1).
pub data ℤ : Type 0 where
  pos : ℕ → ℤ
  negsuc : ℕ → ℤ

-- A Python number that is no `bool`: NaN, an infinity or an int beyond the floats, or a finite one
-- in units of 2^-1074, of which every finite float is a multiple.
pub data Number : Type 0 where
  not_finite : Number
  finite : ℤ → Number

infixl 5 ◌>>=◌ ◌>>◌
abbrev pub ◌>>=◌ {ℓ κ} : {A : Type ℓ} {B : Type κ} → Option A → (A → Option B) → Option B
none >>= f = none
some a >>= f = f a

abbrev pub ◌>>◌ {ℓ} : {B : Type ℓ} → Option (Unit {0}) → Option B → Option B
m >> k = m >>= λ _. k

-- `if test: raise ...`
abbrev pub forbid : Bool → Option (Unit {0})
forbid true = none
forbid false = some tt

starts_colon : String → Bool
starts_colon String.[] = false
starts_colon (String.◌∷◌ c s) = code c == b':'

-- `"::" in text`
unfoldable pub has_separator : String → Bool
unfolding starts_colon
has_separator String.[] = false
has_separator (String.◌∷◌ c s) = (code c == b':' && starts_colon s) || has_separator s

-- The common rule of `validate_task_type` and `_validate_job_id`.
unfoldable pub valid_name : String → Bool
valid_name s = not (s == "") && not (has_separator s)

unfoldable pub validate_task_type : Field String → Option String
validate_task_type (value s) = if valid_name s then some s else none
validate_task_type _ = none

unfoldable pub validate_job_id : Field String → Option String
validate_job_id (value s) = if valid_name s then some s else none
validate_job_id _ = none

-- `_MAX_SAFE_UID_BYTES`
abbrev pub max_safe_uid_bytes : ℕ
max_safe_uid_bytes = 199

unfoldable pub validate_uid_ipc_filename : String → Option (Unit {0})
validate_uid_ipc_filename uid =
    forbid (not (leb (len (encode_job_uid_filename uid)) max_safe_uid_bytes))

unfoldable pub normalize_payload : Field (List (String × String)) → Option (List (String × String))
normalize_payload absent = some []
normalize_payload null = some []
normalize_payload (mistyped _) = none
normalize_payload (value d) = some d

validate_amount : Field Number → Option ℕ
validate_amount (value (finite (pos n))) = some n
validate_amount _ = none

-- The result repeats the mapping; a negative, infinite or mistyped amount raises.
unfoldable pub validate_resource_amounts : List (String × Field Number) → Option (List (String × ℕ))
unfolding validate_amount
validate_resource_amounts [] = some []
validate_resource_amounts ((name, amount) ∷ more) = do
  forbid (name == "")
  n ← validate_amount amount
  rest ← validate_resource_amounts more
  some ((name, n) ∷ rest)

unfoldable pub normalize_resources :
    Field (List (String × Field Number)) → Option (Option (List (String × ℕ)))
normalize_resources absent = some none
normalize_resources null = some none
normalize_resources (mistyped _) = none
normalize_resources (value d) = do amounts ← validate_resource_amounts d; some (some amounts)

unfoldable pub all_strings : List (Field String) → Option (List String)
all_strings [] = some []
all_strings (value s ∷ more) = do rest ← all_strings more; some (s ∷ rest)
all_strings (_ ∷ more) = none

unfoldable pub normalize_depends_on : Field (List (Field String)) → Option (List String)
unfolding all_strings
normalize_depends_on absent = some []
normalize_depends_on null = some []
normalize_depends_on (mistyped _) = none
normalize_depends_on (value items) = all_strings items

unfoldable pub validate_retry_budget : Field ℤ → Option (Option ℕ)
validate_retry_budget absent = some none
validate_retry_budget null = some none
validate_retry_budget (value (pos n)) = some (some n)
validate_retry_budget _ = none

unfoldable pub validate_timeout_seconds : Field Number → Option (Option ℕ)
validate_timeout_seconds absent = some none
validate_timeout_seconds null = some none
validate_timeout_seconds (value (finite (pos (suc n)))) = some (some (suc n))
validate_timeout_seconds _ = none

unfoldable pub validate_timeout_flag : Field Bool → Option (Option Bool)
validate_timeout_flag absent = some none
validate_timeout_flag null = some none
validate_timeout_flag (mistyped _) = none
validate_timeout_flag (value b) = some (some b)

unfoldable pub validate_trigger : Field String → Option (Option String)
validate_trigger absent = some none
validate_trigger null = some none
validate_trigger (mistyped _) = none
validate_trigger (value s) = if s == "" then none else some (some s)

-- `_validate_attempt_no` and `_validate_activation_no`; a missing key reads as 1.
unfoldable pub validate_counter : Field ℤ → Option ℕ
validate_counter absent = some 1
validate_counter (value (pos (suc n))) = some (suc n)
validate_counter _ = none

unfoldable pub validate_first_enqueued_at : Field String → Option (Option String)
validate_first_enqueued_at absent = some none
validate_first_enqueued_at null = some none
validate_first_enqueued_at (mistyped _) = none
validate_first_enqueued_at (value s) = if s == "" then none else some (some s)
