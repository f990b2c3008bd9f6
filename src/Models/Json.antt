-- ===== src/Models/Json.antt =====
-- The JSON values that metadata of tasklite holds, and what the program asks of Python about them.
use tasklite.Common.{
  zero, suc, String, Bool, true, false, not, Option, List, [], ◌∷◌, Dict, eq_string, ◌==◌,
}
use tasklite.Models.Job.{ℤ, pos, negsuc}

-- `texts` and `table` are a list of texts and a dict of texts; `other` is any other value, by its
-- truth value and its `str()`.
pub data Json : Type 0 where
  null : Json
  flag : Bool → Json
  int : ℤ → Json
  text : String → Json
  texts : List String → Json
  table : Dict String String → Json
  other : (is_true : Bool) → (shown : String) → Json

-- `str(value)` of a value that is no text, and `int(value)` where it is no exception.
pub record Builtins : Type 0 where
  pub show : Json → String
  pub int_of : Json → Option ℤ

-- `str(value)`
unfoldable pub shown : ⦃p : Builtins⦄ → Json → String
shown (text s) = s
shown ⦃p⦄ v = p.show v

-- `bool(value)`
unfoldable pub is_truthy : Json → Bool
is_truthy null = false
is_truthy (flag b) = b
is_truthy (int (pos zero)) = false
is_truthy (int (pos (suc n))) = true
is_truthy (int (negsuc n)) = true
is_truthy (text s) = not (s == "")
is_truthy (texts []) = false
is_truthy (texts (s ∷ ss)) = true
is_truthy (table []) = false
is_truthy (table (e ∷ es)) = true
is_truthy (other is_true shown) = is_true
