-- ===== src/Models/State/Cascade/Falls.antt =====
-- What `cascade_fail` of tasklite/models/state.py is to find, said without its loop.
use tasklite.Common.{
  String, Bool, true, false, not, ◌&&◌, ◌≡◌, List, Dict, has, contains, eq_string, ◌==◌,
}
use tasklite.Models.State.{Metadata}

-- The jobs that wait for `root`, through jobs that are themselves open to failure.
pub data Cascades (waits : String → String → Bool) (opened : String → Bool) (root : String)
    : String → Type 0 where
  direct :
      {v : String}
      → waits root v ≡ true
      → opened v ≡ true
      → (root == v) ≡ false
      → Cascades waits opened root v
  onward :
      {u v : String}
      → Cascades waits opened root u
      → waits u v ≡ true
      → opened v ≡ true
      → (root == v) ≡ false
      → Cascades waits opened root v

-- Neither excluded nor finished.
abbrev pub open_to_failure :
    Dict String Metadata → Dict String Metadata → List String → String → Bool
open_to_failure successes failed excluded v =
    not (contains v excluded) && not (has v successes) && not (has v failed)
