-- ===== src/Selection.antt =====
-- tasklite/selection.py: which task types a run leaves out.
use tasklite.Common.{
  String, Bool, true, false, not, ◌&&◌, ◌||◌, ◌≡◌, refl, List, [], ◌∷◌, ◌++◌, exists, ◌==◌,
  eq_string, arith,
}

-- A rule of another class than `Exclude` and `Skip` is its `matches_task_type`, which answers: one that
-- raises, and whose exception would pass through the scan, is not modelled.
pub data Rule : Type 0 where
  exclude skip : String → Rule
  custom : (String → Bool) → Rule

unfoldable pub matches_task_type : String → Rule → Bool
matches_task_type t (exclude task_type) = t == task_type
matches_task_type t (skip task_type) = t == task_type
matches_task_type t (custom matches) = matches t

-- `isinstance(rule, Skip)`
unfoldable pub is_skip : Rule → Bool
is_skip (skip task_type) = true
is_skip _ = false

unfoldable pub is_active : List Rule → Bool
is_active [] = false
is_active (rule ∷ rules) = true

unfoldable pub has_skip_rules : List Rule → Bool
has_skip_rules rules = exists is_skip rules

unfoldable pub is_skipped : List Rule → String → Bool
is_skipped rules t = exists (λ rule. is_skip rule && matches_task_type t rule) rules

unfoldable pub is_excluded : List Rule → String → Bool
is_excluded rules t =
    not (is_skipped rules t)
    && exists (λ rule. not (is_skip rule) && matches_task_type t rule) rules

unfoldable pub allows_task_type : List Rule → String → Bool
allows_task_type rules t = not (is_skipped rules t) && not (is_excluded rules t)

exists_split :
    (t : String) (rules : List Rule)
    → exists (matches_task_type t) rules ≡ (
        exists (λ rule. is_skip rule && matches_task_type t rule) rules
        || exists (λ rule. not (is_skip rule) && matches_task_type t rule) rules)
unfolding exists
exists_split t [] = refl
exists_split t (rule ∷ rules) = ground (arith, exists_split t rules)

exists-append :
    (p : Rule → Bool) (xs ys : List Rule) → exists p (xs ++ ys) ≡ (exists p xs || exists p ys)
unfolding exists
exists-append p [] ys = refl
exists-append p (x ∷ xs) ys = ground (arith, exists-append p xs ys)

-- A task type runs exactly if no rule of either kind matches it; it is never both skipped and
-- excluded; and the order in which two groups of rules were configured does not matter.
pub allows_task_type_iff :
    (rules more : List Rule) (t : String)
    → (allows_task_type rules t ≡ not (exists (matches_task_type t) rules))
      × ((is_skipped rules t && is_excluded rules t) ≡ false)
      × (is_skipped (rules ++ more) t ≡ is_skipped (more ++ rules) t)
      × (is_excluded (rules ++ more) t ≡ is_excluded (more ++ rules) t)
unfolding allows_task_type is_excluded is_skipped
allows_task_type_iff rules more t =
    let skips : Rule → Bool = λ rule. is_skip rule && matches_task_type t rule in
    let others : Rule → Bool = λ rule. not (is_skip rule) && matches_task_type t rule in
    (
      ground (arith, exists_split t rules),
      ground arith,
      ground (arith, exists-append skips rules more, exists-append skips more rules),
      ground (
        arith,
        exists-append skips rules more,
        exists-append skips more rules,
        exists-append others rules more,
        exists-append others more rules,
      ),
    )
