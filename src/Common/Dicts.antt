-- ===== src/Common/Dicts.antt =====
-- Python's `dict` as an association list in insertion order: a write keeps the place of its key.
use mathlib.Core.Path.{◌≡◌, refl}
use mathlib.Core.Bool.{Bool, true, false, not, ◌&&◌, ◌||◌}
use mathlib.Core.Option.{Option, none, some}
use mathlib.Core.List.{List, [], ◌∷◌, map}
use native.Mathlib.Omega.{arith}
use tasklite.Common.Tests.{Eq, ◌==◌, ==_iff, if◌then◌else◌}
use tasklite.Common.Lists.{keep}
use tasklite.Common.Sets.{contains}

abbrev pub Dict {ℓ κ} : Type ℓ → Type κ → Type (ℓ ⊔ κ)
Dict K V = List (K × V)

module _ {ℓ κ} {K : Type ℓ} {V : Type κ} ⦃e : Eq K⦄ where
  -- `d.get(k)`
  unfoldable pub lookup : K → Dict K V → Option V
  lookup k [] = none
  lookup k ((j, v) ∷ d) = if j == k then some v else lookup k d

  -- `d[k] = v`
  unfoldable pub insert : K → V → Dict K V → Dict K V
  insert k v [] = (k, v) ∷ []
  insert k v ((j, w) ∷ d) = if j == k then (k, v) ∷ d else (j, w) ∷ insert k v d

  -- `d.pop(k, None)`
  unfoldable pub erase : K → Dict K V → Dict K V
  erase k d = keep (λ entry. not (entry.0 == k)) d

  -- `k in d`
  unfoldable pub has : K → Dict K V → Bool
  has k [] = false
  has k ((j, v) ∷ d) = j == k || has k d

  -- `set(d)`
  unfoldable pub keys : Dict K V → List K
  keys d = map (λ entry. entry.0) d

  pub lookup-insert :
      (j k : K) (v : V) (d : Dict K V)
      → lookup j (insert k v d) ≡ (if k == j then some v else lookup j d)
  unfolding lookup insert
  lookup-insert j k v [] = refl
  lookup-insert j k v ((i, w) ∷ d) =
      ground (arith, ==_iff k j, ==_iff i k, ==_iff i j, lookup-insert j k v d)

  pub lookup-erase :
      (j k : K) (d : Dict K V) → lookup j (erase k d) ≡ (if k == j then none else lookup j d)
  unfolding lookup erase keep
  lookup-erase j k [] = ground arith
  lookup-erase j k ((i, w) ∷ d) =
      ground (arith, ==_iff k j, ==_iff i k, ==_iff i j, lookup-erase j k d)

  pub has-insert : (j k : K) (v : V) (d : Dict K V) → has j (insert k v d) ≡ (k == j || has j d)
  unfolding has insert
  has-insert j k v [] = ground arith
  has-insert j k v ((i, w) ∷ d) =
      ground (arith, ==_iff k j, ==_iff i k, ==_iff i j, has-insert j k v d)

  pub has-erase : (j k : K) (d : Dict K V) → has j (erase k d) ≡ (not (k == j) && has j d)
  unfolding has erase keep
  has-erase j k [] = ground arith
  has-erase j k ((i, w) ∷ d) = ground (arith, ==_iff k j, ==_iff i k, ==_iff i j, has-erase j k d)

  pub contains-keys : (k : K) (d : Dict K V) → contains k (keys d) ≡ has k d
  unfolding contains keys has
  contains-keys k [] = refl
  contains-keys k ((i, w) ∷ d) = ground (arith, contains-keys k d)

  pub has_when_found : (k : K) {v : V} (d : Dict K V) → lookup k d ≡ some v → has k d ≡ true
  unfolding has lookup
  has_when_found k [] h = cc
  has_when_found k {v} ((i, w) ∷ d) h = ground (arith, has_when_found k {v = v} d)

  pub absent_when_none : (k : K) (d : Dict K V) → lookup k d ≡ none → has k d ≡ false
  unfolding has lookup
  absent_when_none k [] h = refl
  absent_when_none k ((i, w) ∷ d) h = ground (arith, absent_when_none k d)
