-- ===== src/Engine/Resource/Lease/Accounts.antt =====
-- What reserving and releasing do to the accounts of the capacities.
use tasklite.Common.{
  ℕ, ◌+◌, ◌-◌, String, false, ◌≡◌, refl, sym, ◌∙◌, ap, Option, none, some, List, [], ◌∷◌, ◌++◌,
  Dict, lookup, insert, lookup-insert, eq_string, ==_iff, arith, ◌==◌, Option-cases, inl, inr,
  if◌then◌else◌, ltb,
}
use tasklite.Engine.Resource.{Resource, rate_limit, capacity, ResourceManager, release}
use tasklite.Engine.Resource.Lease.{release_all}

-- The sum of the amounts under a name.
abbrev pub total : String → List (String × ℕ) → ℕ
total name [] = 0
total name ((other, amount) ∷ more) =
    let rest = total name more in if other == name then amount + rest else rest

pub total-append :
    (name : String) (xs ys : List (String × ℕ))
    → total name (xs ++ ys) ≡ total name xs + total name ys
total-append name [] ys = omega arith
total-append name ((other, amount) ∷ xs) ys = ground (arith, total-append name xs ys)

-- A capacity with `amount` more in use.
abbrev pub use_more : ℕ → Option Resource → Option Resource
use_more amount none = none
use_more amount (some (rate_limit r)) = some (rate_limit r)
use_more amount (some (capacity c)) = some (capacity (record c { used = c.used + amount }))

pub use_more_zero : (o : Option Resource) → use_more 0 o ≡ o
use_more_zero none = refl
use_more_zero (some (rate_limit r)) = refl
use_more_zero (some (capacity c)) = ap (λ u. some (capacity (record c { used = u }))) (omega arith)

-- The resources are those of before with the amounts in use.
abbrev pub HasInUse : Dict String Resource → List (String × ℕ) → Dict String Resource → Type 0
HasInUse before acquired after =
    (name : String) → lookup name after ≡ use_more (total name acquired) (lookup name before)

pub HasInUse-nothing : (d : Dict String Resource) → HasInUse d [] d
HasInUse-nothing d name = sym (use_more_zero (lookup name d))

abbrev released : ℕ → Option Resource → Option Resource
released amount none = none
released amount (some r) = some (release amount r)

released-use_more :
    (amount rest : ℕ) (o : Option Resource)
    → released amount (use_more (amount + rest) o) ≡ use_more rest o
unfolding release
released-use_more amount rest none = refl
released-use_more amount rest (some (rate_limit r)) = refl
released-use_more amount rest (some (capacity c)) =
    let less : c.used + (amount + rest) - amount ≡ c.used + rest = omega arith in
    let enough : ltb (c.used + (amount + rest)) amount ≡ false = ground arith in
    rw (less, enough) refl

use_more_none : (a b : ℕ) (o : Option Resource) → use_more a o ≡ none → use_more b o ≡ none
use_more_none a b none h = refl
use_more_none a b (some (rate_limit r)) h = cc
use_more_none a b (some (capacity c)) h = cc

-- Releasing amounts that are in use gives the resources of before.
pub release_all_restores :
    (acquired : List (String × ℕ)) (before : Dict String Resource) (m : ResourceManager)
    → HasInUse before acquired m.resources
    → (name : String) → lookup name (release_all acquired m).resources ≡ lookup name before
unfolding release_all
release_all_restores [] before m h name = h name ∙ use_more_zero (lookup name before)
release_all_restores ((taken, amount) ∷ more) before m h name =
    elim (Option-cases (lookup taken m.resources)) [
      | inl e ↦
          rw (e, release_all)
            (release_all_restores more before m
              (λ n. ground (
                arith,
                ==_iff taken n,
                h n,
                use_more_none (amount + total n more) (total n more) (lookup n before),
              ))
              name)
      | inr (r, e) ↦
          rw (e, release_all)
            (release_all_restores more before
              (record m { resources = insert taken (release amount r) m.resources })
              (λ n. ground (
                arith,
                ==_iff taken n,
                h n,
                lookup-insert n taken (release amount r) m.resources,
                released-use_more amount (total n more) (lookup n before),
              ))
              name)
    ]
