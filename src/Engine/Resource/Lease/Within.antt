-- ===== src/Engine/Resource/Lease/Within.antt =====
-- Reservations and the capacities of tasklite/engine/resource.py.
use tasklite.Common.{
  ℕ, ◌+◌, ◌≤◌, String, true, false, ◌≡◌, ◌⊎◌, refl, sym, subst, ◌∙◌, Option, none, some, [], ◌∷◌,
  Dict, lookup, eq_string, ==_iff, arith, ◌==◌, Bool-cases, inl, inr, keys, IsDistinct, contains,
}
use tasklite.Engine.Resource.{
  Resource, rate_limit, capacity, Capacity, ResourceManager, can_acquire, available, evaluate_all,
  evaluate, effective_resources,
}
use tasklite.Engine.Resource.Lease.{reserve, leased, ResourceLease}
use tasklite.Engine.Resource.Lease.Accounts.{total, use_more}
use tasklite.Engine.Resource.Lease.Atomic.{reserve_atomic, IsAccounted}
use tasklite.Engine.Resource.Lease.Admits.{evaluate_all_available}

total_absent :
    (name : String) (d : Dict String ℕ) → contains name (keys d) ≡ false → total name d ≡ 0
unfolding contains keys
total_absent name [] h = refl
total_absent name ((other, amount) ∷ more) h =
    ground (arith, total_absent name more, ==_iff other name)

total_once :
    (name : String) (d : Dict String ℕ)
    → IsDistinct (keys d)
    → (total name d ≡ 0) ⊎ (lookup name d ≡ some (total name d))
unfolding keys lookup
total_once name [] h = inl refl
total_once name ((other, amount) ∷ more) h = elim (Bool-cases (other == name)) [
  | inl same ↦
      let here : other ≡ name = (==_iff other name).0 same in
      let none_left : total name more ≡ 0 =
        total_absent name more (subst (λ n. contains n (keys more) ≡ false) here h.0) in
      inr (ground (arith, none_left, same))
  | inr other_name ↦ elim (total_once name more h.1) [
    | inl zero_left ↦ inl (ground (arith, other_name, zero_left))
    | inr there ↦ inr (ground (arith, other_name, there))
  ]
]

fits :
    (now amount : ℕ) (c : Capacity)
    → (can_acquire now amount (capacity c)).0 ≡ true
    → c.used + amount ≤ c.max_capacity
unfolding can_acquire
fits now amount c h = ground arith

evaluate_all_fits :
    (clock : String → ℕ) (before : Dict String Resource) (name : String) (eff : Dict String ℕ)
    (c : Capacity) {amount : ℕ}
    → evaluate_all clock before eff 0 ≡ available
    → lookup name before ≡ some (capacity c)
    → lookup name eff ≡ some amount
    → c.used + amount ≤ c.max_capacity
unfolding lookup
evaluate_all_fits clock before name [] c {amount} ok e k =
    let never : Option.none ≡ some amount = k in ground arith
evaluate_all_fits clock before name ((other, most) ∷ more) c {amount} ok e k =
    let ((kind, found, able), rest) = evaluate_all_available clock before other most more ok in
    elim (Bool-cases (other == name)) [
      | inl same ↦
          let here : other ≡ name = (==_iff other name).0 same in
          let kinds : kind ≡ capacity c = cc in
          let mine : most ≡ amount = ground (arith, same) in
          subst (λ a. c.used + a ≤ c.max_capacity) mine
            (fits (clock other) most c
              (subst (λ x. (can_acquire (clock other) most x).0 ≡ true) kinds able))
      | inr apart ↦
          evaluate_all_fits clock before name more c {amount = amount} rest e
            (ground (arith, apart))
    ]

use_more_capacity :
    (taken : ℕ) (o : Option Resource) {c : Capacity}
    → use_more taken o ≡ some (capacity c)
    → (c' : Capacity) × (o ≡ some (capacity c'))
      × (c.used ≡ c'.used + taken)
      × (c.max_capacity ≡ c'.max_capacity)
use_more_capacity taken none h = ground arith
use_more_capacity taken (some (rate_limit r)) h = ground arith
use_more_capacity taken (some (capacity c)) h = (c, refl, cc, cc)

-- After a job for which `evaluate` found its resources available has reserved them, none of them
-- listed twice, no capacity that it asks for is used beyond its maximum.
pub reserve-within :
    (clock clock' : String → ℕ) (task_type : String) (base : Dict String ℕ)
    (m after : ResourceManager) (l : ResourceLease) (name : String) (c : Capacity) (amount : ℕ)
    → IsDistinct (keys (effective_resources m task_type base))
    → evaluate clock m task_type base ≡ available
    → reserve clock' task_type base m ≡ (leased l, after)
    → lookup name (effective_resources m task_type base) ≡ some amount
    → lookup name after.resources ≡ some (capacity c)
    → c.used ≤ c.max_capacity
unfolding evaluate
reserve-within clock clock' task_type base m after l name c amount distinct ok done asked now =
    let eff = effective_resources m task_type base in
    let facts : IsAccounted m.resources eff (leased l, after) =
      subst (IsAccounted m.resources eff) done (reserve_atomic clock' task_type base m) in
    let (c', e, used, most) =
      use_more_capacity (total name l.acquired) (lookup name m.resources) {c = c}
        (sym (facts.0 name) ∙ now) in
    let room : c'.used + amount ≤ c'.max_capacity =
      evaluate_all_fits clock m.resources name eff c' {amount = amount} ok e asked in
    elim (total_once name eff distinct) [
      | inl nothing ↦ omega (arith, used, most, room, nothing, facts.1 name)
      | inr one ↦
          let same : amount ≡ total name eff = cc in
          omega (arith, used, most, room, same, facts.1 name)
    ]
