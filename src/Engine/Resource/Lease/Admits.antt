-- ===== src/Engine/Resource/Lease/Admits.antt =====
-- `evaluate` and `reserve` of tasklite/engine/resource.py compared.
use tasklite.Common.{
  ℕ, ◌+◌, ◌≤◌, ◌<◌, max, String, Bool, true, ◌≡◌, ◌≢◌, ◌⊎◌, refl, sym, subst, ◌∙◌, ap, none, some,
  List, [], ◌∷◌, ◌++◌, Dict, lookup, insert, eq_string, arith, Option-cases, inl, inr,
}
use tasklite.Engine.Wait.{Duration, for, forever}
use tasklite.Engine.Resource.{
  Resource, rate_limit, capacity, Capacity, RateLimit, ResourceManager, acquire, can_acquire,
  available, unknown, impossible, evaluate_all, evaluate, refusal, effective_resources,
}
use tasklite.Engine.Resource.Lease.{reserve_all, reserve, leased, ResourceLease}
use tasklite.Engine.Resource.Lease.Accounts.{total, use_more, HasInUse, HasInUse-nothing}
use tasklite.Engine.Resource.Lease.Atomic.{HasInUse-insert}

refusal_positive :
    (now amount : ℕ) (r : Resource) {t : ℕ}
    → refusal (can_acquire now amount r) ≡ some (for t)
    → 0 < t
unfolding can_acquire refusal
refusal_positive now amount (rate_limit r) h = ground arith
refusal_positive now amount (capacity c) h = ground arith

refusal_none : (answer : Bool × Duration) → refusal answer ≡ none → answer.0 ≡ true
unfolding refusal
refusal_none (ok, wait) h = ground arith

-- A wait once found is never dropped.
evaluate_all_waits :
    (clock : String → ℕ) (resources : Dict String Resource) (eff : Dict String ℕ) (w : ℕ)
    → 0 < w
    → evaluate_all clock resources eff w ≢ available
unfolding evaluate_all
evaluate_all_waits clock resources [] w h = ground arith
evaluate_all_waits clock resources ((name, amount) ∷ more) w h =
    elim (Option-cases (lookup name resources)) [
      | inl e ↦ rw (e, evaluate_all) (λ k. cc)
      | inr (r, e) ↦ elim (Option-cases (refusal (can_acquire (clock name) amount r))) [
        | inl o ↦ rw (e, evaluate_all, o) (evaluate_all_waits clock resources more w h)
        | inr (for t, o) ↦
            rw (e, evaluate_all, o)
              (evaluate_all_waits clock resources more (max w t) (ground arith))
        | inr (forever, o) ↦ rw (e, evaluate_all, o) (λ k. cc)
      ]
    ]

pub evaluate_all_available :
    (clock : String → ℕ) (resources : Dict String Resource) (name : String) (amount : ℕ)
    (more : Dict String ℕ)
    → evaluate_all clock resources ((name, amount) ∷ more) 0 ≡ available
    → ((r : Resource) × (lookup name resources ≡ some r)
        × ((can_acquire (clock name) amount r).0 ≡ true))
      × (evaluate_all clock resources more 0 ≡ available)
unfolding evaluate_all
evaluate_all_available clock resources name amount more h =
    elim (Option-cases (lookup name resources)) [
      | inl e ↦
          let stuck : evaluate_all clock resources ((name, amount) ∷ more) 0 ≡ unknown name =
            rw (e, evaluate_all) refl in
          cc
      | inr (r, e) ↦ elim (Option-cases (refusal (can_acquire (clock name) amount r))) [
        | inl o ↦
            let on : evaluate_all clock resources ((name, amount) ∷ more) 0
                ≡ evaluate_all clock resources more 0 =
              rw (e, evaluate_all, o) refl in
            ((r, e, refusal_none (can_acquire (clock name) amount r) o), sym on ∙ h)
        | inr (for t, o) ↦
            let on : evaluate_all clock resources ((name, amount) ∷ more) 0
                ≡ evaluate_all clock resources more (max 0 t) =
              rw (e, evaluate_all, o) refl in
            let positive : 0 < max 0 t =
              ground (arith, refusal_positive (clock name) amount r {t = t} o) in
            elim (evaluate_all_waits clock resources more (max 0 t) positive (sym on ∙ h)) [ ]
        | inr (forever, o) ↦
            let stuck : evaluate_all clock resources ((name, amount) ∷ more) 0 ≡ impossible name =
              rw (e, evaluate_all, o) refl in
            cc
      ]
    ]

-- What was open for an amount stays open for it as the clock goes on and capacities are taken.
stays_open :
    (now now' amount : ℕ) (r : RateLimit)
    → now ≤ now'
    → (can_acquire now amount (rate_limit r)).0 ≡ true
    → (can_acquire now' amount (rate_limit r)).0 ≡ true
unfolding can_acquire
stays_open now now' amount r h k = ground arith

takes :
    (now now' amount taken : ℕ) (c : Capacity)
    → (can_acquire now amount (capacity c)).0 ≡ true
    → (r : Resource) × (acquire now' amount (capacity (record c { used = c.used + taken }))
        ≡ some r)
unfolding can_acquire acquire
takes now now' amount taken c h =
    (capacity (record c { used = c.used + taken + amount }), ground arith)

Resource-cases :
    (r : Resource) → ((l : RateLimit) × (r ≡ rate_limit l)) ⊎ ((c : Capacity) × (r ≡ capacity c))
Resource-cases (rate_limit l) = inl (l, refl)
Resource-cases (capacity c) = inr (c, refl)

reserve_all_succeeds :
    (clock clock' : String → ℕ) (before : Dict String Resource)
    (acquired rate_limits : List (String × ℕ)) (eff : Dict String ℕ) (m : ResourceManager)
    → ((name : String) → clock name ≤ clock' name)
    → HasInUse before acquired m.resources
    → evaluate_all clock before eff 0 ≡ available
    → (l : ResourceLease) × (after : ResourceManager) × (reserve_all clock' acquired rate_limits eff
          m
        ≡ (leased l, after))
unfolding reserve_all
reserve_all_succeeds clock clock' before acquired rate_limits [] m later h ok = (_, _, refl)
reserve_all_succeeds clock clock' before acquired rate_limits ((name, amount) ∷ more) m later h ok =
    let ((kind, found, able), rest) = evaluate_all_available clock before name amount more ok in
    elim (Resource-cases kind) [
      | inl (r, k) ↦
          let e : lookup name before ≡ some (rate_limit r) = found ∙ ap some k in
          let can : (can_acquire (clock name) amount (rate_limit r)).0 ≡ true =
            subst (λ x. (can_acquire (clock name) amount x).0 ≡ true) k able in
          let now : lookup name m.resources ≡ some (rate_limit r) =
            h name ∙ ap (use_more (total name acquired)) e in
          rw (now, reserve_all, stays_open (clock name) (clock' name) amount r (later name) can)
            (reserve_all_succeeds clock clock' before acquired (rate_limits ++ (name, amount) ∷ [])
              more m later h rest)
      | inr (c, k) ↦
          let e : lookup name before ≡ some (capacity c) = found ∙ ap some k in
          let can : (can_acquire (clock name) amount (capacity c)).0 ≡ true =
            subst (λ x. (can_acquire (clock name) amount x).0 ≡ true) k able in
          let used : Capacity = record c { used = c.used + total name acquired } in
          let now : lookup name m.resources ≡ some (capacity used) =
            h name ∙ ap (use_more (total name acquired)) e in
          let (r, taking) = takes (clock name) (clock' name) amount (total name acquired) c can in
          rw (now, reserve_all, taking)
            (reserve_all_succeeds clock clock' before (acquired ++ (name, amount) ∷ []) rate_limits
              more (record m { resources = insert name r m.resources }) later
              (HasInUse-insert before m.resources acquired name (clock' name) amount {c = used}
                {r = r} h now taking)
              rest)
    ]

-- If `evaluate` finds the resources of a job available, then `reserve` at any later reading of the
-- clock, with nothing in between, returns a lease.
pub evaluate-reserve :
    (clock clock' : String → ℕ) (task_type : String) (base : Dict String ℕ) (m : ResourceManager)
    → ((name : String) → clock name ≤ clock' name)
    → evaluate clock m task_type base ≡ available
    → (l : ResourceLease) × (after : ResourceManager) × (reserve clock' task_type base m
        ≡ (leased l, after))
unfolding evaluate reserve
evaluate-reserve clock clock' task_type base m later ok =
    reserve_all_succeeds clock clock' m.resources [] [] (effective_resources m task_type base) m
      later (HasInUse-nothing m.resources) ok
