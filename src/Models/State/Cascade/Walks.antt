-- ===== src/Models/State/Cascade/Walks.antt =====
-- The loop of `cascade_fail`: what it keeps, and how much work is left in it.
use tasklite.Common.{
  ℕ, zero, suc, ◌+◌, ◌≤◌, ◌<◌, String, Bool, true, false, not, ◌&&◌, ◌||◌, ◌≡◌, refl, subst, ap,
  List-cases, ◌↔◌, length-difference-add-lt, Bool-cases, ◌⊎◌, inl, inr, some, List, [], ◌∷◌, ◌++◌,
  Dict, contains, add, difference, length, IsDistinct, contains-add, contains-append,
  append-IsDistinct, eq_string, ==_iff, arith, ◌==◌,
}
use tasklite.Models.State.{Metadata}
use tasklite.Models.State.Cascade.Falls.{Cascades, direct, onward, open_to_failure}
use tasklite.Models.State.Cascade.{Dependents, Walk, downstream, visit, visit_all, walk_on}

module _ (successes failed : Dict String Metadata) (excluded : List String)
    (dependents : Dependents) (root : String) where
  abbrev waits : String → String → Bool
  waits u v = contains v (downstream u dependents)

  abbrev opened : String → Bool
  opened = open_to_failure successes failed excluded

  abbrev Falls : String → Type 0
  Falls = Cascades waits opened root

  -- `pending` is what is left to visit below the last job that was taken off the stack.
  pub record IsWalk (pending : List String) (w : Walk) : Type 0 where
    pub falls : (u : String) → contains u w.cascade ≡ true → Falls u
    pub seen_iff : (u : String) → contains u w.seen ≡ (root == u || contains u w.cascade)
    pub on_stack : (u : String) → contains u w.stack ≡ true → contains u w.seen ≡ true
    pub fresh : contains root w.cascade ≡ false
    pub distinct : IsDistinct w.cascade
    pub sources :
        (v : String) → contains v pending ≡ true → opened v ≡ true → (root == v) ≡ false → Falls v
    pub done :
        (u v : String)
        → contains u w.seen ≡ true
        → contains u w.stack ≡ false
        → waits u v ≡ true
        → opened v ≡ true
        → (contains v w.seen || contains v pending) ≡ true

  abbrev push : String → Walk → Walk
  push v w = record { cascade = w.cascade ++ v ∷ []; seen = add v w.seen; stack = v ∷ w.stack }

  visit_cases :
      (v : String) (w : Walk)
      → (visit successes failed excluded dependents v w ≡ w)
          × ((opened v && not (contains v w.seen)) ≡ false)
        ⊎ (visit successes failed excluded dependents v w ≡ push v w)
          × (opened v ≡ true)
          × (contains v w.seen ≡ false)
  unfolding visit
  visit_cases v w = ground arith

  stay-IsWalk :
      (v : String) (vs : List String) (w : Walk)
      → IsWalk (v ∷ vs) w
      → (opened v && not (contains v w.seen)) ≡ false
      → IsWalk vs w
  unfolding contains
  stay-IsWalk v vs w i blocked = record {
    falls = i.falls;
    seen_iff = i.seen_iff;
    on_stack = i.on_stack;
    fresh = i.fresh;
    distinct = i.distinct;
    sources = λ u m o r. i.sources u (ground arith) o r;
    done = λ x y s t e o. let d = i.done x y s t e o in ground (arith, ==_iff v y);
  }

  push-IsWalk :
      (v : String) (vs : List String) (w : Walk)
      → IsWalk (v ∷ vs) w
      → opened v ≡ true
      → contains v w.seen ≡ false
      → IsWalk vs (push v w)
  unfolding contains
  push-IsWalk v vs w i o new = record {
    falls = λ u m. elim (Bool-cases (v == u)) [
      | inl same ↦ subst Falls ((==_iff v u).0 same) v_falls
      | inr other ↦ i.falls u (ground (arith, contains-append u w.cascade (v ∷ [])))
    ];
    seen_iff = λ u.
        ground (arith, i.seen_iff u, contains-add u v w.seen, contains-append u w.cascade (v ∷ []));
    on_stack = λ u m. ground (arith, i.on_stack u, contains-add u v w.seen);
    fresh = ground (
      arith,
      i.fresh,
      i.seen_iff v,
      contains-append root w.cascade (v ∷ []),
      ==_iff v root,
      ==_iff root v,
    );
    distinct =
        append-IsDistinct w.cascade (v ∷ []) i.distinct (refl, tt)
          (λ u. ground (arith, i.seen_iff u, ==_iff v u));
    sources = λ u m o' r. i.sources u (ground arith) o' r;
    done = λ x y s t e o'.
        let d = i.done x y (ground (arith, contains-add x v w.seen)) (ground arith) e o' in
        ground (arith, contains-add y v w.seen, ==_iff v y);
  }
    where
      v_falls : Falls v
      v_falls = i.sources v (ground (arith, ==_iff v v)) o (ground (arith, i.seen_iff v))

  visit-IsWalk :
      (v : String) (vs : List String) (w : Walk)
      → IsWalk (v ∷ vs) w
      → IsWalk vs (visit successes failed excluded dependents v w)
  visit-IsWalk v vs w i = elim (visit_cases v w) [
    | inl (e, blocked) ↦ rw e (stay-IsWalk v vs w i blocked)
    | inr (e, o, new) ↦ rw e (push-IsWalk v vs w i o new)
  ]

  visit_all-IsWalk :
      (vs : List String) (w : Walk)
      → IsWalk vs w
      → IsWalk [] (visit_all successes failed excluded dependents vs w)
  unfolding visit_all
  visit_all-IsWalk [] w i = i
  visit_all-IsWalk (v ∷ vs) w i = visit_all-IsWalk vs _ (visit-IsWalk v vs w i)

  -- Taking a job off the stack leaves its own jobs to visit.
  pop-IsWalk :
      (cur : String) (rest : List String) (w : Walk)
      → IsWalk [] w
      → w.stack ≡ cur ∷ rest
      → IsWalk (downstream cur dependents) (record w { stack = rest })
  unfolding contains
  pop-IsWalk cur rest w i e = record {
    falls = i.falls;
    seen_iff = i.seen_iff;
    on_stack = λ u m. i.on_stack u (rw e (ground arith));
    fresh = i.fresh;
    distinct = i.distinct;
    sources = λ v m o r. elim (Bool-cases (root == cur)) [
      | inl same ↦ direct (rw ((==_iff root cur).0 same) m) o r
      | inr other ↦ onward (i.falls cur (ground (arith, i.seen_iff cur, cur_seen))) m o r
    ];
    done = λ x y s t ed o. elim (Bool-cases (cur == x)) [
      | inl same ↦ let ed' : waits cur y ≡ true = rw ((==_iff cur x).0 same) ed in ground arith
      | inr other ↦ let d = i.done x y s (rw e (ground arith)) ed o in ground arith
    ];
  }
    where
      cur_seen : contains cur w.seen ≡ true
      cur_seen = i.on_stack cur (rw e (ground (arith, ==_iff cur cur)))

  -- The jobs on the stack, and those of `uids` that were not seen yet.
  unfoldable pub load : List String → Walk → ℕ
  load uids w = length w.stack + length (difference uids w.seen)

  visit-load :
      (uids : List String) (v : String) (w : Walk)
      → contains v uids ≡ true
      → load uids (visit successes failed excluded dependents v w) ≤ load uids w
  unfolding load
  visit-load uids v w m = elim (visit_cases v w) [
    | inl (e, blocked) ↦ rw e (omega arith)
    | inr (e, o, new) ↦ rw e (omega (arith, length-difference-add-lt uids w.seen v m new))
  ]

  visit_all-load :
      (uids vs : List String) (w : Walk)
      → ((v : String) → contains v vs ≡ true → contains v uids ≡ true)
      → load uids (visit_all successes failed excluded dependents vs w) ≤ load uids w
  unfolding visit_all contains
  visit_all-load uids [] w h = omega arith
  visit_all-load uids (v ∷ vs) w h = omega (
    arith,
    visit_all-load uids vs (visit successes failed excluded dependents v w)
        (λ u m. h u (ground arith)),
    visit-load uids v w (h v (ground (arith, ==_iff v v))),
  )

  -- Everything that falls has been seen once the stack is empty.
  complete :
      (w : Walk) → IsWalk [] w → w.stack ≡ [] → {v : String} → Falls v → contains v w.cascade ≡ true
  unfolding contains
  complete w i e {v} (direct ed o r) =
      let d = i.done root v (ground (arith, i.seen_iff root, ==_iff root root)) (rw e refl) ed o in
      ground (arith, i.seen_iff v)
  complete w i e {v} (onward {u = u} f ed o r) =
      let before = complete w i e f in
      let d = i.done u v (ground (arith, i.seen_iff u)) (rw e refl) ed o in
      ground (arith, i.seen_iff v)

  -- The loop ends before its fuel, with exactly the jobs that fall.
  pub record IsCascade (result : List String) : Type 0 where
    pub distinct : IsDistinct result
    pub members : (v : String) → (contains v result ≡ true) ↔ Falls v

  pub walk_on-IsCascade :
      (uids : List String)
      → ((u v : String) → waits u v ≡ true → contains v uids ≡ true)
      → (fuel : ℕ) (w : Walk) → IsWalk [] w
      → load uids w < fuel
      → (result : List String) × (walk_on successes failed excluded dependents fuel w ≡ some result)
        × IsCascade result
  unfolding walk_on
  walk_on-IsCascade uids known zero w i room = elim room [ ]
  walk_on-IsCascade uids known (suc fuel) w i room = elim (List-cases w.stack) [
    | inl e ↦ rw e (
      w.cascade,
      refl,
      record { distinct = i.distinct; members = λ v. (i.falls v, complete w i e) },
    )
    | inr (cur, rest, e) ↦ rw e (
        let popped = record w { stack = rest } in
        let vs = downstream cur dependents in
        walk_on-IsCascade uids known fuel (visit_all successes failed excluded dependents vs popped)
          (visit_all-IsWalk vs popped (pop-IsWalk cur rest w i e))
          (unfold load in
            omega (arith, visit_all-load uids vs popped (λ v. known cur v), ap length e)))
  ]
