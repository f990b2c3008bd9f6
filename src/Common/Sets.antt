-- ===== src/Common/Sets.antt =====
-- Python's `set` of hashable values as a list. Only membership is observed; the order in which the
-- program walks a set is stated where it does.
use Prim.Native.Nat.{◌≤◌, ◌<◌}
use mathlib.Core.Path.{◌≡◌, refl, sym, ◌∙◌}
use mathlib.Core.Bool.{Bool, true, false, not, ◌&&◌, ◌||◌}
use mathlib.Core.List.{List, [], ◌∷◌, ◌++◌}
use native.Mathlib.Omega.{arith}
use tasklite.Common.Tests.{Eq, ◌==◌, ==_iff, ==_refl, if◌then◌else◌}
use tasklite.Common.Lists.{keep, every, length}

module _ {ℓ} {A : Type ℓ} ⦃e : Eq A⦄ where
  -- `a in s`
  unfoldable pub contains : A → List A → Bool
  contains a [] = false
  contains a (x ∷ xs) = x == a || contains a xs

  -- `s.add(a)`
  unfoldable pub add : A → List A → List A
  add a xs = if contains a xs then xs else a ∷ xs

  -- `s.discard(a)`
  unfoldable pub discard : A → List A → List A
  discard a xs = keep (λ x. not (x == a)) xs

  -- `s.update(t)`, `s | t`
  unfoldable pub union : List A → List A → List A
  union xs [] = xs
  union xs (y ∷ ys) = union (add y xs) ys

  -- `s.difference_update(t)`, `s - t`
  unfoldable pub difference : List A → List A → List A
  difference xs ys = keep (λ x. not (contains x ys)) xs

  -- `s & t`
  unfoldable pub intersection : List A → List A → List A
  intersection xs ys = keep (λ x. contains x ys) xs

  -- `s == t`
  unfoldable pub same_set : List A → List A → Bool
  same_set xs ys = every (λ x. contains x ys) xs && every (λ y. contains y xs) ys

  abbrev pub IsDistinct : List A → Type 0
  IsDistinct [] = Unit {0}
  IsDistinct (x ∷ xs) = (contains x xs ≡ false) × IsDistinct xs

  pub contains-keep :
      (p : A → Bool) (a : A) (xs : List A) → contains a (keep p xs) ≡ (contains a xs && p a)
  unfolding contains keep
  contains-keep p a [] = refl
  contains-keep p a (x ∷ xs) = ground (arith, contains-keep p a xs, ==_iff x a)

  pub contains-append :
      (a : A) (xs ys : List A) → contains a (xs ++ ys) ≡ (contains a xs || contains a ys)
  unfolding contains
  contains-append a [] ys = refl
  contains-append a (x ∷ xs) ys = ground (arith, contains-append a xs ys)

  pub contains-add : (a b : A) (xs : List A) → contains a (add b xs) ≡ (b == a || contains a xs)
  unfolding contains add
  contains-add a b xs = ground (arith, ==_iff b a)

  pub contains-discard :
      (a b : A) (xs : List A) → contains a (discard b xs) ≡ (not (b == a) && contains a xs)
  unfolding discard
  contains-discard a b xs =
      ground (arith, contains-keep (λ x. not (x == b)) a xs, ==_iff a b, ==_iff b a)

  pub contains-union :
      (a : A) (xs ys : List A) → contains a (union xs ys) ≡ (contains a xs || contains a ys)
  unfolding contains union
  contains-union a xs [] = ground arith
  contains-union a xs (y ∷ ys) = ground (arith, contains-union a (add y xs) ys, contains-add a y xs)

  pub contains-difference :
      (a : A) (xs ys : List A)
      → contains a (difference xs ys) ≡ (contains a xs && not (contains a ys))
  unfolding difference
  contains-difference a xs ys = contains-keep (λ x. not (contains x ys)) a xs

  pub contains-intersection :
      (a : A) (xs ys : List A) → contains a (intersection xs ys) ≡ (contains a xs && contains a ys)
  unfolding intersection
  contains-intersection a xs ys = contains-keep (λ x. contains x ys) a xs

  pub contains-cons_self : (a : A) (xs : List A) → contains a (a ∷ xs) ≡ true
  unfolding contains
  contains-cons_self a xs = ground (arith, ==_refl a)

  members_are_in :
      (xs ys : List A)
      → ((a : A) → contains a xs ≡ true → contains a ys ≡ true)
      → every (λ a. contains a ys) xs ≡ true
  unfolding every contains
  members_are_in [] ys h = refl
  members_are_in (x ∷ xs) ys h =
      let tail = members_are_in xs ys (λ a m. h a (ground arith)) in
      ground (arith, h x (contains-cons_self x xs))

  -- Two sets with the same members pass the comparison.
  pub same_set_of :
      (xs ys : List A) → ((a : A) → contains a xs ≡ contains a ys) → same_set xs ys ≡ true
  unfolding same_set
  same_set_of xs ys h =
      ground
        (arith, members_are_in xs ys (λ a m. sym (h a) ∙ m), members_are_in ys xs (λ a m. h a ∙ m))

  -- Two sets with no common member have an empty intersection.
  pub keep_none :
      (p : A → Bool) (xs : List A) → ((a : A) → (contains a xs && p a) ≡ false) → keep p xs ≡ []
  unfolding keep contains
  keep_none p [] h = refl
  keep_none p (x ∷ xs) h =
      ground (arith, h x, contains-cons_self x xs, keep_none p xs (λ a. ground (arith, h a)))

  -- What a set still lacks of a list shrinks as the set grows.
  pub length-difference-add-le :
      (xs ys : List A) (a : A) → length (difference xs (add a ys)) ≤ length (difference xs ys)
  unfolding difference keep
  length-difference-add-le [] ys a = omega arith
  length-difference-add-le (x ∷ xs) ys a =
      ground (arith, length-difference-add-le xs ys a, contains-add x a ys)

  pub length-difference-add-lt :
      (xs ys : List A) (a : A)
      → contains a xs ≡ true
      → contains a ys ≡ false
      → length (difference xs (add a ys)) < length (difference xs ys)
  unfolding difference keep contains
  length-difference-add-lt [] ys a m new = cc
  length-difference-add-lt (x ∷ xs) ys a m new = ground (
    arith,
    length-difference-add-lt xs ys a,
    length-difference-add-le xs ys a,
    contains-add x a ys,
    ==_iff x a,
  )
