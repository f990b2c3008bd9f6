-- ===== src/Common/Distinct.antt =====
-- Lists that repeat no value: the keys of a dict, the uids of a queue.
use Prim.Native.Nat.{ℕ, zero, suc}
use mathlib.Core.Path.{◌≡◌, refl}
use mathlib.Core.Bool.{Bool, true, false, not, ◌&&◌}
use mathlib.Core.Option.{some}
use mathlib.Core.List.{List, [], ◌∷◌, ◌++◌, map}
use native.Mathlib.Omega.{arith}
use tasklite.Common.Tests.{Eq, ◌==◌, ==_iff}
use tasklite.Common.Lists.{keep, get_elem?, erase_idx}
use tasklite.Common.Sets.{contains, IsDistinct, contains-keep, contains-append}

module _ {ℓ} {A : Type ℓ} ⦃e : Eq A⦄ where
  pub keep-IsDistinct : (p : A → Bool) (xs : List A) → IsDistinct xs → IsDistinct (keep p xs)
  unfolding keep
  keep-IsDistinct p [] d = tt
  keep-IsDistinct p (x ∷ xs) d = ground (arith, keep-IsDistinct p xs d.1, contains-keep p x xs)

  pub append-IsDistinct :
      (xs ys : List A)
      → IsDistinct xs
      → IsDistinct ys
      → ((a : A) → (contains a xs && contains a ys) ≡ false)
      → IsDistinct (xs ++ ys)
  unfolding contains
  append-IsDistinct [] ys dx dy apart = dy
  append-IsDistinct (x ∷ xs) ys dx dy apart = (
    ground (arith, contains-append x xs ys, apart x, ==_iff x x),
    append-IsDistinct xs ys dx.1 dy (λ a. ground (arith, apart a)),
  )

  pub contains-get_elem? :
      (xs : List A) (i : ℕ) {a : A} → get_elem? xs i ≡ some a → contains a xs ≡ true
  unfolding contains
  contains-get_elem? [] i h = cc
  contains-get_elem? (x ∷ xs) zero {a} h = ground (arith, ==_iff x a)
  contains-get_elem? (x ∷ xs) (suc i) h = ground (arith, contains-get_elem? xs i h)

  -- Removing one entry of a list without repetitions removes its value, and nothing else.
  pub contains-erase_idx :
      (xs : List A) (i : ℕ) (a b : A)
      → IsDistinct xs
      → get_elem? xs i ≡ some a
      → contains b (erase_idx xs i) ≡ (not (a == b) && contains b xs)
  unfolding contains
  contains-erase_idx [] i a b d h = cc
  contains-erase_idx (x ∷ xs) zero a b d h = ground (arith, ==_iff x a, ==_iff a b, ==_iff x b)
  contains-erase_idx (x ∷ xs) (suc i) a b d h =
      ground (
        arith,
        contains-erase_idx xs i a b d.1 h,
        contains-get_elem? xs i h,
        ==_iff a b,
        ==_iff x b,
      )

  absent_after_erase :
      (xs : List A) (i : ℕ) (a : A) → contains a xs ≡ false → contains a (erase_idx xs i) ≡ false
  unfolding contains
  absent_after_erase [] i a h = refl
  absent_after_erase (x ∷ xs) zero a h = ground arith
  absent_after_erase (x ∷ xs) (suc i) a h = ground (arith, absent_after_erase xs i a)

  pub erase_idx-IsDistinct : (xs : List A) (i : ℕ) → IsDistinct xs → IsDistinct (erase_idx xs i)
  erase_idx-IsDistinct [] i d = tt
  erase_idx-IsDistinct (x ∷ xs) zero d = d.1
  erase_idx-IsDistinct (x ∷ xs) (suc i) d =
      (absent_after_erase xs i x d.0, erase_idx-IsDistinct xs i d.1)

module _ {ℓ κ} {A : Type ℓ} {B : Type κ} (f : A → B) where
  pub map-erase_idx : (xs : List A) (i : ℕ) → map f (erase_idx xs i) ≡ erase_idx (map f xs) i
  map-erase_idx [] i = refl
  map-erase_idx (x ∷ xs) zero = refl
  map-erase_idx (x ∷ xs) (suc i) = rw (map-erase_idx xs i)

  pub get_elem?-map :
      (xs : List A) (i : ℕ) {x : A} → get_elem? xs i ≡ some x → get_elem? (map f xs) i ≡ some (f x)
  get_elem?-map [] i h = cc
  get_elem?-map (y ∷ xs) zero h = cc
  get_elem?-map (y ∷ xs) (suc i) h = get_elem?-map xs i h

  pub map-keep : (p : B → Bool) (xs : List A) → map f (keep (λ x. p (f x)) xs) ≡ keep p (map f xs)
  unfolding keep
  map-keep p [] = refl
  map-keep p (x ∷ xs) = ground (arith, map-keep p xs)
