-- ===== src/Base/Filters.antt =====
-- What tests leave of lists.
use mathlib.Core.Path.{◌≡◌, refl}
use mathlib.Core.Bool.{Bool, true, false, not}
use mathlib.Core.List.{List, [], ◌∷◌, ◌++◌}
use native.Mathlib.Omega.{arith}
use dce_rust.Base.Lists.{filter}

module _ {ℓ} {A : Type ℓ} where
  pub filter-append :
      (p : A → Bool) (xs ys : List A) → filter p (xs ++ ys) ≡ filter p xs ++ filter p ys
  unfolding filter
  filter-append p [] ys = refl
  filter-append p (x ∷ xs) ys = ground (arith, filter-append p xs ys)

  -- Two tests with the same results leave the same elements.
  pub filter-same :
      (p q : A → Bool) (xs : List A) → ((x : A) → p x ≡ q x) → filter p xs ≡ filter q xs
  unfolding filter
  filter-same p q [] h = refl
  filter-same p q (x ∷ xs) h = ground (arith, h x, filter-same p q xs h)

  -- A test finds nothing among what fails it.
  pub filter-not : (p : A → Bool) (xs : List A) → filter p (filter (λ x. not (p x)) xs) ≡ []
  unfolding filter
  filter-not p [] = refl
  filter-not p (x ∷ xs) = ground (arith, filter-not p xs)

  -- Leaving out what a test refuses anyway changes nothing.
  pub filter-apart :
      (p q : A → Bool) (xs : List A)
      → ((x : A) → p x ≡ true → q x ≡ false)
      → filter p (filter (λ x. not (q x)) xs) ≡ filter p xs
  unfolding filter
  filter-apart p q [] h = refl
  filter-apart p q (x ∷ xs) h = ground (arith, h x, filter-apart p q xs h)
