-- ===== src/Base/Tests.antt =====
-- Boolean tests, the conditional, and equality and order as interfaces of keys.
use Prim.Native.Nat.{ℕ, compare, Ordering}
use mathlib.Core.Path.{◌≡◌, refl}
use mathlib.Core.Logic.{◌≢◌, ◌↔◌, ◌⊎◌, inl, inr}
use mathlib.Core.Bool.{Bool, true, false, ◌&&◌}
use mathlib.Core.Option.{Option, none, some}
use mathlib.Core.List.{List, [], ◌∷◌}
use native.Mathlib.Omega.{arith}

abbrev pub ltb : ℕ → ℕ → Bool
ltb a b = elim (compare a b) [ Ordering.lt ↦ true | _ ↦ false ]

abbrev pub leb : ℕ → ℕ → Bool
leb a b = elim (compare a b) [ Ordering.gt ↦ false | _ ↦ true ]

infix 50 ◌==◌
abbrev pub ◌==◌ : ℕ → ℕ → Bool
a == b = elim (compare a b) [ Ordering.eq ↦ true | _ ↦ false ]

infix 1 if◌then◌else◌
abbrev pub if◌then◌else◌ {ℓ} : {A : Type ℓ} → Bool → A → A → A
if true then x else y = x
if false then x else y = y

pub ==_iff : (a b : ℕ) → ((a == b) ≡ true) ↔ (a ≡ b)
==_iff a b = ground arith

pub ==_refl : (a : ℕ) → (a == a) ≡ true
==_refl a = ground arith

-- To split on a computed value and keep the equation.
pub Bool-cases : (b : Bool) → (b ≡ true) ⊎ (b ≡ false)
Bool-cases true = inl refl
Bool-cases false = inr refl

pub Option-cases {ℓ} : {A : Type ℓ} (o : Option A) → (o ≡ none) ⊎ ((a : A) × (o ≡ some a))
Option-cases none = inl refl
Option-cases (some a) = inr (a, refl)

pub true-ne-false : true ≢ false
true-ne-false e = cc

-- A key that can be compared for equality.
pub record Eq {ℓ} (A : Type ℓ) : Type ℓ where
  pub beq : A → A → Bool
  pub beq_iff : (a b : A) → (beq a b ≡ true) ↔ (a ≡ b)

instance abbrev pub nat_eq : Eq ℕ
nat_eq = record { beq = ◌==◌; beq_iff = ==_iff }

module _ {ℓ} {A : Type ℓ} ⦃e : Eq A⦄ where
  unfoldable pub list_beq : List A → List A → Bool
  list_beq [] [] = true
  list_beq (x ∷ xs) (y ∷ ys) = e.beq x y && list_beq xs ys
  list_beq _ _ = false

  pub list_beq_iff : (xs ys : List A) → (list_beq xs ys ≡ true) ↔ (xs ≡ ys)
  unfolding list_beq
  list_beq_iff [] [] = ground arith
  list_beq_iff (x ∷ xs) (y ∷ ys) = ground (arith, e.beq_iff x y, list_beq_iff xs ys)
  list_beq_iff [] (y ∷ ys) = ground arith
  list_beq_iff (x ∷ xs) [] = ground arith

  instance abbrev pub list_eq : Eq (List A)
  list_eq = record { beq = list_beq; beq_iff = list_beq_iff }

  pub beq_refl : (a : A) → e.beq a a ≡ true
  beq_refl a = (e.beq_iff a a).1 refl

  pub beq_ne : (a b : A) → a ≢ b → e.beq a b ≡ false
  beq_ne a b h = ground (arith, e.beq_iff a b)

-- A key with the total order of the source's `Ord`.
pub record Ord {ℓ} (A : Type ℓ) : Type ℓ where
  pub cmp : A → A → Ordering
  pub cmp_eq_iff : (a b : A) → (cmp a b ≡ Ordering.eq) ↔ (a ≡ b)
  pub gt_of_lt : (a b : A) → cmp a b ≡ Ordering.lt → cmp b a ≡ Ordering.gt
  pub lt_of_gt : (a b : A) → cmp a b ≡ Ordering.gt → cmp b a ≡ Ordering.lt
  pub lt_trans : (a b c : A) → cmp a b ≡ Ordering.lt → cmp b c ≡ Ordering.lt → cmp a c ≡ Ordering.lt

pub compare_eq_iff : (a b : ℕ) → (compare a b ≡ Ordering.eq) ↔ (a ≡ b)
compare_eq_iff a b = ground arith

pub compare_gt_of_lt : (a b : ℕ) → compare a b ≡ Ordering.lt → compare b a ≡ Ordering.gt
compare_gt_of_lt a b h = ground arith

pub compare_lt_of_gt : (a b : ℕ) → compare a b ≡ Ordering.gt → compare b a ≡ Ordering.lt
compare_lt_of_gt a b h = ground arith

pub compare_lt_trans :
    (a b c : ℕ) → compare a b ≡ Ordering.lt → compare b c ≡ Ordering.lt → compare a c ≡ Ordering.lt
compare_lt_trans a b c h k = ground arith

instance abbrev pub nat_ord : Ord ℕ
nat_ord = record {
  cmp = compare;
  cmp_eq_iff = compare_eq_iff;
  gt_of_lt = compare_gt_of_lt;
  lt_of_gt = compare_lt_of_gt;
  lt_trans = compare_lt_trans;
}

abbrev pub then_with : Ordering → Ordering → Ordering
then_with Ordering.eq second = second
then_with first _ = first

-- Slices and texts compare lexicographically.
module _ {ℓ} {A : Type ℓ} ⦃o : Ord A⦄ where
  unfoldable pub list_cmp : List A → List A → Ordering
  list_cmp [] [] = Ordering.eq
  list_cmp [] (y ∷ ys) = Ordering.lt
  list_cmp (x ∷ xs) [] = Ordering.gt
  list_cmp (x ∷ xs) (y ∷ ys) = then_with (o.cmp x y) (list_cmp xs ys)

  pub list_cmp_eq_iff : (xs ys : List A) → (list_cmp xs ys ≡ Ordering.eq) ↔ (xs ≡ ys)
  unfolding list_cmp
  list_cmp_eq_iff [] [] = ground arith
  list_cmp_eq_iff [] (y ∷ ys) = ground arith
  list_cmp_eq_iff (x ∷ xs) [] = ground arith
  list_cmp_eq_iff (x ∷ xs) (y ∷ ys) = ground (arith, o.cmp_eq_iff x y, list_cmp_eq_iff xs ys)

  pub list_cmp_gt_of_lt :
      (xs ys : List A) → list_cmp xs ys ≡ Ordering.lt → list_cmp ys xs ≡ Ordering.gt
  unfolding list_cmp
  list_cmp_gt_of_lt [] [] h = ground arith
  list_cmp_gt_of_lt [] (y ∷ ys) h = refl
  list_cmp_gt_of_lt (x ∷ xs) [] h = ground arith
  list_cmp_gt_of_lt (x ∷ xs) (y ∷ ys) h =
      ground (arith, o.cmp_eq_iff x y, o.cmp_eq_iff y x, o.gt_of_lt x y, list_cmp_gt_of_lt xs ys)

  pub list_cmp_lt_of_gt :
      (xs ys : List A) → list_cmp xs ys ≡ Ordering.gt → list_cmp ys xs ≡ Ordering.lt
  unfolding list_cmp
  list_cmp_lt_of_gt [] [] h = ground arith
  list_cmp_lt_of_gt [] (y ∷ ys) h = ground arith
  list_cmp_lt_of_gt (x ∷ xs) [] h = refl
  list_cmp_lt_of_gt (x ∷ xs) (y ∷ ys) h =
      ground (arith, o.cmp_eq_iff x y, o.cmp_eq_iff y x, o.lt_of_gt x y, list_cmp_lt_of_gt xs ys)

  pub list_cmp_lt_trans :
      (xs ys zs : List A)
      → list_cmp xs ys ≡ Ordering.lt
      → list_cmp ys zs ≡ Ordering.lt
      → list_cmp xs zs ≡ Ordering.lt
  unfolding list_cmp
  list_cmp_lt_trans [] ys [] h k = ground arith
  list_cmp_lt_trans [] ys (z ∷ zs) h k = refl
  list_cmp_lt_trans (x ∷ xs) [] zs h k = ground arith
  list_cmp_lt_trans (x ∷ xs) (y ∷ ys) [] h k = ground arith
  list_cmp_lt_trans (x ∷ xs) (y ∷ ys) (z ∷ zs) h k = ground (
    arith,
    o.cmp_eq_iff x y,
    o.cmp_eq_iff y z,
    o.cmp_eq_iff x z,
    o.lt_trans x y z,
    list_cmp_lt_trans xs ys zs,
  )

  instance abbrev pub list_ord : Ord (List A)
  list_ord = record {
    cmp = list_cmp;
    cmp_eq_iff = list_cmp_eq_iff;
    gt_of_lt = list_cmp_gt_of_lt;
    lt_of_gt = list_cmp_lt_of_gt;
    lt_trans = list_cmp_lt_trans;
  }
