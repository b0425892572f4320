-- ===== src/Base/Lists.antt =====
-- Lists measured and indexed by native numbers, and predicates on their members.
use Prim.Native.Nat.{ℕ, zero, suc, ◌+◌, ◌≤◌, ◌<◌}
use mathlib.Core.Path.{◌≡◌, refl, ap, sym, subst, ◌∙◌}
use mathlib.Core.Logic.{◌≢◌, ◌⊎◌, inl, inr}
use mathlib.Core.Bool.{Bool, true, false, not, ◌||◌}
use mathlib.Core.List.{reverse, reverse-cons, reverse-reverse, List, [], ◌∷◌, ◌++◌, Memᴰ}
use mathlib.Core.Option.{Option, none, some}
use native.Mathlib.Omega.{arith}
use dce_rust.Base.Tests.{if◌then◌else◌, Bool-cases}

module _ {ℓ} {A : Type ℓ} where
  abbrev pub length : List A → ℕ
  length [] = 0
  length (x ∷ xs) = suc (length xs)

  abbrev pub get_elem? : List A → ℕ → Option A
  get_elem? [] i = none
  get_elem? (x ∷ xs) zero = some x
  get_elem? (x ∷ xs) (suc i) = get_elem? xs i

  -- A write out of bounds changes nothing.
  abbrev pub set : List A → ℕ → A → List A
  set [] i v = []
  set (x ∷ xs) zero v = v ∷ xs
  set (x ∷ xs) (suc i) v = x ∷ set xs i v

  abbrev pub take : ℕ → List A → List A
  take zero xs = []
  take (suc n) [] = []
  take (suc n) (x ∷ xs) = x ∷ take n xs

  abbrev pub drop : ℕ → List A → List A
  drop zero xs = xs
  drop (suc n) [] = []
  drop (suc n) (x ∷ xs) = drop n xs

  -- The first member that passes the test, and all of them.
  unfoldable pub find : (A → Bool) → List A → Option A
  find p [] = none
  find p (x ∷ xs) = if p x then some x else find p xs

  unfoldable pub filter : (A → Bool) → List A → List A
  filter p [] = []
  filter p (x ∷ xs) = let rest = filter p xs in if p x then x ∷ rest else rest

  unfoldable pub any : (A → Bool) → List A → Bool
  any p [] = false
  any p (x ∷ xs) = p x || any p xs

  abbrev pub is_empty : List A → Bool
  is_empty [] = true
  is_empty (x ∷ xs) = false

  abbrev pub last : List A → Option A
  last [] = none
  last (x ∷ []) = some x
  last (x ∷ y ∷ ys) = last (y ∷ ys)

  abbrev pub head? : List A → Option A
  head? [] = none
  head? (x ∷ xs) = some x

  pub length-append : (xs ys : List A) → length (xs ++ ys) ≡ length xs + length ys
  length-append [] ys = omega arith
  length-append (x ∷ xs) ys = omega (arith, length-append xs ys)

  pub length-set : (xs : List A) (i : ℕ) (v : A) → length (set xs i v) ≡ length xs
  length-set [] i v = refl
  length-set (x ∷ xs) zero v = refl
  length-set (x ∷ xs) (suc i) v = ap suc (length-set xs i v)

  pub get_elem?-lt : (xs : List A) (i : ℕ) {a : A} → get_elem? xs i ≡ some a → i < length xs
  get_elem?-lt [] i e = cc
  get_elem?-lt (x ∷ xs) zero e = omega arith
  get_elem?-lt (x ∷ xs) (suc i) e = omega (arith, get_elem?-lt xs i e)

  pub get_elem?-append_left :
      (xs ys : List A) (i : ℕ) → i < length xs → get_elem? (xs ++ ys) i ≡ get_elem? xs i
  get_elem?-append_left [] ys i h = absurd (omega arith)
  get_elem?-append_left (x ∷ xs) ys zero h = refl
  get_elem?-append_left (x ∷ xs) ys (suc i) h = get_elem?-append_left xs ys i (omega arith)

  pub get_elem?-past : (xs : List A) (i : ℕ) → length xs ≤ i → get_elem? xs i ≡ none
  get_elem?-past [] i h = refl
  get_elem?-past (x ∷ xs) zero h = absurd (omega arith)
  get_elem?-past (x ∷ xs) (suc i) h = get_elem?-past xs i (omega arith)

  pub get_elem?-append_self : (xs : List A) (y : A) → get_elem? (xs ++ y ∷ []) (length xs) ≡ some y
  get_elem?-append_self [] y = refl
  get_elem?-append_self (x ∷ xs) y = get_elem?-append_self xs y

  pub get_elem?-append_past :
      (xs : List A) (y : A) (i : ℕ) → length xs < i → get_elem? (xs ++ y ∷ []) i ≡ none
  get_elem?-append_past [] y zero h = absurd (omega arith)
  get_elem?-append_past [] y (suc i) h = refl
  get_elem?-append_past (x ∷ xs) y zero h = absurd (omega arith)
  get_elem?-append_past (x ∷ xs) y (suc i) h = get_elem?-append_past xs y i (omega arith)

  pub get_elem?-set_self :
      (xs : List A) (i : ℕ) (v : A) → i < length xs → get_elem? (set xs i v) i ≡ some v
  get_elem?-set_self [] i v h = elim h [ ]
  get_elem?-set_self (x ∷ xs) zero v h = refl
  get_elem?-set_self (x ∷ xs) (suc i) v h = get_elem?-set_self xs i v (omega arith)

  pub get_elem?-set_ne :
      (xs : List A) (i j : ℕ) (v : A) → i ≢ j → get_elem? (set xs i v) j ≡ get_elem? xs j
  get_elem?-set_ne [] i j v h = refl
  get_elem?-set_ne (x ∷ xs) zero zero v h = absurd (h refl)
  get_elem?-set_ne (x ∷ xs) zero (suc j) v h = refl
  get_elem?-set_ne (x ∷ xs) (suc i) zero v h = refl
  get_elem?-set_ne (x ∷ xs) (suc i) (suc j) v h = get_elem?-set_ne xs i j v (λ e. h (ap suc e))

  pub Memᴰ-append_left : {a : A} (xs ys : List A) → Memᴰ a xs → Memᴰ a (xs ++ ys)
  Memᴰ-append_left [] ys m = elim m [ ]
  Memᴰ-append_left (x ∷ xs) ys (Memᴰ.head e) = Memᴰ.head e
  Memᴰ-append_left (x ∷ xs) ys (Memᴰ.tail m) = Memᴰ.tail (Memᴰ-append_left xs ys m)

  pub Memᴰ-append_right : {a : A} (xs ys : List A) → Memᴰ a ys → Memᴰ a (xs ++ ys)
  Memᴰ-append_right [] ys m = m
  Memᴰ-append_right (x ∷ xs) ys m = Memᴰ.tail (Memᴰ-append_right xs ys m)

  pub Memᴰ-append-cases : {a : A} (xs ys : List A) → Memᴰ a (xs ++ ys) → Memᴰ a xs ⊎ Memᴰ a ys
  Memᴰ-append-cases [] ys m = inr m
  Memᴰ-append-cases (x ∷ xs) ys (Memᴰ.head e) = inl (Memᴰ.head e)
  Memᴰ-append-cases (x ∷ xs) ys (Memᴰ.tail m) = elim (Memᴰ-append-cases xs ys m) [
    | inl l ↦ inl (Memᴰ.tail l)
    | inr r ↦ inr r
  ]

  pub find_sound :
      (p : A → Bool) (xs : List A) {a : A} → find p xs ≡ some a → Memᴰ a xs × (p a ≡ true)
  unfolding find
  find_sound p [] e = cc
  find_sound p (x ∷ xs) {a} e = elim (Bool-cases (p x)) [
    | inl t ↦ let same : x ≡ a = ground arith in (Memᴰ.head (ground arith), ground arith)
    | inr f ↦ let (m, t) = find_sound p xs {a = a} (ground arith) in (Memᴰ.tail m, t)
  ]

  pub find_complete :
      (p : A → Bool) (xs : List A) {a : A} → Memᴰ a xs → p a ≡ true → find p xs ≢ none
  unfolding find
  find_complete p [] m t h = elim m [ ]
  find_complete p (x ∷ xs) (Memᴰ.head e) t h = ground (arith, ap p e)
  find_complete p (x ∷ xs) (Memᴰ.tail m) t h = ground (arith, find_complete p xs m t)

  pub Memᴰ-filter :
      (p : A → Bool) {a : A} (xs : List A) → Memᴰ a (filter p xs) → Memᴰ a xs × (p a ≡ true)
  unfolding filter
  Memᴰ-filter p [] m = elim m [ ]
  Memᴰ-filter p {a} (x ∷ xs) m = elim (Bool-cases (p x)) [
    | inl t ↦ kept (Memᴰ-filter p xs) t (rw (t, filter) at m)
    | inr f ↦ let (n, q) = Memᴰ-filter p xs (rw (f, filter) at m) in (Memᴰ.tail n, q)
  ]
    where
      kept :
          (Memᴰ a (filter p xs) → Memᴰ a xs × (p a ≡ true))
          → p x ≡ true
          → Memᴰ a (x ∷ filter p xs)
          → Memᴰ a (x ∷ xs) × (p a ≡ true)
      kept ih t (Memᴰ.head e) = (Memᴰ.head e, ap p e ∙ t)
      kept ih t (Memᴰ.tail n) = let (n', q) = ih n in (Memᴰ.tail n', q)

  pub Memᴰ-filter_of_Memᴰ :
      (p : A → Bool) {a : A} (xs : List A) → Memᴰ a xs → p a ≡ true → Memᴰ a (filter p xs)
  unfolding filter
  Memᴰ-filter_of_Memᴰ p [] m h = elim m [ ]
  Memᴰ-filter_of_Memᴰ p {a} (x ∷ xs) (Memᴰ.head e) h =
      let t : p x ≡ true = ap p (sym e) ∙ h in rw (t, filter) (Memᴰ.head e)
  Memᴰ-filter_of_Memᴰ p {a} (x ∷ xs) (Memᴰ.tail m) h =
      let later = Memᴰ-filter_of_Memᴰ p xs m h in
      elim (Bool-cases (p x)) [
        | inl t ↦ rw (t, filter) (Memᴰ.tail later)
        | inr f ↦ rw (f, filter) later
      ]

  pub length-filter-not :
      (p : A → Bool) (xs : List A)
      → length (filter p xs) + length (filter (λ x. not (p x)) xs) ≡ length xs
  unfolding filter
  length-filter-not p [] = omega arith
  length-filter-not p (x ∷ xs) = ground (arith, length-filter-not p xs)

  pub length-reverse : (xs : List A) → length (reverse xs) ≡ length xs
  length-reverse [] = refl
  length-reverse (x ∷ xs) =
      ap length (reverse-cons x xs)
      ∙ omega (arith, length-append (reverse xs) (x ∷ []), length-reverse xs)

  pub Memᴰ-reverse : {a : A} (xs : List A) → Memᴰ a xs → Memᴰ a (reverse xs)
  Memᴰ-reverse [] m = m
  Memᴰ-reverse {a} (x ∷ xs) (Memᴰ.head e) =
      rw reverse-cons (Memᴰ-append_right (reverse xs) (x ∷ []) (Memᴰ.head e))
  Memᴰ-reverse {a} (x ∷ xs) (Memᴰ.tail m) =
      rw reverse-cons (Memᴰ-append_left (reverse xs) (x ∷ []) (Memᴰ-reverse xs m))

  pub Memᴰ_of_Memᴰ-reverse : {a : A} (xs : List A) → Memᴰ a (reverse xs) → Memᴰ a xs
  Memᴰ_of_Memᴰ-reverse xs m = subst (Memᴰ _) (reverse-reverse xs) (Memᴰ-reverse (reverse xs) m)

module _ {ℓ κ} {A : Type ℓ} (P : A → Type κ) where
  abbrev pub All : List A → Type κ
  All [] = Unit
  All (x ∷ xs) = P x × All xs

  pub All-append : (xs ys : List A) → All xs → All ys → All (xs ++ ys)
  All-append [] ys h k = k
  All-append (x ∷ xs) ys (p, h) k = (p, All-append xs ys h k)

  pub All-Memᴰ : {a : A} (xs : List A) → All xs → Memᴰ a xs → ((x : A) × (a ≡ x) × P x)
  All-Memᴰ [] h m = elim m [ ]
  All-Memᴰ (x ∷ xs) (p, h) (Memᴰ.head e) = (x, e, p)
  All-Memᴰ (x ∷ xs) (p, h) (Memᴰ.tail m) = All-Memᴰ xs h m
