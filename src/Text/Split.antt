-- ===== src/Text/Split.antt =====
-- Splitting and joining at a separator.
use dce_rust.Base.{
  ℕ, ◌≡◌, ◌≢◌, ◌↔◌, inl, inr, refl, ap, ◌∙◌, true, none, some, List, [], ◌∷◌, ◌++◌, arith, ◌==◌,
  Bool-cases, Option-cases, All, list_beq_iff, nat_eq, Option,
}
use dce_rust.Text.{Str, str_eq, cons_head, split, join, split_once, rsplit_once}

pub str_eq_iff : (a b : Str) → (str_eq a b ≡ true) ↔ (a ≡ b)
unfolding str_eq
str_eq_iff a b = list_beq_iff a b

pub str_eq_refl : (a : Str) → str_eq a a ≡ true
str_eq_refl a = (str_eq_iff a a).1 refl

-- The separator does not occur in the text.
abbrev pub FreeOf : ℕ → Str → Type 0
FreeOf sep s = All (λ c. c ≢ sep) s

pub split-ne-nil : (sep : ℕ) (s : Str) → split sep s ≢ []
unfolding split
split-ne-nil sep [] e = cc
split-ne-nil sep (c ∷ s) e = ground (arith, split-ne-nil sep s)

join-cons_head : (sep c : ℕ) (ps : List Str) → ps ≢ [] → join sep (cons_head c ps) ≡ c ∷ join sep ps
unfolding join
join-cons_head sep c [] h = absurd (h refl)
join-cons_head sep c (p ∷ []) h = refl
join-cons_head sep c (p ∷ q ∷ ps) h = refl

join-cons_nil : (sep : ℕ) (ps : List Str) → ps ≢ [] → join sep ([] ∷ ps) ≡ sep ∷ join sep ps
unfolding join
join-cons_nil sep [] h = absurd (h refl)
join-cons_nil sep (p ∷ ps) h = refl

-- Splitting loses nothing.
pub join-split : (sep : ℕ) (s : Str) → join sep (split sep s) ≡ s
unfolding split
join-split sep [] = unfold join in refl
join-split sep (c ∷ s) = elim (Bool-cases (c == sep)) [
  | inl t ↦
      rw t (join-cons_nil sep (split sep s) (split-ne-nil sep s) ∙ ground (arith, join-split sep s))
  | inr f ↦
      rw f
        (join-cons_head sep c (split sep s) (split-ne-nil sep s) ∙ ground (arith, join-split sep s))
]

split-free_append :
    (sep : ℕ) (p s : Str) → FreeOf sep p → split sep (p ++ sep ∷ s) ≡ p ∷ split sep s
unfolding split
split-free_append sep [] s h = ground arith
split-free_append sep (c ∷ p) s (n, h) = ground (arith, split-free_append sep p s h)

pub split-free : (sep : ℕ) (p : Str) → FreeOf sep p → split sep p ≡ p ∷ []
unfolding split
split-free sep [] h = refl
split-free sep (c ∷ p) (n, h) = ground (arith, split-free sep p h)

cons_head-append :
    (c : ℕ) (ps qs : List Str) → ps ≢ [] → cons_head c (ps ++ qs) ≡ cons_head c ps ++ qs
cons_head-append c [] qs h = absurd (h refl)
cons_head-append c (p ∷ ps) qs h = refl

-- Joining parts that do not hold the separator can be undone.
pub split-join :
    (sep : ℕ) (ps : List Str) → ps ≢ [] → All (FreeOf sep) ps → split sep (join sep ps) ≡ ps
unfolding join
split-join sep [] ne h = absurd (ne refl)
split-join sep (p ∷ []) ne (f, h) = split-free sep p f
split-join sep (p ∷ q ∷ ps) ne (f, h) =
    split-free_append sep p (join sep (q ∷ ps)) f
    ∙ ap (λ (t : List Str). p ∷ t) (split-join sep (q ∷ ps) (λ e. cc) h)

-- The parts of a split do not hold the separator.
cons_head-FreeOf :
    (sep c : ℕ) (ps : List Str) → c ≢ sep → All (FreeOf sep) ps → All (FreeOf sep) (cons_head c ps)
cons_head-FreeOf sep c [] n h = ((n, tt), tt)
cons_head-FreeOf sep c (p ∷ ps) n (f, h) = ((n, f), h)

pub split-FreeOf : (sep : ℕ) (s : Str) → All (FreeOf sep) (split sep s)
unfolding split
split-FreeOf sep [] = (tt, tt)
split-FreeOf sep (c ∷ s) = elim (Bool-cases (c == sep)) [
  | inl t ↦ rw t (tt, split-FreeOf sep s)
  | inr f ↦ rw f (cons_head-FreeOf sep c (split sep s) (ground arith) (split-FreeOf sep s))
]

-- The last separator cuts the text in two, and nothing behind it is a separator.
pub rsplit_once-eq-none : (sep : ℕ) (s : Str) → rsplit_once sep s ≡ none → FreeOf sep s
unfolding rsplit_once
rsplit_once-eq-none sep [] e = tt
rsplit_once-eq-none sep (c ∷ s) e = (ground arith, rsplit_once-eq-none sep s (ground arith))

pub rsplit_once-eq-some :
    (sep : ℕ) (s a b : Str) → rsplit_once sep s ≡ some (a, b) → (s ≡ a ++ sep ∷ b) × FreeOf sep b
unfolding rsplit_once
rsplit_once-eq-some sep [] a b e = cc
rsplit_once-eq-some sep (c ∷ s) a b e = elim (Option-cases (rsplit_once sep s)) [
  | inl n ↦
      let same : a ≡ [] = ground arith in
      let rest : b ≡ s = ground arith in rw (same, rest) (ground arith, rsplit_once-eq-none sep s n)
  | inr ((x, y), q) ↦
      let (whole, free) = rsplit_once-eq-some sep s x y q in
      let same : a ≡ c ∷ x = ground arith in
      let rest : b ≡ y = ground arith in rw (same, rest) (ground arith, free)
]

pub rsplit_once-free : (sep : ℕ) (b : Str) → FreeOf sep b → rsplit_once sep b ≡ none
unfolding rsplit_once
rsplit_once-free sep [] h = refl
rsplit_once-free sep (c ∷ b) (n, h) = ground (arith, rsplit_once-free sep b h)

pub rsplit_once-append :
    (sep : ℕ) (a b : Str) → FreeOf sep b → rsplit_once sep (a ++ sep ∷ b) ≡ some (a, b)
unfolding rsplit_once
rsplit_once-append sep [] b h = ground (arith, rsplit_once-free sep b h)
rsplit_once-append sep (c ∷ a) b h = ground (arith, rsplit_once-append sep a b h)

pub split-append : (sep : ℕ) (a b : Str) → split sep (a ++ sep ∷ b) ≡ split sep a ++ split sep b
unfolding split
split-append sep [] b = ground arith
split-append sep (c ∷ a) b = elim (Bool-cases (c == sep)) [
  | inl t ↦ ground (arith, split-append sep a b)
  | inr f ↦ ground (
    arith,
    split-append sep a b,
    cons_head-append c (split sep a) (split sep b) (split-ne-nil sep a),
  )
]

-- The first separator cuts the text in two, and nothing before it is a separator.
pub split_once-eq-some :
    (sep : ℕ) (s a b : Str) → split_once sep s ≡ some (a, b) → (s ≡ a ++ sep ∷ b) × FreeOf sep a
unfolding split_once
split_once-eq-some sep [] a b e = cc
split_once-eq-some sep (c ∷ s) a b e = elim (Bool-cases (c == sep)) [
  | inl t ↦
      let same : a ≡ [] = ground arith in
      let rest : b ≡ s = ground arith in rw (same, rest) (ground arith, tt)
  | inr f ↦ elim (Option-cases (split_once sep s)) [
    | inl n ↦ absurd (ground arith)
    | inr ((x, y), q) ↦
        let (whole, free) = split_once-eq-some sep s x y q in
        let same : a ≡ c ∷ x = ground arith in
        let rest : b ≡ y = ground arith in rw (same, rest) (ground arith, (ground arith, free))
  ]
]

pub split_once-eq-none : (sep : ℕ) (s : Str) → split_once sep s ≡ none → FreeOf sep s
unfolding split_once
split_once-eq-none sep [] e = tt
split_once-eq-none sep (c ∷ s) e = (ground arith, split_once-eq-none sep s (ground arith))

pub split_once-append :
    (sep : ℕ) (a b : Str) → FreeOf sep a → split_once sep (a ++ sep ∷ b) ≡ some (a, b)
unfolding split_once
split_once-append sep [] b h = ground arith
split_once-append sep (c ∷ a) b (n, h) = ground (arith, split_once-append sep a b h)

pub split_once-free : (sep : ℕ) (a : Str) → FreeOf sep a → split_once sep a ≡ none
unfolding split_once
split_once-free sep [] h = refl
split_once-free sep (c ∷ a) (n, h) = ground (arith, split_once-free sep a h)

-- What is put behind a text without a separator goes to the part behind its last separator.
abbrev pub extend_last : Str → Option (Str × Str) → Option (Str × Str)
extend_last t none = none
extend_last t (some (a, b)) = some (a, b ++ t)

pub rsplit_once-extend :
    (sep : ℕ) (p t : Str)
    → FreeOf sep t
    → rsplit_once sep (p ++ t) ≡ extend_last t (rsplit_once sep p)
unfolding rsplit_once
rsplit_once-extend sep [] t h = rsplit_once-free sep t h
rsplit_once-extend sep (c ∷ p) t h = ground (arith, rsplit_once-extend sep p t h)
