-- ===== src/Macros/Naming.antt =====
-- The name that an api has by default.
use mathlib.Core.List.{reverse-append, reverse-reverse}
use dce_rust.Base.{
  ℕ, ◌≡◌, refl, sym, ap, subst, ◌∙◌, none, some, [], ◌∷◌, ◌++◌, reverse, inl, inr, Option-cases,
  ◌⊎◌, ◌==◌, arith,
}
use dce_rust.Api.Parse.{StartsNot, trim_start-StartsNot, FreeOf-reverse}
use dce_rust.Text.{Str, rsplit_once, trim_matches, trim_start_by, trim_end_by}
use dce_rust.Text.Split.{FreeOf, rsplit_once-eq-some, rsplit_once-eq-none}
use dce_rust.Macros.{MacroApi, Exprs, last_part, fill}

-- A text is the part that is meant: it has no slash, and is all that is there, or stands behind one.
abbrev pub IsLastPart : Str → Str → Type 0
IsLastPart whole part =
    FreeOf b'/' part × ((whole ≡ part) ⊎ ((front : Str) × (whole ≡ front ++ b'/' ∷ part)))

last_part-IsLastPart : (whole : Str) → IsLastPart whole (last_part whole)
unfolding last_part
last_part-IsLastPart whole = elim (Option-cases (rsplit_once b'/' whole)) [
  | inl gone ↦ rw (last_part, gone) (rsplit_once-eq-none b'/' whole gone, inl refl)
  | inr ((front, part), found) ↦
      let (shape, free) = rsplit_once-eq-some b'/' whole front part found in
      rw (last_part, found) (free, inr (front, shape))
]

reverse-StartsNot : (sep : ℕ) (s : Str) → FreeOf sep s → StartsNot sep (reverse s)
reverse-StartsNot sep s free = starts (reverse s) (FreeOf-reverse sep s free)
  where
    starts : (t : Str) → FreeOf sep t → StartsNot sep t
    starts [] h = tt
    starts (c ∷ t) (n, h) = n

-- A text between two quotes, without them.
trim_matches-quoted : (q : ℕ) (s : Str) → FreeOf q s → trim_matches q (q ∷ s ++ q ∷ []) ≡ s
unfolding trim_matches trim_start_by trim_end_by
trim_matches-quoted q [] free = ground arith
trim_matches-quoted q (c ∷ s) (n, free) =
    let first : trim_start_by (λ d. d == q) (q ∷ (c ∷ s) ++ q ∷ []) ≡ (c ∷ s) ++ q ∷ [] =
      ground arith in
    let turned : reverse ((c ∷ s) ++ q ∷ []) ≡ q ∷ reverse (c ∷ s) =
      reverse-append (c ∷ s) (q ∷ []) in
    let last : trim_start_by (λ d. d == q) (q ∷ reverse (c ∷ s)) ≡ reverse (c ∷ s) =
      ground
        (arith, trim_start-StartsNot q (reverse (c ∷ s)) (reverse-StartsNot q (c ∷ s) (n, free))) in
    rw first (rw turned (rw last (reverse-reverse (c ∷ s))))

not_free : (sep : ℕ) (u v : Str) → FreeOf sep (u ++ sep ∷ v) → ⊥
not_free sep [] v (n, h) = n refl
not_free sep (c ∷ u) v (n, h) = not_free sep u v h

last_part_of_free : (s : Str) → FreeOf b'/' s → last_part s ≡ s
last_part_of_free s free = elim ((last_part-IsLastPart s).1) [
  | inl same ↦ sym same
  | inr (front, shape) ↦ absurd (not_free b'/' front (last_part s) (subst (FreeOf b'/') shape free))
]

-- An api that is given no name has as its name the last part of the text of its path. Where it is
-- given no path either, its name is the name of the function, for a name without slashes and
-- quotes, whose literal is written between quotes.
pub fill-IsLastPart :
    {E : Type 0} (exprs : Exprs E) (fn_name : Str) (api : MacroApi E)
    → exprs.tokens (exprs.lit_str fn_name) ≡ b'"' ∷ fn_name ++ b'"' ∷ []
    → FreeOf b'"' fn_name
    → FreeOf b'/' fn_name
    → api.name_expr ≡ none
    → ((part : Str) × ((fill exprs fn_name api).name_arg ≡ exprs.lit_str part)
        × IsLastPart (trim_matches b'"' (exprs.tokens (fill exprs fn_name api).path_arg)) part)
      × (((given : E) × (api.path_expr ≡ some given) × ((fill exprs fn_name api).path_arg ≡ given))
          ⊎ ((api.path_expr ≡ none) × ((fill exprs fn_name api).name_arg ≡ exprs.lit_str fn_name)))
unfolding fill
fill-IsLastPart exprs fn_name api quoted free slashless unnamed =
    let whole = trim_matches b'"' (exprs.tokens (fill exprs fn_name api).path_arg) in
    (
      (last_part whole, rw (unnamed, fill) refl, last_part-IsLastPart whole),
      elim (Option-cases api.path_expr) [
        | inr (given, there) ↦ inl (given, there, rw (there, fill) refl)
        | inl gone ↦ inr (
          gone,
          rw (unnamed, fill)
              (rw (gone, fill)
                (ap (λ t. exprs.lit_str (last_part (trim_matches b'"' t))) quoted
                  ∙ ap (λ t. exprs.lit_str (last_part t)) (trim_matches-quoted b'"' fn_name free)
                  ∙ ap exprs.lit_str (last_part_of_free fn_name slashless))),
        )
      ],
    )
