-- ===== src/Router/Registry/Grouping.antt =====
-- The closing of a router: that it comes to an end, and what a group of apis is mapped from.
use dce_rust.Base.{
  ℕ, zero, suc, ◌≤◌, ◌<◌, ◌≡◌, ◌≢◌, refl, ap, sym, ◌∙◌, Bool, not, Option, none, some, List, [],
  ◌∷◌, ◌++◌, arith, length, filter, inl, inr, Option-cases, Bool-cases, if◌then◌else◌, Memᴰ, ◌⊎◌,
  list_eq, nat_eq, reverse, beq_refl, list_beq, list_beq_iff,
}
use mathlib.Core.List.{append_cancel_left}
use dce_rust.Text.{Str}
use dce_rust.Maps.{map_get, map_insert, map_get-insert, set_extend}
use dce_rust.Error.{ok}
use dce_rust.Tree.{pop_last}
use dce_rust.Api.{Api}
use dce_rust.Api.Suffixes.{Suffix, suffix_ord, suffix_boundary}
use dce_rust.Router.Registry.{
  Router, suffix_path, has_suffix, all_suffixes, map_suffixes, same_path, omitted_path, close_from,
}

-- The elements of a list of which one is taken apart.
size : {A : Type 0} → Option (List A × A) → ℕ
size none = 0
size (some (front, x)) = suc (length front)

size-pop_last : {A : Type 0} (xs : List A) → size (pop_last xs) ≡ length xs
unfolding pop_last size
size-pop_last [] = refl
size-pop_last (y ∷ xs) =
    let before = size-pop_last xs in
    elim (Option-cases (pop_last xs)) [
      | inl gone ↦ rw (pop_last, gone) (ap suc (ap size (sym gone) ∙ before))
      | inr ((front, x), found) ↦ rw (pop_last, found) (ap suc (ap size (sym found) ∙ before))
    ]

pub length-pop_last :
    {A : Type 0} (xs front : List A) (x : A)
    → pop_last xs ≡ some (front, x)
    → length xs ≡ suc (length front)
unfolding size
length-pop_last xs front x e = sym (size-pop_last xs) ∙ ap size e

pub length-filter-le : {A : Type 0} (p : A → Bool) (xs : List A) → length (filter p xs) ≤ length xs
unfolding filter
length-filter-le p [] = omega arith
length-filter-le p (x ∷ xs) = ground (arith, length-filter-le p xs)

module _ {Rp D : Type 0} (router : Router Rp D) where
  pub close_from-total :
      (fuel : ℕ) (buffer : List (Api Rp)) (mapping : List (Str × List (Api Rp)))
      → length buffer < fuel
      → (m : List (Str × List (Api Rp))) × (close_from router fuel buffer mapping ≡ ok m)
  unfolding close_from
  close_from-total zero buffer mapping h = absurd (omega arith)
  close_from-total (suc fuel) buffer mapping h = elim (Option-cases (pop_last buffer)) [
    | inl gone ↦ (mapping, rw (close_from, gone) refl)
    | inr ((front, api), found) ↦
        let path = omitted_path router api.path in
        let less = length-pop_last buffer front api found in
        let rest = length-filter-le (λ a. not (same_path router path a)) front in
        let siblings = filter (same_path router path) front in
        let (m, done) =
          close_from-total fuel (filter (λ a. not (same_path router path a)) front)
            (map_suffixes path (siblings ++ api ∷ [])
              (all_suffixes (set_extend [] api.suffixes) (reverse siblings)) mapping)
            (omega (arith, less, rest, h)) in
        (m, rw (close_from, found) done)
  ]

abbrev tail_of : Str → Str
tail_of [] = []
tail_of (c ∷ s) = s

nil-ne-cons : {c : ℕ} {s : Str} → ◌≢◌ {A = Str} [] (c ∷ s)
nil-ne-cons e = cc

as_suffix : Str → Suffix
as_suffix t = record { text = t }

-- The keys of two suffixes of one path are the same only for the same suffix.
pub suffix_path-inj : (path s t : Str) → suffix_path path s ≡ suffix_path path t → s ≡ t
unfolding suffix_path
suffix_path-inj path [] [] e = refl
suffix_path-inj path [] (c ∷ t) e =
    absurd (nil-ne-cons (append_cancel_left path [] (suffix_boundary ∷ c ∷ t) e))
suffix_path-inj path (c ∷ s) [] e =
    absurd (nil-ne-cons (sym (append_cancel_left path (suffix_boundary ∷ c ∷ s) [] e)))
suffix_path-inj path (c ∷ s) (d ∷ t) e =
    ap tail_of (append_cancel_left path (suffix_boundary ∷ c ∷ s) (suffix_boundary ∷ d ∷ t) e)

module _ {Rp : Type 0} where
  inserted :
      (path : Str) (apis : List (Api Rp)) (mapping : List (Str × List (Api Rp))) (suffix x : Suffix)
      → x ≡ suffix
      → map_get
          (suffix_path path suffix.text)
          (map_insert (suffix_path path x.text) (filter (has_suffix x) apis) mapping)
        ≡ some (filter (has_suffix suffix) apis)
  inserted path apis mapping suffix x same =
      let key = suffix_path path suffix.text in
      ap
        (λ (y : Suffix).
          map_get key (map_insert (suffix_path path y.text) (filter (has_suffix y) apis) mapping))
        same
      ∙ (map_get-insert key key (filter (has_suffix suffix) apis) mapping
          ∙ ap (λ b. if b then some (filter (has_suffix suffix) apis) else map_get key mapping)
              (beq_refl key))

  -- One more entry keeps that of a suffix, or makes it.
  kept :
      (path : Str) (apis : List (Api Rp)) (mapping : List (Str × List (Api Rp))) (suffix x : Suffix)
      → map_get (suffix_path path suffix.text) mapping ≡ some (filter (has_suffix suffix) apis)
      → map_get
          (suffix_path path suffix.text)
          (map_insert (suffix_path path x.text) (filter (has_suffix x) apis) mapping)
        ≡ some (filter (has_suffix suffix) apis)
  unfolding as_suffix
  kept path apis mapping suffix x got =
      let key = suffix_path path suffix.text in
      let own = suffix_path path x.text in
      let step = map_get-insert own key (filter (has_suffix x) apis) mapping in
      elim (Bool-cases (list_beq own key)) [
        | inl t ↦
            let texts = suffix_path-inj path x.text suffix.text ((list_beq_iff own key).0 t) in
            inserted path apis mapping suffix x (ap as_suffix texts)
        | inr f ↦
            step
            ∙ (ap (λ b. if b then some (filter (has_suffix x) apis) else map_get key mapping) f
                ∙ got)
      ]

  map_suffixes-get :
      (path : Str) (apis : List (Api Rp)) (suffixes : List Suffix)
      (mapping : List (Str × List (Api Rp))) (suffix : Suffix)
      → (Memᴰ suffix suffixes
          ⊎ (map_get (suffix_path path suffix.text) mapping
              ≡ some (filter (has_suffix suffix) apis)))
      → map_get (suffix_path path suffix.text) (map_suffixes path apis suffixes mapping)
        ≡ some (filter (has_suffix suffix) apis)
  unfolding map_suffixes
  map_suffixes-get path apis [] mapping suffix h = elim h [ inl m ↦ elim m [ ] | inr e ↦ e ]
  map_suffixes-get path apis (x ∷ suffixes) mapping suffix (inl (Memᴰ.head e)) =
      map_suffixes-get path apis suffixes
        (map_insert (suffix_path path x.text) (filter (has_suffix x) apis) mapping) suffix
        (inr (inserted path apis mapping suffix x (sym e)))
  map_suffixes-get path apis (x ∷ suffixes) mapping suffix (inl (Memᴰ.tail m)) =
      map_suffixes-get path apis suffixes
        (map_insert (suffix_path path x.text) (filter (has_suffix x) apis) mapping) suffix (inl m)
  map_suffixes-get path apis (x ∷ suffixes) mapping suffix (inr got) =
      map_suffixes-get path apis suffixes
        (map_insert (suffix_path path x.text) (filter (has_suffix x) apis) mapping) suffix
        (inr (kept path apis mapping suffix x got))

  -- Each suffix of a group of apis that have one path is mapped, under the path and the suffix, to
  -- the apis of the group that have the suffix, in the order of the group.
  pub map_suffixes-entry :
      (path : Str) (apis : List (Api Rp)) (suffixes : List Suffix)
      (mapping : List (Str × List (Api Rp))) (suffix : Suffix)
      → Memᴰ suffix suffixes
      → map_get (suffix_path path suffix.text) (map_suffixes path apis suffixes mapping)
        ≡ some (filter (has_suffix suffix) apis)
  map_suffixes-entry path apis suffixes mapping suffix m =
      map_suffixes-get path apis suffixes mapping suffix (inl m)
