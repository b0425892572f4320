-- ===== src/Router/Registry/Keys.antt =====
-- The keys that closing a router maps apis under, and the suffixes it makes them of.
use dce_rust.Base.{
  ◌≡◌, ◌≢◌, refl, ap, sym, ◌∙◌, Bool-cases, List, [], ◌∷◌, ◌++◌, arith, inl, inr, ◌⊎◌, Memᴰ, any,
  some, subst, reverse, is_empty, false, Memᴰ-append_left, Memᴰ-append_right, Memᴰ-append-cases,
  Memᴰ-reverse, Memᴰ_of_Memᴰ-reverse, Memᴰ-filter_of_Memᴰ, if◌then◌else◌, list_eq, nat_eq, list_beq,
  list_beq_iff, append-nil, true, filter,
}
use dce_rust.Text.{Str, split_once, str_eq}
use dce_rust.Text.Split.{FreeOf, split_once-append, split_once-free, str_eq_iff}
use dce_rust.Maps.{
  map_get, map_insert, map_get-insert, set_extend, Memᴰ-set_extend_of_Memᴰ, Memᴰ-set_extend_new,
  Memᴰ-set_extend-cases,
}
use dce_rust.Api.{Api, path_part_separator, last_part, cut_suffixes}
use dce_rust.Api.Parse.{last_part-extend, before_last_part-extend, before-append-last_part}
use dce_rust.Api.Suffixes.{Suffix, suffix_eq, suffix_ord, suffix_boundary}
use dce_rust.Router.Registry.{suffix_path, has_suffix, all_suffixes, map_suffixes}

-- Cutting the suffixes off the key of a path gives the path back.
cut_suffixes-suffix_path :
    (p s : Str)
    → FreeOf suffix_boundary (last_part p)
    → FreeOf path_part_separator s
    → (cut_suffixes (suffix_path p s)).0 ≡ p
unfolding cut_suffixes suffix_path
cut_suffixes-suffix_path p [] free h =
    rw append-nil (rw (split_once-free suffix_boundary (last_part p) free, cut_suffixes) refl)
cut_suffixes-suffix_path p (c ∷ s) free h =
    let tail : FreeOf path_part_separator (suffix_boundary ∷ c ∷ s) = (omega arith, h) in
    let cut : split_once suffix_boundary (last_part (p ++ suffix_boundary ∷ c ∷ s))
        ≡ some (last_part p, c ∷ s) =
      rw (last_part-extend p (suffix_boundary ∷ c ∷ s) tail)
        (split_once-append suffix_boundary (last_part p) (c ∷ s) free) in
    rw (cut, cut_suffixes)
      (rw (before_last_part-extend p (suffix_boundary ∷ c ∷ s) tail) (before-append-last_part p))

-- So the keys of two paths differ.
pub suffix_path-path_inj :
    (p q s t : Str)
    → FreeOf suffix_boundary (last_part p)
    → FreeOf suffix_boundary (last_part q)
    → FreeOf path_part_separator s
    → FreeOf path_part_separator t
    → suffix_path p s ≡ suffix_path q t
    → p ≡ q
suffix_path-path_inj p q s t f g h k e =
    sym (cut_suffixes-suffix_path p s f h)
    ∙ ap (λ key. (cut_suffixes key).0) e
    ∙ cut_suffixes-suffix_path q t g k

module _ {Rp : Type 0} where
  -- One of the apis has the suffix.
  abbrev pub Gives : Suffix → List (Api Rp) → Type 0
  Gives s apis = (api : Api Rp) × Memᴰ api apis × Memᴰ s api.suffixes

  all_suffixes-keeps :
      {s : Suffix} (found : List Suffix) (apis : List (Api Rp))
      → Memᴰ s found
      → Memᴰ s (all_suffixes found apis)
  unfolding all_suffixes
  all_suffixes-keeps found [] m = m
  all_suffixes-keeps found (api ∷ apis) m =
      all_suffixes-keeps (set_extend found api.suffixes) apis
        (Memᴰ-set_extend_of_Memᴰ found api.suffixes m)

  pub all_suffixes-complete :
      {s : Suffix} (found : List Suffix) (apis : List (Api Rp))
      → Memᴰ s found ⊎ Gives s apis
      → Memᴰ s (all_suffixes found apis)
  unfolding all_suffixes
  all_suffixes-complete found apis (inl m) = all_suffixes-keeps found apis m
  all_suffixes-complete found [] (inr (api, m, h)) = elim m [ ]
  all_suffixes-complete {s} found (x ∷ apis) (inr (api, Memᴰ.head e, h)) =
      all_suffixes-keeps (set_extend found x.suffixes) apis
        (Memᴰ-set_extend_new found x.suffixes (subst (λ a. Memᴰ s a.suffixes) e h))
  all_suffixes-complete found (x ∷ apis) (inr (api, Memᴰ.tail m, h)) =
      all_suffixes-complete (set_extend found x.suffixes) apis (inr (api, m, h))

  pub all_suffixes_sound :
      {s : Suffix} (found : List Suffix) (apis : List (Api Rp))
      → Memᴰ s (all_suffixes found apis)
      → Memᴰ s found ⊎ Gives s apis
  unfolding all_suffixes
  all_suffixes_sound found [] m = inl m
  all_suffixes_sound found (x ∷ apis) m =
      elim (all_suffixes_sound (set_extend found x.suffixes) apis m) [
        | inr (api, n, h) ↦ inr (api, Memᴰ.tail n, h)
        | inl n ↦ elim (Memᴰ-set_extend-cases found x.suffixes n) [
          | inl old ↦ inl old
          | inr own ↦ inr (x, Memᴰ.head refl, own)
        ]
      ]

  -- An entry under a key of its own stays what it is.
  pub map_suffixes-other :
      (path : Str) (apis : List (Api Rp)) (suffixes : List Suffix)
      (mapping : List (Str × List (Api Rp))) (key : Str)
      → ((x : Suffix) → Memᴰ x suffixes → suffix_path path x.text ≢ key)
      → map_get key (map_suffixes path apis suffixes mapping) ≡ map_get key mapping
  unfolding map_suffixes
  map_suffixes-other path apis [] mapping key h = refl
  map_suffixes-other path apis (x ∷ suffixes) mapping key h =
      let own = suffix_path path x.text in
      map_suffixes-other path apis suffixes (map_insert own (filter (has_suffix x) apis) mapping)
        key (λ y m. h y (Memᴰ.tail m))
      ∙ (map_get-insert own key (filter (has_suffix x) apis) mapping
          ∙ (elim (Bool-cases (list_beq own key)) [
            | inl t ↦ absurd (h x (Memᴰ.head refl) ((list_beq_iff own key).0 t))
            | inr f ↦
                ap (λ b. if b then some (filter (has_suffix x) apis) else map_get key mapping) f
          ]))

any-Memᴰ : (s : Suffix) (xs : List Suffix) → any (λ x. str_eq s.text x.text) xs ≡ true → Memᴰ s xs
unfolding any
any-Memᴰ s [] h = cc
any-Memᴰ s (x ∷ xs) h = elim (Bool-cases (str_eq s.text x.text)) [
  | inl t ↦ Memᴰ.head (suffix_eq s x ((str_eq_iff s.text x.text).0 t))
  | inr f ↦ Memᴰ.tail (any-Memᴰ s xs (ground arith))
]

Memᴰ-any : (s : Suffix) (xs : List Suffix) → Memᴰ s xs → any (λ x. str_eq s.text x.text) xs ≡ true
unfolding any
Memᴰ-any s [] m = elim m [ ]
Memᴰ-any s (x ∷ xs) (Memᴰ.head e) =
    let same : str_eq s.text x.text ≡ true =
      (str_eq_iff s.text x.text).1 (ap (λ (y : Suffix). y.text) e) in
    rw (same, any) refl
Memᴰ-any s (x ∷ xs) (Memᴰ.tail m) = ground (arith, Memᴰ-any s xs m)

pub has_suffix-Memᴰ :
    {Rp : Type 0} (s : Suffix) (api : Api Rp) → has_suffix s api ≡ true → Memᴰ s api.suffixes
unfolding has_suffix
has_suffix-Memᴰ s api h = any-Memᴰ s api.suffixes h

pub Memᴰ-has_suffix :
    {Rp : Type 0} (s : Suffix) (api : Api Rp) → Memᴰ s api.suffixes → has_suffix s api ≡ true
unfolding has_suffix
Memᴰ-has_suffix s api m = Memᴰ-any s api.suffixes m

module _ {Rp : Type 0} (s : Suffix) where
  -- The suffixes a group is mapped under are those of its apis.
  pub Gives-all_suffixes :
      (siblings : List (Api Rp)) (api : Api Rp)
      → Gives s (siblings ++ api ∷ [])
      → Memᴰ s (all_suffixes (set_extend [] api.suffixes) (reverse siblings))
  Gives-all_suffixes siblings api (a, m, h) =
      all_suffixes-complete (set_extend [] api.suffixes) (reverse siblings)
        (elim (Memᴰ-append-cases siblings (api ∷ []) m) [
          | inl n ↦ inr (a, Memᴰ-reverse siblings n, h)
          | inr (Memᴰ.head e) ↦
              inl (Memᴰ-set_extend_new [] api.suffixes (subst (λ x. Memᴰ s x.suffixes) e h))
          | inr (Memᴰ.tail n) ↦ elim n [ ]
        ])

  pub all_suffixes-Gives :
      (siblings : List (Api Rp)) (api : Api Rp)
      → Memᴰ s (all_suffixes (set_extend [] api.suffixes) (reverse siblings))
      → Gives s (siblings ++ api ∷ [])
  all_suffixes-Gives siblings api m =
      elim (all_suffixes_sound (set_extend [] api.suffixes) (reverse siblings) m) [
        | inr (a, n, h) ↦
            (a, Memᴰ-append_left siblings (api ∷ []) (Memᴰ_of_Memᴰ-reverse siblings n), h)
        | inl n ↦ elim (Memᴰ-set_extend-cases [] api.suffixes n) [
          | inl none_yet ↦ elim none_yet [ ]
          | inr h ↦ (api, Memᴰ-append_right siblings (api ∷ []) (Memᴰ.head refl), h)
        ]
      ]

  pub Gives-of_filter :
      (apis : List (Api Rp)) → is_empty (filter (has_suffix s) apis) ≡ false → Gives s apis
  unfolding filter
  Gives-of_filter [] h = cc
  Gives-of_filter (x ∷ apis) h = elim (Bool-cases (has_suffix s x)) [
    | inl t ↦ (x, Memᴰ.head refl, has_suffix-Memᴰ s x t)
    | inr f ↦ let (a, m, g) = Gives-of_filter apis (ground arith) in (a, Memᴰ.tail m, g)
  ]

  pub Gives-filter :
      (apis : List (Api Rp)) → Gives s apis → is_empty (filter (has_suffix s) apis) ≡ false
  Gives-filter apis (a, m, h) =
      nonempty (filter (has_suffix s) apis)
        (Memᴰ-filter_of_Memᴰ (has_suffix s) apis m (Memᴰ-has_suffix s a h))
    where
      nonempty : {x : Api Rp} (l : List (Api Rp)) → Memᴰ x l → is_empty l ≡ false
      nonempty [] n = elim n [ ]
      nonempty (y ∷ l) n = refl
