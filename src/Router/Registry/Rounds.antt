-- ===== src/Router/Registry/Rounds.antt =====
-- One round of closing a router: the group it takes, and the keys it maps.
use dce_rust.Base.{
  filter-append, filter-same, filter-not, filter-apart, ◌≡◌, ◌≢◌, map, append-nil, refl, ap, sym,
  ◌∙◌, true, false, not, Bool-cases, List, [], ◌∷◌, ◌++◌, some, inl, inr, Memᴰ, All, All-Memᴰ,
  subst, filter, is_empty, true-ne-false, if◌then◌else◌, reverse, list_eq, nat_eq, Memᴰ-filter,
  Memᴰ-append_left, Memᴰ-append_right, Memᴰ-append-cases,
}
use dce_rust.Text.{Str, str_eq, eq_ignore_ascii_case, ascii_lower}
use dce_rust.Text.Split.{FreeOf, str_eq_iff}
use dce_rust.Maps.{map_get, set_extend}
use dce_rust.Api.{Api, path_part_separator, last_part}
use dce_rust.Api.Suffixes.{Suffix, suffix_eq, suffix_ord, suffix_boundary}
use dce_rust.Router.Registry.{
  Router, suffix_path, has_suffix, all_suffixes, map_suffixes, same_path, omitted_path,
}
use dce_rust.Router.Registry.Grouping.{suffix_path-inj, map_suffixes-entry}
use dce_rust.Router.Registry.Keys.{
  suffix_path-path_inj, Gives, Gives-all_suffixes, all_suffixes-Gives, Gives-of_filter,
  Gives-filter, map_suffixes-other,
}
use dce_rust.Router.Registry.Groups.{
  IsKeyed, entry_in, entry, spelled_iff, same_path-alike, same_path-other, entry-nil, entry-last,
}

str_eq-ne : (s t : Str) → str_eq s t ≡ false → s ≢ t
str_eq-ne s t f e = true-ne-false (sym ((str_eq_iff s t).1 e) ∙ f)

All-at :
    (x : Suffix) (xs : List Suffix)
    → Memᴰ x xs
    → All (λ s. FreeOf path_part_separator s.text) xs
    → FreeOf path_part_separator x.text
All-at x xs m h =
    let (y, e, f) = All-Memᴰ (λ s. FreeOf path_part_separator s.text) xs h m in
    subst (λ (s : Suffix). FreeOf path_part_separator s.text) (sym e) f

module _ {Rp D : Type 0} (router : Router Rp D) where
  -- What one round of the loop maps the key of a path and a suffix to.
  module _ (front : List (Api Rp)) (api : Api Rp) (mapping : List (Str × List (Api Rp))) where
    abbrev pub path : Str
    path = omitted_path router api.path

    abbrev pub siblings : List (Api Rp)
    siblings = filter (same_path router path) front

    abbrev pub mapped : List (Str × List (Api Rp))
    mapped =
        map_suffixes path (siblings ++ api ∷ [])
          (all_suffixes (set_extend [] api.suffixes) (reverse siblings)) mapping

    -- Whether the key of a path and a suffix is made in this round, which a path settles.
    mapped-own :
        (suffix : Suffix)
        → map_get (suffix_path path suffix.text) mapped ≡ (
            let own = filter (has_suffix suffix) (siblings ++ api ∷ []) in
            if is_empty own then map_get (suffix_path path suffix.text) mapping else some own)
    mapped-own suffix =
        elim (Bool-cases (is_empty (filter (has_suffix suffix) (siblings ++ api ∷ [])))) [
          | inl bare ↦ rw bare (
              map_suffixes-other path (siblings ++ api ∷ [])
                (all_suffixes (set_extend [] api.suffixes) (reverse siblings)) mapping
                (suffix_path path suffix.text)
                (λ x m e.
                  let same = suffix_eq x suffix (suffix_path-inj path x.text suffix.text e) in
                  let given : Gives suffix (siblings ++ api ∷ []) =
                    subst (λ s. Gives s (siblings ++ api ∷ [])) same
                      (all_suffixes-Gives x siblings api m) in
                  let found = Gives-filter suffix (siblings ++ api ∷ []) given in cc))
          | inr found ↦ rw found (
              map_suffixes-entry path (siblings ++ api ∷ [])
                (all_suffixes (set_extend [] api.suffixes) (reverse siblings)) mapping suffix
                (Gives-all_suffixes suffix siblings api
                  (Gives-of_filter suffix (siblings ++ api ∷ []) found)))
        ]

    mapped-other :
        (key : Str) (suffix : Suffix)
        → key ≢ path
        → FreeOf suffix_boundary (last_part key)
        → FreeOf path_part_separator suffix.text
        → ((a : Api Rp) → Memᴰ a (front ++ api ∷ []) → IsKeyed router a)
        → map_get (suffix_path key suffix.text) mapped
          ≡ map_get (suffix_path key suffix.text) mapping
    mapped-other key suffix n f g keyed =
        map_suffixes-other path (siblings ++ api ∷ [])
          (all_suffixes (set_extend [] api.suffixes) (reverse siblings)) mapping
          (suffix_path key suffix.text)
          (λ x m e.
            let (a, found, h) = all_suffixes-Gives x siblings api m in
            let member : Memᴰ a (front ++ api ∷ []) =
              elim (Memᴰ-append-cases siblings (api ∷ []) found) [
                | inl early ↦
                    Memᴰ-append_left front (api ∷ [])
                      (Memᴰ-filter (same_path router path) front early).0
                | inr late ↦ Memᴰ-append_right front (api ∷ []) late
              ] in
            n (
              sym (
                suffix_path-path_inj path key x.text suffix.text
                  (keyed api (Memᴰ-append_right front (api ∷ []) (Memᴰ.head refl))).0 f
                  (All-at x a.suffixes h (keyed a member).1) g e)))

    abbrev pub rest : List (Api Rp)
    rest = filter (λ a. not (same_path router path a)) front

    same_path_self : same_path router path api ≡ true
    unfolding same_path
    same_path_self = (spelled_iff router path path).1 refl

    -- The group of a path that is spelled like this round's is taken as a whole, in its order.
    group-alike :
        (key : Str)
        → eq_ignore_ascii_case key path ≡ true
        → (filter (same_path router key) rest ≡ [])
          × (filter (same_path router key) (front ++ api ∷ []) ≡ siblings ++ api ∷ [])
    unfolding filter
    group-alike key alike =
        let same : (a : Api Rp) → same_path router key a ≡ same_path router path a =
          λ a. same_path-alike router key path a alike in
        (
          filter-same (same_path router key) (same_path router path) rest same
              ∙ filter-not (same_path router path) front,
          filter-same (same_path router key) (same_path router path) (front ++ api ∷ []) same
              ∙ filter-append (same_path router path) front (api ∷ [])
              ∙ rw same_path_self refl,
        )

    -- The group of any other path is left for a later round.
    group-apart :
        (key : Str)
        → eq_ignore_ascii_case key path ≡ false
        → filter (same_path router key) rest ≡ filter (same_path router key) (front ++ api ∷ [])
    unfolding filter
    group-apart key apart =
        let own : same_path router key api ≡ false = elim (Bool-cases (same_path router key api)) [
          | inr f ↦ f
          | inl t ↦
              let other = same_path-other router key path api apart t in
              let self = same_path_self in cc
        ] in
        filter-apart (same_path router key) (same_path router path) front
          (λ a h. same_path-other router key path a apart h)
        ∙ sym (append-nil (filter (same_path router key) front))
        ∙ sym (filter-append (same_path router key) front (api ∷ []) ∙ rw own refl)

    -- What this round makes of the key of a path that is spelled like its own.
    mapped-key :
        (key : Str) (suffix : Suffix)
        → FreeOf suffix_boundary (last_part key)
        → FreeOf path_part_separator suffix.text
        → ((a : Api Rp) → Memᴰ a (front ++ api ∷ []) → IsKeyed router a)
        → map_get (suffix_path key suffix.text) mapped
          ≡ entry_in router
              (siblings ++ api ∷ [])
              key
              suffix
              (map_get (suffix_path key suffix.text) mapping)
    mapped-key key suffix f g keyed =
        let before = map_get (suffix_path key suffix.text) mapping in
        let made = entry-last router siblings api key suffix before in
        elim (Bool-cases (str_eq key path)) [
          | inl t ↦
              let same : key ≡ path = (str_eq_iff key path).0 t in
              ap (λ k. map_get (suffix_path k suffix.text) mapped) same
              ∙ mapped-own suffix
              ∙ ap
                  (λ k.
                    let own = filter (has_suffix suffix) (siblings ++ api ∷ []) in
                    if is_empty own then map_get (suffix_path k suffix.text) mapping else some own)
                  (sym same)
              ∙ sym (made ∙ rw t refl)
          | inr other ↦
              mapped-other key suffix (str_eq-ne key path other) f g keyed
              ∙ sym (made ∙ rw other refl)
        ]

    -- Of the keys of a path, this round makes those of its group, if the path is its last api's.
    pub entry-round :
        (key : Str) (suffix : Suffix)
        → FreeOf suffix_boundary (last_part key)
        → FreeOf path_part_separator suffix.text
        → ((a : Api Rp) → Memᴰ a (front ++ api ∷ []) → IsKeyed router a)
        → entry router rest key suffix (map_get (suffix_path key suffix.text) mapped)
          ≡ entry router
              (front ++ api ∷ [])
              key
              suffix
              (map_get (suffix_path key suffix.text) mapping)
    entry-round key suffix f g keyed =
        let before = map_get (suffix_path key suffix.text) mapping in
        let after = map_get (suffix_path key suffix.text) mapped in
        elim (Bool-cases (eq_ignore_ascii_case key path)) [
          | inl alike ↦
              let (gone, taken) = group-alike key alike in
              ap (λ l. entry_in router l key suffix after) gone
              ∙ entry-nil router key suffix after
              ∙ mapped-key key suffix f g keyed
              ∙ ap (λ l. entry_in router l key suffix before) (sym taken)
          | inr apart ↦
              ap (λ l. entry_in router l key suffix after) (group-apart key apart)
              ∙ ap (entry_in router (filter (same_path router key) (front ++ api ∷ [])) key suffix)
                  (mapped-other key suffix
                    (λ e.
                      true-ne-false
                        (sym ((spelled_iff router key path).1 (ap (map ascii_lower) e)) ∙ apart))
                    f g keyed)
        ]
