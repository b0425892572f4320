-- ===== src/Router/Registry/Groups.antt =====
-- Apis whose paths are the same but for the case of letters, and what a group of them maps.
use dce_rust.Base.{
  ◌≡◌, ◌↔◌, map, refl, ap, sym, ◌∙◌, true, false, Bool-cases, List, [], ◌∷◌, ◌++◌, Option, none,
  some, inl, inr, All, filter, is_empty, if◌then◌else◌, list_eq, nat_eq,
}
use dce_rust.Text.{Str, str_eq, eq_ignore_ascii_case, ascii_lower}
use dce_rust.Text.Split.{FreeOf, str_eq_iff}
use dce_rust.Tree.{pop_last}
use dce_rust.Tree.Paths.{pop_last-append}
use dce_rust.Api.{Api, path_part_separator, last_part}
use dce_rust.Api.Suffixes.{Suffix, suffix_ord, suffix_boundary}
use dce_rust.Router.Registry.{Router, has_suffix, same_path, omitted_path}

module _ {Rp D : Type 0} (router : Router Rp D) where
  -- The last parts of paths have no dot, and suffixes no slash, so that a key is read in one way.
  abbrev pub IsKeyed : Api Rp → Type 0
  IsKeyed api =
      FreeOf suffix_boundary (last_part (omitted_path router api.path))
      × All (λ s. FreeOf path_part_separator s.text) api.suffixes

  -- The apis of one path and one suffix. Whatever the case of its letters, they are mapped under
  -- the path the way the last of the group spells it, and under no other spelling.
  unfoldable pub entry_in :
      List (Api Rp) → Str → Suffix → Option (List (Api Rp)) → Option (List (Api Rp))
  unfolding filter pop_last str_eq
  entry_in group path suffix before = elim (pop_last group) [
    | none ↦ before
    | some (front, api) ↦
        let own = filter (has_suffix suffix) group in
        if str_eq path (omitted_path router api.path)
        then (if is_empty own then before else some own)
        else before
  ]

  abbrev pub entry : List (Api Rp) → Str → Suffix → Option (List (Api Rp)) → Option (List (Api Rp))
  entry apis path = entry_in (filter (same_path router path) apis) path

  pub spelled_iff :
      (p q : Str) → (eq_ignore_ascii_case p q ≡ true) ↔ (map ascii_lower p ≡ map ascii_lower q)
  unfolding eq_ignore_ascii_case
  spelled_iff p q = str_eq_iff (map ascii_lower p) (map ascii_lower q)

  -- Paths that are the same but for the case of letters have the same group.
  pub same_path-alike :
      (p q : Str) (api : Api Rp)
      → eq_ignore_ascii_case p q ≡ true
      → same_path router p api ≡ same_path router q api
  unfolding same_path eq_ignore_ascii_case
  same_path-alike p q api h =
      ap (λ l. str_eq l (map ascii_lower (omitted_path router api.path))) ((spelled_iff p q).0 h)

  pub same_path-other :
      (p q : Str) (api : Api Rp)
      → eq_ignore_ascii_case p q ≡ false
      → same_path router p api ≡ true
      → same_path router q api ≡ false
  unfolding same_path
  same_path-other p q api h k = elim (Bool-cases (same_path router q api)) [
    | inr f ↦ f
    | inl t ↦
        let path = omitted_path router api.path in
        let alike : eq_ignore_ascii_case p q ≡ true =
          (spelled_iff p q).1 ((spelled_iff p path).0 k ∙ sym ((spelled_iff q path).0 t)) in
        cc
  ]

  pub entry-nil :
      (key : Str) (suffix : Suffix) (before : Option (List (Api Rp)))
      → entry_in [] key suffix before ≡ before
  unfolding entry_in
  entry-nil key suffix before = refl

  pub entry-last :
      (group : List (Api Rp)) (api : Api Rp) (key : Str) (suffix : Suffix)
      (before : Option (List (Api Rp)))
      → entry_in (group ++ api ∷ []) key suffix before ≡ (
          let own = filter (has_suffix suffix) (group ++ api ∷ []) in
          if str_eq key (omitted_path router api.path)
          then (if is_empty own then before else some own)
          else before)
  unfolding entry_in
  entry-last group api key suffix before = rw (pop_last-append group api, entry_in) refl
