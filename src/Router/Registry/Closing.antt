-- ===== src/Router/Registry/Closing.antt =====
-- Closing a router: which apis a path and a suffix are mapped to.
use dce_rust.Base.{
  ℕ, zero, suc, ◌≡◌, refl, ap, sym, ◌∙◌, arith, not, List, [], ◌∷◌, ◌++◌, Option-cases, inl, inr,
  Memᴰ, All, All-Memᴰ, subst, ◌<◌, length, list_eq, nat_eq, Memᴰ-filter, Memᴰ-append_left,
}
use dce_rust.Text.{Str}
use dce_rust.Text.Split.{FreeOf}
use dce_rust.Maps.{map_get}
use dce_rust.Error.{ok}
use dce_rust.Tree.{pop_last}
use dce_rust.Tree.Paths.{whole, whole-pop_last, pop_last-whole}
use dce_rust.Router.Registry.Rounds.{entry-round, rest, mapped}
use dce_rust.Router.Registry.Groups.{entry, entry-nil, IsKeyed}
use dce_rust.Api.{Api, path_part_separator, last_part}
use dce_rust.Api.Suffixes.{Suffix, suffix_ord, suffix_boundary}
use dce_rust.Router.Registry.{Router, suffix_path, same_path, omitted_path, close_from, close}
use dce_rust.Router.Registry.Grouping.{length-pop_last, length-filter-le}

module _ {Rp D : Type 0} (router : Router Rp D) where
  -- The loop ends with the key of a path and a suffix mapped the way the groups of the buffer say.
  close_from-entry :
      (fuel : ℕ) (buffer : List (Api Rp)) (mapping : List (Str × List (Api Rp))) (key : Str)
      (suffix : Suffix)
      → length buffer < fuel
      → FreeOf suffix_boundary (last_part key)
      → FreeOf path_part_separator suffix.text
      → ((a : Api Rp) → Memᴰ a buffer → IsKeyed router a)
      → (made : List (Str × List (Api Rp))) × (close_from router fuel buffer mapping ≡ ok made)
        × (map_get (suffix_path key suffix.text) made
            ≡ entry router buffer key suffix (map_get (suffix_path key suffix.text) mapping))
  unfolding close_from whole
  close_from-entry zero buffer mapping key suffix h f g keyed = absurd (omega arith)
  close_from-entry (suc fuel) buffer mapping key suffix h f g keyed =
      elim (Option-cases (pop_last buffer)) [
        | inl gone ↦
            let bare : buffer ≡ [] = sym (whole-pop_last buffer) ∙ ap whole gone in
            (
              mapping,
              rw (gone, close_from) refl,
              rw bare (
                  sym
                    (entry-nil router key suffix (map_get (suffix_path key suffix.text) mapping))),
            )
        | inr ((front, api), found) ↦
            let cut = pop_last-whole buffer front api found in
            let within : (a : Api Rp) → Memᴰ a (front ++ api ∷ []) → IsKeyed router a =
              λ a m. keyed a (subst (Memᴰ a) (sym cut) m) in
            let kept : (a : Api Rp) → Memᴰ a (rest router front api mapping) → IsKeyed router a =
              λ a m. within a (Memᴰ-append_left front (api ∷ []) (Memᴰ-filter _ front m).0) in
            let less = length-pop_last buffer front api found in
            let left =
              length-filter-le (λ a. not (same_path router (omitted_path router api.path) a))
                front in
            let (made, done, got) =
              close_from-entry fuel (rest router front api mapping)
                (mapped router front api mapping) key suffix (omega (arith, less, left, h)) f g
                kept in
            (
              made,
              rw (found, close_from) done,
              got
                  ∙ entry-round router front api mapping key suffix f g within
                  ∙ ap
                      (λ l.
                        entry router l key suffix (map_get (suffix_path key suffix.text) mapping))
                      (sym cut),
            )
      ]

-- Closing a router ends, with every path and suffix mapped to the apis of the buffer that have them.
-- Those of one path are a group, whatever the case of its letters, and in the order they were
-- registered in; they are mapped under the spelling of the last of them, and under no other. A path
-- and a suffix that no api has keep what they were mapped to. The last part of the path, and of that
-- of every api, has no dot, and the suffixes have no slash, so that a key is read in one way.
pub close-entry :
    {Rp D : Type 0} (router : Router Rp D) (path : Str) (suffix : Suffix)
    → FreeOf suffix_boundary (last_part path)
    → FreeOf path_part_separator suffix.text
    → All (IsKeyed router) router.api_buffer
    → (closed : Router Rp D) × (close router ≡ ok closed)
      × (map_get (suffix_path path suffix.text) closed.apis_mapping
          ≡ entry router router.api_buffer path suffix
              (map_get (suffix_path path suffix.text) router.apis_mapping))
unfolding close
close-entry router path suffix f g keyed =
    let (made, done, got) =
      close_from-entry router (suc (length router.api_buffer)) router.api_buffer router.apis_mapping
        path suffix (omega arith) f g
        (λ a m.
          let (b, e, k) = All-Memᴰ (IsKeyed router) router.api_buffer keyed m in
          subst (IsKeyed router) (sym e) k) in
    (record router { api_buffer = []; apis_mapping = made }, rw done refl, got)
