-- ===== src/Router/Locate.antt =====
-- `locate` and `id_locate` of crates/router/src/router.rs: the api for a path or an id.
pub mod Redirects
mod Tests
use dce_rust.Base.{
  ℕ, zero, suc, Bool, true, false, Option, none, some, List, [], ◌∷◌, ◌++◌, is_empty, list_eq,
  nat_eq,
}
use dce_rust.Text.{Str, text}
use dce_rust.Maps.{map_get}
use dce_rust.Error.{Outcome, ok, err, panics, out_of_fuel, DceErr, new_openly, pos, ◌>>=◌}
use dce_rust.Api.{Api}
use dce_rust.Request.{PathParams}
use dce_rust.Router.Registry.{Router, omitted_path, suffix_path}
use dce_rust.Router.Search.{match_var_path}

abbrev pub Located : Type 0 → Type 0
Located Rp = Api Rp × PathParams × Option Str

abbrev pub path_not_found : Str → DceErr
path_not_found path =
    new_openly (pos 404)
      (text "path \"" ++ (path ++ text "\" route failed, could not matched by Router"))

abbrev pub id_not_found : Str → DceErr
id_not_found id =
    new_openly (pos 404)
      (text "id \"" ++ (id ++ text "\" route failed, could not matched by Router"))

module _ {Rp D : Type 0} (router : Router Rp D) where
  -- One lookup: the apis of a path, with the arguments and the suffix so far or those that
  -- matching the variables of a path has found.
  unfoldable pub lookup_apis :
      Str → PathParams → Option Str → Outcome (Option (List (Api Rp)) × PathParams × Option Str)
  unfolding map_get match_var_path omitted_path suffix_path
  lookup_apis path args suffix = elim (map_get path router.apis_mapping) [
    | some apis ↦ ok (some apis, args, suffix)
    | none ↦
        match_var_path router.path_part_separator router.suffix_boundary router.apis_tree path
        >>= λ matched. elim matched [
          | none ↦ ok (none, args, suffix)
          | some (branch_path, found, cut) ↦ ok (
            map_get (suffix_path (omitted_path router branch_path) cut) router.apis_mapping,
            found,
            some cut,
          )
        ]
  ]

  module _ (api_finder : List (Api Rp) → Outcome (Api Rp)) where
    -- A round of the loop up to the test for a redirect.
    unfoldable pub find_api : Str → PathParams → Option Str → Outcome (Located Rp)
    unfolding lookup_apis
    find_api path args suffix = lookup_apis path args suffix >>= λ r. elim r.0 [
      | none ↦ err (path_not_found path)
      | some apis ↦ api_finder apis >>= λ api. ok (api, r.1, r.2)
    ]

    -- The loop that follows redirects. The source sets it no bound: the fuel counts its rounds.
    unfoldable pub follow : ℕ → Str → PathParams → Option Str → Outcome (Located Rp)
    unfolding find_api
    follow zero path args suffix = out_of_fuel
    follow (suc fuel) path args suffix = find_api path args suffix >>= λ r.
        elim (is_empty r.0.redirect) [ true ↦ ok r | false ↦ follow fuel r.0.redirect r.1 r.2 ]

    unfoldable pub locate : ℕ → Str → Outcome (Located Rp)
    unfolding follow
    locate fuel path = follow fuel path [] none

  unfoldable pub id_locate : Str → Outcome (Located Rp)
  unfolding map_get
  id_locate id = elim (map_get id router.id_api_mapping) [
    | none ↦ err (id_not_found id)
    | some api ↦ ok (api, [], none)
  ]
