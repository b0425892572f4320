-- ===== src/Router/Registry/Ids.antt =====
-- The ids of apis: what registering an api changes for `id_locate`.
use dce_rust.Base.{
  arith, ◌≡◌, refl, ◌∙◌, none, some, [], is_empty, Bool-cases, inl, inr, if◌then◌else◌, list_eq,
  nat_eq,
}
use dce_rust.Text.{Str, str_eq}
use dce_rust.Maps.{map_get, map_insert, map_get-insert}
use dce_rust.Error.{ok}
use dce_rust.Api.{Api}
use dce_rust.Router.Registry.{Router, push}
use dce_rust.Router.Locate.{id_locate}

-- After an api is registered, its id, if it has one, locates it, with no arguments and no suffix,
-- in place of an api that had the id before; every other id locates what it did.
pub id_locate-push :
    {Rp D : Type 0} (api : Api Rp) (router : Router Rp D) (id : Str)
    → id_locate (push api router) id ≡ (
        if is_empty api.id
        then id_locate router id
        else if str_eq api.id id
        then ok (api, [], none)
        else id_locate router id)
unfolding id_locate push str_eq
id_locate-push api router id = elim (Bool-cases (is_empty api.id)) [
  | inl bare ↦ rw bare refl
  | inr named ↦ elim (Bool-cases (str_eq api.id id)) [
    | inl same ↦
        let looked : map_get id (map_insert api.id api router.id_api_mapping) ≡ some api =
          map_get-insert api.id id api router.id_api_mapping ∙ ground (arith) in
        rw named (rw same (rw (looked, id_locate) refl))
    | inr other ↦
        let looked : map_get id (map_insert api.id api router.id_api_mapping)
            ≡ map_get id router.id_api_mapping =
          map_get-insert api.id id api router.id_api_mapping ∙ ground (arith) in
        rw named (rw other (rw (looked, id_locate) refl))
  ]
]
