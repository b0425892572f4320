-- ===== src/Router/Registry.antt =====
-- `Router` of crates/router/src/router.rs: registering apis, and the map from paths to apis.
pub mod Ids
pub mod Grouping
mod Keys
mod Groups
mod Rounds
mod Closing
mod Tests
use dce_rust.Base.{
  ℕ, zero, suc, Bool, not, Option, none, some, List, [], ◌∷◌, ◌++◌, reverse, length, if◌then◌else◌,
  any, filter, is_empty, list_eq, nat_eq, list_ord, nat_ord,
}
use dce_rust.Text.{Str, str_eq, split, join, eq_ignore_ascii_case}
use dce_rust.Maps.{map_insert, set_extend}
use dce_rust.Error.{Outcome, ok, out_of_fuel, ◌>>=◌}
use dce_rust.Tree
use dce_rust.Tree.{Arena, pop_last}
use dce_rust.Api.{Api, path_part_separator}
use dce_rust.Api.Suffixes.{Suffix, suffix_ord, suffix_boundary}
use dce_rust.Request.{Context}
use dce_rust.Router.Branch
use dce_rust.Router.Branch.{ApiBranch}

-- Handlers change the context and may fail; an awaited handler does so like the other.
pub data EventHandler (Rp D : Type 0) : Type 0 where
  sync async : (Context Rp D → Outcome (Unit {0}) × Context Rp D) → EventHandler Rp D

pub record Router (Rp D : Type 0) : Type 0 where
  pub path_part_separator : ℕ
  pub suffix_boundary : ℕ
  pub api_buffer : List (Api Rp)
  pub raw_omitted_paths : List Str
  pub id_api_mapping : List (Str × Api Rp)
  pub apis_mapping : List (Str × List (Api Rp))
  pub apis_tree : Arena (ApiBranch Rp) Str
  pub before_controller : Option (EventHandler Rp D)
  pub after_controller : Option (EventHandler Rp D)

unfoldable pub contains : List Str → Str → Bool
unfolding any
contains xs x = any (str_eq x) xs

-- The parts of a path whose own path from the root is not omitted; `before` are those passed.
unfoldable pub kept_parts : List Str → List Str → List Str → List Str
unfolding contains
kept_parts omitted before [] = []
kept_parts omitted before (part ∷ parts) =
    let here = before ++ part ∷ [] in
    let rest = kept_parts omitted here parts in
    if contains omitted (join path_part_separator here) then rest else part ∷ rest

unfoldable pub suffix_path : Str → Str → Str
suffix_path path suffix = path ++ (if is_empty suffix then [] else suffix_boundary ∷ suffix)

module _ {Rp : Type 0} where
  unfoldable pub has_suffix : Suffix → Api Rp → Bool
  unfolding any str_eq
  has_suffix suffix api = any (λ s. str_eq suffix.text s.text) api.suffixes

  -- The suffixes of the apis, taken from the last to the first.
  unfoldable pub all_suffixes : List Suffix → List (Api Rp) → List Suffix
  unfolding set_extend
  all_suffixes found [] = found
  all_suffixes found (api ∷ apis) = all_suffixes (set_extend found api.suffixes) apis

  -- One entry for each suffix, with the apis that have it.
  unfoldable pub map_suffixes :
      Str → List (Api Rp) → List Suffix → List (Str × List (Api Rp)) → List (Str × List (Api Rp))
  unfolding map_insert filter suffix_path has_suffix
  map_suffixes path apis [] mapping = mapping
  map_suffixes path apis (suffix ∷ suffixes) mapping =
      map_suffixes path apis suffixes
        (map_insert (suffix_path path suffix.text) (filter (has_suffix suffix) apis) mapping)

module _ {Rp D : Type 0} where
  unfoldable pub new : Outcome (Router Rp D)
  unfolding Branch.new Tree.new
  new = Branch.new [] [] >>= λ root. ok (record {
    path_part_separator = path_part_separator;
    suffix_boundary = suffix_boundary;
    api_buffer = [];
    raw_omitted_paths = [];
    id_api_mapping = [];
    apis_mapping = [];
    apis_tree = Tree.new root;
    before_controller = none;
    after_controller = none;
  })

  unfoldable pub set_separator : ℕ → ℕ → Router Rp D → Router Rp D
  set_separator separator boundary router = record router {
    path_part_separator = separator;
    suffix_boundary = boundary;
  }

  unfoldable pub set_event_handlers :
      Option (EventHandler Rp D) → Option (EventHandler Rp D) → Router Rp D → Router Rp D
  set_event_handlers before after router = record router {
    before_controller = before;
    after_controller = after;
  }

  unfoldable pub push : Api Rp → Router Rp D → Router Rp D
  unfolding map_insert
  push api router = record router {
    raw_omitted_paths =
        if api.omission then api.path ∷ router.raw_omitted_paths else router.raw_omitted_paths;
    id_api_mapping =
        if is_empty api.id
        then router.id_api_mapping
        else map_insert api.id api router.id_api_mapping;
    api_buffer = router.api_buffer ++ api ∷ [];
  }

  unfoldable pub omitted_path : Router Rp D → Str → Str
  unfolding kept_parts
  omitted_path router path =
      join path_part_separator
        (kept_parts router.raw_omitted_paths [] (split path_part_separator path))

  -- The test of `closing` for an api that has the path, whatever the case of its letters.
  unfoldable pub same_path : Router Rp D → Str → Api Rp → Bool
  unfolding omitted_path eq_ignore_ascii_case
  same_path router path api = eq_ignore_ascii_case path (omitted_path router api.path)

  -- The loop of `closing`, which empties the buffer from its end. What `remove` takes out from the
  -- back and `insert(0, _)` puts in front keeps the order of registration.
  unfoldable pub close_from :
      Router Rp D
      → ℕ
      → List (Api Rp)
      → List (Str × List (Api Rp))
      → Outcome (List (Str × List (Api Rp)))
  unfolding pop_last omitted_path same_path all_suffixes map_suffixes filter
  close_from router zero buffer mapping = out_of_fuel
  close_from router (suc fuel) buffer mapping = elim (pop_last buffer) [
    | none ↦ ok mapping
    | some (front, api) ↦
        let path = omitted_path router api.path in
        let siblings = filter (same_path router path) front in
        close_from router fuel (filter (λ a. not (same_path router path a)) front) (
          map_suffixes path (siblings ++ api ∷ [])
            (all_suffixes (set_extend [] api.suffixes) (reverse siblings)) mapping)
  ]

  -- `closing`, once the tree is built.
  unfoldable pub close : Router Rp D → Outcome (Router Rp D)
  unfolding close_from
  close router =
      close_from router (suc (length router.api_buffer)) router.api_buffer router.apis_mapping
      >>= λ mapping. ok (record router { api_buffer = []; apis_mapping = mapping })
