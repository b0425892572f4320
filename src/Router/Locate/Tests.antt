-- ===== src/Router/Locate/Tests.antt =====
-- Redirects in small routers.
use dce_rust.Base.{
  is_empty, ℕ, suc, ◌≡◌, ◌≢◌, ◌⊎◌, inl, inr, refl, false, none, some, filter, Memᴰ, List, [], ◌∷◌,
  arith, if◌then◌else◌, Bool-cases, list_eq, nat_eq,
}
use dce_rust.Text.{Str, text, str_eq}
use dce_rust.Maps.{map_get}
use dce_rust.Error.{Outcome, ok, panics, out_of_fuel}
use dce_rust.Api.{Api, path_part_separator}
use dce_rust.Api.Suffixes.{Suffix, suffix_boundary}
use dce_rust.Router.Registry.{Router, push, suffix_path, has_suffix, map_suffixes}
use dce_rust.Router.Registry.Grouping.{map_suffixes-entry}
use dce_rust.Router.Registry.Ids.{id_locate-push}
use dce_rust.Router.Build.{PathTree, build_tree, closing}
use dce_rust.Router.Built.{IsClosedWith, FailsAs, closing-build_tree}
use dce_rust.Router.Search.{match_var_path}
use dce_rust.Router.Locate.{find_api, locate, id_locate}
use dce_rust.Router.Locate.Redirects.{
  Follows, locate-Follows, FinderEnds, IsRanked, locate-total, IsCycle, locate-cycle,
}

abbrev Rp : Type 0
Rp = Unit {0}

abbrev api : ℕ → Str → Str → Api Rp
api n path redirect = record {
  controller = n;
  method = none;
  path = path;
  suffixes = record { text = [] } ∷ [];
  id = [];
  omission = false;
  redirect = redirect;
  name = [];
  unresponsive = false;
}

abbrev router : List (Str × List (Api Rp)) → Router Rp Rp
router mapping = record {
  path_part_separator = path_part_separator;
  suffix_boundary = suffix_boundary;
  api_buffer = [];
  raw_omitted_paths = [];
  id_api_mapping = [];
  apis_mapping = mapping;
  apis_tree = [];
  before_controller = none;
  after_controller = none;
}

abbrev first : List (Api Rp) → Outcome (Api Rp)
first [] = panics
first (a ∷ as') = ok a

abbrev old : Router Rp Rp
old = router (
    (text "old", api 1 (text "old") (text "home") ∷ [])
    ∷ (text "home", api 2 (text "home") [] ∷ [])
    ∷ [])

abbrev round : Router Rp Rp
round = router (
    (text "a", api 1 (text "a") (text "b") ∷ [])
    ∷ (text "b", api 2 (text "b") (text "a") ∷ [])
    ∷ [])

locate-Follows_example :
    Follows old first (text "old") [] none (api 2 (text "home") [], [], none)
    × ((api 2 (text "home") []).redirect ≡ [])
unfolding locate map_get
locate-Follows_example =
    locate-Follows old first 2 (text "old") (api 2 (text "home") [], [], none) refl

first-FinderEnds : FinderEnds old first
first-FinderEnds [] e = cc
first-FinderEnds (a ∷ as') e = cc

abbrev rank : Str → ℕ
rank path = if str_eq (text "old") path then 1 else 0

old-IsRanked : IsRanked old first rank
unfolding find_api map_get str_eq match_var_path
old-IsRanked path args suffix r e n = elim (Bool-cases (str_eq (text "old") path)) [
  | inl is ↦ let same : r.0.redirect ≡ text "home" = ground arith in rw (same, is) (omega arith)
  | inr is ↦ elim (Bool-cases (str_eq (text "home") path)) [
    | inl home ↦ absurd (n (ground arith))
    | inr gone ↦ absurd (ground arith)
  ]
]

locate-total_example : locate old first (suc (rank (text "old"))) (text "old") ≢ out_of_fuel
locate-total_example = locate-total old first first-FinderEnds rank old-IsRanked (text "old")

abbrev Inside : Str → Type 0
Inside path = (path ≡ text "a") ⊎ (path ≡ text "b")

round-IsCycle : IsCycle round first Inside
unfolding find_api map_get
round-IsCycle path args suffix (inl e) =
    ((api 1 (text "a") (text "b"), args, suffix), rw e refl, refl, inr refl)
round-IsCycle path args suffix (inr e) =
    ((api 2 (text "b") (text "a"), args, suffix), rw e refl, refl, inl refl)

locate-cycle_example : locate round first 5 (text "a") ≡ out_of_fuel
locate-cycle_example = locate-cycle round first Inside round-IsCycle 5 (text "a") (inl refl)

abbrev with_id : Api Rp
with_id = record (api 3 (text "page") []) { id = text "5" }

id_locate-push_example : id_locate (push with_id old) (text "5") ≡ (
    if is_empty with_id.id
    then id_locate old (text "5")
    else if str_eq with_id.id (text "5")
    then ok (with_id, [], none)
    else id_locate old (text "5"))
id_locate-push_example = id_locate-push with_id old (text "5")

-- A router with an api that is not mapped yet.
abbrev open_router : Router Rp Rp
open_router = record old { api_buffer = api 3 (text "new") [] ∷ [] }

closing-build_tree_example :
    ((tree : PathTree Rp) × (build_tree (λ ps. ps) open_router.api_buffer open_router.apis_tree
        ≡ ok tree)
      × ((closed : Router Rp Rp) × (closing (λ ps. ps) open_router ≡ ok closed)
          × IsClosedWith tree closed))
    ⊎ FailsAs
        (closing (λ ps. ps) open_router)
        (build_tree (λ ps. ps) open_router.api_buffer open_router.apis_tree)
closing-build_tree_example = closing-build_tree (λ ps. ps) open_router

abbrev html : Suffix
html = record { text = text "html" }

map_suffixes-entry_example :
    map_get
      (suffix_path (text "new") (text "html"))
      (map_suffixes (text "new") open_router.api_buffer (html ∷ []) [])
    ≡ some (filter (has_suffix html) open_router.api_buffer)
map_suffixes-entry_example =
    map_suffixes-entry (text "new") open_router.api_buffer (html ∷ []) [] html (Memᴰ.head refl)
