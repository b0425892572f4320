-- ===== src/Api.antt =====
-- crates/router/src/api.rs: what the router knows of an api, and how its path is read.
pub mod Suffixes
pub mod Parse
mod Tests
use dce_rust.Base.{
  ℕ, ◌+◌, Bool, true, false, Option, none, some, List, [], ◌∷◌, ◌++◌, map, compare, ◌==◌,
  if◌then◌else◌, Ord, list_cmp, nat_ord, Ordering,
}
use dce_rust.Text.{Str, text, split, split_once, rsplit_once, trim_matches}
use dce_rust.Maps.{set_extend}
use dce_rust.Api.Suffixes.{Suffix, suffix_ord, suffix_boundary}

-- Constants of router.rs and api.rs.
abbrev pub path_part_separator : ℕ
path_part_separator = b'/'

abbrev pub suffix_separator : ℕ
suffix_separator = b'|'

-- The api that `dyn ApiTrait` shows to the router. The controller, with the (de)serializers that
-- its request and response types call for, is known by a number; `Dispatch` takes the functions.
-- `extras` is not read by the router and left out.
pub record Api (Rp : Type 0) : Type 0 where
  pub controller : ℕ
  pub method : Option (Rp → Bool)
  pub path : Str
  pub suffixes : List Suffix
  pub id : Str
  pub omission : Bool
  pub redirect : Str
  pub name : Str
  pub unresponsive : Bool

-- `path[last_part_from ..]`.
unfoldable pub last_part : Str → Str
last_part path = elim (rsplit_once path_part_separator path) [
  | none ↦ path
  | some (dir, name) ↦ name
]

-- `path[0 .. last_part_from]`.
unfoldable pub before_last_part : Str → Str
before_last_part path = elim (rsplit_once path_part_separator path) [
  | none ↦ []
  | some (dir, name) ↦ dir ++ path_part_separator ∷ []
]

abbrev as_suffix : Str → Suffix
as_suffix t = record { text = t }

-- The path without the suffixes that its last part names behind the first dot, and their set.
unfoldable pub cut_suffixes : Str → Str × List Suffix
unfolding last_part before_last_part set_extend
cut_suffixes path = elim (split_once suffix_boundary (last_part path)) [
  | none ↦ (path, as_suffix [] ∷ [])
  | some (name, behind) ↦
      (before_last_part path ++ name, set_extend [] (map as_suffix (split suffix_separator behind)))
]

unfoldable pub parse_path : Str → Str × List Suffix
unfolding cut_suffixes
parse_path raw = cut_suffixes (trim_matches path_part_separator raw)

unfoldable pub new :
    {Rp : Type 0} → ℕ → Option (Rp → Bool) → Str → Str → Bool → Str → Str → Bool → Api Rp
unfolding parse_path
new controller method path id omission redirect name unresponsive = record {
  controller = controller;
  method = method;
  path = (parse_path path).0;
  suffixes = (parse_path path).1;
  id = id;
  omission = omission;
  redirect = redirect;
  name = name;
  unresponsive = unresponsive;
}

unfoldable pub method_match : {Rp : Type 0} → Api Rp → Rp → Bool
method_match api rp = elim api.method [ none ↦ true | some req_match ↦ req_match rp ]
