-- ===== src/Router/Registry/Tests.antt =====
-- Closing a router of two apis that have one path in two spellings.
use dce_rust.Text.Split.{FreeOf}
use dce_rust.Wire.Sample.{free}
use dce_rust.Base.{false, any, ◌≡◌, refl, some, List, [], ◌∷◌, list_eq, nat_eq, none}
use dce_rust.Text.{Str, text, rsplit_once, split, join, eq_ignore_ascii_case}
use dce_rust.Maps.{map_get}
use dce_rust.Error.{ok}
use dce_rust.Api.{Api, last_part}
use dce_rust.Api.Suffixes.{Suffix}
use dce_rust.Router.Registry.{Router, same_path, has_suffix, omitted_path, suffix_path, close}
use dce_rust.Router.Registry.Groups.{entry, entry_in}
use dce_rust.Router.Registry.Closing.{close-entry}

abbrev Rp : Type 0
Rp = Unit {0}

abbrev html : Suffix
html = record { text = text "html" }

abbrev bare : Suffix
bare = record { text = [] }

abbrev api : Str → List Suffix → Api Rp
api path suffixes = record {
  controller = 0;
  method = none;
  path = path;
  suffixes = suffixes;
  id = [];
  omission = false;
  redirect = [];
  name = [];
  unresponsive = false;
}

abbrev pages : Router Rp Rp
pages = record {
  path_part_separator = b'/';
  suffix_boundary = b'.';
  api_buffer = api (text "Page") (html ∷ []) ∷ api (text "page") (html ∷ bare ∷ []) ∷ [];
  raw_omitted_paths = [];
  id_api_mapping = [];
  apis_mapping = [];
  apis_tree = [];
  before_controller = none;
  after_controller = none;
}

close-entry_example :
    (closed : Router Rp Rp) × (close pages ≡ ok closed)
    × (map_get (suffix_path (text "page") (text "html")) closed.apis_mapping
        ≡ entry pages pages.api_buffer
            (text "page")
            html
            (map_get (suffix_path (text "page") (text "html")) pages.apis_mapping))
unfolding omitted_path last_part rsplit_once split join any
close-entry_example =
    let slashless : FreeOf b'/' (text "html") = free b'/' (text "html") refl in
    close-entry pages (text "page") html (free b'.' (text "page") refl) slashless (
      (free b'.' (text "Page") refl, (slashless, tt)),
      ((free b'.' (text "page") refl, (slashless, (tt, tt))), tt),
    )

-- The group of the path is mapped under the later of the spellings, whole.
page_test : entry pages pages.api_buffer (text "page") html none ≡ some pages.api_buffer
unfolding entry_in same_path omitted_path split join eq_ignore_ascii_case has_suffix
page_test = refl

spelling_test : entry pages pages.api_buffer (text "Page") html none ≡ none
unfolding entry_in same_path omitted_path split join eq_ignore_ascii_case has_suffix
spelling_test = refl
