-- ===== src/Router/Search/Tests.antt =====
-- Searches in small trees.
use dce_rust.Base.{ℕ, ◌≡◌, ◌≢◌, none, some, List, [], ◌∷◌, false, refl, list_cmp, All}
use dce_rust.Text.{Str, text, split}
use dce_rust.Maps.{set_insert}
use dce_rust.Error.{ok, out_of_fuel}
use dce_rust.Tree.{ATree, Arena}
use dce_rust.Tree.Shape.{At}
use dce_rust.Api.{Api}
use dce_rust.Request.{required}
use dce_rust.Router.Branch.{ApiBranch, VarType}
use dce_rust.Router.Search.{match_var_path}
use dce_rust.Router.Search.Leads.{Leads}
use dce_rust.Router.Search.Total.{match_var_path-total}
use dce_rust.Router.Search.Typed.{Declared, match_var_path-Declared}
use dce_rust.Router.Search.Sound.{match_var_path-Leads}

abbrev Rp : Type 0
Rp = Unit {0}

abbrev branch : Str → VarType → List (Api Rp) → List ℕ → ApiBranch Rp
branch path var_type apis var_children = record {
  path = path;
  var_type = var_type;
  is_mid_var = false;
  is_omission = false;
  apis = apis;
  var_children = var_children;
  omitted_passed_children = [];
}

abbrev api : Api Rp
api = record {
  controller = 2;
  method = none;
  path = text "user/{id}";
  suffixes = record { text = [] } ∷ [];
  id = [];
  omission = false;
  redirect = [];
  name = [];
  unresponsive = false;
}

abbrev users : Arena (ApiBranch Rp) Str
users =
    record {
      element = branch [] VarType.not_var [] [];
      children = (text "user", 1) ∷ [];
      parent = none;
    }
    ∷ record {
      element = branch (text "user") VarType.not_var [] (2 ∷ []);
      children = (text "{id}", 2) ∷ [];
      parent = some 0;
    }
    ∷ record {
      element = branch (text "user/{id}") (VarType.required (text "id")) (api ∷ []) [];
      children = [];
      parent = some 1;
    }
    ∷ []

user_test :
    match_var_path b'/' b'.' users (text "user/7")
    ≡ ok (some (text "user/{id}", (text "id", required (text "7")) ∷ [], []))
unfolding match_var_path list_cmp set_insert
user_test = refl

match_var_path-total_example : match_var_path b'/' b'.' users (text "user/7") ≢ out_of_fuel
match_var_path-total_example = match_var_path-total b'/' b'.' users (text "user/7")

match_var_path-Leads_example :
    (target : ℕ) × (node : ATree (ApiBranch Rp) Str) × At users target node
    × (node.element.path ≡ text "user/{id}")
    × Leads b'.' users 0 (split b'/' (text "user/7")) target
match_var_path-Leads_example =
    match_var_path-Leads b'/' b'.' users (text "user/7") (text "user/{id}")
      ((text "id", required (text "7")) ∷ []) [] user_test

match_var_path-Declared_example : All (Declared users) ((text "id", required (text "7")) ∷ [])
match_var_path-Declared_example =
    match_var_path-Declared b'/' b'.' users (text "user/7") (text "user/{id}")
      ((text "id", required (text "7")) ∷ []) [] user_test
