-- ===== src/Apps/Echo/Table.antt =====
-- The router of the echo servers, as it is made.
use dce_rust.Base.{
  ℕ, ◌≡◌, ◌⊎◌, inl, inr, ap, false, Option, none, some, List, [], ◌∷◌, list_eq, nat_eq, list_ord,
  nat_ord,
}
use dce_rust.Text.{Str, text, rsplit_once, split_once, trim_matches, join, split}
use dce_rust.Maps.{set_insert}
use dce_rust.Error.{Outcome, ok}
use dce_rust.Tree
use dce_rust.Tree.{ATree, Arena}
use dce_rust.Api.{Api}
use dce_rust.Api.Suffixes.{suffix_cmp}
use dce_rust.Router.Registry.{Router}
use dce_rust.Router.Branch.{ApiBranch, VarType, child_of}
use dce_rust.Apps.Echo.{echo_router, echo_path}

system : Unit {0}
unfolding echo_router suffix_cmp rsplit_once split_once trim_matches child_of join Tree.parent
    set_insert
system = tt

module _ {Rp : Type 0} where
  abbrev api_of : ℕ → Str → Str → Api Rp
  api_of controller path name = record {
    controller = controller;
    method = none;
    path = path;
    suffixes = record { text = [] } ∷ [];
    id = [];
    omission = false;
    redirect = [];
    name = name;
    unresponsive = false;
  }

  abbrev pub hello_api : Api Rp
  hello_api = api_of 1 (text "hello") (text "hello")

  abbrev pub echo_api : Api Rp
  echo_api = api_of 2 echo_path (text "{param?}")

  abbrev branch : Str → VarType → List (Api Rp) → List ℕ → ApiBranch Rp
  branch path var_type apis var_children = record {
    path = path;
    var_type = var_type;
    is_mid_var = false;
    is_omission = false;
    apis = apis;
    var_children = var_children;
    omitted_passed_children = [];
  }

  abbrev node : ApiBranch Rp → List (Str × ℕ) → Option ℕ → ATree (ApiBranch Rp) Str
  node element children parent = record { element = element; children = children; parent = parent }

  abbrev pub param_branch : ApiBranch Rp
  param_branch = branch echo_path (VarType.optional (text "param")) (echo_api ∷ []) []

  abbrev pub echo_node : ATree (ApiBranch Rp) Str
  echo_node =
      node (branch (text "echo") VarType.not_var [] (3 ∷ [])) ((text "{param?}", 3) ∷ []) (some 0)

  abbrev pub tree : Arena (ApiBranch Rp) Str
  tree =
      node (branch [] VarType.not_var [] []) ((text "echo", 2) ∷ (text "hello", 1) ∷ []) none
      ∷ node (branch (text "hello") VarType.not_var (hello_api ∷ []) []) [] (some 0)
      ∷ echo_node
      ∷ node param_branch [] (some 2)
      ∷ []

-- A hash set lists the two paths in one of two orders.
abbrev pub IsHashOrder : (List Str → List Str) → Type 0
IsHashOrder order =
    (order (text "hello" ∷ echo_path ∷ []) ≡ text "hello" ∷ echo_path ∷ [])
    ⊎ (order (text "hello" ∷ echo_path ∷ []) ≡ echo_path ∷ text "hello" ∷ [])

module _ {Rp D : Type 0} where
  -- The router of the servers, whose tree has a bare branch for "echo".
  abbrev pub table : Router Rp D
  table = record {
    path_part_separator = b'/';
    suffix_boundary = b'.';
    api_buffer = [];
    raw_omitted_paths = [];
    id_api_mapping = [];
    apis_mapping = (echo_path, echo_api ∷ []) ∷ (text "hello", hello_api ∷ []) ∷ [];
    apis_tree = tree;
    before_controller = none;
    after_controller = none;
  }

  built : List Str → Outcome (Router Rp D)
  built paths = echo_router (λ _. paths)

  -- Either makes the same router.
  pub echo_router_lem :
      (order : List Str → List Str) → IsHashOrder order → echo_router order ≡ ok table
  unfolding built system split
  echo_router_lem order (inl e) = ap built e
  echo_router_lem order (inr e) = ap built e
