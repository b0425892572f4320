-- ===== src/Router/Build.antt =====
-- `build_tree` and `ready` of crates/router/src/router.rs: the tree of paths. A `HashSet` lists the
-- distinct paths in an order of its own, which is the argument `hash_order`.
use dce_rust.Base.{
  ℕ, zero, suc, Bool, true, false, none, some, List, [], ◌∷◌, ◌++◌, map, reverse, if◌then◌else◌,
  filter, get_elem?, list_eq, nat_eq, list_ord, nat_ord,
}
use dce_rust.Text.{Str, str_eq, split, join}
use dce_rust.Maps.{btree_get, btree_insert}
use dce_rust.Error.{Outcome, ok, err, panics, out_of_fuel, ◌>>=◌}
use dce_rust.Tree
use dce_rust.Tree.{
  ATree, Arena, TreeTraverBreak, get_by_path, actual_set_by_path, set_by_path, no_own, modify,
}
use dce_rust.Api.{Api, path_part_separator}
use dce_rust.Router.Branch
use dce_rust.Router.Branch.{ApiBranch, VarType, factory}
use dce_rust.Router.Registry.{Router, contains, close}

-- The distinct members of a list.
unfoldable pub distinct : List Str → List Str
unfolding contains
distinct [] = []
distinct (x ∷ xs) = let rest = distinct xs in if contains rest x then rest else x ∷ rest

-- `paths[..=0]`, `paths[..=1]`, … up to the one before the whole.
unfoldable pub proper_prefixes : List Str → List Str → List (List Str)
proper_prefixes before [] = []
proper_prefixes before (p ∷ []) = []
proper_prefixes before (p ∷ q ∷ ps) =
    (before ++ p ∷ []) ∷ proper_prefixes (before ++ p ∷ []) (q ∷ ps)

abbrev pub PathTree : Type 0 → Type 0
PathTree Rp = Arena (ApiBranch Rp) Str

abbrev pub Fills : Type 0 → Type 0
Fills Rp = List (List Str × ApiBranch Rp)

unfoldable pub is_var : VarType → Bool
is_var VarType.not_var = false
is_var _ = true

module _ {Rp : Type 0} where
  -- One branch for each distinct path, with the apis of that path in the order of registration.
  unfoldable pub group_branches : List (Api Rp) → List Str → Outcome (List (ApiBranch Rp))
  unfolding Branch.new filter str_eq
  group_branches buffer [] = ok []
  group_branches buffer (path ∷ paths) =
      Branch.new path (filter (λ api. str_eq api.path path) buffer) >>= λ branch.
      group_branches buffer paths >>= λ more. ok (branch ∷ more)

  -- The bare branches for the prefixes that neither the tree nor the fills have.
  unfoldable pub fill_prefixes : PathTree Rp → List (List Str) → Fills Rp → Outcome (Fills Rp)
  unfolding Branch.new get_by_path btree_get btree_insert
  fill_prefixes tree [] fills = ok fills
  fill_prefixes tree (path ∷ paths) fills = elim (get_by_path 0 path tree) [
    | some _ ↦ fill_prefixes tree paths fills
    | none ↦ elim (btree_get path fills) [
      | some _ ↦ fill_prefixes tree paths fills
      | none ↦ Branch.new (join path_part_separator path) [] >>= λ bare.
          fill_prefixes tree paths (btree_insert path bare fills)
    ]
  ]

  -- The loop over the remains, from the last to the first.
  unfoldable pub fill_remains : PathTree Rp → List (ApiBranch Rp) → Fills Rp → Outcome (Fills Rp)
  unfolding fill_prefixes proper_prefixes
  fill_remains tree [] fills = ok fills
  fill_remains tree (element ∷ remains) fills =
      let paths = split path_part_separator element.path in
      fill_prefixes tree (proper_prefixes [] paths) fills >>= λ filled.
      fill_remains tree remains (btree_insert paths element filled)

  -- `pop_first` to the end: shorter paths stand before the ones that they begin. A failure of
  -- `set_by_path` is let go.
  unfoldable pub set_fills : Fills Rp → PathTree Rp → Outcome (PathTree Rp)
  unfolding actual_set_by_path
  set_fills [] tree = ok tree
  set_fills ((paths, branch) ∷ fills) tree = elim (set_by_path 0 paths branch tree) [
    | ok (grown, _) ↦ set_fills fills grown
    | err _ ↦ set_fills fills tree
    | panics ↦ panics
    | out_of_fuel ↦ out_of_fuel
  ]

  unfoldable pub handle_remains : ℕ → PathTree Rp → List (ApiBranch Rp) → Outcome (PathTree Rp)
  unfolding fill_remains set_fills
  handle_remains root tree remains =
      fill_remains tree (reverse remains) [] >>= λ fills. set_fills fills tree

  abbrev change : (ApiBranch Rp → ApiBranch Rp) → ℕ → PathTree Rp → PathTree Rp
  change f place tree = modify place (λ node. record node { element = f node.element }) tree

  -- The `match` on the parent's kind: a variable in the middle must be a required one.
  unfoldable pub mark_middle : ApiBranch Rp → Outcome (ApiBranch Rp)
  mark_middle parent = elim parent.var_type [
    | VarType.required _ ↦ ok (record parent { is_mid_var = true })
    | VarType.not_var ↦ ok parent
    | _ ↦ panics
  ]

  -- The parent learns of the branch: of a variable as a variable child, and of another branch only
  -- if an omitted one was passed on the way to the parent.
  unfoldable pub adopt_branch : ℕ → ApiBranch Rp → Bool → ApiBranch Rp → ApiBranch Rp
  unfolding is_var btree_insert Branch.key
  adopt_branch place branch passed parent =
      if is_var branch.var_type
      then record parent { var_children = parent.var_children ++ place ∷ [] }
      else if passed
      then record parent {
        omitted_passed_children =
            btree_insert (Branch.key branch.path) place parent.omitted_passed_children;
      }
      else parent

  -- The loop up to the nearest branch that is not omitted. Parents stand before their children, so
  -- the place itself is fuel enough.
  unfoldable pub climb : ℕ → ℕ → ℕ → ApiBranch Rp → Bool → PathTree Rp → Outcome (PathTree Rp)
  unfolding mark_middle adopt_branch modify
  climb zero current place branch passed tree = out_of_fuel
  climb (suc fuel) current place branch passed tree = elim (Tree.parent current tree) [
    | none ↦ ok tree
    | some up ↦ elim (get_elem? tree up) [
      | none ↦ ok tree
      | some node ↦ elim node.element.is_omission [
        | true ↦ climb fuel up place branch true tree
        | false ↦ mark_middle node.element >>= λ marked.
            ok (change (λ _. adopt_branch place branch passed marked) up tree)
      ]
    ]
  ]

  -- The callback of the traversal.
  unfoldable pub fill_properties : ℕ → PathTree Rp → Outcome (PathTree Rp × TreeTraverBreak)
  unfolding climb
  fill_properties place tree = elim (get_elem? tree place) [
    | none ↦ err no_own
    | some node ↦ climb (suc place) place place node.element false tree >>= λ changed.
        ok (changed, TreeTraverBreak.continue)
  ]

  module _ (hash_order : List Str → List Str) where
    unfoldable pub build_tree : List (Api Rp) → PathTree Rp → Outcome (PathTree Rp)
    unfolding group_branches distinct handle_remains fill_properties Tree.build Tree.traversal
    build_tree buffer tree =
        group_branches buffer (hash_order (distinct (map (λ api. api.path) buffer))) >>= λ branches.
        Tree.build factory 0 branches handle_remains tree >>= λ built.
        Tree.traversal fill_properties 0 built

module _ {Rp D : Type 0} (hash_order : List Str → List Str) where
  -- `closing`, and `ready`, which gives the router away.
  unfoldable pub closing : Router Rp D → Outcome (Router Rp D)
  unfolding build_tree close
  closing router = build_tree hash_order router.api_buffer router.apis_tree >>= λ tree.
      close (record router { apis_tree = tree })

  abbrev pub ready : Router Rp D → Outcome (Router Rp D)
  ready router = closing router
