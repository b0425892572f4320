-- ===== src/Tree/Tests.antt =====
-- The arena on small trees of numbers: a child of a number has one digit more.
use dce_rust.Base.{
  ℕ, ◌/◌, ◌%◌, ◌≡◌, refl, false, none, some, List, [], ◌∷◌, reverse, ◌++◌, ◌==◌, nat_ord,
}
use dce_rust.Error.{Outcome, ok, ◌>>=◌}
use dce_rust.Maps.{btree_get, btree_insert}
use dce_rust.Tree
use dce_rust.Tree.{ATree, Arena, KeyFactory, parents_until, parents, get_by_path, set_by_path}
use dce_rust.Tree.Lookup.{grown}
use dce_rust.Tree.Shape.{IsTree, new-IsTree, grown-IsTree}
use dce_rust.Tree.Paths.{Placed, set_by_path-Placed}
use dce_rust.Tree.Parents.{IsAncestry, parents-IsAncestry}
use dce_rust.Tree.Building.{IsFullTree, build-IsFullTree}

abbrev digits : KeyFactory ℕ ℕ
digits = record { key = λ n. n % 10; child_of = λ n p. n / 10 == p }

abbrev keep : ℕ → Arena ℕ ℕ → List ℕ → Outcome (Arena ℕ ℕ)
keep root arena rest = ok arena

abbrev numbers : List ℕ
numbers = 12 ∷ 121 ∷ 13 ∷ 45 ∷ 1213 ∷ []

abbrev root_node : ATree ℕ ℕ
root_node = record { element = 1; children = []; parent = none }

abbrev two_nodes : Arena ℕ ℕ
two_nodes = grown 0 2 12 root_node (root_node ∷ [])

two_nodes-IsTree : IsTree two_nodes
unfolding Tree.new Tree.new_with_parent
two_nodes-IsTree = grown-IsTree 0 2 12 root_node (root_node ∷ []) refl (new-IsTree 1)

remains_test :
    Tree.build_from digits 6 (0 ∷ []) numbers (Tree.new 1) >>= (λ r. ok r.1) ≡ ok (45 ∷ [])
unfolding Tree.build_from Tree.new
remains_test = refl

build-IsFullTree_example :
    (arena : Arena ℕ ℕ) × (rest : List ℕ) × (Tree.build digits 0 numbers keep (Tree.new 1)
      ≡ keep 0 arena rest)
    × IsFullTree digits 1 numbers arena rest
build-IsFullTree_example = build-IsFullTree digits 1 numbers keep

set_by_path-Placed_example :
    (after : Arena ℕ ℕ) × (child : ℕ) × (set_by_path 0 ((2 ∷ []) ++ 1 ∷ []) 121 two_nodes
      ≡ ok (after, child))
    × Placed 0 1 (2 ∷ []) 1 121 two_nodes after child
unfolding get_by_path grown btree_get btree_insert
set_by_path-Placed_example = set_by_path-Placed 0 (2 ∷ []) 1 121 two_nodes 1 two_nodes-IsTree refl

parents-IsAncestry_example :
    (more : List ℕ) × (parents_until ◌==◌ 1 none false two_nodes ≡ ok (1 ∷ more))
    × (parents ◌==◌ 1 two_nodes ≡ ok (reverse (1 ∷ more)))
    × IsAncestry two_nodes (1 ∷ more)
unfolding grown
parents-IsAncestry_example =
    parents-IsAncestry ◌==◌ two_nodes two_nodes-IsTree 1
      (record { element = 12; children = []; parent = some 0 }) refl
