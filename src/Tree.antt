-- ===== src/Tree.antt =====
-- crates/util/src/atom_tree.rs: `ATree`, a tree of shared nodes. The nodes live in an arena, and an
-- `Arc` or a `Weak` is a place in it; a node that the source drops stays behind, unreachable.
-- Locks are taken one after the other by a single thread, so they are never poisoned and a failed
-- `upgrade` is a place outside the arena.
pub mod Lookup
pub mod Shape
pub mod Keyed
pub mod Paths
pub mod Parents
pub mod Adopting
pub mod Building
mod Tests
use dce_rust.Base.{
  ℕ, zero, suc, ◌+◌, Bool, true, false, not, Option, none, some, List, [], ◌∷◌, ◌++◌, reverse,
  if◌then◌else◌, length, get_elem?, set as put_at, filter, is_empty as is_nil, Ord, Ordering,
}
use dce_rust.Text.{text}
use dce_rust.Maps.{btree_get, btree_insert}
use dce_rust.Error.{Outcome, ok, err, panics, out_of_fuel, DceErr, closed0, closed0_wrap, ◌>>=◌}

pub data TreeTraverBreak : Type 0 where
  stop break skip continue : TreeTraverBreak

pub record KeyFactory (E K : Type 0) : Type 0 where
  pub key : E → K
  pub child_of : E → E → Bool

pub record ATree (E K : Type 0) : Type 0 where
  pub element : E
  pub children : List (K × ℕ)
  pub parent : Option ℕ

abbrev pub Arena : Type 0 → Type 0 → Type 0
Arena E K = List (ATree E K)

abbrev pub no_own : DceErr
no_own = closed0 (text "Failed to update Weak to Arc")

module _ {E K : Type 0} where
  unfoldable pub new_with_parent : E → Option ℕ → Arena E K → Arena E K × ℕ
  new_with_parent element parent arena =
      (arena ++ record { element = element; children = []; parent = parent } ∷ [], length arena)

  unfoldable pub new : E → Arena E K
  unfolding new_with_parent
  new element = (new_with_parent element none []).0

  -- `*place.write()` on the node at a place.
  unfoldable pub modify : ℕ → (ATree E K → ATree E K) → Arena E K → Arena E K
  modify self f arena = elim (get_elem? arena self) [
    | none ↦ arena
    | some node ↦ put_at arena self (f node)
  ]

  unfoldable pub parent : ℕ → Arena E K → Option ℕ
  parent self arena = elim (get_elem? arena self) [ none ↦ none | some node ↦ node.parent ]

  unfoldable pub is_empty : ℕ → Arena E K → Outcome Bool
  is_empty self arena = elim (get_elem? arena self) [
    | none ↦ err no_own
    | some node ↦ ok (is_nil node.children)
  ]

  -- `Some(parent) != until`: nodes are compared by their elements.
  unfoldable pub is_until : (E → E → Bool) → ATree E K → Option ℕ → Arena E K → Bool
  is_until eq node none arena = false
  is_until eq node (some until) arena = elim (get_elem? arena until) [
    | none ↦ false
    | some end ↦ eq node.element end.element
  ]

  -- The chain from a node up to `until`, or to the root. The fuel is more than the nodes.
  unfoldable pub parents_from : (E → E → Bool) → ℕ → ℕ → Option ℕ → Arena E K → Outcome (List ℕ)
  unfolding is_until
  parents_from eq zero self until arena = out_of_fuel
  parents_from eq (suc fuel) self until arena = elim (get_elem? arena self) [
    | none ↦ err no_own
    | some node ↦ elim (is_until eq node until arena) [
      | true ↦ ok (self ∷ [])
      | false ↦ elim node.parent [
        | none ↦ ok (self ∷ [])
        | some up ↦ parents_from eq fuel up until arena >>= λ more. ok (self ∷ more)
      ]
    ]
  ]

  unfoldable pub parents_until : (E → E → Bool) → ℕ → Option ℕ → Bool → Arena E K → Outcome (List ℕ)
  unfolding parents_from
  parents_until eq self until elder_first arena = elim (get_elem? arena self) [
    | none ↦ ok []
    | some node ↦ parents_from eq (suc (length arena)) self until arena >>= λ chain.
        ok (if elder_first then reverse chain else chain)
  ]

  unfoldable pub parents : (E → E → Bool) → ℕ → Arena E K → Outcome (List ℕ)
  unfolding parents_until
  parents eq self arena = parents_until eq self none true arena

module _ {K : Type 0} where
  -- `path.pop()`: the last key, and the keys before it.
  unfoldable pub pop_last : List K → Option (List K × K)
  pop_last [] = none
  pop_last (k ∷ ks) = elim (pop_last ks) [
    | none ↦ some ([], k)
    | some (front, end) ↦ some (k ∷ front, end)
  ]

module _ {K : Type 0} ⦃o : Ord K⦄ where
  unfoldable pub remove_key : K → List (K × ℕ) → List (K × ℕ)
  remove_key key [] = []
  remove_key key ((k, c) ∷ m) =
      let rest = remove_key key m in elim (o.cmp key k) [ Ordering.eq ↦ m | _ ↦ (k, c) ∷ rest ]

module _ {E K : Type 0} ⦃o : Ord K⦄ where
  unfoldable pub set : ℕ → K → E → Arena E K → Outcome (Arena E K × ℕ)
  unfolding new_with_parent modify
  set self key element arena = elim (get_elem? arena self) [
    | none ↦ err no_own
    | some _ ↦
        let (grown, child) = new_with_parent element (some self) arena in
        ok (
          modify self (λ node. record node { children = btree_insert key child node.children })
              grown,
          child,
        )
  ]

  unfoldable pub get : ℕ → K → Arena E K → Option ℕ
  get self key arena = elim (get_elem? arena self) [
    | none ↦ none
    | some node ↦ btree_get key node.children
  ]

  unfoldable pub set_if_absent : ℕ → K → E → Arena E K → Outcome (Arena E K × ℕ)
  unfolding set get
  set_if_absent self key element arena = elim (get self key arena) [
    | some exists ↦ ok (arena, exists)
    | none ↦ set self key element arena
  ]

  -- The loop of `get_by_path`.
  unfoldable pub descend : ℕ → List K → Arena E K → Option ℕ
  unfolding get
  descend self [] arena = some self
  descend self (key ∷ path) arena = elim (get self key arena) [
    | none ↦ none
    | some child ↦ descend child path arena
  ]

  unfoldable pub get_by_path : ℕ → List K → Arena E K → Option ℕ
  unfolding descend
  get_by_path self path arena = elim (get_elem? arena self) [
    | none ↦ none
    | some _ ↦ descend self path arena
  ]

  unfoldable pub actual_set_by_path : ℕ → List K → E → Bool → Arena E K → Outcome (Arena E K × ℕ)
  unfolding pop_last get_by_path set set_if_absent
  actual_set_by_path self path element force arena = elim (pop_last path) [
    | none ↦ closed0_wrap (text "Cannot get by an empty path")
    | some (front, key) ↦ elim (get_by_path self front arena) [
      | none ↦ closed0_wrap (text "Parent not found")
      | some parent ↦
          if force then set parent key element arena else set_if_absent parent key element arena
    ]
  ]

  abbrev pub set_by_path : ℕ → List K → E → Arena E K → Outcome (Arena E K × ℕ)
  set_by_path self path element arena = actual_set_by_path self path element true arena

  abbrev pub set_by_path_if_absent : ℕ → List K → E → Arena E K → Outcome (Arena E K × ℕ)
  set_by_path_if_absent self path element arena = actual_set_by_path self path element false arena

  unfoldable pub contains_key : ℕ → K → Arena E K → Outcome Bool
  contains_key self key arena = elim (get_elem? arena self) [
    | none ↦ err no_own
    | some node ↦ elim (btree_get key node.children) [ none ↦ ok false | some _ ↦ ok true ]
  ]

  unfoldable pub remove : ℕ → K → Arena E K → Arena E K × Option ℕ
  unfolding remove_key modify get
  remove self key arena = (
    modify self (λ node. record node { children = remove_key key node.children }) arena,
    get self key arena,
  )

-- The `for` loop of `traversal` over the children of one node: what it pushes, and whether the
-- callback stopped the whole walk.
module _ {E K : Type 0} (callback : ℕ → Arena E K → Outcome (Arena E K × TreeTraverBreak)) where
  unfoldable pub visit : List (K × ℕ) → Arena E K → Outcome (Arena E K × List ℕ × Bool)
  visit [] arena = ok (arena, [], false)
  visit ((key, child) ∷ rest) arena = callback child arena >>= λ r. elim r.1 [
    | stop ↦ ok (r.0, [], true)
    | break ↦ ok (r.0, [], false)
    | skip ↦ visit rest r.0
    | continue ↦ visit rest r.0 >>= λ v. ok (v.0, child ∷ v.1, v.2)
  ]

  -- The loop over the stack, its top first.
  unfoldable pub walk : ℕ → List ℕ → Arena E K → Outcome (Arena E K)
  unfolding visit
  walk zero nodes arena = out_of_fuel
  walk (suc fuel) [] arena = ok arena
  walk (suc fuel) (node ∷ nodes) arena = elim (get_elem? arena node) [
    | none ↦ err no_own
    | some parent ↦ visit parent.children arena >>= λ v. elim v.2 [
      | true ↦ ok v.0
      | false ↦ walk fuel (v.1 ++ nodes) v.0
    ]
  ]

  unfoldable pub traversal : ℕ → Arena E K → Outcome (Arena E K)
  unfolding walk
  traversal self arena = elim (get_elem? arena self) [
    | none ↦ err no_own
    | some _ ↦ walk (suc (length arena)) (self ∷ []) arena
  ]

module _ {E K : Type 0} ⦃o : Ord K⦄ (factory : KeyFactory E K) where
  open factory use {key, child_of}

  -- The `for` loop of `build`: every element that is taken is set below the node, and the new
  -- nodes go on the stack, the last one on top.
  unfoldable pub adopt : ℕ → List E → List ℕ → Arena E K → Outcome (Arena E K × List ℕ)
  unfolding set
  adopt parent [] parents arena = ok (arena, parents)
  adopt parent (elem ∷ taken) parents arena =
      set parent (key elem) elem arena >>= λ r. adopt parent taken (r.1 ∷ parents) r.0

  -- The loop over the stack. `elements.remove(i)` at descending places takes the children of the
  -- node out, the last one first.
  unfoldable pub build_from : ℕ → List ℕ → List E → Arena E K → Outcome (Arena E K × List E)
  unfolding adopt filter
  build_from zero parents elements arena = out_of_fuel
  build_from (suc fuel) [] elements arena = ok (arena, elements)
  build_from (suc fuel) (parent ∷ parents) elements arena = elim (get_elem? arena parent) [
    | none ↦ err no_own
    | some node ↦
        adopt parent (reverse (filter (λ e. child_of e node.element) elements)) parents arena
        >>= λ r. build_from fuel r.1 (filter (λ e. not (child_of e node.element)) elements) r.0
  ]

  unfoldable pub build :
      ℕ → List E → (ℕ → Arena E K → List E → Outcome (Arena E K)) → Arena E K → Outcome (Arena E K)
  unfolding build_from
  build self elements remains_handler arena =
      build_from (suc (suc (length elements))) (self ∷ []) elements arena >>= λ r.
      remains_handler self r.0 r.1
