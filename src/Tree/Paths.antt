-- ===== src/Tree/Paths.antt =====
-- `get_by_path` and `set_by_path` against each other.
use mathlib.Core.Option.{some_inj, none-ne-some}
use dce_rust.Base.{
  ℕ, ◌<◌, ◌≤◌, ◌≡◌, refl, sym, ap, subst, ◌∙◌, some, List, [], ◌∷◌, ◌++◌, arith, length, get_elem?,
  Ord, Option, none, Option-cases, inl, inr, get_elem?-lt, get_elem?-past, ◌≢◌, ◌⊎◌,
}
use native.Mathlib.Decide.{ℕ_discrete}
use dce_rust.Maps.{btree_get, btree_get-insert_self, btree_get-insert_ne}
use dce_rust.Error.{ok}
use dce_rust.Tree.{
  ATree, Arena, get, descend, get_by_path, pop_last, actual_set_by_path, set_by_path,
}
use dce_rust.Tree.Lookup.{grown, set_lem, grown_self, grown-child, grown-other}
use dce_rust.Tree.Shape.{At, IsTree, At-grown, grown-IsTree}

module _ {K : Type 0} where
  pub pop_last-append : (path : List K) (key : K) → pop_last (path ++ key ∷ []) ≡ some (path, key)
  unfolding pop_last
  pop_last-append [] key = refl
  pop_last-append (k ∷ path) key = rw (pop_last-append path key)

  unfoldable pub whole : Option (List K × K) → List K
  whole none = []
  whole (some (front, x)) = front ++ x ∷ []

  pub whole-pop_last : (xs : List K) → whole (pop_last xs) ≡ xs
  unfolding pop_last whole
  whole-pop_last [] = refl
  whole-pop_last (y ∷ xs) =
      let before = whole-pop_last xs in
      elim (Option-cases (pop_last xs)) [
        | inl gone ↦ rw (pop_last, gone) (ap (λ (l : List K). y ∷ l) (ap whole (sym gone) ∙ before))
        | inr ((front, x), found) ↦
            rw (pop_last, found) (ap (λ (l : List K). y ∷ l) (ap whole (sym found) ∙ before))
      ]

  pub pop_last-whole :
      (xs front : List K) (x : K) → pop_last xs ≡ some (front, x) → xs ≡ front ++ x ∷ []
  unfolding whole
  pop_last-whole xs front x e = sym (whole-pop_last xs) ∙ ap whole e

module _ {E K : Type 0} ⦃o : Ord K⦄ where
  get-eq-some :
      (i : ℕ) (k : K) (arena : Arena E K) {c : ℕ}
      → get i k arena ≡ some c
      → (n : ATree E K) × At arena i n × (btree_get k n.children ≡ some c)
  unfolding get
  get-eq-some i k arena {c} e = elim (Option-cases (get_elem? arena i)) [
    | inl gone ↦ absurd (none-ne-some c (sym (rw (gone, get) refl) ∙ e))
    | inr (n, at) ↦ (n, at, ground (arith))
  ]

  get_of_At :
      (i : ℕ) (k : K) (arena : Arena E K) (n : ATree E K)
      → At arena i n
      → get i k arena ≡ btree_get k n.children
  unfolding get
  get_of_At i k arena n at = rw (at, get)

  -- One step of a descent.
  descend-cons :
      (i : ℕ) (k : K) (path : List K) (arena : Arena E K) {s : ℕ}
      → descend i (k ∷ path) arena ≡ some s
      → (c : ℕ) × (get i k arena ≡ some c) × (descend c path arena ≡ some s)
  unfolding descend
  descend-cons i k path arena {s} e = elim (Option-cases (get i k arena)) [
    | inl gone ↦ absurd (ground arith)
    | inr (c, found) ↦ (c, found, ground arith)
  ]

  descend_step :
      (i : ℕ) (k : K) (path : List K) (arena : Arena E K) (c : ℕ)
      → get i k arena ≡ some c
      → descend i (k ∷ path) arena ≡ descend c path arena
  unfolding descend
  descend_step i k path arena c e = rw (e, descend)

  -- A descent goes to later places only.
  descend-le :
      (i : ℕ) (path : List K) (arena : Arena E K) {s : ℕ}
      → IsTree arena
      → descend i path arena ≡ some s
      → i ≤ s
  unfolding descend
  descend-le i [] arena t e = omega (arith, some_inj.0 e)
  descend-le i (k ∷ path) arena {s} t e =
      let (c, found, rest) = descend-cons i k path arena e in
      let (n, at, link) = get-eq-some i k arena found in
      omega (arith, (t.links i n at k c link).0, descend-le c path arena t rest)

  module _ (self : ℕ) (key : K) (element : E) (node : ATree E K) (arena : Arena E K)
      (here : At arena self node) (t : IsTree arena) where
    -- The way to a node is as it was once the node has a new child.
    descend-grown :
        (i : ℕ) (path : List K)
        → descend i path arena ≡ some self
        → descend i path (grown self key element node arena) ≡ some self
    unfolding descend
    descend-grown i [] e = e
    descend-grown i (k ∷ path) e =
        let (c, found, rest) = descend-cons i k path arena e in
        let (n, at, link) = get-eq-some i k arena found in
        let below : i < c = (t.links i n at k c link).0 in
        let reach : c ≤ self = descend-le c path arena t rest in
        let at' : At (grown self key element node arena) i n =
          grown-other self key element node arena here i (omega arith)
            (omega (arith, get_elem?-lt arena i at))
          ∙ at in
        descend_step i k path (grown self key element node arena) c
          (get_of_At i k (grown self key element node arena) n at' ∙ link)
        ∙ descend-grown c path rest

    get-grown : get self key (grown self key element node arena) ≡ some (length arena)
    get-grown =
        get_of_At self key (grown self key element node arena) _
          (grown_self self key element node arena here)
        ∙ btree_get-insert_self key (length arena) node.children

    -- Every other child is the one that it was.
    get_grown-other :
        (i : ℕ) (k : K)
        → (i ≢ self) ⊎ (k ≢ key)
        → get i k (grown self key element node arena) ≡ get i k arena
    unfolding get btree_get
    get_grown-other i k other = elim (ℕ_discrete self i) [
      | yes same ↦ elim other [
        | inl n ↦ absurd (n (sym same))
        | inr n ↦
            subst (λ j. get j k (grown self key element node arena) ≡ get j k arena) same
              (get_of_At self k (grown self key element node arena) _
                  (grown_self self key element node arena here)
                ∙ btree_get-insert_ne key k (length arena) node.children n
                ∙ sym (get_of_At self k arena node here))
      ]
      | no apart ↦ elim (ℕ_discrete (length arena) i) [
        | yes end ↦
            subst (λ j. get j k (grown self key element node arena) ≡ get j k arena) end
              (get_of_At (length arena) k (grown self key element node arena) _
                  (grown-child self key element node arena here)
                ∙ sym (rw (get_elem?-past arena (length arena) (omega arith), get) refl))
        | no old ↦ rw (grown-other self key element node arena here i apart old, get) refl
      ]
    ]

  descend-append :
      (i : ℕ) (path : List K) (key : K) (arena : Arena E K) (s c : ℕ)
      → descend i path arena ≡ some s
      → get s key arena ≡ some c
      → descend i (path ++ key ∷ []) arena ≡ some c
  unfolding descend
  descend-append i [] key arena s c e g =
      rw (ap (λ j. get j key arena) (some_inj.0 e) ∙ g, descend) refl
  descend-append i (k ∷ path) key arena s c e g =
      let (d, found, rest) = descend-cons i k path arena e in
      descend_step i k (path ++ key ∷ []) arena d found ∙ descend-append d path key arena s c rest g

  descend_of_get_by_path :
      (i : ℕ) (path : List K) (arena : Arena E K) {s : ℕ}
      → get_by_path i path arena ≡ some s
      → descend i path arena ≡ some s
  unfolding get_by_path
  descend_of_get_by_path i path arena e = ground arith

  root_of_get_by_path :
      (i : ℕ) (path : List K) (arena : Arena E K) {s : ℕ}
      → get_by_path i path arena ≡ some s
      → (n : ATree E K) × At arena i n
  unfolding get_by_path
  root_of_get_by_path i path arena {s} e = elim (Option-cases (get_elem? arena i)) [
    | inl gone ↦ absurd (none-ne-some s (sym (rw (gone, get_by_path) refl) ∙ e))
    | inr found ↦ found
  ]

  descend-At :
      (i : ℕ) (path : List K) (arena : Arena E K) {s : ℕ} (n : ATree E K)
      → IsTree arena
      → At arena i n
      → descend i path arena ≡ some s
      → (m : ATree E K) × At arena s m
  unfolding descend
  descend-At i [] arena n t at e = (n, subst (λ j. At arena j n) (some_inj.0 e) at)
  descend-At i (k ∷ path) arena n t at e =
      let (c, found, rest) = descend-cons i k path arena e in
      let (n', at', link) = get-eq-some i k arena found in
      let (m, here, _) = (t.links i n' at' k c link).1 in descend-At c path arena m t here rest

  get_by_path_of_descend :
      (i : ℕ) (path : List K) (arena : Arena E K) (n : ATree E K)
      → At arena i n
      → get_by_path i path arena ≡ descend i path arena
  unfolding get_by_path
  get_by_path_of_descend i path arena n at = rw (at, get_by_path)

  -- What `set_by_path` has done to the arena when it returns a child.
  pub record Placed (root parent : ℕ) (path : List K) (key : K) (element : E)
      (before after : Arena E K) (child : ℕ) : Type 0 where
    pub fresh : get_elem? before child ≡ none
    pub found : get_by_path root (path ++ key ∷ []) after ≡ some child
    pub holds : (m : ATree E K) × At after child m × (m.element ≡ element)
    pub tree : IsTree after
    pub kept :
        (i : ℕ) (n : ATree E K)
        → At before i n
        → (m : ATree E K) × At after i m × (m.element ≡ n.element) × (m.parent ≡ n.parent)
    pub others : (i : ℕ) (k : K) → (i ≢ parent) ⊎ (k ≢ key) → get i k after ≡ get i k before

  -- In a tree in which the path without its last key leads to a node, `set_by_path` succeeds: it
  -- returns a child at a new place, which the whole path then leads to and which holds the element,
  -- and leaves a tree in which every node stays at its place with its element and its parent, and
  -- in which every child but the one under the last key of the path is the one that it was.
  pub set_by_path-Placed :
      (root : ℕ) (path : List K) (key : K) (element : E) (arena : Arena E K) (parent : ℕ)
      → IsTree arena
      → get_by_path root path arena ≡ some parent
      → (after : Arena E K) × (child : ℕ) × (set_by_path root (path ++ key ∷ []) element arena
          ≡ ok (after, child))
        × Placed root parent path key element arena after child
  unfolding actual_set_by_path
  set_by_path-Placed root path key element arena parent t e =
      let (n, at) = root_of_get_by_path root path arena e in
      let way = descend_of_get_by_path root path arena e in
      let (node, here) = descend-At root path arena n t at way in
      let after = grown parent key element node arena in
      let (n', at', _, _) = At-grown parent key element node arena here root n at in
      (
        after,
        length arena,
        rw (pop_last-append path key, actual_set_by_path)
            (rw (e, actual_set_by_path) (set_lem parent key element node arena here)),
        record {
          fresh = get_elem?-past arena (length arena) (omega arith);
          found =
              get_by_path_of_descend root (path ++ key ∷ []) after n' at'
              ∙ descend-append root path key after parent (length arena)
                  (descend-grown parent key element node arena here t root path way)
                  (get-grown parent key element node arena here t);
          holds = (_, grown-child parent key element node arena here, refl);
          tree = grown-IsTree parent key element node arena here t;
          kept = At-grown parent key element node arena here;
          others = get_grown-other parent key element node arena here t;
        },
      )
