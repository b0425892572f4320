-- ===== src/Tree/Shape.antt =====
-- The arena is a tree: a link leads to a later node that names the parent back, so that no walk
-- up or down comes round again.
use native.Mathlib.Decide.{ℕ_discrete}
use dce_rust.Base.{
  ℕ, zero, suc, ◌<◌, ◌≡◌, ◌≢◌, refl, sym, ap, subst, ◌∙◌, some, [], arith, length, get_elem?, Ord,
  Option-cases, inl, inr, ◌⊎◌, get_elem?-lt,
}
use mathlib.Core.Option.{some_inj, none-ne-some}
use dce_rust.Maps.{btree_get, btree_insert, btree_get-insert-cases}
use dce_rust.Error.{ok}
use dce_rust.Tree.{ATree, Arena, set, new, new_with_parent}
use dce_rust.Tree.Lookup.{grown, set_lem, grown_self, grown-child, grown-other}

module _ {E K : Type 0} where
  abbrev pub At : Arena E K → ℕ → ATree E K → Type 0
  At arena i node = get_elem? arena i ≡ some node

  -- A place holds a node whose parent is the other place.
  abbrev pub HasParent : Arena E K → ℕ → ℕ → Type 0
  HasParent arena c p = (m : ATree E K) × At arena c m × (m.parent ≡ some p)

module _ {E K : Type 0} ⦃o : Ord K⦄ where
  pub record IsTree (arena : Arena E K) : Type 0 where
    pub links :
        (i : ℕ) (n : ATree E K)
        → At arena i n
        → (k : K) (c : ℕ) → btree_get k n.children ≡ some c
        → (i < c) × HasParent arena c i
    pub ups :
        (i : ℕ) (n : ATree E K) (p : ℕ)
        → At arena i n
        → n.parent ≡ some p
        → (p < i) × ((m : ATree E K) × At arena p m)

  module _ (self : ℕ) (key : K) (element : E) (node : ATree E K) (arena : Arena E K)
      (here : At arena self node) where
    abbrev pub child_node : ATree E K
    child_node = record { element = element; children = []; parent = some self }

    abbrev pub parent_node : ATree E K
    parent_node = record node { children = btree_insert key (length arena) node.children }

    -- A node of the grown arena is the parent, the new child, or one that was there.
    pub grown-cases :
        (i : ℕ) (n : ATree E K)
        → At (grown self key element node arena) i n
        → ((self ≡ i) × (parent_node ≡ n))
          ⊎ (((length arena ≡ i) × (child_node ≡ n))
              ⊎ ((self ≢ i) × (length arena ≢ i) × At arena i n))
    grown-cases i n e = elim (ℕ_discrete self i) [
      | yes p ↦ inl (
        p,
        some_inj.0 (
            sym (grown_self self key element node arena here)
            ∙ ap (get_elem? (grown self key element node arena)) p
            ∙ e),
      )
      | no q ↦ elim (ℕ_discrete (length arena) i) [
        | yes p ↦ inr (
            inl (
              p,
              some_inj.0 (
                  sym (grown-child self key element node arena here)
                  ∙ ap (get_elem? (grown self key element node arena)) p
                  ∙ e),
            ))
        | no r ↦ inr (inr (q, r, sym (grown-other self key element node arena here i q r) ∙ e))
      ]
    ]

    -- A node stays, and keeps its element and its parent.
    pub At-grown :
        (i : ℕ) (n : ATree E K)
        → At arena i n
        → (m : ATree E K) × At (grown self key element node arena) i m
          × (m.element ≡ n.element)
          × (m.parent ≡ n.parent)
    At-grown i n e = elim (ℕ_discrete self i) [
      | yes p ↦
          let same : node ≡ n = some_inj.0 (sym here ∙ ap (get_elem? arena) p ∙ e) in
          (
            parent_node,
            subst (λ j. At (grown self key element node arena) j parent_node) p
                (grown_self self key element node arena here),
            ap (λ (x : ATree E K). x.element) same,
            ap (λ (x : ATree E K). x.parent) same,
          )
      | no q ↦ (
        n,
        grown-other self key element node arena here i q (omega (arith, get_elem?-lt arena i e))
            ∙ e,
        refl,
        refl,
      )
    ]

    module _ (t : IsTree arena) where
      HasParent-grown :
          (c p : ℕ) → HasParent arena c p → HasParent (grown self key element node arena) c p
      HasParent-grown c p (m, at, up) =
          let (m', at', _, up') = At-grown c m at in (m', at', up' ∙ up)

      grown-links :
          (i : ℕ) (n : ATree E K)
          → At (grown self key element node arena) i n
          → (k : K) (c : ℕ) → btree_get k n.children ≡ some c
          → (i < c) × HasParent (grown self key element node arena) c i
      unfolding btree_get
      grown-links i n e k c g = elim (grown-cases i n e) [
        | inl (p, q) ↦
            elim (btree_get-insert-cases key k (length arena) c node.children
              (ap (λ (x : ATree E K). btree_get k x.children) q ∙ g)) [
                | inl fresh ↦ (
                  omega (arith, get_elem?-lt arena self here),
                  (
                    child_node,
                    subst (λ j. At (grown self key element node arena) j child_node) fresh
                        (grown-child self key element node arena here),
                    ap some p,
                  ),
                )
                | inr (_, old) ↦
                    let (lt, up) = t.links self node here k c old in
                    (omega arith, HasParent-grown c i (subst (HasParent arena c) p up))
              ]
        | inr (inl (p, q)) ↦
            absurd (none-ne-some c (ap (λ (x : ATree E K). btree_get k x.children) q ∙ g))
        | inr (inr (_, _, at)) ↦ let (lt, up) = t.links i n at k c g in (lt, HasParent-grown c i up)
      ]

      kept_parent :
          {i p : ℕ}
          → (p < i) × ((m : ATree E K) × At arena p m)
          → (p < i) × (m : ATree E K) × At (grown self key element node arena) p m
      kept_parent {p} (lt, (m, at)) = let (m', at', _, _) = At-grown p m at in (lt, m', at')

      grown-ups :
          (i : ℕ) (n : ATree E K) (p : ℕ)
          → At (grown self key element node arena) i n
          → n.parent ≡ some p
          → (p < i) × ((m : ATree E K) × At (grown self key element node arena) p m)
      grown-ups i n p e u = elim (grown-cases i n e) [
        | inl (q, r) ↦
            let (lt, m, at) =
              kept_parent (t.ups self node p here (ap (λ (x : ATree E K). x.parent) r ∙ u)) in
            (omega arith, (m, at))
        | inr (inl (q, r)) ↦
            let same : self ≡ p = some_inj.0 (ap (λ (x : ATree E K). x.parent) r ∙ u) in
            (
              omega (arith, get_elem?-lt arena self here),
              (
                parent_node,
                subst (λ j. At (grown self key element node arena) j parent_node) same
                    (grown_self self key element node arena here),
              ),
            )
        | inr (inr (_, _, at)) ↦ let (lt, m, at') = kept_parent (t.ups i n p at u) in (lt, (m, at'))
      ]

      pub grown-IsTree : IsTree (grown self key element node arena)
      grown-IsTree = record { links = grown-links; ups = grown-ups }

  -- `set` on a node of a tree leaves a tree, and `new` makes one.
  pub set-IsTree :
      (self : ℕ) (key : K) (element : E) (arena arena' : Arena E K) (child : ℕ)
      → IsTree arena
      → set self key element arena ≡ ok (arena', child)
      → IsTree arena'
  set-IsTree self key element arena arena' child t e = elim (Option-cases (get_elem? arena self)) [
    | inl gone ↦ absurd (unfold set in ground (arith))
    | inr (node, here) ↦
        let same : grown self key element node arena ≡ arena' =
          ground (arith, set_lem self key element node arena here) in
        subst IsTree same (grown-IsTree self key element node arena here t)
  ]

  pub new-IsTree : (element : E) → IsTree (new {K = K} element)
  unfolding new new_with_parent btree_get
  new-IsTree element = record {
    links = λ i n e k c g. root-links i n e k c g;
    ups = λ i n p e u. root-ups i n p e u;
  }
    where
      root-links :
          (i : ℕ) (n : ATree E K)
          → At (new {K = K} element) i n
          → (k : K) (c : ℕ) → btree_get k n.children ≡ some c
          → (i < c) × HasParent (new {K = K} element) c i
      root-links zero n e k c g =
          absurd
            (none-ne-some c (ap (λ (x : ATree E K). btree_get k x.children) (some_inj.0 e) ∙ g))
      root-links (suc i) n e k c g = absurd (none-ne-some n e)

      root-ups :
          (i : ℕ) (n : ATree E K) (p : ℕ)
          → At (new {K = K} element) i n
          → n.parent ≡ some p
          → (p < i) × ((m : ATree E K) × At (new {K = K} element) p m)
      root-ups zero n p e u =
          absurd (none-ne-some p (ap (λ (x : ATree E K). x.parent) (some_inj.0 e) ∙ u))
      root-ups (suc i) n p e u = absurd (none-ne-some n e)
