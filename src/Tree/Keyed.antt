-- ===== src/Tree/Keyed.antt =====
-- The keys of a tree that is built: a node is its parent's child under the key of its element.
use native.Mathlib.Decide.{ℕ_discrete}
use mathlib.Core.Option.{some_inj, none-ne-some}
use dce_rust.Base.{
  ℕ, zero, suc, ◌≤◌, ◌≡◌, sym, ap, subst, ◌∙◌, some, arith, length, get_elem?, Ord, inl, inr,
  get_elem?-lt, [],
}
use dce_rust.Maps.{btree_get, btree_insert, same_key, btree_get-insert_self, btree_get-insert_ne}
use dce_rust.Tree.{ATree, Arena, KeyFactory, new, new_with_parent}
use dce_rust.Tree.Lookup.{grown, grown_self, grown-child, grown-other}
use dce_rust.Tree.Shape.{At, At-grown, grown-cases}

module _ {E K : Type 0} ⦃o : Ord K⦄ (factory : KeyFactory E K) where
  open factory use {key}

  -- The child of a node under a key has an element of that key, and the parent of a node has a
  -- child under the node's key: the node, or one that took its place later.
  pub record IsKeyed (arena : Arena E K) : Type 0 where
    pub named :
        (i : ℕ) (n : ATree E K)
        → At arena i n
        → (k : K) (c : ℕ) → btree_get k n.children ≡ some c
        → (m : ATree E K) × At arena c m × (key m.element ≡ k)
    pub linked :
        (i : ℕ) (n : ATree E K) (p : ℕ)
        → At arena i n
        → n.parent ≡ some p
        → (m : ATree E K) × At arena p m
          × ((c : ℕ) × (btree_get (key n.element) m.children ≡ some c) × (i ≤ c))

  module _ (self : ℕ) (elem : E) (node : ATree E K) (arena : Arena E K) (here : At arena self node)
      (keyed : IsKeyed arena) where
    abbrev after : Arena E K
    after = grown self (key elem) elem node arena

    named-grown :
        (c : ℕ) (k : K)
        → (m : ATree E K) × At arena c m × (key m.element ≡ k)
        → (m : ATree E K) × At after c m × (key m.element ≡ k)
    named-grown c k (m, at, e) =
        let (m', at', same, _) = At-grown self (key elem) elem node arena here c m at in
        (m', at', ap key same ∙ e)

    grown_named :
        (i : ℕ) (n : ATree E K)
        → At after i n
        → (k : K) (c : ℕ) → btree_get k n.children ≡ some c
        → (m : ATree E K) × At after c m × (key m.element ≡ k)
    unfolding btree_get
    grown_named i n at k c g = elim (grown-cases self (key elem) elem node arena here i n at) [
      | inl (p, q) ↦
          let link : btree_get k (btree_insert (key elem) (length arena) node.children) ≡ some c =
            ap (λ (x : ATree E K). btree_get k x.children) q ∙ g in
          elim (same_key k (key elem)) [
            | inl same ↦
                let last : length arena ≡ c = some_inj.0 (
                  sym (btree_get-insert_self (key elem) (length arena) node.children)
                  ∙ ap
                      (λ (x : K).
                        btree_get x (btree_insert (key elem) (length arena) node.children))
                      (sym same)
                  ∙ link) in
                (
                  record { element = elem; children = []; parent = some self },
                  subst
                      (λ j.
                        At after j (record { element = elem; children = []; parent = some self }))
                      last (grown-child self (key elem) elem node arena here),
                  sym same,
                )
            | inr other ↦ named-grown c k (
                keyed.named self node here k c (
                  sym (btree_get-insert_ne (key elem) k (length arena) node.children other) ∙ link))
          ]
      | inr (inl (p, q)) ↦
          absurd (none-ne-some c (ap (λ (x : ATree E K). btree_get k x.children) q ∙ g))
      | inr (inr (_, _, old)) ↦ named-grown c k (keyed.named i n old k c g)
    ]

    linked-grown :
        (i p : ℕ) (k : K)
        → i ≤ length arena
        → (m : ATree E K) × At arena p m × ((c : ℕ) × (btree_get k m.children ≡ some c) × (i ≤ c))
        → (m : ATree E K) × At after p m × ((c : ℕ) × (btree_get k m.children ≡ some c) × (i ≤ c))
    linked-grown i p k early (m, at, (c, link, le)) = elim (ℕ_discrete self p) [
      | yes same ↦
          let was : node ≡ m = some_inj.0 (sym here ∙ ap (get_elem? arena) same ∙ at) in
          let there =
            subst
              (λ j.
                At after j
                  (record node { children = btree_insert (key elem) (length arena) node.children }))
              same (grown_self self (key elem) elem node arena here) in
          elim (same_key k (key elem)) [
            | inl one ↦ (
              _,
              there,
              (
                length arena,
                ap (λ (x : K). btree_get x (btree_insert (key elem) (length arena) node.children))
                      one
                    ∙ btree_get-insert_self (key elem) (length arena) node.children,
                early,
              ),
            )
            | inr other ↦ (
              _,
              there,
              (
                c,
                btree_get-insert_ne (key elem) k (length arena) node.children other
                    ∙ ap (λ (x : ATree E K). btree_get k x.children) was
                    ∙ link,
                le,
              ),
            )
          ]
      | no apart ↦ (
        m,
        grown-other self (key elem) elem node arena here p apart
              (omega (arith, get_elem?-lt arena p at))
            ∙ at,
        (c, link, le),
      )
    ]

    grown_linked :
        (i : ℕ) (n : ATree E K) (p : ℕ)
        → At after i n
        → n.parent ≡ some p
        → (m : ATree E K) × At after p m
          × ((c : ℕ) × (btree_get (key n.element) m.children ≡ some c) × (i ≤ c))
    grown_linked i n p at up = elim (grown-cases self (key elem) elem node arena here i n at) [
      | inl (q, r) ↦
          let back = ap (λ (x : ATree E K). x.element) r in
          subst
            (λ x.
              (m : ATree E K) × At after p m
              × ((c : ℕ) × (btree_get (key x) m.children ≡ some c) × (i ≤ c)))
            back
            (linked-grown i p (key node.element) (omega (arith, get_elem?-lt arena self here)) (
              subst
                (λ j.
                  (m : ATree E K) × At arena p m
                  × ((c : ℕ) × (btree_get (key node.element) m.children ≡ some c) × (j ≤ c)))
                q (keyed.linked self node p here (ap (λ (x : ATree E K). x.parent) r ∙ up))))
      | inr (inl (q, r)) ↦
          let same : self ≡ p = some_inj.0 (ap (λ (x : ATree E K). x.parent) r ∙ up) in
          (
            _,
            subst
                (λ j.
                  At after j (record node {
                    children = btree_insert (key elem) (length arena) node.children;
                  }))
                same (grown_self self (key elem) elem node arena here),
            (
              length arena,
              ap
                    (λ (x : ATree E K).
                      btree_get (key x.element)
                        (btree_insert (key elem) (length arena) node.children))
                    (sym r)
                  ∙ btree_get-insert_self (key elem) (length arena) node.children,
              omega arith,
            ),
          )
      | inr (inr (_, _, old)) ↦
          linked-grown i p (key n.element) (omega (arith, get_elem?-lt arena i old))
            (keyed.linked i n p old up)
    ]

    pub grown-IsKeyed : IsKeyed after
    grown-IsKeyed = record { named = grown_named; linked = grown_linked }

  pub new-IsKeyed : (root : E) → IsKeyed (new root)
  unfolding new new_with_parent btree_get
  new-IsKeyed root = record {
    named = λ i n at k c g. root-named i n at k c g;
    linked = λ i n p at up. root-linked i n p at up;
  }
    where
      root-named :
          (i : ℕ) (n : ATree E K)
          → At (new {K = K} root) i n
          → (k : K) (c : ℕ) → btree_get k n.children ≡ some c
          → (m : ATree E K) × At (new {K = K} root) c m × (key m.element ≡ k)
      root-named zero n at k c g =
          absurd
            (none-ne-some c (ap (λ (x : ATree E K). btree_get k x.children) (some_inj.0 at) ∙ g))
      root-named (suc i) n at k c g = absurd (none-ne-some n at)

      root-linked :
          (i : ℕ) (n : ATree E K) (p : ℕ)
          → At (new {K = K} root) i n
          → n.parent ≡ some p
          → (m : ATree E K) × At (new {K = K} root) p m
            × ((c : ℕ) × (btree_get (key n.element) m.children ≡ some c) × (i ≤ c))
      root-linked zero n p at up =
          absurd (none-ne-some p (ap (λ (x : ATree E K). x.parent) (some_inj.0 at) ∙ up))
      root-linked (suc i) n p at up = absurd (none-ne-some n at)
