-- ===== src/Tree/Adopting.antt =====
-- `adopt`, the inner loop of `build`: the elements taken become children of one node.
use dce_rust.Base.{
  ℕ, ◌+◌, ◌≡◌, ◌⊎◌, refl, sym, ap, subst, ◌∙◌, some, List, [], ◌∷◌, arith, length, Ord, inl, inr,
  Memᴰ,
}
use dce_rust.Error.{ok, ◌>>=◌}
use dce_rust.Tree.{ATree, Arena, KeyFactory, adopt}
use dce_rust.Tree.Lookup.{grown, set_lem, grown-child}
use dce_rust.Tree.Keyed.{IsKeyed, grown-IsKeyed}
use dce_rust.Tree.Shape.{At, IsTree, At-grown, grown-cases, grown-IsTree}

module _ {E K : Type 0} where
  -- Every node stays at its place, with its element and its parent.
  abbrev pub Kept : Arena E K → Arena E K → Type 0
  Kept a b =
      (i : ℕ) (n : ATree E K)
      → At a i n
      → (m : ATree E K) × At b i m × (m.element ≡ n.element) × (m.parent ≡ n.parent)

  -- A node has the element and the parent of a node that was there at its place.
  abbrev pub WasAt : Arena E K → ℕ → ATree E K → Type 0
  WasAt a i n = (m : ATree E K) × At a i m × (n.element ≡ m.element) × (n.parent ≡ m.parent)

  abbrev pub Holds : Arena E K → E → Type 0
  Holds a e = (i : ℕ) × (n : ATree E K) × At a i n × (n.element ≡ e)

module _ {E K : Type 0} ⦃o : Ord K⦄ where
  module _ (factory : KeyFactory E K) where
    pub record Adopted (parent : ℕ) (taken : List E) (parents : List ℕ) (arena arena' : Arena E K)
        (parents' : List ℕ) : Type 0 where
      pub tree : IsTree arena'
      pub kept : Kept arena arena'
      pub origin :
          (i : ℕ) (n : ATree E K)
          → At arena' i n
          → WasAt arena i n ⊎ (Memᴰ i parents' × Memᴰ n.element taken × (n.parent ≡ some parent))
      pub stacked : (i : ℕ) → Memᴰ i parents → Memᴰ i parents'
      pub valid : (i : ℕ) → Memᴰ i parents' → Memᴰ i parents ⊎ ((n : ATree E K) × At arena' i n)
      pub size : length parents' ≡ length taken + length parents
      pub used : (e : E) → Memᴰ e taken → Holds arena' e
      pub keyed : IsKeyed factory arena → IsKeyed factory arena'

    module _ (parent : ℕ) (elem : E) (taken : List E) (parents : List ℕ) (arena : Arena E K)
        (node : ATree E K) (here : At arena parent node) where
      abbrev fresh : Arena E K
      fresh = grown parent (factory.key elem) elem node arena

      module _ (arena' : Arena E K) (parents' : List ℕ)
          (a : Adopted parent taken (length arena ∷ parents) fresh arena' parents') where
        adopted-Kept : Kept arena arena'
        adopted-Kept i n at =
            let (m, at', e, p) = At-grown parent (factory.key elem) elem node arena here i n at in
            let (m', at'', e', p') = a.kept i m at' in (m', at'', e' ∙ e, p' ∙ p)

        adopted_origin :
            (i : ℕ) (n : ATree E K)
            → At arena' i n
            → WasAt arena i n
              ⊎ (Memᴰ i parents' × Memᴰ n.element (elem ∷ taken) × (n.parent ≡ some parent))
        adopted_origin i n at = elim (a.origin i n at) [
          | inr (m, e, p) ↦ inr (m, Memᴰ.tail e, p)
          | inl (m, at', e, p) ↦
              elim (grown-cases parent (factory.key elem) elem node arena here i m at') [
                | inl (q, r) ↦ inl (
                  node,
                  subst (λ j. At arena j node) q here,
                  e ∙ ap (λ (x : ATree E K). x.element) (sym r),
                  p ∙ ap (λ (x : ATree E K). x.parent) (sym r),
                )
                | inr (inl (q, r)) ↦ inr (
                  subst (λ j. Memᴰ j parents') q (a.stacked (length arena) (Memᴰ.head refl)),
                  Memᴰ.head (e ∙ ap (λ (x : ATree E K). x.element) (sym r)),
                  p ∙ ap (λ (x : ATree E K). x.parent) (sym r),
                )
                | inr (inr (_, _, old)) ↦ inl (m, old, e, p)
              ]
        ]

        new_node : (n : ATree E K) × At arena' (length arena) n × (n.element ≡ elem)
        new_node =
            let (m, at, e, _) =
              a.kept (length arena) _
                (grown-child parent (factory.key elem) elem node arena here) in
            (m, at, e)

        adopted_valid :
            (i : ℕ) → Memᴰ i parents' → Memᴰ i parents ⊎ ((n : ATree E K) × At arena' i n)
        adopted_valid i m = elim (a.valid i m) [
          | inr found ↦ inr found
          | inl (Memᴰ.head e) ↦
              let (n, at, _) = new_node in inr (n, subst (λ j. At arena' j n) (sym e) at)
          | inl (Memᴰ.tail old) ↦ inl old
        ]

        adopted_used : (e : E) → Memᴰ e (elem ∷ taken) → Holds arena' e
        adopted_used e (Memᴰ.head q) = let (n, at, r) = new_node in (length arena, n, at, r ∙ sym q)
        adopted_used e (Memᴰ.tail m) = a.used e m

        Adopted-cons : Adopted parent (elem ∷ taken) parents arena arena' parents'
        Adopted-cons = record {
          tree = a.tree;
          kept = adopted-Kept;
          origin = adopted_origin;
          stacked = λ i m. a.stacked i (Memᴰ.tail m);
          valid = adopted_valid;
          size = omega (arith, a.size);
          used = adopted_used;
          keyed = λ k. a.keyed (grown-IsKeyed factory parent elem node arena here k);
        }

    -- Adopting elements succeeds at a node of a tree.
    pub adopt-Adopted :
        (parent : ℕ) (taken : List E) (parents : List ℕ) (arena : Arena E K) (node : ATree E K)
        → IsTree arena
        → At arena parent node
        → (arena' : Arena E K) × (parents' : List ℕ) × (adopt factory parent taken parents arena
            ≡ ok (arena', parents'))
          × Adopted parent taken parents arena arena' parents'
    unfolding adopt
    adopt-Adopted parent [] parents arena node t here = (
      arena,
      parents,
      refl,
      record {
        tree = t;
        kept = λ i n at. (n, at, refl, refl);
        origin = λ i n at. inl (n, at, refl, refl);
        stacked = λ i m. m;
        valid = λ i m. inl m;
        size = omega arith;
        used = λ e m. elim m [ ];
        keyed = λ k. k;
      },
    )
    adopt-Adopted parent (elem ∷ taken) parents arena node t here =
        let k = factory.key elem in
        let g = grown parent k elem node arena in
        let (node', here', _, _) = At-grown parent k elem node arena here parent node here in
        let (arena', parents', run, a) =
          adopt-Adopted parent taken (length arena ∷ parents) g node'
            (grown-IsTree parent k elem node arena here t) here' in
        (
          arena',
          parents',
          rw (set_lem parent k elem node arena here, ◌>>=◌) run,
          Adopted-cons parent elem taken parents arena node here arena' parents' a,
        )
