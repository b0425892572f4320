-- ===== src/Tree/Building.antt =====
-- `build`: which elements it places, where, and that it comes to its end.
use dce_rust.Base.{
  ℕ, zero, suc, ◌+◌, ◌<◌, ◌≡◌, ◌⊎◌, refl, sym, ap, ap₂, subst, ◌∙◌, Memᴰ-filter,
  Memᴰ-filter_of_Memᴰ, Memᴰ-reverse, Memᴰ_of_Memᴰ-reverse, length-reverse, length-filter-not, Bool,
  true, false, not, some, List, [], ◌∷◌, reverse, arith, length, filter, get_elem?, Ord, Bool-cases,
  inl, inr, Memᴰ,
}
use mathlib.Core.Option.{some_inj, none-ne-some}
use dce_rust.Error.{Outcome, ok, ◌>>=◌}
use dce_rust.Tree.{ATree, Arena, KeyFactory, new, new_with_parent, build_from, build}
use dce_rust.Tree.Keyed.{IsKeyed, new-IsKeyed}
use dce_rust.Tree.Shape.{At, IsTree, new-IsTree}
use dce_rust.Tree.Adopting.{Kept, WasAt, Holds, Adopted, adopt-Adopted}

module _ {E K : Type 0} ⦃o : Ord K⦄ where
  module _ (factory : KeyFactory E K) where
    open factory use {child_of}

    -- None of the elements is a child of the one given.
    abbrev pub NoChildOf : E → List E → Type 0
    NoChildOf e elements = (x : E) → Memᴰ x elements → child_of x e ≡ false

    -- What `build` has done to the elements when its loop ends.
    pub record IsBuilt (parents : List ℕ) (elements : List E) (arena arena' : Arena E K)
        (rest : List E) : Type 0 where
      pub tree : IsTree arena'
      pub kept : Kept arena arena'
      pub origin :
          (i : ℕ) (n : ATree E K)
          → At arena' i n
          → WasAt arena i n
            ⊎ (Memᴰ n.element elements
                × ((p : ℕ) × (m : ATree E K) × (n.parent ≡ some p)
                    × At arena' p m
                    × (child_of n.element m.element ≡ true)))
      pub remains : (e : E) → Memᴰ e rest → Memᴰ e elements
      pub used : (e : E) → Memᴰ e elements → Memᴰ e rest ⊎ Holds arena' e
      pub maximal :
          ((i : ℕ) (n : ATree E K) → At arena i n → Memᴰ i parents ⊎ NoChildOf n.element elements)
          → (i : ℕ) (n : ATree E K) → At arena' i n
          → NoChildOf n.element rest
      pub keyed : IsKeyed factory arena → IsKeyed factory arena'

    module _ (parent : ℕ) (parents : List ℕ) (elements : List E) (arena : Arena E K)
        (node : ATree E K) (here : At arena parent node) where
      abbrev is_child : E → Bool
      is_child e = child_of e node.element

      abbrev left : List E
      left = filter (λ e. not (is_child e)) elements

      abbrev taken : List E
      taken = reverse (filter is_child elements)

      left-NoChild : (e : E) → Memᴰ e left → Memᴰ e elements × (is_child e ≡ false)
      left-NoChild e m =
          let (n, q) = Memᴰ-filter (λ x. not (is_child x)) elements m in (n, ground arith)

      taken-child : (e : E) → Memᴰ e taken → Memᴰ e elements × (is_child e ≡ true)
      taken-child e m = Memᴰ-filter is_child elements (Memᴰ_of_Memᴰ-reverse _ m)

      length-taken : length taken + length left ≡ length elements
      length-taken =
          omega
            (arith, length-reverse (filter is_child elements), length-filter-not is_child elements)

      module _ (arena₁ arena' : Arena E K) (parents₁ : List ℕ) (rest : List E)
          (a : Adopted factory parent taken parents arena arena₁ parents₁)
          (b : IsBuilt parents₁ left arena₁ arena' rest) where
        step_origin :
            (i : ℕ) (n : ATree E K)
            → At arena' i n
            → WasAt arena i n
              ⊎ (Memᴰ n.element elements
                  × ((p : ℕ) × (m : ATree E K) × (n.parent ≡ some p)
                      × At arena' p m
                      × (child_of n.element m.element ≡ true)))
        step_origin i n at = elim (b.origin i n at) [
          | inr (mem, up) ↦ inr ((left-NoChild n.element mem).0, up)
          | inl (m, at₁, e, p) ↦ elim (a.origin i m at₁) [
            | inl (m₀, at₀, e₀, p₀) ↦ inl (m₀, at₀, e ∙ e₀, p ∙ p₀)
            | inr (_, mem, up) ↦
                let (inside, child) = taken-child m.element mem in
                let (h₁, at₂, e₂, _) = a.kept parent node here in
                let (h, at₃, e₃, _) = b.kept parent h₁ at₂ in
                inr (
                  subst (λ x. Memᴰ x elements) (sym e) inside,
                  (parent, h, p ∙ up, at₃, ap₂ child_of e (e₃ ∙ e₂) ∙ child),
                )
          ]
        ]

        step_used : (e : E) → Memᴰ e elements → Memᴰ e rest ⊎ Holds arena' e
        step_used e m = elim (Bool-cases (is_child e)) [
          | inl t ↦
              let (i, n, at, q) =
                a.used e (Memᴰ-reverse _ (Memᴰ-filter_of_Memᴰ is_child elements m t)) in
              let (n', at', q', _) = b.kept i n at in inr (i, n', at', q' ∙ q)
          | inr f ↦ b.used e (Memᴰ-filter_of_Memᴰ (λ x. not (is_child x)) elements m (ap not f))
        ]

        step_maximal :
            ((i : ℕ) (n : ATree E K)
              → At arena i n
              → Memᴰ i (parent ∷ parents) ⊎ NoChildOf n.element elements)
            → (i : ℕ) (n : ATree E K) → At arena' i n
            → NoChildOf n.element rest
        step_maximal pending = b.maximal λ i n at. elim (a.origin i n at) [
          | inr (m, _, _) ↦ inl m
          | inl (m, at₀, e, _) ↦ elim (pending i m at₀) [
            | inl (Memᴰ.head q) ↦
                let same : m ≡ node = some_inj.0 (sym at₀ ∙ ap (get_elem? arena) q ∙ here) in
                inr (λ x mem.
                  ap (child_of x) (e ∙ ap (λ (t : ATree E K). t.element) same)
                  ∙ (left-NoChild x mem).1)
            | inl (Memᴰ.tail mem) ↦ inl (a.stacked i mem)
            | inr free ↦ inr (λ x mem. ap (child_of x) e ∙ free x (left-NoChild x mem).0)
          ]
        ]

        step-IsBuilt : IsBuilt (parent ∷ parents) elements arena arena' rest
        step-IsBuilt = record {
          tree = b.tree;
          kept = λ i n at.
              let (m, at₁, e, p) = a.kept i n at in
              let (m', at₂, e', p') = b.kept i m at₁ in (m', at₂, e' ∙ e, p' ∙ p);
          origin = step_origin;
          remains = λ e m. (left-NoChild e (b.remains e m)).0;
          used = step_used;
          maximal = step_maximal;
          keyed = λ k. b.keyed (a.keyed k);
        }

    valid_after :
        {parent : ℕ} {taken : List E} {parents : List ℕ} {arena arena₁ : Arena E K}
        {parents₁ : List ℕ}
        → Adopted factory parent taken parents arena arena₁ parents₁
        → ((i : ℕ) → Memᴰ i parents → (n : ATree E K) × At arena i n)
        → (i : ℕ) → Memᴰ i parents₁
        → (n : ATree E K) × At arena₁ i n
    valid_after a valid i m = elim (a.valid i m) [
      | inl old ↦ let (n, at) = valid i old in let (n', at', _, _) = a.kept i n at in (n', at')
      | inr found ↦ found
    ]

    -- The loop of `build` ends within the fuel, and builds.
    pub build_from-IsBuilt :
        (fuel : ℕ) (parents : List ℕ) (elements : List E) (arena : Arena E K)
        → IsTree arena
        → ((i : ℕ) → Memᴰ i parents → (n : ATree E K) × At arena i n)
        → length parents + length elements < fuel
        → (arena' : Arena E K) × (rest : List E) × (build_from factory fuel parents elements arena
            ≡ ok (arena', rest))
          × IsBuilt parents elements arena arena' rest
    unfolding build_from
    build_from-IsBuilt zero parents elements arena t valid h = absurd (omega arith)
    build_from-IsBuilt (suc fuel) [] elements arena t valid h = (
      arena,
      elements,
      refl,
      record {
        tree = t;
        kept = λ i n at. (n, at, refl, refl);
        origin = λ i n at. inl (n, at, refl, refl);
        remains = λ e m. m;
        used = λ e m. inl m;
        maximal = λ pending i n at. elim (pending i n at) [ inl m ↦ elim m [ ] | inr free ↦ free ];
        keyed = λ k. k;
      },
    )
    build_from-IsBuilt (suc fuel) (parent ∷ parents) elements arena t valid h =
        let (node, here) = valid parent (Memᴰ.head refl) in
        let (arena₁, parents₁, run, a) =
          adopt-Adopted factory parent (taken parent parents elements arena node here) parents arena
            node t here in
        let (arena', rest, run', b) =
          build_from-IsBuilt fuel parents₁ (left parent parents elements arena node here) arena₁
            a.tree (valid_after a (λ i m. valid i (Memᴰ.tail m)))
            (omega (arith, a.size, length-taken parent parents elements arena node here)) in
        (
          arena',
          rest,
          rw (here, build_from) (rw (run, ◌>>=◌) run'),
          step-IsBuilt parent parents elements arena node here arena₁ arena' parents₁ rest a b,
        )

    -- What `build` on a new root hands to the handler of the remains.
    pub record IsFullTree (root : E) (elements : List E) (arena : Arena E K) (rest : List E)
        : Type 0 where
      pub tree : IsTree arena
      pub top : (n : ATree E K) × At arena 0 n × (n.element ≡ root)
      pub placed :
          (i : ℕ) (n : ATree E K)
          → At arena i n
          → (n.element ≡ root)
            ⊎ (Memᴰ n.element elements
                × ((p : ℕ) × (m : ATree E K) × (n.parent ≡ some p)
                    × At arena p m
                    × (child_of n.element m.element ≡ true)))
      pub remains : (e : E) → Memᴰ e rest → Memᴰ e elements
      pub used : (e : E) → Memᴰ e elements → Memᴰ e rest ⊎ Holds arena e
      pub maximal : (i : ℕ) (n : ATree E K) → At arena i n → NoChildOf n.element rest
      pub keyed : IsKeyed factory arena

    only_root :
        (root : E) (i : ℕ) (n : ATree E K)
        → At (new {K = K} root) i n
        → (i ≡ 0) × (n.element ≡ root)
    unfolding new new_with_parent
    only_root root zero n e = (refl, ap (λ (x : ATree E K). x.element) (sym (some_inj.0 e)))
    only_root root (suc i) n e = absurd (none-ne-some n e)

    root-At : (root : E) → (n : ATree E K) × At (new {K = K} root) 0 n × (n.element ≡ root)
    unfolding new new_with_parent
    root-At root = (_, refl, refl)

    root_valid : (root : E) (i : ℕ) → Memᴰ i (0 ∷ []) → (n : ATree E K) × At (new {K = K} root) i n
    root_valid root i (Memᴰ.head e) =
        let (n, at, _) = root-At root in (n, subst (λ j. At (new root) j n) (sym e) at)
    root_valid root i (Memᴰ.tail m) = elim m [ ]

    full :
        (root : E) (elements : List E) (arena : Arena E K) (rest : List E)
        → IsBuilt (0 ∷ []) elements (new root) arena rest
        → IsFullTree root elements arena rest
    full root elements arena rest b = record {
      tree = b.tree;
      top =
          let (n, at, e) = root-At root in let (m, at', e', _) = b.kept 0 n at in (m, at', e' ∙ e);
      placed = λ i n at. elim (b.origin i n at) [
        | inl (m, at', e, _) ↦ inl (e ∙ (only_root root i m at').1)
        | inr found ↦ inr found
      ];
      remains = b.remains;
      used = b.used;
      maximal = b.maximal (λ i n at. inl (Memᴰ.head (only_root root i n at).0));
      keyed = b.keyed (new-IsKeyed factory root);
    }

    -- `build` on a new root ends by its handler's result. The handler gets a tree with the root on
    -- top, in which every other node holds a given element that is a child of its parent's; every
    -- element is given a node or remains; and what remains is no child of any node. A child under a
    -- key has an element of that key, and a node is its parent's child under its key, unless a
    -- later node of that parent and that key took its place.
    pub build-IsFullTree :
        (root : E) (elements : List E) (handler : ℕ → Arena E K → List E → Outcome (Arena E K))
        → (arena : Arena E K) × (rest : List E) × (build factory 0 elements handler (new root)
            ≡ handler 0 arena rest)
          × IsFullTree root elements arena rest
    unfolding build
    build-IsFullTree root elements handler =
        let (n, at, e) = root-At root in
        let (arena, rest, run, b) =
          build_from-IsBuilt (suc (suc (length elements))) (0 ∷ []) elements (new root)
            (new-IsTree root) (λ i m. root_valid root i m) (omega arith) in
        (arena, rest, rw (run, ◌>>=◌) refl, full root elements arena rest b)
