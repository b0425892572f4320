-- ===== src/Tree/Parents.antt =====
-- `parents_until` without an end, and `parents`: the whole ancestry of a node.
use dce_rust.Base.{
  ℕ, zero, suc, ◌<◌, ◌≡◌, refl, Bool, false, none, List, [], ◌∷◌, reverse, arith, length, Ord,
  Option-cases, inl, inr, get_elem?-lt,
}
use dce_rust.Error.{ok, ◌>>=◌}
use dce_rust.Tree.{ATree, Arena, parents_from, parents_until, parents}
use dce_rust.Tree.Shape.{At, HasParent, IsTree}

module _ {E K : Type 0} where
  -- Each place holds a node whose parent is the next place, and the last one a root.
  abbrev pub IsAncestry : Arena E K → List ℕ → Type 0
  IsAncestry arena [] = ⊥
  IsAncestry arena (i ∷ []) = (n : ATree E K) × At arena i n × (n.parent ≡ none)
  IsAncestry arena (i ∷ j ∷ more) = HasParent arena i j × IsAncestry arena (j ∷ more)

module _ {E K : Type 0} ⦃o : Ord K⦄ (eq : E → E → Bool) (arena : Arena E K) (t : IsTree arena) where
  -- The loop ends: a parent stands at an earlier place.
  parents_from-total :
      (fuel i : ℕ) (n : ATree E K)
      → At arena i n
      → i < fuel
      → (more : List ℕ) × (parents_from eq fuel i none arena ≡ ok (i ∷ more))
        × IsAncestry arena (i ∷ more)
  unfolding parents_from
  parents_from-total zero i n at h = absurd (omega arith)
  parents_from-total (suc fuel) i n at h = elim (Option-cases n.parent) [
    | inl top ↦ ([], rw (at, parents_from) (rw (top, parents_from) refl), (n, at, top))
    | inr (p, up) ↦
        let (lt, m, here) = flat (t.ups i n p at up) in
        let (more, run, chain) = parents_from-total fuel p m here (omega arith) in
        (
          p ∷ more,
          rw (at, parents_from) (rw (up, parents_from) (rw (run, ◌>>=◌) refl)),
          ((n, at, up), chain),
        )
  ]
    where
      flat :
          {p : ℕ}
          → (p < i) × ((m : ATree E K) × At arena p m)
          → (p < i) × (m : ATree E K) × At arena p m
      flat (a, (b, c)) = (a, b, c)

  -- For every node of a tree both functions return, the one from the node up and the other from
  -- the root down, the places of its ancestry: each next one is the parent, the last one a root.
  pub parents-IsAncestry :
      (i : ℕ) (n : ATree E K)
      → At arena i n
      → (more : List ℕ) × (parents_until eq i none false arena ≡ ok (i ∷ more))
        × (parents eq i arena ≡ ok (reverse (i ∷ more)))
        × IsAncestry arena (i ∷ more)
  unfolding parents parents_until
  parents-IsAncestry i n at =
      let (more, run, chain) =
        parents_from-total (suc (length arena)) i n at (omega (arith, get_elem?-lt arena i at)) in
      (
        more,
        rw (at, parents_until) (rw (run, ◌>>=◌) refl),
        rw (at, parents_until) (rw (run, ◌>>=◌) refl),
        chain,
      )
