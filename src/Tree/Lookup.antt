-- ===== src/Tree/Lookup.antt =====
-- What a node's place holds after `set`.
use dce_rust.Base.{
  ℕ, suc, ◌≡◌, ◌≢◌, refl, sym, ◌∙◌, some, [], ◌∷◌, ◌++◌, arith, length, get_elem?, set as put_at,
  Ord, get_elem?-lt, get_elem?-append_left, get_elem?-append_self, get_elem?-append_past,
  get_elem?-past, get_elem?-set_self, get_elem?-set_ne, length-append, length-set,
}
use native.Mathlib.Decide.{dec_lt}
use dce_rust.Maps.{btree_insert}
use dce_rust.Error.{ok}
use dce_rust.Tree.{ATree, Arena, modify, set}

module _ {E K : Type 0} ⦃o : Ord K⦄ where
  -- The arena that `set` leaves.
  unfoldable pub grown : ℕ → K → E → ATree E K → Arena E K → Arena E K
  grown self key element node arena =
      put_at (arena ++ record { element = element; children = []; parent = some self } ∷ []) self
        (record node { children = btree_insert key (length arena) node.children })

  module _ (self : ℕ) (key : K) (element : E) (node : ATree E K) (arena : Arena E K)
      (here : get_elem? arena self ≡ some node) where
    here_after :
        get_elem?
          (arena ++ record { element = element; children = []; parent = some self } ∷ [])
          self
        ≡ some node
    here_after = get_elem?-append_left arena _ self (get_elem?-lt arena self here) ∙ here

    pub set_lem : set self key element arena ≡ ok (grown self key element node arena, length arena)
    unfolding set grown
    set_lem = rw (here, set) (rw (here_after, modify) refl)

    pub length-grown : length (grown self key element node arena) ≡ suc (length arena)
    unfolding grown
    length-grown = length-set _ self _ ∙ length-append arena _ ∙ omega arith

    pub grown_self :
        get_elem? (grown self key element node arena) self
        ≡ some (record node { children = btree_insert key (length arena) node.children })
    unfolding grown
    grown_self = get_elem?-set_self _ self _ (
        omega (
          arith,
          length-append arena
              (record { element = element; children = []; parent = some self } ∷ []),
          get_elem?-lt arena self here,
        ))

    pub grown-child :
        get_elem? (grown self key element node arena) (length arena)
        ≡ some (record { element = element; children = []; parent = some self })
    unfolding grown
    grown-child =
        get_elem?-set_ne _ self (length arena) _ (omega (arith, get_elem?-lt arena self here))
        ∙ get_elem?-append_self arena _

    pub grown-other :
        (i : ℕ)
        → self ≢ i
        → length arena ≢ i
        → get_elem? (grown self key element node arena) i ≡ get_elem? arena i
    unfolding grown
    grown-other i n m = get_elem?-set_ne _ self i _ n ∙ elim (dec_lt i (length arena)) [
      | yes below ↦ get_elem?-append_left arena _ i below
      | no above ↦
          get_elem?-append_past arena _ i (omega arith) ∙ sym (get_elem?-past arena i (omega arith))
    ]
