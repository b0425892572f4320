-- ===== src/Router/Search/Sound.antt =====
-- What the search finds is reached from the root by the parts of the path.
use dce_rust.Base.{
  ℕ, zero, suc, ◌≤◌, ◌≡◌, refl, sym, subst, true, false, not, ◌&&◌, Option, none, some, List, [],
  ◌∷◌, ◌⊎◌, ◌++◌, arith, length, get_elem?, drop, leb, ◌==◌, is_empty, Option-cases, Bool-cases,
  inl, inr, All, All-append, Memᴰ, get_elem?-lt, list_eq, nat_eq,
}
use dce_rust.Text.{Str, split}
use dce_rust.Error.{Outcome, ok, err, panics, out_of_fuel}
use dce_rust.Tree.{ATree, Arena}
use dce_rust.Tree.Shape.{At}
use dce_rust.Request.{PathParams}
use dce_rust.Router.Branch.{ApiBranch, VarType}
use dce_rust.Router.Search.{
  Gathered, Step, found, queued, out_of_bounds, unreadable, part_at, bind_end, try_vars, advance,
  search, search_fuel, match_var_path, find_consider_suffix,
}
use dce_rust.Router.Search.Named.{IsChild, HasNoChild, Offers, find_consider_suffix_sound}
use dce_rust.Router.Search.Leads.{
  Leads, arrived, named, suffixed, middle, ending, drop-cons, drop_past, All-self, through_var,
  bind_end-Takes,
}

module _ (boundary : ℕ) (parts : List Str) {Rp : Type 0} (tree : Arena (ApiBranch Rp) Str) where
  -- What leads on from a place at a part leads there from the root and the first part.
  abbrev Good : ℕ × ℕ → Type 0
  Good (place, i) =
      (i ≤ length parts)
      × ((target : ℕ)
          → Leads boundary tree place (drop i parts) target
          → Leads boundary tree 0 parts target)

  abbrev Sane : Step → Type 0
  Sane (found target bound) = Leads boundary tree 0 parts target
  Sane (queued queue seen) = All Good queue
  Sane out_of_bounds = Unit
  Sane unreadable = Unit

  module _ (place i : ℕ) (node : ATree (ApiBranch Rp) Str) (at : At tree place node)
      (good : Good (place, i)) where
    Good-middle :
        (child : ℕ) (below : ATree (ApiBranch Rp) Str) (part name : Str)
        → Memᴰ child node.element.var_children
        → At tree child below
        → below.element.is_mid_var ≡ true
        → below.element.var_type ≡ VarType.required name
        → part_at parts i ≡ some part
        → Good (child, suc i)
    Good-middle child below part name m there mid is here = (
      omega (arith, get_elem?-lt parts i here),
      λ target l. good.1 target (
          subst (λ ps. Leads boundary tree place ps target) (sym (drop-cons parts i here))
            (middle node below child name at m there mid is l)),
    )

    Good-named :
        (child : ℕ) (suffix part : Str)
        → part_at parts i ≡ some part
        → find_consider_suffix tree boundary part
            (suc i == length parts)
            node.children
            node.element.omitted_passed_children
          ≡ some (child, suffix)
        → Good (child, suc i)
    Good-named child suffix part here one = (
      omega (arith, get_elem?-lt parts i here),
      λ target l. good.1 target (
          subst (λ ps. Leads boundary tree place ps target) (sym (drop-cons parts i here))
            (step target l (
              find_consider_suffix_sound tree boundary part (suc i == length parts) node.children
                node.element.omitted_passed_children child suffix one))),
    )
      where
        step :
            (target : ℕ)
            → Leads boundary tree child (drop (suc i) parts) target
            → IsChild node.children node.element.omitted_passed_children part child
              ⊎ (((suc i == length parts) ≡ true)
                  × HasNoChild node.children node.element.omitted_passed_children part
                  × ((front : Str) × (part ≡ front ++ boundary ∷ suffix)
                      × IsChild node.children node.element.omitted_passed_children front child
                      × Offers tree child suffix))
            → Leads boundary tree place (part ∷ drop (suc i) parts) target
        step target l (inl whole) = named node child at whole l
        step target l (inr (end, lacks, (front, cut, front_child, offers))) =
            let done : drop (suc i) parts ≡ [] = drop_past parts (suc i) (ground arith) in
            subst (λ ps. Leads boundary tree place (part ∷ ps) target) (sym done)
              (suffixed node child front suffix at lacks cut front_child offers
                (subst (λ ps. Leads boundary tree child ps target) done l))

    try_vars-Sane :
        (places : List ℕ) (queue : List (ℕ × ℕ)) (seen : Gathered)
        → All (λ c. Memᴰ c node.element.var_children) places
        → All Good queue
        → Sane (try_vars boundary parts tree i places queue seen)
    unfolding try_vars
    try_vars-Sane [] queue seen mem h = h
    try_vars-Sane (child ∷ places) queue seen (m, mem) h =
        elim (Option-cases (get_elem? tree child)) [
          | inl gone ↦ rw (gone, try_vars) tt
          | inr (below, there) ↦ elim (Bool-cases below.element.is_mid_var) [
            | inl mid ↦
                rw (there, try_vars)
                  (rw (mid, try_vars)
                    (through (λ q s a. try_vars-Sane places q s mem a) below there mid
                      below.element.var_type refl))
            | inr end ↦
                rw (there, try_vars)
                  (rw (end, try_vars)
                    (ended (try_vars-Sane places queue seen mem h) below there end
                      (bind_end boundary parts below.element i seen) refl))
          ]
        ]
      where
        through :
            ((q : List (ℕ × ℕ)) (s : Gathered)
              → All Good q
              → Sane (try_vars boundary parts tree i places q s))
            → (below : ATree (ApiBranch Rp) Str) → At tree child below
            → below.element.is_mid_var ≡ true
            → (v : VarType) → below.element.var_type ≡ v
            → Sane (through_var boundary parts tree i child places queue seen v)
        through ih below there mid (VarType.required name) is =
            elim (Option-cases (part_at parts i)) [
              | inl gone ↦ rw (gone, through_var) tt
              | inr (part, here) ↦
                  rw (here, through_var)
                    (ih _ _ (
                      All-append Good queue _ h
                        (Good-middle child below part name m there mid is here, tt)))
            ]
        through ih below there mid (VarType.optional name) is = ih queue seen h
        through ih below there mid (VarType.emptable_vector name) is = ih queue seen h
        through ih below there mid (VarType.vector name) is = ih queue seen h
        through ih below there mid VarType.not_var is = ih queue seen h

        ended :
            Sane (try_vars boundary parts tree i places queue seen)
            → (below : ATree (ApiBranch Rp) Str) → At tree child below
            → below.element.is_mid_var ≡ false
            → (o : Option Gathered) → bind_end boundary parts below.element i seen ≡ o
            → Sane (elim (bind_end boundary parts below.element i seen) as (λ _. Step) [
              | some bound ↦ found child bound
              | none ↦ try_vars boundary parts tree i places queue seen
            ])
        ended ih below there end none q = rw q ih
        ended ih below there end (some bound) q = rw q (
            good.1 child (
              ending node below at m there end (
                bind_end-Takes boundary parts below.element i seen bound good.0 q
                  below.element.var_type refl)))

    advance-Sane : (seen : Gathered) → Sane (advance boundary parts tree node i seen)
    unfolding advance
    advance-Sane seen = elim (Option-cases (part_at parts i)) [
      | inl gone ↦
          rw (gone, advance) (try_vars-Sane node.element.var_children [] seen (All-self _) tt)
      | inr (part, here) ↦
          elim (Option-cases (
            find_consider_suffix tree boundary part (suc i == length parts) node.children
              node.element.omitted_passed_children)) [
                | inl none_found ↦
                    rw (here, advance)
                      (rw (none_found, advance)
                        (try_vars-Sane node.element.var_children [] seen (All-self _) tt))
                | inr ((child, suffix), one) ↦
                    rw (here, advance)
                      (rw (one, advance) (Good-named child suffix part here one, tt))
              ]
    ]

  search-Leads :
      (fuel : ℕ) (stack : List (ℕ × ℕ)) (seen bound : Gathered) (target : ℕ)
      → All Good stack
      → search boundary parts tree fuel stack seen ≡ ok (some (target, bound))
      → Leads boundary tree 0 parts target
  unfolding search
  search-Leads zero stack seen bound target h e = absurd (ground arith)
  search-Leads (suc fuel) [] seen bound target h e = absurd (ground arith)
  search-Leads (suc fuel) ((place, i) ∷ stack) seen bound target (good, h) e =
      elim (Option-cases (get_elem? tree place)) [
        | inl gone ↦ absurd (ground arith)
        | inr (node, at) ↦
            elim (Bool-cases (leb (length parts) i && not (is_empty node.element.apis))) [
              | inl here ↦ finished node at here
              | inr on ↦
                  step (λ s b a. search-Leads fuel s b bound target a) node at on
                    (advance boundary parts tree node i seen) refl
            ]
      ]
    where
      finished :
          (node : ATree (ApiBranch Rp) Str)
          → get_elem? tree place ≡ some node
          → (leb (length parts) i && not (is_empty node.element.apis)) ≡ true
          → Leads boundary tree 0 parts target
      finished node at here =
          let same : place ≡ target = ground arith in
          let past : length parts ≤ i = ground arith in
          let bare : is_empty node.element.apis ≡ false = ground arith in
          subst (Leads boundary tree 0 parts) same (
            good.1 place (
              subst (λ ps. Leads boundary tree place ps place) (sym (drop_past parts i past))
                (arrived node at bare)))

      step :
          ((s : List (ℕ × ℕ)) (b : Gathered)
            → All Good s
            → search boundary parts tree fuel s b ≡ ok (some (target, bound))
            → Leads boundary tree 0 parts target)
          → (node : ATree (ApiBranch Rp) Str) → get_elem? tree place ≡ some node
          → (leb (length parts) i && not (is_empty node.element.apis)) ≡ false
          → (s : Step) → advance boundary parts tree node i seen ≡ s
          → Leads boundary tree 0 parts target
      step ih node at on (found t b) r =
          let same : t ≡ target = ground arith in
          subst (Leads boundary tree 0 parts) same
            (subst Sane r (advance-Sane place i node at good seen))
      step ih node at on (queued queue b) r =
          ih (queue ++ stack) b
            (All-append Good queue stack (subst Sane r (advance-Sane place i node at good seen)) h)
            (ground arith)
      step ih node at on out_of_bounds r = absurd (ground arith)
      step ih node at on unreadable r = absurd (ground arith)

-- What `match_var_path` returns is the path of a branch to which the parts of the request's path
-- lead from the root of the tree.
pub match_var_path-Leads :
    (separator boundary : ℕ) {Rp : Type 0} (tree : Arena (ApiBranch Rp) Str) (path p : Str)
    (args : PathParams) (suffix : Str)
    → match_var_path separator boundary tree path ≡ ok (some (p, args, suffix))
    → (target : ℕ) × (node : ATree (ApiBranch Rp) Str) × At tree target node
      × (node.element.path ≡ p)
      × Leads boundary tree 0 (split separator path) target
unfolding match_var_path
match_var_path-Leads separator boundary {Rp} tree path p args suffix e = run _ refl
  where
    parts : List Str
    parts = split separator path

    start : Gathered
    start = record { args = []; suffix = [] }

    Found : Type 0
    Found =
        (target : ℕ) × (node : ATree (ApiBranch Rp) Str) × At tree target node
        × (node.element.path ≡ p)
        × Leads boundary tree 0 parts target

    run :
        (r : Outcome (Option (ℕ × Gathered)))
        → search boundary parts tree (search_fuel tree parts) ((0, 0) ∷ []) start ≡ r
        → Found
    run (ok none) q = absurd (ground arith)
    run (ok (some (target, seen))) q = elim (Option-cases (get_elem? tree target)) [
      | inl gone ↦ absurd (ground arith)
      | inr (node, at) ↦ (
        target,
        node,
        at,
        ground arith,
        search-Leads boundary parts tree (search_fuel tree parts) ((0, 0) ∷ []) start seen target
            ((omega arith, λ t l. l), tt) q,
      )
    ]
    run (err x) q = absurd (ground arith)
    run panics q = absurd (ground arith)
    run out_of_fuel q = absurd (ground arith)
