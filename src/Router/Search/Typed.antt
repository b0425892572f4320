-- ===== src/Router/Search/Typed.antt =====
-- The kinds of the arguments that the search binds.
use dce_rust.Base.{
  ℕ, zero, suc, ◌≡◌, refl, sym, subst, true, false, not, ◌&&◌, Option, none, some, List, [], ◌∷◌,
  ◌++◌, arith, length, get_elem?, leb, ◌==◌, is_empty, Option-cases, Bool-cases, inl, inr, All,
  list_eq, nat_eq,
}
use dce_rust.Text.{Str, split}
use dce_rust.Maps.{All-map_insert}
use dce_rust.Error.{Outcome, ok, err, panics, out_of_fuel}
use dce_rust.Tree.{ATree, Arena}
use dce_rust.Tree.Shape.{At}
use dce_rust.Api.Suffixes.{suffix_ord}
use dce_rust.Request.{PathParam, PathParams, required}
use dce_rust.Router.Branch.{ApiBranch, VarType}
use dce_rust.Router.Search.{
  Gathered, Step, found, queued, out_of_bounds, unreadable, part_at, bind_end, try_vars, advance,
  search, search_fuel, match_var_path, find_consider_suffix,
}
use dce_rust.Router.Search.Leads.{through_var}
use dce_rust.Router.Search.Kinds.{Fits, bind_end-Fits}

module _ {Rp : Type 0} (tree : Arena (ApiBranch Rp) Str) where
  -- An argument that fits the variable of a branch of the tree.
  abbrev pub Declared : Str × PathParam → Type 0
  Declared (name, value) =
      (place : ℕ) × (node : ATree (ApiBranch Rp) Str) × At tree place node
      × Fits node.element.var_type name value

module _ (boundary : ℕ) (parts : List Str) {Rp : Type 0} (tree : Arena (ApiBranch Rp) Str) where
  abbrev AreDeclared : Step → Type 0
  AreDeclared (found target bound) = All (Declared tree) bound.args
  AreDeclared (queued queue seen) = All (Declared tree) seen.args
  AreDeclared out_of_bounds = Unit
  AreDeclared unreadable = Unit

  try_vars-AreDeclared :
      (i : ℕ) (places : List ℕ) (queue : List (ℕ × ℕ)) (seen : Gathered)
      → All (Declared tree) seen.args
      → AreDeclared (try_vars boundary parts tree i places queue seen)
  unfolding try_vars
  try_vars-AreDeclared i [] queue seen h = h
  try_vars-AreDeclared i (child ∷ places) queue seen h =
      elim (Option-cases (get_elem? tree child)) [
        | inl gone ↦ rw (gone, try_vars) tt
        | inr (below, there) ↦ elim (Bool-cases below.element.is_mid_var) [
          | inl mid ↦
              rw (there, try_vars)
                (rw (mid, try_vars)
                  (through (try_vars-AreDeclared i places) below there below.element.var_type refl))
          | inr end ↦
              rw (there, try_vars)
                (rw (end, try_vars)
                  (ended (try_vars-AreDeclared i places queue seen h) below there
                    (bind_end boundary parts below.element i seen) refl))
        ]
      ]
    where
      through :
          ((q : List (ℕ × ℕ)) (s : Gathered)
            → All (Declared tree) s.args
            → AreDeclared (try_vars boundary parts tree i places q s))
          → (below : ATree (ApiBranch Rp) Str) → At tree child below
          → (v : VarType) → below.element.var_type ≡ v
          → AreDeclared (through_var boundary parts tree i child places queue seen v)
      through ih below there (VarType.required name) is = elim (Option-cases (part_at parts i)) [
        | inl gone ↦ rw (gone, through_var) tt
        | inr (part, here) ↦
            let fits : Fits below.element.var_type name (required part) =
              subst (λ v. Fits v name (required part)) (sym is) (refl, tt) in
            rw (here, through_var)
              (ih _ _ (
                All-map_insert (Declared tree) name (required part) seen.args h
                  (child, below, there, fits)))
      ]
      through ih below there (VarType.optional name) is = ih queue seen h
      through ih below there (VarType.emptable_vector name) is = ih queue seen h
      through ih below there (VarType.vector name) is = ih queue seen h
      through ih below there VarType.not_var is = ih queue seen h

      ended :
          AreDeclared (try_vars boundary parts tree i places queue seen)
          → (below : ATree (ApiBranch Rp) Str) → At tree child below
          → (o : Option Gathered) → bind_end boundary parts below.element i seen ≡ o
          → AreDeclared (elim (bind_end boundary parts below.element i seen) as (λ _. Step) [
            | some bound ↦ found child bound
            | none ↦ try_vars boundary parts tree i places queue seen
          ])
      ended ih below there none q = rw q ih
      ended ih below there (some bound) q =
          let (name, value, args, fits) =
            bind_end-Fits boundary parts below.element i seen bound q below.element.var_type refl in
          rw q (
            subst (All (Declared tree)) (sym args)
              (All-map_insert (Declared tree) name value seen.args h (child, below, there, fits)))

  advance-AreDeclared :
      (node : ATree (ApiBranch Rp) Str) (i : ℕ) (seen : Gathered)
      → All (Declared tree) seen.args
      → AreDeclared (advance boundary parts tree node i seen)
  unfolding advance
  advance-AreDeclared node i seen h = elim (Option-cases (part_at parts i)) [
    | inl gone ↦ rw (gone, advance) (try_vars-AreDeclared i node.element.var_children [] seen h)
    | inr (part, here) ↦
        elim (Option-cases (
          find_consider_suffix tree boundary part (suc i == length parts) node.children
            node.element.omitted_passed_children)) [
              | inl unfound ↦
                  rw (here, advance)
                    (rw (unfound, advance)
                      (try_vars-AreDeclared i node.element.var_children [] seen h))
              | inr ((child, suffix), one) ↦ rw (here, advance) (rw (one, advance) h)
            ]
  ]

  search-AreDeclared :
      (fuel : ℕ) (stack : List (ℕ × ℕ)) (seen bound : Gathered) (target : ℕ)
      → All (Declared tree) seen.args
      → search boundary parts tree fuel stack seen ≡ ok (some (target, bound))
      → All (Declared tree) bound.args
  unfolding search
  search-AreDeclared zero stack seen bound target h e = absurd (ground arith)
  search-AreDeclared (suc fuel) [] seen bound target h e = absurd (ground arith)
  search-AreDeclared (suc fuel) ((place, i) ∷ stack) seen bound target h e =
      elim (Option-cases (get_elem? tree place)) [
        | inl gone ↦ absurd (ground arith)
        | inr (node, at) ↦
            elim (Bool-cases (leb (length parts) i && not (is_empty node.element.apis))) [
              | inl here ↦ finished node at here
              | inr on ↦
                  step (λ s b a. search-AreDeclared fuel s b bound target a) node at on
                    (advance boundary parts tree node i seen) refl
            ]
      ]
    where
      finished :
          (node : ATree (ApiBranch Rp) Str)
          → get_elem? tree place ≡ some node
          → (leb (length parts) i && not (is_empty node.element.apis)) ≡ true
          → All (Declared tree) bound.args
      finished node at here =
          let same : seen ≡ bound = ground arith in
          subst (λ (g : Gathered). All (Declared tree) g.args) same h

      step :
          ((s : List (ℕ × ℕ)) (b : Gathered)
            → All (Declared tree) b.args
            → search boundary parts tree fuel s b ≡ ok (some (target, bound))
            → All (Declared tree) bound.args)
          → (node : ATree (ApiBranch Rp) Str) → get_elem? tree place ≡ some node
          → (leb (length parts) i && not (is_empty node.element.apis)) ≡ false
          → (s : Step) → advance boundary parts tree node i seen ≡ s
          → All (Declared tree) bound.args
      step ih node at on (found t b) r =
          let same : b ≡ bound = ground arith in
          subst (λ (g : Gathered). All (Declared tree) g.args) same
            (subst AreDeclared r (advance-AreDeclared node i seen h))
      step ih node at on (queued queue b) r =
          ih (queue ++ stack) b (subst AreDeclared r (advance-AreDeclared node i seen h))
            (ground arith)
      step ih node at on out_of_bounds r = absurd (ground arith)
      step ih node at on unreadable r = absurd (ground arith)

-- Every argument that match_var_path returns fits a variable of the tree that has its name: it is a
-- single part where that is required, one part or none where it is optional, and a list where it
-- is a vector, which has one part at least if the vector cannot be empty.
pub match_var_path-Declared :
    (separator boundary : ℕ) {Rp : Type 0} (tree : Arena (ApiBranch Rp) Str) (path p : Str)
    (args : PathParams) (suffix : Str)
    → match_var_path separator boundary tree path ≡ ok (some (p, args, suffix))
    → All (Declared tree) args
unfolding match_var_path
match_var_path-Declared separator boundary {Rp} tree path p args suffix e = run _ refl
  where
    parts : List Str
    parts = split separator path

    start : Gathered
    start = record { args = []; suffix = [] }

    run :
        (r : Outcome (Option (ℕ × Gathered)))
        → search boundary parts tree (search_fuel tree parts) ((0, 0) ∷ []) start ≡ r
        → All (Declared tree) args
    run (ok none) q = absurd (ground arith)
    run (ok (some (target, seen))) q = elim (Option-cases (get_elem? tree target)) [
      | inl gone ↦ absurd (ground arith)
      | inr (node, at) ↦
          let same : seen.args ≡ args = ground arith in
          subst (All (Declared tree)) same (
            search-AreDeclared boundary parts tree (search_fuel tree parts) ((0, 0) ∷ []) start seen
              target tt q)
    ]
    run (err x) q = absurd (ground arith)
    run panics q = absurd (ground arith)
    run out_of_fuel q = absurd (ground arith)
