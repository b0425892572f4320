-- ===== src/Router/Search/Total.antt =====
-- The search ends: the fuel of `match_var_path` is more than its rounds.
use native.Mathlib.Nat.{one-le-pow, pow-suc, mul-le-mul_right}
use dce_rust.Base.{
  ℕ, zero, suc, ◌+◌, ◌-◌, ◌*◌, ◌^◌, ◌<◌, ◌≤◌, ◌≡◌, ◌≢◌, ◌⊎◌, subst, refl, ap, true, false, Option,
  none, some, List, [], ◌∷◌, ◌++◌, arith, length, get_elem?, Option-cases, Bool-cases, inl, inr,
  All, All-append, length-append, get_elem?-lt, ◌==◌, list_eq, nat_eq, ◌&&◌, not, leb, is_empty,
}
use dce_rust.Text.{Str, split}
use dce_rust.Maps.{map_insert}
use dce_rust.Request.{required}
use dce_rust.Error.{Outcome, ok, err, panics, out_of_fuel}
use dce_rust.Tree.{ATree, Arena}
use dce_rust.Router.Branch.{ApiBranch, VarType}
use dce_rust.Router.Search.{
  Gathered, Step, found, queued, out_of_bounds, unreadable, part_at, try_vars, advance, search,
  widest, search_fuel, match_var_path, find_consider_suffix,
}

length-le-widest :
    {Rp : Type 0} (tree : Arena (ApiBranch Rp) Str) (i : ℕ) (node : ATree (ApiBranch Rp) Str)
    → get_elem? tree i ≡ some node
    → length node.element.var_children ≤ widest tree
unfolding widest
length-le-widest [] i node e = cc
length-le-widest (n ∷ tree) zero node e = ground arith
length-le-widest (n ∷ tree) (suc i) node e = omega (arith, length-le-widest tree i node e)

-- The rounds that a stack can take: one part further on there are `w` times fewer.
weight : ℕ → ℕ → List (ℕ × ℕ) → ℕ
weight w len [] = 0
weight w len ((place, i) ∷ stack) = w ^ (suc len - i) + weight w len stack

weight-append :
    (w len : ℕ) (xs ys : List (ℕ × ℕ)) → weight w len (xs ++ ys) ≡ weight w len xs + weight w len ys
unfolding weight
weight-append w len [] ys = omega arith
weight-append w len ((p, i) ∷ xs) ys = omega (arith, weight-append w len xs ys)

abbrev NextOf : ℕ → ℕ → ℕ × ℕ → Type 0
NextOf len i q = (q.1 ≡ suc i) × (i < len)

weight-next :
    (w len i : ℕ) (xs : List (ℕ × ℕ))
    → All (NextOf len i) xs
    → weight w len xs ≡ length xs * w ^ (len - i)
unfolding weight
weight-next w len i [] h = omega arith
weight-next w len i ((p, j) ∷ xs) ((e, lt), h) =
    let same : suc len - j ≡ len - i = omega arith in
    rw same (omega (arith, weight-next w len i xs h))

module _ (boundary : ℕ) (parts : List Str) {Rp : Type 0} (tree : Arena (ApiBranch Rp) Str) where
  -- What one variable leaves to the loop if no end is found: nothing, or itself in the queue.
  try_vars-cons :
      (i place : ℕ) (places : List ℕ) (queue queue' : List (ℕ × ℕ)) (seen seen' : Gathered)
      → try_vars boundary parts tree i (place ∷ places) queue seen ≡ queued queue' seen'
      → (try_vars boundary parts tree i places queue seen ≡ queued queue' seen')
        ⊎ ((bound : Gathered) × (try_vars boundary parts tree i places
                (queue ++ (place, suc i) ∷ [])
                bound
              ≡ queued queue' seen')
            × (i < length parts))
  unfolding try_vars
  try_vars-cons i place places queue queue' seen seen' e =
      elim (Option-cases (get_elem? tree place)) [
        | inl gone ↦ absurd (ground arith)
        | inr (node, at) ↦ elim (Bool-cases node.element.is_mid_var) [
          | inl mid ↦ elim (Option-cases (part_at parts i)) [
            | inl gone ↦ inl (ground arith)
            | inr (part, here) ↦ mid_var node at mid part here node.element.var_type refl
          ]
          | inr end ↦ inl (ground arith)
        ]
      ]
    where
      mid_var :
          (node : ATree (ApiBranch Rp) Str)
          → get_elem? tree place ≡ some node
          → node.element.is_mid_var ≡ true
          → (part : Str) → part_at parts i ≡ some part
          → (v : VarType) → node.element.var_type ≡ v
          → (try_vars boundary parts tree i places queue seen ≡ queued queue' seen')
            ⊎ ((bound : Gathered) × (try_vars boundary parts tree i places
                    (queue ++ (place, suc i) ∷ [])
                    bound
                  ≡ queued queue' seen')
                × (i < length parts))
      mid_var node at mid part here (VarType.required name) is = inr (
        record seen { args = map_insert name (required part) seen.args },
        ground arith,
        get_elem?-lt parts i here,
      )
      mid_var node at mid part here (VarType.optional name) is = inl (ground arith)
      mid_var node at mid part here (VarType.emptable_vector name) is = inl (ground arith)
      mid_var node at mid part here (VarType.vector name) is = inl (ground arith)
      mid_var node at mid part here VarType.not_var is = inl (ground arith)

  try_vars-queue :
      (i : ℕ) (places : List ℕ) (queue queue' : List (ℕ × ℕ)) (seen seen' : Gathered)
      → All (NextOf (length parts) i) queue
      → try_vars boundary parts tree i places queue seen ≡ queued queue' seen'
      → All (NextOf (length parts) i) queue' × (length queue' ≤ length queue + length places)
  unfolding try_vars
  try_vars-queue i [] queue queue' seen seen' h e =
      let same : queue ≡ queue' = ground arith in
      (
        subst (All (NextOf (length parts) i)) same h,
        omega (arith, ap (λ (q : List (ℕ × ℕ)). length q) same),
      )
  try_vars-queue i (place ∷ places) queue queue' seen seen' h e =
      elim (try_vars-cons i place places queue queue' seen seen' e) [
        | inl rest ↦
            let (a, n) = try_vars-queue i places queue queue' seen seen' h rest in (a, omega arith)
        | inr (bound, rest, below) ↦
            let (a, n) =
              try_vars-queue i places (queue ++ (place, suc i) ∷ []) queue' bound seen'
                (All-append (NextOf (length parts) i) queue _ h ((refl, below), tt)) rest in
            (a, omega (arith, length-append queue ((place, suc i) ∷ [])))
      ]

  advance-cases :
      (node : ATree (ApiBranch Rp) Str) (i : ℕ) (queue : List (ℕ × ℕ)) (seen seen' : Gathered)
      → advance boundary parts tree node i seen ≡ queued queue seen'
      → ((child : ℕ) × ((child, suc i) ∷ [] ≡ queue) × (i < length parts))
        ⊎ (try_vars boundary parts tree i node.element.var_children [] seen ≡ queued queue seen')
  unfolding advance
  advance-cases node i queue seen seen' e = elim (Option-cases (part_at parts i)) [
    | inl gone ↦ inr (rw (gone, advance) at e)
    | inr (part, here) ↦
        elim (Option-cases (
          find_consider_suffix tree boundary part (suc i == length parts) node.children
            node.element.omitted_passed_children)) [
              | inl none_found ↦ inr (rw (none_found, advance) at (rw (here, advance) at e))
              | inr ((child, suffix), one) ↦
                  let run : queued ((child, suc i) ∷ []) (record seen { suffix = suffix })
                      ≡ queued queue seen' =
                    rw (one, advance) at (rw (here, advance) at e) in
                  inl (child, ground arith, get_elem?-lt parts i here)
            ]
  ]

  -- A round puts branches on the stack that are one part further on, at most `widest + 1`.
  advance-queue :
      (place : ℕ) (node : ATree (ApiBranch Rp) Str) (i : ℕ) (queue : List (ℕ × ℕ))
      (seen seen' : Gathered)
      → get_elem? tree place ≡ some node
      → advance boundary parts tree node i seen ≡ queued queue seen'
      → All (NextOf (length parts) i) queue × (length queue ≤ widest tree + 1)
  advance-queue place node i queue seen seen' at e =
      elim (advance-cases node i queue seen seen' e) [
        | inl (child, q, below) ↦ (
          subst (All (NextOf (length parts) i)) q ((refl, below), tt),
          omega (arith, ap (λ (q : List (ℕ × ℕ)). length q) q),
        )
        | inr vars ↦
            let (a, n) = try_vars-queue i node.element.var_children [] queue seen seen' tt vars in
            (a, omega (arith, length-le-widest tree place node at))
      ]

  -- What a round puts on the stack weighs less than the branch that it takes off.
  weight-advance :
      (place : ℕ) (node : ATree (ApiBranch Rp) Str) (i : ℕ) (queue : List (ℕ × ℕ))
      (seen seen' : Gathered)
      → get_elem? tree place ≡ some node
      → i ≤ length parts
      → advance boundary parts tree node i seen ≡ queued queue seen'
      → weight (widest tree + 2) (length parts) queue < (widest tree + 2) ^ (suc (length parts) - i)
  weight-advance place node i queue seen seen' at le e =
      let (a, n) = advance-queue place node i queue seen seen' at e in
      let w = widest tree + 2 in
      let same : suc (length parts) - i ≡ suc (length parts - i) = omega arith in
      let one : 1 ≤ w ^ (length parts - i) = one-le-pow (length parts - i) w (omega arith) in
      rw (same, pow-suc)
        (omega (
          arith,
          weight-next w (length parts) i queue a,
          mul-le-mul_right {m = length queue} {n = widest tree + 1} (w ^ (length parts - i)) n,
        ))

  -- With more fuel than the stack weighs, the search does not run out of it.
  search-total :
      (fuel : ℕ) (stack : List (ℕ × ℕ)) (seen : Gathered)
      → All (λ q. q.1 ≤ length parts) stack
      → weight (widest tree + 2) (length parts) stack < fuel
      → search boundary parts tree fuel stack seen ≢ out_of_fuel
  unfolding search
  search-total zero stack seen h lt e = absurd (omega arith)
  search-total (suc fuel) [] seen h lt e = cc
  search-total (suc fuel) ((place, i) ∷ stack) seen (le, h) lt e =
      elim (Option-cases (get_elem? tree place)) [
        | inl gone ↦ absurd (ground arith)
        | inr (node, at) ↦
            elim (Bool-cases (leb (length parts) i && not (is_empty node.element.apis))) [
              | inl target ↦ absurd (ground arith)
              | inr on ↦
                  step (λ s b. search-total fuel s b) node at on
                    (advance boundary parts tree node i seen) refl
            ]
      ]
    where
      weight-cons :
          weight (widest tree + 2) (length parts) ((place, i) ∷ stack)
          ≡ (widest tree + 2) ^ (suc (length parts) - i)
            + weight (widest tree + 2) (length parts) stack
      weight-cons = unfold weight in refl

      within :
          (q : List (ℕ × ℕ)) → All (NextOf (length parts) i) q → All (λ q. q.1 ≤ length parts) q
      within [] a = tt
      within (x ∷ q) ((e, lt), a) = (omega arith, within q a)

      step :
          ((s : List (ℕ × ℕ)) (b : Gathered)
            → All (λ q. q.1 ≤ length parts) s
            → weight (widest tree + 2) (length parts) s < fuel
            → search boundary parts tree fuel s b ≢ out_of_fuel)
          → (node : ATree (ApiBranch Rp) Str) → get_elem? tree place ≡ some node
          → (leb (length parts) i && not (is_empty node.element.apis)) ≡ false
          → (s : Step) → advance boundary parts tree node i seen ≡ s
          → ⊥
      step ih node at on (found target bound) r = ground arith
      step ih node at on (queued queue bound) r =
          let (a, n) = advance-queue place node i queue seen bound at r in
          ih (queue ++ stack) bound
            (All-append (λ q. q.1 ≤ length parts) queue stack (within queue a) h)
            (omega (
              arith,
              weight-append (widest tree + 2) (length parts) queue stack,
              weight-advance place node i queue seen bound at le r,
              weight-cons,
            ))
            (ground arith)
      step ih node at on out_of_bounds r = ground arith
      step ih node at on unreadable r = ground arith

-- `match_var_path` always ends: whatever the tree and the path, its fuel does not run out.
pub match_var_path-total :
    (separator boundary : ℕ) {Rp : Type 0} (tree : Arena (ApiBranch Rp) Str) (path : Str)
    → match_var_path separator boundary tree path ≢ out_of_fuel
unfolding match_var_path
match_var_path-total separator boundary {Rp} tree path e = run _ refl
  where
    parts : List Str
    parts = split separator path

    start : Gathered
    start = record { args = []; suffix = [] }

    enough : weight (widest tree + 2) (length parts) ((0, 0) ∷ []) < search_fuel tree parts
    enough =
        let all : suc (length parts) - 0 ≡ suc (length parts) = omega arith in
        unfold weight search_fuel in rw all (omega arith)

    run :
        (r : Outcome (Option (ℕ × Gathered)))
        → search boundary parts tree (search_fuel tree parts) ((0, 0) ∷ []) start ≡ r
        → ⊥
    run (ok none) q = ground arith
    run (ok (some (target, seen))) q = ground arith
    run (err x) q = ground arith
    run panics q = ground arith
    run out_of_fuel q =
        search-total boundary parts tree (search_fuel tree parts) ((0, 0) ∷ []) start
          (omega arith, tt) enough q
