-- ===== src/Router/Search.antt =====
-- `match_var_path` and `find_consider_suffix` of crates/router/src/router.rs: the walk through the
-- tree of paths. A read of a place outside the arena is the `ok()?` of the source on a failed read.
pub mod Total
pub mod Named
pub mod Leads
pub mod Sound
pub mod Kinds
pub mod Typed
mod Tests
use Prim.Native.Nat.{max}
use dce_rust.Base.{
  ℕ, zero, suc, ◌+◌, ◌-◌, ◌^◌, Bool, true, false, not, ◌&&◌, Option, none, some, List, [], ◌∷◌,
  ◌++◌, length, get_elem?, drop, if◌then◌else◌, leb, ◌==◌, find, is_empty, list_eq, nat_eq,
  list_ord, nat_ord,
}
use dce_rust.Text.{Str, str_eq, split, rsplits, ends_with, drop_end}
use dce_rust.Maps.{map_insert, btree_get, set_extend}
use dce_rust.Error.{Outcome, ok, panics, out_of_fuel, ◌>>=◌}
use dce_rust.Tree.{ATree, Arena}
use dce_rust.Api.{Api}
use dce_rust.Api.Suffixes.{Suffix, suffix_ord}
use dce_rust.Request.{PathParam, option, required, vector, PathParams}
use dce_rust.Router.Branch.{ApiBranch, VarType}

-- `iter().flat_map(|api| api.suffixes())`.
unfoldable pub flat_suffixes : {Rp : Type 0} → List (Api Rp) → List Suffix
flat_suffixes [] = []
flat_suffixes (api ∷ apis) = api.suffixes ++ flat_suffixes apis

-- `&path_parts[..]` with the last part given anew.
unfoldable pub set_last : List Str → Str → List Str
set_last [] part = []
set_last (p ∷ []) part = part ∷ []
set_last (p ∷ q ∷ ps) part = p ∷ set_last (q ∷ ps) part

-- The part at a place, and the parts from a place on; `none` is an index out of bounds.
abbrev pub part_at : List Str → ℕ → Option Str
part_at parts i = get_elem? parts i

abbrev pub last_of : List Str → Option Str
last_of [] = none
last_of (p ∷ []) = some p
last_of (p ∷ q ∷ ps) = last_of (q ∷ ps)

abbrev pub Children : Type 0
Children = List (Str × ℕ)

-- `children.get(part).or_else(|| omitted_passed_children.get(part))`.
unfoldable pub get_child : Children → Children → Str → Option ℕ
unfolding btree_get
get_child children omitted part = elim (btree_get part children) [
  | some child ↦ some child
  | none ↦ btree_get part omitted
]

module _ {Rp : Type 0} (tree : Arena (ApiBranch Rp) Str) where
  -- The suffixes of the apis at a place.
  unfoldable pub suffixes_at : ℕ → List Suffix
  unfolding flat_suffixes
  suffixes_at place = elim (get_elem? tree place) [
    | none ↦ []
    | some node ↦ flat_suffixes node.element.apis
  ]

  -- The loop of `find_consider_suffix` over the boundaries from the right to the left: the first
  -- front part that is a child decides.
  unfoldable pub find_at_boundary : Children → Children → List (Str × Str) → Option (ℕ × Str)
  unfolding get_child suffixes_at find str_eq
  find_at_boundary children omitted [] = none
  find_at_boundary children omitted ((front, behind) ∷ more) =
      elim (get_child children omitted front) [
        | none ↦ find_at_boundary children omitted more
        | some place ↦ elim (find (λ s. str_eq behind s.text) (suffixes_at place)) [
          | none ↦ none
          | some suffix ↦ some (place, suffix.text)
        ]
      ]

  unfoldable pub find_consider_suffix : ℕ → Str → Bool → Children → Children → Option (ℕ × Str)
  unfolding find_at_boundary rsplits
  find_consider_suffix boundary part is_last_part children omitted =
      elim (get_child children omitted part) [
        | some place ↦ some (place, [])
        | none ↦
            if is_last_part then find_at_boundary children omitted (rsplits boundary part) else none
      ]

-- What the search has gathered when it comes to an end.
pub record Gathered : Type 0 where
  pub args : PathParams
  pub suffix : Str

pub data Step : Type 0 where
  found : ℕ → Gathered → Step
  queued : List (ℕ × ℕ) → Gathered → Step
  out_of_bounds : Step
  unreadable : Step

module _ (boundary : ℕ) (parts : List Str) where
  -- `suffix_extractor`: the parts with the suffix cut off the last one, and the suffix.
  unfoldable pub extract_suffix : {Rp : Type 0} → List (Api Rp) → Gathered → List Str × Gathered
  unfolding flat_suffixes set_extend find ends_with drop_end set_last
  extract_suffix apis seen = elim (last_of parts) [
    | none ↦ (parts, seen)
    | some part ↦
        elim (find (λ s. ends_with part (boundary ∷ s.text)) (set_extend [] (flat_suffixes apis))) [
          | none ↦ (parts, seen)
          | some s ↦ (
            set_last parts (drop_end (suc (length s.text)) part),
            record seen { suffix = s.text },
          )
        ]
  ]

  -- The parameter that an end variable takes, by the `match` on its type: `none` is the arm that
  -- goes on with the next variable.
  unfoldable pub bind_end : {Rp : Type 0} → ApiBranch Rp → ℕ → Gathered → Option Gathered
  unfolding extract_suffix map_insert
  bind_end branch i seen =
      let overflowed = leb (length parts) i in
      let is_last = suc i == length parts in
      let (cut, kept) = extract_suffix branch.apis seen in
      let add = λ (g : Gathered) (name : Str) (value : PathParam).
        some (record g { args = map_insert name value g.args }) in
      elim branch.var_type [
        | VarType.optional name ↦
            if overflowed
            then add seen name (option none)
            else if is_last
            then elim (part_at cut i) [ none ↦ none | some p ↦ add kept name (option (some p)) ]
            else none
        | VarType.required name ↦
            if is_last
            then elim (part_at cut i) [ none ↦ none | some p ↦ add kept name (required p) ]
            else none
        | VarType.emptable_vector name ↦
            if overflowed then add seen name (vector []) else add kept name (vector (drop i cut))
        | VarType.vector name ↦ if overflowed then none else add kept name (vector (drop i cut))
        | VarType.not_var ↦ none
      ]

  module _ {Rp : Type 0} (tree : Arena (ApiBranch Rp) Str) where
    -- The `for` loop over the variables below a branch. A middle variable takes its part at once
    -- and is queued; the first end variable that takes the rest ends the search.
    unfoldable pub try_vars : ℕ → List ℕ → List (ℕ × ℕ) → Gathered → Step
    unfolding bind_end map_insert
    try_vars i [] queue seen = queued queue seen
    try_vars i (place ∷ places) queue seen = elim (get_elem? tree place) [
      | none ↦ unreadable
      | some node ↦ elim node.element.is_mid_var [
        | false ↦ elim (bind_end node.element i seen) [
          | some bound ↦ found place bound
          | none ↦ try_vars i places queue seen
        ]
        | true ↦ elim node.element.var_type [
          | VarType.required name ↦ elim (part_at parts i) [
            | none ↦ out_of_bounds
            | some part ↦
                try_vars i places (queue ++ (place, suc i) ∷ [])
                  (record seen { args = map_insert name (required part) seen.args })
          ]
          | _ ↦ try_vars i places queue seen
        ]
      ]
    ]

    -- One round of the `while` loop at a branch that is no target: a child for the part goes first,
    -- and only where there is none the variables are tried.
    unfoldable pub advance : ATree (ApiBranch Rp) Str → ℕ → Gathered → Step
    unfolding find_consider_suffix try_vars
    advance node i seen = elim (part_at parts i) [
      | none ↦ try_vars i node.element.var_children [] seen
      | some part ↦
          elim (find_consider_suffix tree boundary part (suc i == length parts) node.children
            node.element.omitted_passed_children) [
              | some (child, suffix) ↦
                  queued ((child, suc i) ∷ []) (record seen { suffix = suffix })
              | none ↦ try_vars i node.element.var_children [] seen
            ]
    ]

    -- The `while` loop over the stack, its top first, to the branch that is the target.
    unfoldable pub search : ℕ → List (ℕ × ℕ) → Gathered → Outcome (Option (ℕ × Gathered))
    unfolding advance
    search zero stack seen = out_of_fuel
    search (suc fuel) [] seen = ok none
    search (suc fuel) ((place, i) ∷ stack) seen = elim (get_elem? tree place) [
      | none ↦ ok none
      | some node ↦ elim (leb (length parts) i && not (is_empty node.element.apis)) [
        | true ↦ ok (some (place, seen))
        | false ↦ elim (advance node i seen) [
          | found target bound ↦ ok (some (target, bound))
          | queued queue bound ↦ search fuel (queue ++ stack) bound
          | out_of_bounds ↦ panics
          | unreadable ↦ ok none
        ]
      ]
    ]

-- The most variables below one branch.
unfoldable pub widest : {Rp : Type 0} → Arena (ApiBranch Rp) Str → ℕ
widest [] = 0
widest (node ∷ nodes) = max (length node.element.var_children) (widest nodes)

-- Every round takes a branch off the stack and puts at most `widest + 1` one part further on, so
-- this is more than the rounds (`Search.Total`).
unfoldable pub search_fuel : {Rp : Type 0} → Arena (ApiBranch Rp) Str → List Str → ℕ
unfolding widest
search_fuel tree parts = suc ((widest tree + 2) ^ suc (length parts))

-- `match_var_path`: the path of the target, the arguments, and the suffix.
unfoldable pub match_var_path :
    {Rp : Type 0}
    → (separator boundary : ℕ) → Arena (ApiBranch Rp) Str
    → Str
    → Outcome (Option (Str × PathParams × Str))
unfolding split search search_fuel
match_var_path separator boundary tree path =
    let parts = split separator path in
    search boundary parts tree (search_fuel tree parts) ((0, 0) ∷ [])
      (record { args = []; suffix = [] })
    >>= λ r. elim r [
      | none ↦ ok none
      | some (target, seen) ↦ elim (get_elem? tree target) [
        | none ↦ ok none
        | some node ↦ ok (some (node.element.path, seen.args, seen.suffix))
      ]
    ]
