-- ===== src/Router/Search/Leads.antt =====
-- How the parts of a path lead through the tree, and the lists of parts that are left.
use dce_rust.Base.{
  ℕ, zero, suc, ◌+◌, ◌<◌, ◌≤◌, ◌≡◌, refl, true, false, none, some, List, [], ◌∷◌, ◌++◌, arith,
  length, drop, is_empty, All, Memᴰ, list_eq, nat_eq,
}
use dce_rust.Text.{Str}
use dce_rust.Maps.{map_insert}
use dce_rust.Tree.{ATree, Arena}
use dce_rust.Tree.Shape.{At}
use dce_rust.Request.{required}
use dce_rust.Router.Branch.{ApiBranch, VarType}
use dce_rust.Router.Search.{Gathered, Step, out_of_bounds, part_at, bind_end, try_vars}
use dce_rust.Router.Search.Named.{IsChild, HasNoChild, Offers}

-- An end variable takes the parts that are left: an optional one at most one, a required one just
-- one, a vector one at least, and an emptable vector any number.
abbrev pub Takes : VarType → List Str → Type 0
Takes (VarType.optional _) parts = length parts ≤ 1
Takes (VarType.required _) parts = length parts ≡ 1
Takes (VarType.emptable_vector _) parts = Unit
Takes (VarType.vector _) parts = 1 ≤ length parts
Takes VarType.not_var parts = ⊥

module _ (boundary : ℕ) {Rp : Type 0} (tree : Arena (ApiBranch Rp) Str) where
  -- The parts lead from one place of the tree to another: to a branch with apis when no part is
  -- left, into the child of which the part is the name, into the child of which the last part is the name
  -- but for a suffix of an api of that child, if there is none of the whole part, through a
  -- required variable in the middle, or to an end variable that takes all the rest.
  pub data Leads : ℕ → List Str → ℕ → Type 0 where
    arrived :
        {place : ℕ} (node : ATree (ApiBranch Rp) Str)
        → At tree place node
        → is_empty node.element.apis ≡ false
        → Leads place [] place
    named :
        {place target : ℕ} {part : Str} {rest : List Str} (node : ATree (ApiBranch Rp) Str)
        (child : ℕ)
        → At tree place node
        → IsChild node.children node.element.omitted_passed_children part child
        → Leads child rest target
        → Leads place (part ∷ rest) target
    suffixed :
        {place target : ℕ} {part : Str} (node : ATree (ApiBranch Rp) Str) (child : ℕ)
        (front suffix : Str)
        → At tree place node
        → HasNoChild node.children node.element.omitted_passed_children part
        → part ≡ front ++ boundary ∷ suffix
        → IsChild node.children node.element.omitted_passed_children front child
        → Offers tree child suffix
        → Leads child [] target
        → Leads place (part ∷ []) target
    middle :
        {place target : ℕ} {part : Str} {rest : List Str} (node below : ATree (ApiBranch Rp) Str)
        (child : ℕ) (name : Str)
        → At tree place node
        → Memᴰ child node.element.var_children
        → At tree child below
        → below.element.is_mid_var ≡ true
        → below.element.var_type ≡ VarType.required name
        → Leads child rest target
        → Leads place (part ∷ rest) target
    ending :
        {place target : ℕ} {parts : List Str} (node below : ATree (ApiBranch Rp) Str)
        → At tree place node
        → Memᴰ target node.element.var_children
        → At tree target below
        → below.element.is_mid_var ≡ false
        → Takes below.element.var_type parts
        → Leads place parts target

pub drop-cons :
    (parts : List Str) (i : ℕ) {p : Str}
    → part_at parts i ≡ some p
    → drop i parts ≡ p ∷ drop (suc i) parts
drop-cons [] i e = cc
drop-cons (q ∷ parts) zero e = ground arith
drop-cons (q ∷ parts) (suc i) e = drop-cons parts i e

pub length-drop :
    (parts : List Str) (i : ℕ) → i ≤ length parts → length (drop i parts) + i ≡ length parts
length-drop parts zero h = omega arith
length-drop [] (suc i) h = absurd (omega arith)
length-drop (p ∷ parts) (suc i) h = omega (arith, length-drop parts i (omega arith))

module _ (boundary : ℕ) (parts : List Str) {Rp : Type 0} where
  -- An end variable that is bound takes the parts from there on.
  pub bind_end-Takes :
      (branch : ApiBranch Rp) (i : ℕ) (seen bound : Gathered)
      → i ≤ length parts
      → bind_end boundary parts branch i seen ≡ some bound
      → (v : VarType) → branch.var_type ≡ v
      → Takes v (drop i parts)
  unfolding bind_end
  bind_end-Takes branch i seen bound le e (VarType.optional n) is =
      omega (arith, length-drop parts i le, optional_end)
    where
      optional_end : length parts ≤ suc i
      optional_end = ground arith
  bind_end-Takes branch i seen bound le e (VarType.required n) is =
      omega (arith, length-drop parts i le, required_end)
    where
      required_end : suc i ≡ length parts
      required_end = ground arith
  bind_end-Takes branch i seen bound le e (VarType.emptable_vector n) is = tt
  bind_end-Takes branch i seen bound le e (VarType.vector n) is =
      omega (arith, length-drop parts i le, vector_end)
    where
      vector_end : i < length parts
      vector_end = ground arith
  bind_end-Takes branch i seen bound le e VarType.not_var is = absurd (ground arith)

pub drop_past : (parts : List Str) (i : ℕ) → length parts ≤ i → drop i parts ≡ []
drop_past [] zero h = refl
drop_past [] (suc i) h = refl
drop_past (p ∷ parts) zero h = absurd (omega arith)
drop_past (p ∷ parts) (suc i) h = drop_past parts i (omega arith)

pub All-self : {A : Type 0} (xs : List A) → All (λ x. Memᴰ x xs) xs
All-self xs = within xs (λ x m. m)
  where
    within :
        {A : Type 0} {ys : List A} (zs : List A)
        → ((x : A) → Memᴰ x zs → Memᴰ x ys)
        → All (λ x. Memᴰ x ys) zs
    within [] f = tt
    within (z ∷ zs) f = (f z (Memᴰ.head refl), within zs (λ x m. f x (Memᴰ.tail m)))

-- What a middle variable does in the loop, by its type.
abbrev pub through_var :
    (boundary : ℕ) (parts : List Str) {Rp : Type 0} (tree : Arena (ApiBranch Rp) Str)
    → ℕ
    → ℕ
    → List ℕ
    → List (ℕ × ℕ)
    → Gathered
    → VarType
    → Step
through_var boundary parts tree i child places queue seen v = elim v [
  | VarType.required name ↦ elim (part_at parts i) [
    | none ↦ out_of_bounds
    | some part ↦
        try_vars boundary parts tree i places (queue ++ (child, suc i) ∷ [])
          (record seen { args = map_insert name (required part) seen.args })
  ]
  | _ ↦ try_vars boundary parts tree i places queue seen
]
