-- ===== src/Router/Branch.antt =====
-- `VarType` and `ApiBranch` of crates/router/src/router.rs: a node of the tree of paths.
use dce_rust.Base.{
  ℕ, Bool, false, ◌&&◌, none, some, List, [], ◌∷◌, ◌==◌, if◌then◌else◌, any, last, is_empty,
}
use dce_rust.Text.{Str, str_eq, rsplit_once, starts_with, ends_with, skip, drop_end, trim, trim_end}
use dce_rust.Error.{Outcome, ok, panics}
use dce_rust.Tree.{KeyFactory}
use dce_rust.Api.{Api, path_part_separator, last_part}

pub data VarType : Type 0 where
  required optional emptable_vector vector : Str → VarType
  not_var : VarType

-- `var_children` and `omitted_passed_children` are places in the arena of the tree.
pub record ApiBranch (Rp : Type 0) : Type 0 where
  pub path : Str
  pub var_type : VarType
  pub is_mid_var : Bool
  pub is_omission : Bool
  pub apis : List (Api Rp)
  pub var_children : List ℕ
  pub omitted_passed_children : List (Str × ℕ)

unfoldable pub key : Str → Str
unfolding last_part trim
key path = trim (last_part path)

unfoldable pub child_of : Str → Str → Bool
child_of path parent = elim (rsplit_once path_part_separator path) [
  | none ↦ is_empty parent
  | some (dir, name) ↦ str_eq dir parent
]

abbrev pub factory : {Rp : Type 0} → KeyFactory (ApiBranch Rp) Str
factory = record {
  key = λ branch. key branch.path;
  child_of = λ branch parent. child_of branch.path parent.path;
}

-- The kind of variable that the text between the braces names.
unfoldable pub var_type_of : Str → VarType
unfolding drop_end trim_end
var_type_of var = elim (last var) [
  | none ↦ required var
  | some c ↦
      if c == b'?'
      then optional (trim_end (drop_end 1 var))
      else if c == b'*'
      then emptable_vector (trim_end (drop_end 1 var))
      else if c == b'+'
      then vector (trim_end (drop_end 1 var))
      else required var
]

unfoldable pub is_var_key : Str → Bool
unfolding starts_with ends_with
is_var_key k = starts_with k (b'{' ∷ []) && ends_with k (b'}' ∷ [])

module _ {Rp : Type 0} where
  unfoldable pub fill_var_type : ApiBranch Rp → Outcome (ApiBranch Rp)
  unfolding key is_var_key var_type_of trim drop_end
  fill_var_type branch =
      let k = key branch.path in
      if is_var_key k
      then (if branch.is_omission
          then panics
          else ok (record branch { var_type = var_type_of (trim (drop_end 1 (skip 1 k))) }))
      else ok branch

  unfoldable pub new : Str → List (Api Rp) → Outcome (ApiBranch Rp)
  unfolding fill_var_type any
  new path apis = fill_var_type (record {
    path = path;
    var_type = not_var;
    is_mid_var = false;
    is_omission = any (λ api. api.omission) apis;
    apis = apis;
    var_children = [];
    omitted_passed_children = [];
  })
