-- ===== src/Request.antt =====
-- crates/router/src/request.rs: path parameters and the context of a request.
use dce_rust.Base.{ℕ, Option, none, some, List, [], ◌∷◌, ◌++◌, find, list_eq, nat_eq}
use dce_rust.Text.{Str, text, ends_with}
use dce_rust.Maps.{map_get, map_insert}
use dce_rust.Error.{Outcome, ok, err, panics, openly0, closed0_wrap, ◌>>=◌}
use dce_rust.Api.{Api}
use dce_rust.Api.Suffixes.{Suffix}

pub data PathParam : Type 0 where
  option : Option Str → PathParam
  required : Str → PathParam
  vector : List Str → PathParam

unfoldable pub as_str : PathParam → Outcome (Option Str)
as_str (option param) = ok param
as_str (required param) = ok (some param)
as_str (vector params) = panics

unfoldable pub as_vec : PathParam → Outcome (List Str)
as_vec (vector params) = ok params
as_vec _ = panics

abbrev pub PathParams : Type 0
PathParams = List (Str × PathParam)

-- `D` stands for the values of any type that `data` holds. The router that the source keeps here
-- never changes, and is an argument of the functions that read it.
pub record Context (Rp D : Type 0) : Type 0 where
  pub api : Option (Api Rp)
  pub rp : Option Rp
  pub path_params : PathParams
  pub suffix : Option Str
  pub data_map : List (Str × D)

-- The first suffix of the api, if any, that the request's path ends with.
unfoldable pub find_suffix : ℕ → Str → List Suffix → Option Suffix
unfolding find ends_with
find_suffix boundary path suffixes = find (λ s. ends_with path (boundary ∷ s.text)) suffixes

module _ {Rp D : Type 0} where
  unfoldable pub new : Rp → List (Str × D) → Context Rp D
  new rp data_map = record {
    api = none;
    rp = some rp;
    path_params = [];
    suffix = none;
    data_map = data_map;
  }

  -- `rp` and `rp_mut`: `expect` on what may have been taken.
  unfoldable pub borrow_rp : Context Rp D → Outcome Rp
  borrow_rp context = elim context.rp [ none ↦ panics | some rp ↦ ok rp ]

  unfoldable pub take_rp : Context Rp D → Context Rp D × Option Rp
  take_rp context = (record context { rp = none }, context.rp)

  unfoldable pub param : Context Rp D → Str → Outcome PathParam
  unfolding map_get
  param context key = elim (map_get key context.path_params) [
    | none ↦ err (openly0 (text "no param passed with name '" ++ key ++ text "'"))
    | some found ↦ ok found
  ]

  unfoldable pub put_data : Str → D → Context Rp D → Context Rp D
  unfolding map_insert
  put_data key value context = record context { data_map = map_insert key value context.data_map }

  -- `get_as` and `get_as_mut`; `downcast` is the one of `dyn Any`, and `type_name` names its type.
  unfoldable pub get_as {ℓ} : {S : Type ℓ} → (D → Option S) → Str → Context Rp D → Str → Outcome S
  unfolding map_get
  get_as downcast type_name context key = elim (map_get key context.data_map) [
    | none ↦ closed0_wrap (type_name ++ text " has not bound yet")
    | some value ↦ elim (downcast value) [
      | none ↦ closed0_wrap (text "Box cannot downcast to " ++ type_name ++ text " ref")
      | some found ↦ ok found
    ]
  ]

  unfoldable pub set_routed_info : Api Rp → PathParams → Option Str → Context Rp D → Context Rp D
  set_routed_info api params suffix context = record context {
    api = some api;
    path_params = params;
    suffix = suffix;
  }

  -- `suffix`: what routing found, else what the path ends with, which is kept. `path` is the one
  -- of the protocol, and `boundary` the one of the router.
  unfoldable pub suffix : (Rp → Str) → ℕ → Context Rp D → Outcome (Context Rp D × Str)
  unfolding find_suffix borrow_rp
  suffix path boundary context = elim context.suffix [
    | some found ↦ ok (context, found)
    | none ↦ elim context.api [
      | none ↦ ok (record context { suffix = some [] }, [])
      | some api ↦ elim api.suffixes [
        | [] ↦ ok (record context { suffix = some [] }, [])
        | s ∷ more ↦ borrow_rp context >>= λ rp. elim (find_suffix boundary (path rp) (s ∷ more)) [
          | none ↦ ok (record context { suffix = some [] }, [])
          | some found ↦ ok (record context { suffix = some found.text }, found.text)
        ]
      ]
    ]
  ]
