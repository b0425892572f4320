-- ===== src/Macros.antt =====
-- crates/macro/src/router.rs and funcs.rs: what the macros read from their arguments. An argument is an
-- expression that syn has parsed, from a list that commas separate; the expressions themselves are a
-- parameter, with what the macros ask of them and build.
pub mod Naming
pub mod Ordering
mod Tests
use dce_rust.Base.{
  ℕ, zero, suc, Bool, true, false, Option, none, some, List, [], ◌∷◌, ◌++◌, map, if◌then◌else◌,
  list_eq, nat_eq, get_elem?,
}
use dce_rust.Text.{Str, text, str_eq, rsplit_once, trim_matches}
use dce_rust.Maps.{map_get, map_insert}

-- `Prop` and its conversion from a name.
pub data ApiProp : Type 0 where
  id : ApiProp
  path : ApiProp
  serializer : ApiProp
  deserializer : ApiProp
  redirect : ApiProp
  omission : ApiProp
  name : ApiProp
  unresponsive : ApiProp
  extra : Str → ApiProp

unfoldable pub from_name : Str → ApiProp
unfolding str_eq
from_name value =
    if str_eq value (text "id")
    then id
    else if str_eq value (text "path")
    then path
    else if str_eq value (text "serializer")
    then serializer
    else if str_eq value (text "deserializer")
    then deserializer
    else if str_eq value (text "redirect")
    then redirect
    else if str_eq value (text "omission")
    then omission
    else if str_eq value (text "name")
    then name
    else if str_eq value (text "unresponsive")
    then unresponsive
    else extra value

abbrev pub ordered_props : List ApiProp
ordered_props =
    path ∷ serializer ∷ deserializer ∷ id ∷ omission ∷ redirect ∷ name ∷ unresponsive ∷ []

-- What a macro comes to: `throw!` is an error of the compiler's, the rest a panic of the macro.
pub data Refusal : Type 0 where
  set_twice : ApiProp → Refusal
  invalid_name : Refusal

pub data Expansion (A : Type 0) : Type 0 where
  expanded : A → Expansion A
  thrown : Refusal → Expansion A
  panicked : Expansion A

-- An argument: `name = e`, an assignment to a path that is no name, one to something else, or `e`.
pub data Arg (E : Type 0) : Type 0 where
  assign : Str → E → Arg E
  assign_path : E → Arg E
  assign_other : E → Arg E
  positional : E → Arg E

pub record MacroApi (E : Type 0) : Type 0 where
  pub id_expr : Option E
  pub path_expr : Option E
  pub serializers : Option E
  pub deserializers : Option E
  pub omission_expr : Option E
  pub redirect_expr : Option E
  pub name_expr : Option E
  pub unresponsive_expr : Option E
  pub extras : List (Str × E)

module _ {E : Type 0} where
  abbrev pub field : ApiProp → MacroApi E → Option E
  field id api = api.id_expr
  field path api = api.path_expr
  field serializer api = api.serializers
  field deserializer api = api.deserializers
  field redirect api = api.redirect_expr
  field omission api = api.omission_expr
  field name api = api.name_expr
  field unresponsive api = api.unresponsive_expr
  field (extra key) api = map_get key api.extras

  abbrev pub put : ApiProp → E → MacroApi E → MacroApi E
  put id e api = record api { id_expr = some e }
  put path e api = record api { path_expr = some e }
  put serializer e api = record api { serializers = some e }
  put deserializer e api = record api { deserializers = some e }
  put redirect e api = record api { redirect_expr = some e }
  put omission e api = record api { omission_expr = some e }
  put name e api = record api { name_expr = some e }
  put unresponsive e api = record api { unresponsive_expr = some e }
  put (extra key) e api = record api { extras = map_insert key e api.extras }

  -- A property is set once only.
  unfoldable pub set_by_key : ApiProp → E → MacroApi E → Expansion (MacroApi E)
  set_by_key key e api = elim (field key api) [
    | none ↦ expanded (put key e api)
    | some _ ↦ thrown (set_twice key)
  ]

  abbrev pub then_parse :
      Expansion (MacroApi E) → (MacroApi E → Expansion (MacroApi E)) → Expansion (MacroApi E)
  then_parse (expanded api) k = k api
  then_parse (thrown r) k = thrown r
  then_parse panicked k = panicked

  -- The loop of `parse`, with the index of the next argument without a name.
  unfoldable pub parse_from : ℕ → List (Arg E) → MacroApi E → Expansion (MacroApi E)
  unfolding set_by_key from_name
  parse_from prop_index [] api = expanded api
  parse_from prop_index (assign key e ∷ args) api =
      then_parse (set_by_key (from_name key) e api) (λ next. parse_from prop_index args next)
  parse_from prop_index (assign_path e ∷ args) api = panicked
  parse_from prop_index (assign_other e ∷ args) api = thrown invalid_name
  parse_from prop_index (positional e ∷ args) api = elim (get_elem? ordered_props prop_index) [
    | none ↦ panicked
    | some key ↦ then_parse (set_by_key key e api) (λ next. parse_from (suc prop_index) args next)
  ]

  abbrev pub empty_api : MacroApi E
  empty_api = record {
    id_expr = none;
    path_expr = none;
    serializers = none;
    deserializers = none;
    omission_expr = none;
    redirect_expr = none;
    name_expr = none;
    unresponsive_expr = none;
    extras = [];
  }

  unfoldable pub parse : List (Arg E) → Expansion (MacroApi E)
  unfolding parse_from
  parse args = parse_from 0 args empty_api

-- The expressions of syn, as the macros build and read them: `tokens` is the text of one, `vec_of` a
-- `vec![]` of some, `boxed` a `Box::new` of one, by way of its conversion where it is a struct.
pub record Exprs (E : Type 0) : Type 0 where
  pub lit_str : Str → E
  pub lit_bool : Bool → E
  pub tokens : E → Str
  pub is_vec : E → Bool
  pub array_elems : E → Option (List E)
  pub vec_of : List E → E
  pub boxed : E → E

-- The arguments of `Api::new` that `processing` fills in, but for the controller and the method.
pub record NewArgs (E : Type 0) : Type 0 where
  pub deserializers_arg : E
  pub serializers_arg : E
  pub path_arg : E
  pub id_arg : E
  pub omission_arg : E
  pub redirect_arg : E
  pub name_arg : E
  pub unresponsive_arg : E

-- The last part of the text of a path.
unfoldable pub last_part : Str → Str
unfolding rsplit_once
last_part whole = elim (rsplit_once b'/' whole) [ none ↦ whole | some (_, part) ↦ part ]

module _ {E : Type 0} (exprs : Exprs E) where
  -- `PROCESSOR` of `gen_serializers`.
  unfoldable pub processor : Option E → Option E → E
  processor none default = elim default [ none ↦ exprs.vec_of [] | some v ↦ v ]
  processor (some configured) default =
      if exprs.is_vec configured then configured else elim (exprs.array_elems configured) [
        | some elems ↦ exprs.vec_of (map exprs.boxed elems)
        | none ↦ exprs.vec_of (exprs.boxed configured ∷ [])
      ]

  unfoldable pub gen_serializers : Option E → Option E → E × E
  unfolding processor
  gen_serializers serializers deserializers =
      let configured = processor serializers none in
      (configured, processor deserializers (some configured))

  abbrev pub unwrap_or_lit : Option E → E → E
  unwrap_or_lit none e = e
  unwrap_or_lit (some given) e = given

  -- The part of `processing` that fills in what was not given.
  unfoldable pub fill : Str → MacroApi E → NewArgs E
  unfolding gen_serializers last_part trim_matches
  fill fn_name api =
      let given = unwrap_or_lit api.path_expr (exprs.lit_str fn_name) in
      let (serializers, deserializers) = gen_serializers api.serializers api.deserializers in
      record {
        deserializers_arg = deserializers;
        serializers_arg = serializers;
        path_arg = given;
        id_arg = unwrap_or_lit api.id_expr (exprs.lit_str []);
        omission_arg = unwrap_or_lit api.omission_expr (exprs.lit_bool false);
        redirect_arg = unwrap_or_lit api.redirect_expr (exprs.lit_str []);
        name_arg =
            unwrap_or_lit api.name_expr
              (exprs.lit_str (last_part (trim_matches b'"' (exprs.tokens given))));
        unresponsive_arg = unwrap_or_lit api.unresponsive_expr (exprs.lit_bool false);
      }

-- The arguments of the macros of errors, by what their parser tells apart.
pub data ErrArg (E : Type 0) : Type 0 where
  str_lit : Str → ErrArg E
  int_lit : E → ErrArg E
  path_arg_of : E → ErrArg E
  other_arg : E → ErrArg E

-- `DceError` of funcs.rs.
pub record ErrCall (E : Type 0) : Type 0 where
  pub code_expr : E
  pub formatter : Str
  pub args : List (ErrArg E)

-- Behind a code there is a message, or the macro panics; without a code it is the literal 0.
unfoldable pub with_code : {E : Type 0} → E → List (ErrArg E) → Expansion (ErrCall E)
with_code code (str_lit formatter ∷ args) =
    expanded (record { code_expr = code; formatter = formatter; args = args })
with_code code _ = panicked

unfoldable pub parse_error : {E : Type 0} → E → List (ErrArg E) → Expansion (ErrCall E)
unfolding with_code
parse_error zero_lit (path_arg_of code ∷ args) = with_code code args
parse_error zero_lit (int_lit code ∷ args) = with_code code args
parse_error zero_lit (str_lit formatter ∷ args) =
    expanded (record { code_expr = zero_lit; formatter = formatter; args = args })
parse_error zero_lit _ = panicked
