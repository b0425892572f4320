-- ===== src/Macros/Tests.antt =====
-- Arguments of macros whose expressions are their texts.
use dce_rust.Base.{
  ◌≡◌, refl, false, none, some, [], ◌∷◌, ◌++◌, map, arith, ◌⊎◌, list_beq, if◌then◌else◌,
}
use dce_rust.Text.{Str, text, str_eq, join, trim_matches}
use dce_rust.Macros.{
  assign, positional, MacroApi, Exprs, thrown, panicked, set_twice, path, parse, parse_from,
  empty_api, fill, from_name, parse_error, other_arg, str_lit, set_by_key,
}
use dce_rust.Macros.Ordering.{ordered_names, by_name, parse-names}
use dce_rust.Macros.Naming.{IsLastPart, fill-IsLastPart}

abbrev exprs : Exprs Str
exprs = record {
  lit_str = λ s. b'"' ∷ s ++ b'"' ∷ [];
  lit_bool = λ b. if b then text "true" else text "false";
  tokens = λ e. e;
  is_vec = λ e. false;
  array_elems = λ e. none;
  vec_of = λ es. text "vec![" ++ (join b',' es ++ text "]");
  boxed = λ e. text "Box::new(" ++ (e ++ text ")");
}

parse-names_example :
    parse (map positional (text "\"a/b\"" ∷ text "S" ∷ []))
    ≡ parse (by_name ordered_names (text "\"a/b\"" ∷ text "S" ∷ []))
parse-names_example = parse-names (text "\"a/b\"" ∷ text "S" ∷ []) (omega arith)

abbrev bare : MacroApi Str
bare = empty_api

fill-IsLastPart_example :
    ((part : Str) × ((fill exprs (text "f") bare).name_arg ≡ exprs.lit_str part)
      × IsLastPart (trim_matches b'"' (exprs.tokens (fill exprs (text "f") bare).path_arg)) part)
    × (((given : Str) × (bare.path_expr ≡ some given)
          × ((fill exprs (text "f") bare).path_arg ≡ given))
        ⊎ ((bare.path_expr ≡ none)
            × ((fill exprs (text "f") bare).name_arg ≡ exprs.lit_str (text "f"))))
fill-IsLastPart_example =
    fill-IsLastPart exprs (text "f") bare refl (omega arith, tt) (omega arith, tt) refl

-- A path that is given by its place and by its name.
given_twice :
    parse (positional (text "\"a\"") ∷ assign (text "path") (text "\"b\"") ∷ [])
    ≡ thrown (set_twice path)
unfolding parse parse_from set_by_key from_name str_eq list_beq
given_twice = refl

-- A negative code is no literal.
negative_code : parse_error (text "0") (other_arg (text "-1") ∷ str_lit (text "x") ∷ []) ≡ panicked
unfolding parse_error
negative_code = refl
