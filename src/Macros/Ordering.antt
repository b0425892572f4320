-- ===== src/Macros/Ordering.antt =====
-- Arguments of a macro by their order and by their names.
use dce_rust.Base.{
  ℕ, suc, ◌+◌, ◌≤◌, ◌≡◌, refl, ap, sym, ◌∙◌, none, some, List, [], ◌∷◌, map, arith, length,
  get_elem?, list_beq,
}
use dce_rust.Text.{Str, text, str_eq}
use dce_rust.Macros.{
  ApiProp, from_name, ordered_props, Arg, assign, positional, MacroApi, Expansion, expanded, thrown,
  panicked, set_by_key, then_parse, parse_from, parse, empty_api,
}

-- The names of the properties in the order that they have without a name.
abbrev pub ordered_names : List Str
ordered_names =
    text "path"
    ∷ text "serializer"
    ∷ text "deserializer"
    ∷ text "id"
    ∷ text "omission"
    ∷ text "redirect"
    ∷ text "name"
    ∷ text "unresponsive"
    ∷ []

-- A name for each of some expressions.
abbrev pub by_name : {E : Type 0} → List Str → List E → List (Arg E)
by_name (k ∷ names) (e ∷ es) = assign k e ∷ by_name names es
by_name _ _ = []

module _ {E : Type 0} where
  then_parse-eq :
      (m : Expansion (MacroApi E)) (f g : MacroApi E → Expansion (MacroApi E))
      → ((api : MacroApi E) → f api ≡ g api)
      → then_parse m f ≡ then_parse m g
  then_parse-eq (expanded api) f g h = h api
  then_parse-eq (thrown r) f g h = refl
  then_parse-eq panicked f g h = refl

  take_positional :
      (i : ℕ) (e : E) (args : List (Arg E)) (api : MacroApi E) (key : ApiProp)
      → get_elem? ordered_props i ≡ some key
      → parse_from i (positional e ∷ args) api
        ≡ then_parse (set_by_key key e api) (λ next. parse_from (suc i) args next)
  unfolding parse_from
  take_positional i e args api key here =
      ap
        (λ o. elim o as (λ _. Expansion (MacroApi E)) [
          | none ↦ panicked
          | some k ↦ then_parse (set_by_key k e api) (λ next. parse_from (suc i) args next)
        ])
        here

  -- The same steps, where the names from an index on stand for the properties from it on.
  parse_from-names :
      (es : List E) (names : List Str) (i j : ℕ) (api : MacroApi E)
      → length es ≤ length names
      → ((n : ℕ) → get_elem? ordered_props (i + n) ≡ get_elem? (map from_name names) n)
      → parse_from i (map positional es) api ≡ parse_from j (by_name names es) api
  unfolding parse_from
  parse_from-names [] [] i j api h same = refl
  parse_from-names [] (k ∷ names) i j api h same = refl
  parse_from-names (e ∷ es) [] i j api h same = absurd (omega arith)
  parse_from-names (e ∷ es) (k ∷ names) i j api h same =
      let whole : i + 0 ≡ i = omega arith in
      let here : get_elem? ordered_props i ≡ some (from_name k) =
        ap (get_elem? ordered_props) (sym whole) ∙ same 0 in
      take_positional i e (map positional es) api (from_name k) here
      ∙ then_parse-eq (set_by_key (from_name k) e api) _ _ (λ next.
        parse_from-names es names (suc i) j next (omega arith) (λ n.
          let shifted : suc i + n ≡ i + suc n = omega arith in
          ap (get_elem? ordered_props) shifted ∙ same (suc n)))

-- The first arguments of a macro mean the same without their names, in the order of the properties,
-- as with them.
pub parse-names :
    {E : Type 0} (es : List E)
    → length es ≤ 8
    → parse (map positional es) ≡ parse (by_name ordered_names es)
unfolding parse from_name str_eq list_beq
parse-names es h =
    parse_from-names es ordered_names 0 0 empty_api h
      (λ n. let whole : 0 + n ≡ n = omega arith in ap (get_elem? ordered_props) whole)
