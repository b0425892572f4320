-- ===== src/Apps/Echo/Routing.antt =====
-- The way of a path through the tree of the echo servers.
use dce_rust.Base.{
  ℕ, ◌≡◌, ◌≢◌, refl, ap, sym, ◌∙◌, arith, true, false, none, some, List, [], ◌∷◌, ◌++◌, reverse,
  list_eq, nat_eq, list_ord, nat_ord, suc, list_cmp_eq_iff, list_cmp, get_elem?, beq_ne, list_beq,
}
use dce_rust.Text.{Str, text, join, split, rsplits, ends_with, starts_with}
use dce_rust.Text.Split.{FreeOf, split-free}
use dce_rust.Maps.{map_get, set_insert, map_insert, btree_get}
use dce_rust.Error.{Outcome, ok, ◌>>=◌}
use dce_rust.Api.{Api}
use dce_rust.Api.Parse.{FreeOf-reverse}
use dce_rust.Request.{option}
use dce_rust.Router.Registry.{omitted_path, suffix_path}
use dce_rust.Router.Locate.{locate, lookup_apis}
use dce_rust.Router.Search.{
  part_at, match_var_path, find_consider_suffix, bind_end, extract_suffix, find_at_boundary,
  get_child, Gathered, found, advance, try_vars, search, search_fuel,
}
use dce_rust.Apps.Echo.{echo_path}
use dce_rust.Apps.Echo.Table.{echo_api, echo_node, param_branch, tree, table}

rsplits-free : (c : ℕ) (s : Str) → FreeOf c s → rsplits c s ≡ []
unfolding rsplits
rsplits-free c [] h = refl
rsplits-free c (d ∷ s) (n, h) = ground (arith, rsplits-free c s h)

starts_with-free : (c : ℕ) (s : Str) → FreeOf c s → starts_with s (c ∷ []) ≡ false
unfolding starts_with
starts_with-free c [] h = refl
starts_with-free c (d ∷ s) (n, h) = ground arith

ends_with-free : (c : ℕ) (s : Str) → FreeOf c s → ends_with s (c ∷ []) ≡ false
unfolding ends_with
ends_with-free c s h = starts_with-free c (reverse s) (FreeOf-reverse c s h)

abbrev start : Gathered
start = record { args = []; suffix = [] }

abbrev given : Str → Gathered
given part = record { args = (text "param", option (some part)) ∷ []; suffix = [] }

-- A part that is no name of a child, and has no dot, is for the variable.
module _ (part : Str) (slashless : FreeOf b'/' part) (dotless : FreeOf b'.' part)
    (other : part ≢ text "{param?}") where
  no_child : get_child ((text "{param?}", 3) ∷ []) [] part ≡ none
  unfolding get_child btree_get
  no_child = ground (arith, list_cmp_eq_iff part (text "{param?}"))

  no_match :
      (Rp : Type 0)
      → find_consider_suffix {Rp = Rp} tree b'.' part true ((text "{param?}", 3) ∷ []) [] ≡ none
  unfolding find_consider_suffix find_at_boundary
  no_match Rp = rw (no_child, find_consider_suffix, rsplits-free b'.' part dotless) refl

  extracted :
      (Rp : Type 0)
      → extract_suffix b'.' (text "echo" ∷ part ∷ []) (echo_api {Rp = Rp} ∷ []) start
        ≡ (text "echo" ∷ part ∷ [], start)
  unfolding extract_suffix set_insert
  extracted Rp = rw (ends_with-free b'.' part dotless, extract_suffix) refl

  bound :
      (Rp : Type 0)
      → bind_end b'.' (text "echo" ∷ part ∷ []) (param_branch {Rp = Rp}) 1 start ≡ some (given part)
  unfolding bind_end
  bound Rp =
      ap
        (λ (x : List Str × Gathered). elim (part_at x.0 1) [
          | none ↦ none
          | some p ↦
              some (record x.1 { args = map_insert (text "param") (option (some p)) x.1.args })
        ])
        (extracted Rp)

  advanced :
      (Rp : Type 0)
      → advance b'.' (text "echo" ∷ part ∷ []) tree (echo_node {Rp = Rp}) 1 start
        ≡ found 3 (given part)
  unfolding advance try_vars
  advanced Rp = rw (no_match Rp, advance) (rw (bound Rp, try_vars) refl)

  searched :
      (Rp : Type 0) (fuel : ℕ)
      → search b'.' (text "echo" ∷ part ∷ []) (tree {Rp = Rp}) (suc (suc fuel)) ((0, 0) ∷ []) start
        ≡ ok (some (3, given part))
  unfolding search advance find_consider_suffix list_cmp
  searched Rp fuel = rw (advanced Rp, search) refl

  cut : split b'/' (text "echo/" ++ part) ≡ text "echo" ∷ part ∷ []
  unfolding split
  cut = rw (split-free b'/' part slashless, split) refl

  matched :
      (Rp : Type 0)
      → match_var_path b'/' b'.' (tree {Rp = Rp}) (text "echo/" ++ part)
        ≡ ok (some (echo_path, (text "param", option (some part)) ∷ [], []))
  unfolding match_var_path search_fuel
  matched Rp =
      ap
        (λ parts.
          search b'.' parts (tree {Rp = Rp}) (search_fuel (tree {Rp = Rp}) parts) ((0, 0) ∷ [])
            start
          >>= λ r. elim r [
            | none ↦ ok none
            | some (target, seen) ↦ elim (get_elem? (tree {Rp = Rp}) target) [
              | none ↦ ok none
              | some node ↦ ok (some (node.element.path, seen.args, seen.suffix))
            ]
          ])
        cut
      ∙ rw (searched Rp 26) refl

  not_key :
      (Rp D : Type 0) → map_get (text "echo/" ++ part) (table {Rp = Rp} {D = D}).apis_mapping ≡ none
  unfolding map_get list_beq
  not_key Rp D = rw (beq_ne (text "{param?}") part (λ e. other (sym e)), map_get) refl

  looked :
      (Rp D : Type 0)
      → lookup_apis (table {Rp = Rp} {D = D}) (text "echo/" ++ part) [] none
        ≡ ok (some (echo_api ∷ []), (text "param", option (some part)) ∷ [], some [])
  unfolding lookup_apis omitted_path suffix_path split join
  looked Rp D = rw (not_key Rp D, lookup_apis) (rw (matched Rp) refl)

  -- The path is no key of the map, so that it is matched, and the api of its pattern is found.
  pub located :
      (Rp D : Type 0) (finder : List (Api Rp) → Outcome (Api Rp))
      → finder (echo_api ∷ []) ≡ ok echo_api
      → locate (table {Rp = Rp} {D = D}) finder 1 (text "echo/" ++ part)
        ≡ ok (echo_api, (text "param", option (some part)) ∷ [], some [])
  unfolding locate
  located Rp D finder chosen = rw (looked Rp D, locate) (rw chosen refl)
