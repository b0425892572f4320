-- ===== src/Router/Locate/Redirects.antt =====
-- Following redirects: what is found in the end, and when the loop ends.
use dce_rust.Base.{
  ℕ, zero, suc, ◌<◌, ◌≡◌, ◌≢◌, refl, sym, ap, ◌∙◌, true, false, Option, none, some, List, [], ◌∷◌,
  arith, is_empty, Option-cases, Bool-cases, inl, inr, list_eq, nat_eq,
}
use dce_rust.Text.{Str}
use dce_rust.Maps.{map_get}
use dce_rust.Error.{Outcome, ok, err, panics, out_of_fuel, ◌>>=◌}
use dce_rust.Api.{Api}
use dce_rust.Request.{PathParams}
use dce_rust.Router.Registry.{Router}
use dce_rust.Router.Search.{match_var_path}
use dce_rust.Router.Search.Total.{match_var_path-total}
use dce_rust.Router.Locate.{Located, lookup_apis, find_api, follow, locate}

module _ {Rp D : Type 0} (router : Router Rp D)
    (api_finder : List (Api Rp) → Outcome (Api Rp)) where
  -- The api found for a path, either at once or by way of the paths that it redirects to; the
  -- arguments and the suffix go along.
  pub data Follows : Str → PathParams → Option Str → Located Rp → Type 0 where
    final :
        {path : Str} {args : PathParams} {suffix : Option Str} {l : Located Rp}
        → find_api router api_finder path args suffix ≡ ok l
        → l.0.redirect ≡ []
        → Follows path args suffix l
    redirected :
        {path : Str} {args : PathParams} {suffix : Option Str} (r : Located Rp) {l : Located Rp}
        → find_api router api_finder path args suffix ≡ ok r
        → r.0.redirect ≢ []
        → Follows r.0.redirect r.1 r.2 l
        → Follows path args suffix l

  nil_of_is_empty : (s : Str) → is_empty s ≡ true → s ≡ []
  nil_of_is_empty [] e = refl
  nil_of_is_empty (c ∷ s) e = cc

  ne-nil_of_is_empty : (s : Str) → is_empty s ≡ false → s ≢ []
  ne-nil_of_is_empty [] e = cc
  ne-nil_of_is_empty (c ∷ s) e = cc

  follow-Follows :
      (fuel : ℕ) (path : Str) (args : PathParams) (suffix : Option Str) (l : Located Rp)
      → follow router api_finder fuel path args suffix ≡ ok l
      → Follows path args suffix l
  unfolding follow
  follow-Follows zero path args suffix l e = cc
  follow-Follows (suc fuel) path args suffix l e =
      step (λ r. follow-Follows fuel r.0.redirect r.1 r.2 l)
        (find_api router api_finder path args suffix) refl
    where
      step :
          ((r : Located Rp)
            → follow router api_finder fuel r.0.redirect r.1 r.2 ≡ ok l
            → Follows r.0.redirect r.1 r.2 l)
          → (o : Outcome (Located Rp)) → find_api router api_finder path args suffix ≡ o
          → Follows path args suffix l
      step ih (ok r) q = elim (Bool-cases (is_empty r.0.redirect)) [
        | inl end ↦
            let same : r ≡ l = ground arith in
            final (q ∙ ap ok same)
              (ap (λ (x : Located Rp). x.0.redirect) (sym same) ∙ nil_of_is_empty r.0.redirect end)
        | inr on ↦ redirected r q (ne-nil_of_is_empty r.0.redirect on) (ih r (ground arith))
      ]
      step ih (err x) q = absurd (ground arith)
      step ih panics q = absurd (ground arith)
      step ih out_of_fuel q = absurd (ground arith)

  -- What `locate` returns for a path is the end of the path's redirects, and redirects no further.
  pub locate-Follows :
      (fuel : ℕ) (path : Str) (l : Located Rp)
      → locate router api_finder fuel path ≡ ok l
      → Follows path [] none l × (l.0.redirect ≡ [])
  unfolding locate
  locate-Follows fuel path l e = let f = follow-Follows fuel path [] none l e in (f, end f)
    where
      end :
          {p : Str} {args : PathParams} {suffix : Option Str} {x : Located Rp}
          → Follows p args suffix x
          → x.0.redirect ≡ []
      end (final q r) = r
      end (redirected r q n f) = end f

  lookup_apis-total :
      (path : Str) (args : PathParams) (suffix : Option Str)
      → lookup_apis router path args suffix ≢ out_of_fuel
  unfolding lookup_apis
  lookup_apis-total path args suffix e = elim (Option-cases (map_get path router.apis_mapping)) [
    | inr (apis, there) ↦ ground arith
    | inl absent ↦
        matched
          (match_var_path router.path_part_separator router.suffix_boundary router.apis_tree path)
          refl
  ]
    where
      matched :
          (o : Outcome (Option (Str × PathParams × Str)))
          → match_var_path router.path_part_separator router.suffix_boundary router.apis_tree path
            ≡ o
          → ⊥
      matched (ok none) q = ground arith
      matched (ok (some (p, a, s))) q = ground arith
      matched (err x) q = ground arith
      matched panics q = ground arith
      matched out_of_fuel q =
          match_var_path-total router.path_part_separator router.suffix_boundary router.apis_tree
            path q

  -- The finder of apis comes to an end.
  abbrev pub FinderEnds : Type 0
  FinderEnds = (apis : List (Api Rp)) → api_finder apis ≢ out_of_fuel

  find_api-total :
      FinderEnds
      → (path : Str) (args : PathParams) (suffix : Option Str)
      → find_api router api_finder path args suffix ≢ out_of_fuel
  unfolding find_api
  find_api-total ends path args suffix e = looked (lookup_apis router path args suffix) refl
    where
      finished :
          (apis : List (Api Rp)) (a : PathParams) (s : Option Str)
          → lookup_apis router path args suffix ≡ ok (some apis, a, s)
          → (o : Outcome (Api Rp)) → api_finder apis ≡ o
          → ⊥
      finished apis a s q (ok api) r = ground arith
      finished apis a s q (err x) r = ground arith
      finished apis a s q panics r = ground arith
      finished apis a s q out_of_fuel r = ends apis r

      looked :
          (o : Outcome (Option (List (Api Rp)) × PathParams × Option Str))
          → lookup_apis router path args suffix ≡ o
          → ⊥
      looked (ok (none, a, s)) q = ground arith
      looked (ok (some apis, a, s)) q = finished apis a s q (api_finder apis) refl
      looked (err x) q = ground arith
      looked panics q = ground arith
      looked out_of_fuel q = lookup_apis-total path args suffix q

  -- Every redirect leads to a path of a lower rank.
  abbrev pub IsRanked : (Str → ℕ) → Type 0
  IsRanked rank =
      (path : Str) (args : PathParams) (suffix : Option Str) (r : Located Rp)
      → find_api router api_finder path args suffix ≡ ok r
      → r.0.redirect ≢ []
      → rank r.0.redirect < rank path

  follow-total :
      FinderEnds
      → (rank : Str → ℕ) → IsRanked rank
      → (fuel : ℕ) (path : Str) (args : PathParams) (suffix : Option Str) → rank path < fuel
      → follow router api_finder fuel path args suffix ≢ out_of_fuel
  unfolding follow
  follow-total ends rank ranked zero path args suffix h e = absurd (omega arith)
  follow-total ends rank ranked (suc fuel) path args suffix h e =
      step (λ r. follow-total ends rank ranked fuel r.0.redirect r.1 r.2)
        (find_api router api_finder path args suffix) refl
    where
      step :
          ((r : Located Rp)
            → rank r.0.redirect < fuel
            → follow router api_finder fuel r.0.redirect r.1 r.2 ≢ out_of_fuel)
          → (o : Outcome (Located Rp)) → find_api router api_finder path args suffix ≡ o
          → ⊥
      step ih (ok r) q = elim (Bool-cases (is_empty r.0.redirect)) [
        | inl end ↦ ground arith
        | inr on ↦
            ih r (omega (arith, ranked path args suffix r q (ne-nil_of_is_empty r.0.redirect on)))
              (ground arith)
      ]
      step ih (err x) q = ground arith
      step ih panics q = ground arith
      step ih out_of_fuel q = find_api-total ends path args suffix q

  -- Where every redirect leads to a lower rank, `locate` ends within the rank of the path.
  pub locate-total :
      FinderEnds
      → (rank : Str → ℕ) → IsRanked rank
      → (path : Str) → locate router api_finder (suc (rank path)) path ≢ out_of_fuel
  unfolding locate
  locate-total ends rank ranked path =
      follow-total ends rank ranked (suc (rank path)) path [] none (omega arith)

  -- Each path of the set is found with a redirect to a path of the set.
  abbrev pub IsCycle : (Str → Type 0) → Type 0
  IsCycle Inside =
      (path : Str) (args : PathParams) (suffix : Option Str)
      → Inside path
      → (r : Located Rp) × (find_api router api_finder path args suffix ≡ ok r)
        × (is_empty r.0.redirect ≡ false)
        × Inside r.0.redirect

  follow-cycle :
      (Inside : Str → Type 0)
      → IsCycle Inside
      → (fuel : ℕ) (path : Str) (args : PathParams) (suffix : Option Str) → Inside path
      → follow router api_finder fuel path args suffix ≡ out_of_fuel
  unfolding follow
  follow-cycle Inside c zero path args suffix h = refl
  follow-cycle Inside c (suc fuel) path args suffix h =
      let (r, run, on, inside) = c path args suffix h in
      rw (run, ◌>>=◌) (rw on (follow-cycle Inside c fuel r.0.redirect r.1 r.2 inside))

  -- Redirects that lead round in a set of paths are followed for ever: no number of rounds is
  -- enough for a path of the set.
  pub locate-cycle :
      (Inside : Str → Type 0)
      → IsCycle Inside
      → (fuel : ℕ) (path : Str) → Inside path
      → locate router api_finder fuel path ≡ out_of_fuel
  unfolding locate
  locate-cycle Inside c fuel path h = follow-cycle Inside c fuel path [] none h
