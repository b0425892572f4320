-- ===== src/Router/Tests.antt =====
-- Runs of the router on small tables of apis.
use dce_rust.Base.{
  ℕ, ◌≡◌, refl, Bool, true, false, Option, none, some, List, [], ◌∷◌, list_eq, nat_eq,
}
use dce_rust.Text.{Str, text, rsplit_once, split_once, trim_matches, join}
use dce_rust.Maps.{set_insert}
use dce_rust.Router.Branch.{child_of}
use dce_rust.Error.{Outcome, ok, err, panics, out_of_fuel, ◌>>=◌}
use dce_rust.Tree
use dce_rust.Api
use dce_rust.Api.{Api}
use dce_rust.Api.Suffixes.{suffix_cmp}
use dce_rust.Request.{PathParam, required, vector}
use dce_rust.Router.Registry
use dce_rust.Router.Registry.{Router}
use dce_rust.Router.Build.{closing}
use dce_rust.Router.Locate.{locate, path_not_found}

abbrev Rp : Type 0
Rp = Unit {0}

abbrev api : ℕ → Str → Str → Bool → Api Rp
api n path redirect omission = Api.new n none path [] omission redirect [] false

abbrev register : List (Api Rp) → Router Rp Rp → Router Rp Rp
register [] router = router
register (a ∷ as') router = register as' (Registry.push a router)

abbrev ready : List (Api Rp) → Outcome (Router Rp Rp)
ready apis = Registry.new >>= λ router. closing (λ paths. paths) (register apis router)

abbrev first : List (Api Rp) → Outcome (Api Rp)
first [] = panics
first (a ∷ as') = ok a

abbrev ask : List (Api Rp) → Str → Outcome (ℕ × List (Str × PathParam) × Option Str)
ask apis path =
    ready apis >>= λ router. locate router first 3 path >>= λ l. ok (l.0.controller, l.1, l.2)

abbrev table : List (Api Rp)
table =
    api 1 (text "home") [] false
    ∷ api 2 (text "user/{id}") [] false
    ∷ api 3 (text "user/{id}/posts") [] false
    ∷ api 4 (text "docs/{page*}") [] false
    ∷ api 5 (text "old") (text "home") false
    ∷ api 6 (text "page.html|xml") [] false
    ∷ api 7 (text "v1") [] true
    ∷ api 8 (text "v1/ping") [] false
    ∷ []

system : Unit {0}
unfolding closing locate Registry.new Registry.push Api.new suffix_cmp rsplit_once split_once
    trim_matches child_of join Tree.parent set_insert
system = tt

home_test : ask table (text "home") ≡ ok (1, [], none)
unfolding system
home_test = refl

var_test : ask table (text "user/7") ≡ ok (2, (text "id", required (text "7")) ∷ [], some [])
unfolding system
var_test = refl

mid_test : ask table (text "user/7/posts") ≡ ok (3, (text "id", required (text "7")) ∷ [], some [])
unfolding system
mid_test = refl

vector_test :
    ask table (text "docs/a/b")
    ≡ ok (4, (text "page", vector (text "a" ∷ text "b" ∷ [])) ∷ [], some [])
unfolding system
vector_test = refl

empty_vector_test : ask table (text "docs") ≡ ok (4, (text "page", vector []) ∷ [], some [])
unfolding system
empty_vector_test = refl

redirect_test : ask table (text "old") ≡ ok (1, [], none)
unfolding system
redirect_test = refl

suffix_test :
    (ask table (text "page.xml") ≡ ok (6, [], none))
    × (ask table (text "page") ≡ err (path_not_found (text "page")))
unfolding system
suffix_test = (refl, refl)

omission_test :
    (ask table (text "ping") ≡ ok (8, [], none))
    × (ask table (text "v1/ping") ≡ ok (8, [], some []))
unfolding system
omission_test = (refl, refl)

-- A bare branch above a middle variable has no part to give it.
bare_test : ask (api 1 (text "a/{x}/b") [] false ∷ []) (text "a") ≡ panics
unfolding system
bare_test = refl

cycle_test :
    ask (api 1 (text "a") (text "b") false ∷ api 2 (text "b") (text "a") false ∷ []) (text "a")
    ≡ out_of_fuel
unfolding system
cycle_test = refl
