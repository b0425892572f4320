-- ===== src/Apps/RouteTests.antt =====
-- The apis of src/src/apis/http.rs, found by the paths that its comments give.
use dce_rust.Base.{ℕ, ◌≡◌, refl, false, none, some, List, [], ◌∷◌}
use dce_rust.Text.{Str, text, rsplit_once, split_once, trim_matches, join}
use dce_rust.Maps.{set_insert}
use dce_rust.Error.{Outcome, ok, panics, ◌>>=◌}
use dce_rust.Tree
use dce_rust.Api.{Api}
use dce_rust.Api.Suffixes.{suffix_cmp}
use dce_rust.Request.{option, required, vector, PathParams}
use dce_rust.Router.Branch.{child_of}
use dce_rust.Router.Locate.{locate}
use dce_rust.Http.{HyperHttpProtocol}
use dce_rust.Http.Sample.{Resp, hyper}
use dce_rust.Apps.Greetings.{http_router}

abbrev first : List (Api (HyperHttpProtocol Str Resp)) → Outcome (Api (HyperHttpProtocol Str Resp))
first [] = panics
first (a ∷ apis) = ok a

-- The controller that answers, and the arguments in the path.
abbrev asked : Str → Outcome (ℕ × PathParams)
asked path = http_router hyper {D = Str} (λ paths. paths) false [] >>= λ router.
    locate router first 3 path >>= λ l. ok (l.0.controller, l.1)

system : Unit {0}
unfolding http_router locate suffix_cmp rsplit_once split_once trim_matches child_of join
    Tree.parent set_insert
system = tt

var1_test : asked (text "var1") ≡ ok (1, (text "var1", required (text "var1")) ∷ [])
unfolding system
var1_test = refl

var5_test :
    asked (text "var5/var5/a/b") ≡ ok (5, (text "var5", vector (text "a" ∷ text "b" ∷ [])) ∷ [])
unfolding system
var5_test = refl

session_test :
    asked (text "session/dce") ≡ ok (7, (text "username", option (some (text "dce"))) ∷ [])
unfolding system
session_test = refl

no_session_test : asked (text "session") ≡ ok (7, (text "username", option none) ∷ [])
unfolding system
no_session_test = refl

home_test : asked [] ≡ ok (10, [])
unfolding system
home_test = refl
