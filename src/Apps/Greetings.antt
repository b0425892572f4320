-- ===== src/Apps/Greetings.antt =====
-- src/src/apis/http.rs: an application over HTTP, with its apis, its interceptor and its controllers.
pub mod Entering
use dce_rust.Base.{
  ℕ, Bool, true, false, Option, none, some, List, [], ◌∷◌, ◌++◌, leb, if◌then◌else◌, list_eq,
  nat_eq,
}
use dce_rust.Text.{Str, text, str_eq, show_nat}
use dce_rust.Maps.{map_get}
use dce_rust.Error.{Outcome, ok, err, panics, out_of_fuel, new_openly, pos, ◌>>=◌}
use dce_rust.Api.{Api, last_part}
use dce_rust.Api
use dce_rust.Request.{Context, PathParams, PathParam, option, put_data}
use dce_rust.Serializer.{Serializer}
use dce_rust.Protocol.{Response}
use dce_rust.Answers.{raw_resp, success, fail, resp}
use dce_rust.Dispatch.{Handled, ◌>>?◌}
use dce_rust.Http.{Hyper, HyperHttpProtocol, MethodProp, one, many, parse_http_method, req_match}
use dce_rust.Router.Registry.{Router, async, push, set_event_handlers}
use dce_rust.Router.Registry
use dce_rust.Router.Build.{closing}

abbrev pub session_path : Str
session_path = text "session/{username?}"

-- "attach the to controller", under the name "hello".
abbrev pub hello_key : Str
hello_key = text "hello"

abbrev pub username : PathParams → Option Str
username params = elim (map_get (text "username") params) [ some (option name) ↦ name | _ ↦ none ]

pub record Greeting : Type 0 where
  pub user : Str
  pub age : ℕ
  pub welcome : Str

pub record GreetingReq : Type 0 where
  pub user : Str
  pub age : ℕ

pub record GreetingResp : Type 0 where
  pub welcome : Str

unfoldable pub from_req : GreetingReq → Greeting
from_req value = record { user = value.user; age = value.age; welcome = [] }

unfoldable pub into_resp : Greeting → GreetingResp
into_resp greeting = record { welcome = greeting.welcome }

abbrev pub Answered : Type 0 → Type 0
Answered Resp = Outcome (Option (Response Resp))

module _ {Rp D : Type 0} where
  -- A session is entered by a user name only; then the handler has something for the controller.
  unfoldable pub intercept : D → Context Rp D → Option (Api Rp) → Handled (Unit {0}) Rp D
  unfolding str_eq put_data map_get
  intercept attached context none = (panics, context)
  intercept attached context (some api) =
      if str_eq api.path session_path
      then (elim (username context.path_params) [
        | some _ ↦ (ok tt, put_data hello_key attached context)
        | none ↦ (err (new_openly (pos 401) (text "need to login")), context)
      ])
      else (ok tt, context)

  unfoldable pub interceptor : D → Context Rp D → Handled (Unit {0}) Rp D
  unfolding intercept
  interceptor attached context = intercept attached context context.api

  -- What the interceptor has left, `unwrap`ped and downcast to a text.
  unfoldable pub attachment : (D → Option Str) → Context Rp D → Outcome Str
  unfolding map_get
  attachment downcast context = elim (map_get hello_key context.data_map) [
    | none ↦ panics
    | some value ↦ elim (downcast value) [ none ↦ panics | some s ↦ ok s ]
  ]

  unfoldable pub is_manager : Context Rp D → Bool
  unfolding str_eq map_get
  is_manager context = elim (username context.path_params) [
    | none ↦ false
    | some name ↦ str_eq name (text "dce")
  ]

  unfoldable pub session :
      {Dto Resp : Type 0} → List (Serializer Dto) → (D → Option Str) → Context Rp D → Answered Resp
  unfolding is_manager attachment success fail
  session serializers downcast context = elim (is_manager context) [
    | true ↦ attachment downcast context >>= λ _. success serializers none
    | false ↦ fail serializers (some (text "invalid manager")) (pos 403)
  ]

  unfoldable pub push_all : List (Api Rp) → Router Rp D → Router Rp D
  unfolding push
  push_all [] router = router
  push_all (api ∷ apis) router = push_all apis (push api router)

module _ {Resp : Type 0} where
  unfoldable pub hello : {Dto : Type 0} → List (Serializer Dto) → Answered Resp
  unfolding success
  hello serializers = success serializers none

  -- From the request that was read.
  unfoldable pub hello_post : List (Serializer GreetingResp) → Outcome GreetingReq → Answered Resp
  unfolding from_req into_resp success fail
  hello_post serializers request = request >>= λ r.
      let body = from_req r in
      let welcome = text "Hello " ++ (body.user ++ text ", welcome") in
      if leb 18 body.age
      then success serializers (some (into_resp (record body { welcome = welcome })))
      else fail serializers
          (some
            (text "Sorry, only service for over " ++ (show_nat 18 ++ text " years old peoples")))
          (pos 0)

  unfoldable pub home : List (Serializer Greeting) → Answered Resp
  unfolding resp
  home serializers =
      resp serializers (record { user = text "Dce"; age = 18; welcome = text "Welcome to Rust" })

module _ {Req Resp Method Value Status : Type 0} (hyper : Hyper Req Resp Method Value Status) where
  -- `var1` to `var6` answer with their parameters, as text for debugging.
  unfoldable pub var : (PathParams → List ℕ) → PathParams → Answered Resp
  unfolding raw_resp
  var shown params = raw_resp (hyper.new_response (shown params))

  -- The apis by the macros over the controllers; those that name no methods have the three default
  -- ones, and no name is given but the last part of the path.
  unfoldable pub api_of :
      ℕ → Option (MethodProp Method) → Str → Bool → Api (HyperHttpProtocol Req Resp)
  unfolding Api.new parse_http_method req_match last_part
  api_of controller method path omission =
      Api.new controller
        (elim (parse_http_method hyper method) [
          | none ↦ none
          | some methods ↦ some (req_match hyper methods)
        ])
        path [] omission [] (last_part path) false

  unfoldable pub http_apis : Method → List (Api (HyperHttpProtocol Req Resp))
  unfolding api_of
  http_apis post =
      api_of 1 none (text "{var1}") false
      ∷ api_of 2 none (text "{var1}/hello") false
      ∷ api_of 3 none (text "{var1}/var3/{var3?}") false
      ∷ api_of 4 none (text "var4/{var4*}") false
      ∷ api_of 5 none (text "var5/var5/{var5+}") false
      ∷ api_of 6 none (text "var6/var6/{var6}/var6") false
      ∷ api_of 7 none session_path false
      ∷ api_of 8 (some (one hyper.get)) (text "hello") false
      ∷ api_of 9 (some (many (post ∷ hyper.options ∷ []))) (text "hello") false
      ∷ api_of 10 none (text "home") true
      ∷ []

  -- The router that `http_start` makes.
  unfoldable pub http_router :
      {D : Type 0}
      → (List Str → List Str)
      → Method
      → D
      → Outcome (Router (HyperHttpProtocol Req Resp) D)
  unfolding Registry.new set_event_handlers push_all http_apis closing interceptor
  http_router hash_order post attached = Registry.new >>= λ router. closing hash_order (
      push_all (http_apis post)
        (set_event_handlers (some (async (interceptor attached))) none router))
