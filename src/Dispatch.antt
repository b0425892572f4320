-- ===== src/Dispatch.antt =====
-- The way of a request: `handle` of crates/router/src/protocol.rs, `route`, `id_route` and
-- `routed_handle` of crates/router/src/router.rs, and `call_controller` of crates/router/src/api.rs.
-- The controllers are a parameter, by the number that stands for them in an api. A controller and
-- a handler get the context and leave it changed.
pub mod Laws
mod Tests
use dce_rust.Base.{ℕ, Option, none, some, List, []}
use dce_rust.Text.{Str}
use dce_rust.Error.{Outcome, ok, err, panics, out_of_fuel}
use dce_rust.Api.{Api}
use dce_rust.Request
use dce_rust.Request.{Context, borrow_rp, take_rp, set_routed_info}
use dce_rust.Protocol.{RoutableProtocol, Response, set_resp, path, api_match, handle_result}
use dce_rust.Router.Registry.{Router, EventHandler, sync, async}
use dce_rust.Router.Locate.{Located, locate, id_locate}

-- A call on the context, and the `?` after it, which hands an error on with the context as it is.
abbrev pub Handled : Type 0 → Type 0 → Type 0 → Type 0
Handled A Rp D = Outcome A × Context Rp D

infixl 5 ◌>>?◌
abbrev pub ◌>>?◌ :
    {A B Rp D : Type 0} → Handled A Rp D → (A → Context Rp D → Handled B Rp D) → Handled B Rp D
(ok a, context) >>? k = k a context
(err e, context) >>? k = (err e, context)
(panics, context) >>? k = (panics, context)
(out_of_fuel, context) >>? k = (out_of_fuel, context)

module _ {Rp D : Type 0} where
  unfoldable pub run_handler : Option (EventHandler Rp D) → Context Rp D → Handled (Unit {0}) Rp D
  run_handler none context = (ok tt, context)
  run_handler (some (sync func)) context = func context
  run_handler (some (async func)) context = func context

module _ {Rp Req Resp D : Type 0} (p : RoutableProtocol Rp Req Resp)
    (controllers : ℕ → Context Rp D → Handled (Option (Response Resp)) Rp D)
    (router : Router Rp D) where
  -- `*context.rp_mut().resp_mut() = resp`.
  unfoldable pub put_resp : Option (Response Resp) → Context Rp D → Handled (Unit {0}) Rp D
  unfolding set_resp
  put_resp resp context = elim context.rp [
    | none ↦ (panics, context)
    | some rp ↦ (ok tt, record context { rp = some (set_resp p resp rp) })
  ]

  unfoldable pub call_controller : Api Rp → Context Rp D → Handled (Unit {0}) Rp D
  unfolding run_handler put_resp
  call_controller api context = run_handler router.before_controller context >>? (λ _ before.
      controllers api.controller before >>? (λ resp called.
        put_resp resp called >>? (λ _ answered. run_handler router.after_controller answered)))

  unfoldable pub routed_handle : Outcome (Located Rp) → Context Rp D → Handled (Unit {0}) Rp D
  unfolding call_controller set_routed_info
  routed_handle result context =
      (result, context) >>? (λ l _. call_controller l.0 (set_routed_info l.0 l.1 l.2 context))

  -- `route`, on the rounds that `locate` is given.
  unfoldable pub route : ℕ → Context Rp D → Handled (Unit {0}) Rp D
  unfolding routed_handle locate path api_match
  route fuel context = elim context.rp [
    | none ↦ (panics, context)
    | some rp ↦ routed_handle (locate router (api_match p rp) fuel (path p rp)) context
  ]

  unfoldable pub id_route : Context Rp D → Handled (Unit {0}) Rp D
  unfolding routed_handle id_locate path
  id_route context = elim context.rp [
    | none ↦ (panics, context)
    | some rp ↦ routed_handle (id_locate router (path p rp)) context
  ]

  -- `handle`, from what routing has left: no answer where the protocol was taken.
  unfoldable pub answer : Handled (Unit {0}) Rp D → Outcome (Option Resp)
  unfolding handle_result
  answer (panics, context) = panics
  answer (out_of_fuel, context) = out_of_fuel
  answer (result, context) = elim context.rp [
    | none ↦ ok none
    | some rp ↦ handle_result p rp result (record context { rp = none })
  ]

  unfoldable pub handle : ℕ → Rp → List (Str × D) → Outcome (Option Resp)
  unfolding route answer
  handle fuel rp data_map = answer (route fuel (Request.new rp data_map))
