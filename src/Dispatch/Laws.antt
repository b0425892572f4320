-- ===== src/Dispatch/Laws.antt =====
-- The way of a request through `handle`.
use dce_rust.Base.{ℕ, ◌≡◌, ◌≢◌, ◌⊎◌, refl, Option, none, some, List, Option-cases, inl, inr}
use dce_rust.Text.{Str}
use dce_rust.Error.{ok, err, DceErr, DceError, closed, to_responsible}
use dce_rust.Request
use dce_rust.Request.{Context, set_routed_info}
use dce_rust.Protocol.{
  RoutableProtocol, Response, path, id, api_match, err_into, is_unanswered, handle_result,
}
use dce_rust.Router.Registry.{Router}
use dce_rust.Router.Locate.{locate}
use dce_rust.Dispatch.{Handled, routed_handle, route, answer, handle}

module _ {Rp Req Resp : Type 0} (p : RoutableProtocol Rp Req Resp) where
  -- An answer says nothing of a closed error: any two of them give the same one.
  pub handle_result-closed :
      {D : Type 0} (rp : Rp) (context : Context Rp D) (a b : DceError)
      → handle_result p rp (err (closed a)) context ≡ handle_result p rp (err (closed b)) context
  unfolding handle_result err_into to_responsible
  handle_result-closed rp context a b = refl

  module _ {D : Type 0} (controllers : ℕ → Context Rp D → Handled (Option (Response Resp)) Rp D)
      (router : Router Rp D) where
    -- A request that no api is found for is answered by the error, if it has an id, and not at all
    -- if it has none.
    pub handle-not_found :
        (fuel : ℕ) (rp : Rp) (data_map : List (Str × D)) (e : DceErr)
        → locate router (api_match p rp) fuel (path p rp) ≡ err e
        → ((id p rp ≡ none) × (handle p controllers router fuel rp data_map ≡ ok none))
          ⊎ ((id p rp ≢ none)
              × (handle p controllers router fuel rp data_map ≡ ok (some (err_into p rp e))))
    unfolding handle route routed_handle answer handle_result is_unanswered Request.new
    handle-not_found fuel rp data_map e h = elim (Option-cases (id p rp)) [
      | inl n ↦ inl (n, rw (h, routed_handle) (rw (n, is_unanswered) refl))
      | inr (i, there) ↦ inr ((λ q. cc), rw (h, routed_handle) (rw (there, is_unanswered) refl))
    ]
