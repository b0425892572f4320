-- ===== src/Apps/Echo/Answering.antt =====
-- What the echo servers answer.
use dce_rust.Base.{ℕ, ◌≡◌, ◌≢◌, refl, ap, ◌∙◌, Option, find, list_beq, some, List, [], ◌∷◌, ◌++◌}
use dce_rust.Text.{Str, text}
use dce_rust.Text.Split.{FreeOf}
use dce_rust.Api.{method_match}
use dce_rust.Error.{Outcome, ok}
use dce_rust.Request
use dce_rust.Request.{PathParams, option, Context}
use dce_rust.Maps.{map_get}
use dce_rust.Serializer.{string}
use dce_rust.Protocol.{
  RoutableProtocol, path, api_match, set_resp, Response, serialized, handle_result, is_unanswered,
}
use dce_rust.Dispatch.{Handled, ◌>>?◌, routed_handle, call_controller, put_resp, answer}
use dce_rust.Router.Locate.{locate}
use dce_rust.Apps.Echo.{echo_text, respond, echo, controllers}
use dce_rust.Apps.Echo.Table.{table, echo_api}
use dce_rust.Apps.Echo.Routing.{located}

abbrev arguments : Str → PathParams
arguments part = (text "param", option (some part)) ∷ []

module _ (D : Type 0) {Rp Req Resp : Type 0} (p : RoutableProtocol Rp Req Resp)
    (from_utf8_lossy : List ℕ → Str) (rp after : Rp) (part body : Str)
    (read : p.body rp ≡ (ok (string body), after)) where
  abbrev routed : Context Rp D
  routed = record (Request.new rp []) {
    api = some echo_api;
    path_params = arguments part;
    suffix = some [];
  }

  abbrev said : Option (Response Resp)
  said = some (serialized (string (echo_text part body)))

  echoed : echo p from_utf8_lossy routed ≡ (ok said, record routed { rp = some after })
  unfolding echo map_get list_beq Request.new
  echoed = rw (read, echo) refl

  called :
      call_controller p (controllers p from_utf8_lossy) table echo_api routed
      ≡ (ok tt, record routed { rp = some (set_resp p said after) })
  unfolding call_controller controllers
  called =
      ap
        (λ r. r >>? (λ resp context.
          put_resp p (controllers p from_utf8_lossy) (table {Rp = Rp} {D = D}) resp context
          >>? (λ _ answered. (ok tt, answered))))
        echoed

  -- A request for `echo` with one part more is answered with the part and the body.
  pub respond-echo :
      FreeOf b'/' part
      → FreeOf b'.' part
      → part ≢ text "{param?}"
      → path p rp ≡ text "echo/" ++ part
      → respond p from_utf8_lossy 1 (table {Rp = Rp} {D = D}) rp
        ≡ ok (some (p.into (set_resp p said after)))
  unfolding respond routed_handle Request.new answer handle_result is_unanswered
  respond-echo slashless dotless other asked =
      let way : locate (table {Rp = Rp} {D = D}) (api_match p rp) 1 (path p rp)
          ≡ ok (echo_api, arguments part, some []) =
        ap (locate (table {Rp = Rp} {D = D}) (api_match p rp) 1) asked
        ∙ located part slashless dotless other Rp D (api_match p rp)
            (unfold api_match method_match find in refl) in
      let run : Handled (Unit {0}) Rp D → Outcome (Option Resp) =
        answer p (controllers p from_utf8_lossy) table in
      ap (λ l. run (routed_handle p (controllers p from_utf8_lossy) table l (Request.new rp [])))
        way
      ∙ ap run called
