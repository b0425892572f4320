-- ===== src/Apps/Echo/Serving.antt =====
-- The echo server over TCP or UDP, from the requests that clients send to the answers it sends.
use dce_rust.Base.{
  ℕ, ◌≡◌, ◌≢◌, refl, ap, ◌∙◌, Option, none, some, List, [], ◌∷◌, ◌++◌, map, All, list_beq, list_eq,
  nat_eq,
}
use dce_rust.Text.{Str, text, join}
use dce_rust.Text.Split.{FreeOf}
use dce_rust.Text.Utf8.{as_bytes, IsText}
use dce_rust.Maps.{map_get, map_insert}
use dce_rust.Error.{ok, ◌>>=◌}
use dce_rust.Protocol.{path, set_resp}
use dce_rust.Wire.{print_head}
use dce_rust.Wire.Packet.{IsPlain}
use dce_rust.Wire.RoundTrip.{into-string}
use dce_rust.Wire.Tcp.{semi_tcp, from_bytes, set_meta}
use dce_rust.Apps.Clients.{request_text}
use dce_rust.Apps.Clients.Requests.{read_request, emptied, from_bytes-request, body-request}
use dce_rust.Apps.Echo.{echo_text, echo_router, respond, serve}
use dce_rust.Apps.Echo.Table.{table, IsHashOrder, echo_router_lem}
use dce_rust.Apps.Echo.Answering.{respond-echo}

-- What a client asks for: the command `tcp <address> -- echo <part>`, with a body.
pub record Ask (Peer : Type 0) : Type 0 where
  pub part : Str
  pub sent_body : Str
  pub peer : Peer

module _ {Peer : Type 0} where
  abbrev pub asked_path : Ask Peer → Str
  asked_path ask = text "echo/" ++ ask.part

  abbrev pub sent_text : Ask Peer → Str
  sent_text ask = request_text (text "echo" ∷ ask.part ∷ []) ask.sent_body

  -- The part is one part of a path, has no dot, is not the pattern itself, and can stand in a head.
  pub record IsAsk (ask : Ask Peer) : Type 0 where
    pub slashless : FreeOf b'/' ask.part
    pub dotless : FreeOf b'.' ask.part
    pub no_pattern : ask.part ≢ text "{param?}"
    pub plain : IsPlain (asked_path ask)
    pub all_text : IsText (sent_text ask)

  abbrev pub IsReceived : Option (Ask Peer) → Type 0
  IsReceived none = Unit
  IsReceived (some ask) = IsAsk ask

  -- What the server receives, and is to send. What cannot be received is answered by nothing.
  abbrev pub received : Option (Ask Peer) → Option (List ℕ × Peer)
  received none = none
  received (some ask) = some (as_bytes (sent_text ask), ask.peer)

  abbrev pub answer_text : Ask Peer → Str
  answer_text ask =
      print_head (some (text "0")) (asked_path ask) [] ++ echo_text ask.part ask.sent_body

  unfoldable pub answers : List (Option (Ask Peer)) → List (List ℕ × Peer)
  answers [] = []
  answers (none ∷ asks) = answers asks
  answers (some ask ∷ asks) = (as_bytes (answer_text ask), ask.peer) ∷ answers asks

read-ask :
    {Peer : Type 0} (ask : Ask Peer)
    → IsAsk ask
    → from_bytes (as_bytes (sent_text ask)) ≡ ok (read_request (asked_path ask) ask.sent_body)
unfolding request_text join
read-ask ask h = from_bytes-request (asked_path ask) ask.sent_body h.all_text h.plain

module _ (D : Type 0) (utf8_error : List ℕ → Str) (from_utf8_lossy : List ℕ → Str)
    (order : List (Str × Str) → List (Str × Str)) (nothing_ordered : order [] ≡ []) where
  respond-ask :
      {Peer : Type 0} (ask : Ask Peer)
      → IsAsk ask
      → respond
          (semi_tcp utf8_error order)
          from_utf8_lossy
          1
          (table {D = D})
          (read_request (asked_path ask) ask.sent_body)
        ≡ ok (some (as_bytes (answer_text ask)))
  unfolding path map_get join request_text set_resp set_meta list_beq map_insert
  respond-ask ask h =
      let asked = asked_path ask in
      let body = ask.sent_body in
      respond-echo D (semi_tcp utf8_error order) from_utf8_lossy (read_request asked body)
        (emptied (read_request asked body)) ask.part body
        (body-request asked body h.all_text utf8_error) h.slashless h.dotless h.no_pattern refl
      ∙ ap (λ t. ok (some t))
          (into-string order _ (some (text "0")) asked (echo_text ask.part body) refl refl refl
            ∙ ap (λ hs. as_bytes (print_head (some (text "0")) asked hs ++ echo_text ask.part body))
                nothing_ordered)

  serve-asks :
      {Peer : Type 0} (asks : List (Option (Ask Peer)))
      → All IsReceived asks
      → serve
          (semi_tcp utf8_error order)
          from_utf8_lossy
          from_bytes
          1
          (table {D = D})
          (map received asks)
        ≡ ok (answers asks)
  unfolding serve answers
  serve-asks [] h = refl
  serve-asks (none ∷ asks) (_, h) = serve-asks asks h
  serve-asks (some ask ∷ asks) (a, h) =
      rw (read-ask ask a, serve) (rw (respond-ask ask a) (rw (serve-asks asks h) refl))

-- The server answers every request for `echo` that it receives, in their order, each to the client
-- that sent it: with the head of the request, the part of the path and the body. Requests that cannot
-- be received do not keep it from the others. The part of a path has no slash and no dot, is not the
-- pattern itself and can stand in a head; the texts are of scalar values; the order of no heads is
-- that of none, and the hash set lists the two paths.
pub serve-answers :
    (D : Type 0) (utf8_error from_utf8_lossy : List ℕ → Str)
    (order : List (Str × Str) → List (Str × Str)) (hash_order : List Str → List Str) {Peer : Type 0}
    (asks : List (Option (Ask Peer)))
    → order [] ≡ []
    → IsHashOrder hash_order
    → All IsReceived asks
    → (echo_router {D = D} hash_order >>= λ router.
        serve (semi_tcp utf8_error order) from_utf8_lossy from_bytes 1 router (map received asks))
      ≡ ok (answers asks)
serve-answers D utf8_error from_utf8_lossy order hash_order asks n o h =
    rw (echo_router_lem hash_order o) (serve-asks D utf8_error from_utf8_lossy order n asks h)
