-- ===== src/Apps/Echo.antt =====
-- src/src/apis/tcp.rs, udp.rs and websocket.rs: three servers with the same two apis, each over the
-- packets of its own protocol. The sockets are the lists of what they receive and are sent.
mod Table
mod Routing
pub mod Answering
pub mod Serving
mod Tests
use dce_rust.Base.{
  Bool, if◌then◌else◌, ℕ, zero, suc, false, Option, none, some, List, [], ◌∷◌, ◌++◌,
}
use dce_rust.Text.{Str, text}
use dce_rust.Error.{Outcome, ok, panics, ◌>>=◌}
use dce_rust.Api.{Api, last_part}
use dce_rust.Api
use dce_rust.Request.{Context, param, as_str}
use dce_rust.Serializer.{string, to_string}
use dce_rust.Protocol.{RoutableProtocol, Response}
use dce_rust.Answers.{pack}
use dce_rust.Dispatch.{Handled, handle}
use dce_rust.Router.Registry.{Router}
use dce_rust.Router.Registry
use dce_rust.Router.Build.{closing}
use dce_rust.Wire.Websocket.{Messages, SemiWebsocketProtocol, binary, from_message}
use dce_rust.Apps.Greetings.{push_all}

abbrev pub echo_path : Str
echo_path = text "echo/{param?}"

-- What `echo` answers with.
abbrev pub echo_text : Str → Str → Str
echo_text param body =
    text "path param data: \"" ++ (param ++ (text "\"\nbody data: \"" ++ (body ++ text "\"")))

-- The apis by the macros over `hello` and `echo`, which have no methods.
unfoldable pub echo_apis : {Rp : Type 0} → List (Api Rp)
unfolding Api.new last_part
echo_apis =
    Api.new 1 none (text "hello") [] false [] (text "hello") false
    ∷ Api.new 2 none echo_path [] false [] (last_part echo_path) false
    ∷ []

-- The router that a server makes.
unfoldable pub echo_router : {Rp D : Type 0} → (List Str → List Str) → Outcome (Router Rp D)
unfolding Registry.new push_all echo_apis closing
echo_router hash_order = Registry.new >>= λ router. closing hash_order (push_all echo_apis router)

module _ {Rp Req Resp D : Type 0} (p : RoutableProtocol Rp Req Resp)
    (from_utf8_lossy : List ℕ → Str) where
  unfoldable pub hello : Context Rp D → Handled (Option (Response Resp)) Rp D
  unfolding pack
  hello context = (pack (string (text "hello world")), context)

  -- `req.param("param")?.as_str().unwrap_or("")`.
  unfoldable pub param_text : Context Rp D → Outcome Str
  unfolding param as_str
  param_text context = param context (text "param") >>= λ found.
      as_str found >>= λ given. ok (elim given [ none ↦ [] | some v ↦ v ])

  unfoldable pub echo : Context Rp D → Handled (Option (Response Resp)) Rp D
  unfolding param_text pack to_string
  echo context = elim context.rp [
    | none ↦ (panics, context)
    | some rp ↦
        let (read, after) = p.body rp in
        let rest = record context { rp = some after } in
        (
          read >>= λ body. param_text rest >>= λ given.
              pack (string (echo_text given (to_string from_utf8_lossy body))),
          rest,
        )
  ]

  unfoldable pub controllers : ℕ → Context Rp D → Handled (Option (Response Resp)) Rp D
  unfolding hello echo
  controllers zero context = (panics, context)
  controllers (suc zero) context = hello context
  controllers (suc (suc n)) context = echo context

  -- `route` and `udp_route`: what is sent for a request, if it is answered.
  unfoldable pub respond : ℕ → Router Rp D → Rp → Outcome (Option Resp)
  unfolding handle controllers
  respond rounds router rp = handle p controllers router rounds rp []

  module _ {Peer : Type 0} (read : Req → Outcome Rp) (rounds : ℕ) (router : Router Rp D) where
    abbrev reply : Option Resp → Peer → List (Resp × Peer) → List (Resp × Peer)
    reply none peer sent = sent
    reply (some answer) peer sent = (answer, peer) ∷ sent

    -- The loop over the messages, each with the peer that it comes from. One that cannot be received
    -- is logged and passed over, and so is a failure to send, so that all answers are here.
    unfoldable pub serve : List (Option (Req × Peer)) → Outcome (List (Resp × Peer))
    unfolding respond
    serve [] = ok []
    serve (none ∷ messages) = serve messages
    serve (some (message, peer) ∷ messages) = read message >>= λ rp.
        respond rounds router rp >>= λ answer.
        serve messages >>= λ sent. ok (reply answer peer sent)

-- Over web sockets, what is neither a text nor bytes is passed over.
unfoldable pub data_message :
    {Message : Type 0} → (Message → Bool) → Option Message → Option (Message × Unit {0})
data_message is_data none = none
data_message is_data (some message) = if is_data message then some (message, tt) else none

-- The server of web sockets answers in binary messages.
unfoldable pub read_binary :
    {Message : Type 0}
    → Messages Message
    → (List ℕ → Str)
    → (List (Str × Str) → List (Str × Str))
    → Message
    → Outcome (SemiWebsocketProtocol Message)
unfolding from_message binary
read_binary messages from_utf8_lossy order message =
    from_message messages from_utf8_lossy order message >>= λ rp. ok (binary rp)
