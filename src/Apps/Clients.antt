-- ===== src/Apps/Clients.antt =====
-- src/src/apis/clients.rs: commands that send a request over the network, and show the answer. What
-- the sockets do is a parameter. The interactive clients only copy between streams.
pub mod Requests
use dce_rust.Base.{ℕ, ◌⊎◌, inl, inr, Option, none, some, List, [], ◌∷◌, ◌++◌, list_eq, nat_eq}
use dce_rust.Text.{Str, text, join, show_nat}
use dce_rust.Text.Utf8.{as_bytes}
use dce_rust.Maps.{map_get}
use dce_rust.Error.{Outcome, ok, panics, closed0_wrap, ◌>>=◌}
use dce_rust.Request.{Context, param, as_str, borrow_rp}
use dce_rust.Serializer.{Serialized, string, bytes}
use dce_rust.Protocol.{Response}
use dce_rust.Answers.{pack}
use dce_rust.Cli.{CliProtocol}

-- The request of the path that is passed on.
unfoldable pub request_text : List Str → Str → Str
unfolding join
request_text pass body = text "0;" ++ (join b'/' pass ++ (text ">BODY>>>" ++ body))

-- Over sockets: an address is read from a text, a connection to it may fail, and what is sent is
-- answered by a failure of the sending, by nothing, or by a message.
pub record Net (Addr Message : Type 0) : Type 0 where
  pub parse : Str → Option Addr
  pub connect : Addr → Option (Message → Str ⊎ Option Message)

abbrev pub expect {ℓ} : {A : Type ℓ} → Option A → Outcome A
expect none = panics
expect (some a) = ok a

abbrev pub Answered : Type 0 → Type 0
Answered Resp = Outcome (Option (Response Resp))

-- What the sending gives; a failure to receive is an error of its own.
unfoldable pub received :
    {Message Resp : Type 0} → (Message → Serialized) → Str ⊎ Option Message → Answered Resp
unfolding pack
received shown (inl e) = closed0_wrap e
received shown (inr none) = closed0_wrap (text "failed to receive message")
received shown (inr (some message)) = pack (shown message)

-- The body that is given by "--data", else the random number.
unfoldable pub body_of : ℕ → List (Str × Str) → Str
unfolding map_get show_nat
body_of random args = elim (map_get (text "--data") args) [ none ↦ show_nat random | some v ↦ v ]

module _ {D : Type 0} where
  -- `assert!` on what is passed on.
  unfoldable pub passed : Context CliProtocol D → Outcome (List Str)
  unfolding borrow_rp
  passed context = borrow_rp context >>= λ rp. elim rp.pass [ [] ↦ panics | p ∷ ps ↦ ok (p ∷ ps) ]

  unfoldable pub address : Context CliProtocol D → Outcome Str
  unfolding param as_str
  address context =
      param context (text "address") >>= λ found. as_str found >>= λ given. expect given

  -- What the three clients do: the address is that of the path, made to a url.
  unfoldable pub send_request :
      {Resp Addr Message : Type 0}
      → Net Addr Message
      → (Str → Message)
      → (Message → Serialized)
      → (Str → Str)
      → Str
      → Context CliProtocol D
      → Answered Resp
  unfolding address passed received request_text
  send_request net packed shown url body context = address context >>= λ given.
      expect (net.parse (url given)) >>= λ addr. expect (net.connect addr) >>= λ exchange.
      passed context >>= λ pass. received shown (exchange (packed (request_text pass body)))

  -- The body is a random number; `udp` differs by its socket.
  unfoldable pub tcp :
      {Resp Addr : Type 0} → ℕ → Net Addr (List ℕ) → Context CliProtocol D → Answered Resp
  unfolding send_request as_bytes show_nat
  tcp random net context =
      send_request net as_bytes bytes (λ given. given) (show_nat random) context

  unfoldable pub udp :
      {Resp Addr : Type 0} → ℕ → Net Addr (List ℕ) → Context CliProtocol D → Answered Resp
  unfolding send_request as_bytes show_nat
  udp random net context =
      send_request net as_bytes bytes (λ given. given) (show_nat random) context

  -- `websocket`: a session id that is given, and can be a header's value, goes with the connection.
  unfoldable pub websocket :
      {Resp Addr Message : Type 0}
      → ℕ
      → (Option Str → Net Addr Message)
      → (Str → Message)
      → (Message → Str)
      → (Str → Option Str)
      → Context CliProtocol D
      → Answered Resp
  unfolding send_request map_get body_of borrow_rp
  websocket random net from_text to_string header_value context = borrow_rp context >>= λ rp.
      (elim (map_get (text "--sid") rp.args) as (λ _. Outcome (Option Str)) [
        | none ↦ ok none
        | some sid ↦ expect (header_value sid) >>= λ v. ok (some v)
      ])
      >>= λ sid.
          send_request (net sid) from_text (λ m. string (to_string m))
            (λ given. text "ws://" ++ (given ++ text "/")) (body_of random rp.args) context
