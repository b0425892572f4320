-- ===== src/Apps/Echo/Tests.antt =====
-- Runs of the echo servers.
use dce_rust.Base.{
  Bool, true, false, ℕ, ◌≡◌, refl, none, some, [], ◌∷◌, map, any, inl, sym, true-ne-false, list_beq,
}
use dce_rust.Text.{text, str_eq, join}
use dce_rust.Text.Utf8.{as_bytes, from_utf8}
use dce_rust.Text.Split.{str_eq_iff}
use dce_rust.Maps.{map_get}
use dce_rust.Error.{ok, ◌>>=◌}
use dce_rust.Router.Locate.{locate}
use dce_rust.Wire.{print_head}
use dce_rust.Wire.Tcp.{semi_tcp, from_bytes}
use dce_rust.Wire.Sample.{free, plain, is_text, Message, text_message, binary_message, messages}
use dce_rust.Wire.Websocket.{semi_websocket, into, set_meta}
use dce_rust.Request
use dce_rust.Apps.Clients.{request_text}
use dce_rust.Apps.Echo.{echo_router, serve, read_binary, data_message}
use dce_rust.Apps.Echo.Table.{table, echo_api}
use dce_rust.Apps.Echo.Serving.{Ask, IsAsk, received, answers, serve-answers}

abbrev ask : Ask ℕ
ask = record { part = text "abc"; sent_body = text "hi"; peer = 7 }

ask-IsAsk : IsAsk ask
unfolding request_text join any str_eq list_beq
ask-IsAsk = record {
  slashless = free b'/' (text "abc") refl;
  dotless = free b'.' (text "abc") refl;
  no_pattern = λ e. true-ne-false (sym ((str_eq_iff (text "abc") (text "{param?}")).1 e));
  plain = plain (text "echo/abc") refl refl refl;
  all_text = is_text (text "0;echo/abc>BODY>>>hi") refl;
}

serve-answers_example :
    (echo_router {D = Unit {0}} (λ paths. paths) >>= λ router.
    serve
      (semi_tcp (λ bs. []) (λ hs. hs))
      (λ bs. [])
      from_bytes
      1
      router
      (map received (none ∷ some ask ∷ [])))
    ≡ ok (answers (none ∷ some ask ∷ []))
serve-answers_example =
    serve-answers (Unit {0}) (λ bs. []) (λ bs. []) (λ hs. hs) (λ paths. paths)
      (none ∷ some ask ∷ []) refl (inl refl) (tt, (ask-IsAsk, tt))

answer_test :
    answers (some ask ∷ [])
    ≡ (as_bytes (text "0;echo/abc\n>BODY>>>\npath param data: \"abc\"\nbody data: \"hi\""), 7) ∷ []
unfolding answers print_head
answer_test = refl

-- The pattern is a key of the map: a request for it is not matched, and gets no arguments.
pattern_test :
    locate (table {Rp = Unit {0}} {D = Unit {0}}) (λ _. ok echo_api) 1 (text "echo/{param?}")
    ≡ ok (echo_api, [], none)
unfolding locate map_get list_beq
pattern_test = refl

-- Over web sockets a message that is bytes is answered by bytes, and others are passed over.
abbrev is_bytes : Message → Bool
is_bytes (text_message s) = false
is_bytes (binary_message b) = true

websocket_test :
    serve
      (semi_websocket messages (λ bs. []) (λ hs. hs))
      (λ bs. [])
      (read_binary messages (λ bs. []) (λ hs. hs))
      1
      (table {D = Unit {0}})
      (map (data_message is_bytes) (
        some (text_message (text "a"))
        ∷ none
        ∷ some (binary_message (as_bytes (text "0;hello>BODY>>>")))
        ∷ []))
    ≡ ok ((binary_message (as_bytes (text "0;hello\n>BODY>>>\nhello world")), tt) ∷ [])
unfolding serve read_binary data_message from_utf8 as_bytes Request.new into set_meta
websocket_test = refl
