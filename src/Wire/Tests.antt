-- ===== src/Wire/Tests.antt =====
-- Packets that are read and printed.
use dce_rust.Base.{
  ℕ, ◌≡◌, ◌↔◌, list_eq, nat_eq, refl, true, false, none, some, List, [], ◌∷◌, any, list_beq,
}
use dce_rust.Text.{Str, text, starts_with, is_whitespace}
use dce_rust.Text.Utf8.{as_bytes, IsText}
use dce_rust.Error.{ok, panics}
use dce_rust.Serializer.{string}
use dce_rust.Protocol.{serialized, head_id_name, head_path_name}
use dce_rust.Maps.{map_get}
use dce_rust.Wire.{head_body_separator, print_head, print_heads}
use dce_rust.Wire.Packet.{heads_of}
use dce_rust.Wire.Tcp.{SemiTcpProtocol, from_bytes, body, into, packet_text}
use dce_rust.Wire.Websocket.{SemiWebsocketProtocol, Messages, from_message}
use dce_rust.Wire.Websocket
use dce_rust.Wire.RoundTrip.{IsReadable, into-from_bytes, into-from_message}
use dce_rust.Wire.Sample.{free, plain, is_text, Message, messages}
use dce_rust.Wire.Panics.{from_bytes-panics_iff}

abbrev heads : List (Str × Str)
heads = (text "lang", text "en") ∷ []

readable : IsReadable (some (text "7")) (text "user/1") heads
unfolding any is_whitespace print_head print_heads
readable = record {
  first_plain = (
    free b';' (text "7") refl,
    plain (text "7") refl refl refl,
    plain (text "user/1") refl refl refl,
  );
  heads_plain = (
    (
      free b':' (text "lang") refl,
      plain (text "lang") refl refl refl,
      plain (text "en") refl refl refl,
    ),
    tt,
  );
  starts = refl;
  head_text = is_text (print_head (some (text "7")) (text "user/1") heads) refl;
}

hi : IsText (text "hi")
unfolding any
hi = is_text (text "hi") refl

abbrev answered : SemiTcpProtocol
answered = record {
  meta = record {
    req = none;
    resp = some (serialized (string (text "hi")));
    heads = (head_id_name, text "7") ∷ (head_path_name, text "user/1") ∷ [];
    resp_heads = heads;
  };
  body_index = 0;
}

into-from_bytes_example :
    (read : SemiTcpProtocol) × (from_bytes (into (λ hs. hs) answered) ≡ ok read)
    × (read.meta.heads ≡ heads_of (some (text "7")) (text "user/1") heads)
    × ((body (λ b. []) read).0 ≡ ok (string (b'\n' ∷ text "hi")))
unfolding map_get list_beq
into-from_bytes_example =
    into-from_bytes (λ b. []) (λ hs. hs) answered (some (text "7")) (text "user/1") (text "hi") refl
      refl refl readable hi

abbrev answered_message : SemiWebsocketProtocol Message
answered_message = Websocket.binary (record {
  meta = record {
    req = none;
    resp = some (serialized (string (text "hi")));
    heads = (head_id_name, text "7") ∷ (head_path_name, text "user/1") ∷ [];
    resp_heads = heads;
  };
  body_index = 0;
  binary_response = false;
})

into-from_message_example :
    (read : SemiWebsocketProtocol Message) × (from_message messages
        (λ b. [])
        (λ hs. hs)
        (Websocket.into messages (λ b. []) (λ hs. hs) answered_message)
      ≡ ok read)
    × (read.meta.heads ≡ heads_of (some (text "7")) (text "user/1") heads)
    × ((Websocket.body messages (λ b. []) (λ hs. hs) read).0 ≡ ok (string (b'\n' ∷ text "hi")))
unfolding Websocket.binary map_get list_beq
into-from_message_example =
    into-from_message messages (λ b. []) (λ hs. hs) answered_message (some (text "7"))
      (text "user/1") (text "hi") refl refl refl readable hi

-- A packet without a head.
abbrev headless : List ℕ
headless = as_bytes (text " >BODY>>> x")

from_bytes-panics_iff_example :
    (from_bytes headless ≡ panics) ↔ (starts_with (packet_text headless) head_body_separator ≡ true)
from_bytes-panics_iff_example = from_bytes-panics_iff headless

headless-panics : from_bytes headless ≡ panics
unfolding from_bytes as_bytes
headless-panics = refl
