-- ===== src/Wire/Websocket.antt =====
-- crates/protocols/tokio-tungstenite/src/protocol.rs: packets in the messages of a web socket. The
-- messages are the tungstenite crate's, `String::from_utf8_lossy` and the order in which a hash map
-- is gone through are parameters.
use dce_rust.Base.{
  ℕ, ◌≡◌, refl, Bool, true, false, Option, none, some, List, [], ◌++◌, list_eq, nat_eq, ◌⊎◌, inl,
  inr,
}
use dce_rust.Text.{Str, text, trim, cut_bytes}
use dce_rust.Text.Utf8.{as_bytes, IsText}
use dce_rust.Error.{Outcome, ok, panics, closed0_wrap, ◌>>=◌}
use dce_rust.Serializer.{Serialized, string, bytes}
use dce_rust.Protocol.{Meta, RoutableProtocol, Response, serialized, raw, new_meta}
use dce_rust.Wire.{read_packet, answer_head}

-- What the file uses of `tungstenite::Message`: the two variants it makes, and `to_text`, which
-- gives an error's text or the text of the payload.
pub record Messages (Message : Type 0) : Type 0 where
  pub text_message : Str → Message
  pub binary_message : List ℕ → Message
  pub to_text : Message → Str ⊎ Str
  pub to_text-text_message : (s : Str) → to_text (text_message s) ≡ inr s
  pub to_text-binary_message : (s : Str) → IsText s → to_text (binary_message (as_bytes s)) ≡ inr s

pub record SemiWebsocketProtocol (Message : Type 0) : Type 0 where
  pub meta : Meta Message Message
  pub body_index : ℕ
  pub binary_response : Bool

module _ {Message : Type 0} where
  unfoldable pub binary : SemiWebsocketProtocol Message → SemiWebsocketProtocol Message
  binary rp = record rp { binary_response = true }

  unfoldable pub set_meta :
      Meta Message Message → SemiWebsocketProtocol Message → SemiWebsocketProtocol Message
  set_meta meta rp = record rp { meta = meta }

  pub meta-set_meta :
      (m : Meta Message Message) (rp : SemiWebsocketProtocol Message) → (set_meta m rp).meta ≡ m
  unfolding set_meta
  meta-set_meta m rp = refl

module _ {Message : Type 0} (messages : Messages Message) (from_utf8_lossy : List ℕ → Str)
    (order : List (Str × Str) → List (Str × Str)) where
  unfoldable pub packet_text : Message → Str
  unfolding trim
  packet_text value = elim (messages.to_text value) [ inl e ↦ [] | inr t ↦ trim t ]

  -- `From<Message>`.
  unfoldable pub from_message : Message → Outcome (SemiWebsocketProtocol Message)
  unfolding packet_text read_packet new_meta
  from_message value = read_packet (packet_text value) >>= λ (heads, body_index).
      ok (record { meta = new_meta value heads; body_index = body_index; binary_response = false })

  -- `body`: the message is taken, and the text behind the index is read from it.
  unfoldable pub body :
      SemiWebsocketProtocol Message → Outcome Serialized × SemiWebsocketProtocol Message
  unfolding cut_bytes set_meta
  body rp = elim rp.meta.req [
    | none ↦ (closed0_wrap (text "Empty request"), rp)
    | some req ↦
        let rest = set_meta (record rp.meta { req = none }) rp in
        elim (messages.to_text req) [
          | inl e ↦ (closed0_wrap e, rest)
          | inr t ↦ elim (cut_bytes rp.body_index t) [
            | none ↦ (panics, rest)
            | some (_, behind) ↦ (ok (string behind), rest)
          ]
        ]
  ]

  unfoldable pub sd_text : Serialized → Str
  sd_text (bytes bs) = from_utf8_lossy bs
  sd_text (string s) = s

  unfoldable pub sd_bytes : Serialized → List ℕ
  unfolding as_bytes
  sd_bytes (bytes bs) = bs
  sd_bytes (string s) = as_bytes s

  unfoldable pub pack_resp : SemiWebsocketProtocol Message → Serialized → Message
  unfolding sd_text
  pack_resp rp sd = messages.text_message (sd_text sd)

  -- The message of an answer that is not raw: its head, and what is serialized.
  unfoldable pub message_of : Bool → Str → Option Serialized → Message
  unfolding sd_text sd_bytes as_bytes
  message_of true head (some sd) = messages.binary_message (as_bytes head ++ sd_bytes sd)
  message_of true head none = messages.binary_message (as_bytes head)
  message_of false head (some sd) = messages.text_message (head ++ sd_text sd)
  message_of false head none = messages.text_message head

  -- `Into<Message>`: an answer that is raw is sent as it is, without a head.
  unfoldable pub sent : Bool → Str → Option (Response Message) → Message
  unfolding message_of
  sent binary_response head (some (raw resp)) = resp
  sent binary_response head (some (serialized sd)) = message_of binary_response head (some sd)
  sent binary_response head none = message_of binary_response head none

  unfoldable pub into : SemiWebsocketProtocol Message → Message
  unfolding sent answer_head
  into rp = sent rp.binary_response (answer_head order rp.meta) rp.meta.resp

  abbrev pub semi_websocket : RoutableProtocol (SemiWebsocketProtocol Message) Message Message
  semi_websocket = record {
    meta = λ rp. rp.meta;
    set_meta = set_meta;
    meta-set_meta = meta-set_meta;
    body = body;
    pack_resp = pack_resp;
    into = into;
  }
