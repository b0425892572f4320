-- ===== src/Wire/RoundTrip.antt =====
-- An answer of the network's protocols, as the bytes or the message sent, is read back.
use dce_rust.Base.{
  ℕ, ◌+◌, ◌≡◌, refl, ap, ap₂, sym, ◌∙◌, Bool, true, false, Option, none, some, List, [], ◌∷◌, ◌++◌,
  append_assoc, All, All-append, list_eq, nat_eq, inr,
}
use dce_rust.Text.{Str, utf8_len, cut_bytes, trim, trim_end}
use dce_rust.Text.Utf8.{as_bytes, from_utf8, IsText, from_utf8-as_bytes, as_bytes-append}
use dce_rust.Text.Lines.{StartsUnspaced, cut_bytes-append, utf8_len-append}
use dce_rust.Maps.{map_get}
use dce_rust.Error.{ok}
use dce_rust.Serializer.{string}
use dce_rust.Protocol.{Meta, serialized, new_meta, head_id_name, head_path_name}
use dce_rust.Wire.{
  answer_head, print_head, head_lines, first_line, head_body_separator, read_packet,
}
use dce_rust.Wire.Packet.{
  IsPlainFirst, IsPlainHead, heads_of, read_packet-head_lines, trim-print_head,
}
use dce_rust.Wire.Tcp.{SemiTcpProtocol}
use dce_rust.Wire.Tcp
use dce_rust.Wire.Websocket.{SemiWebsocketProtocol, Messages}
use dce_rust.Wire.Websocket

-- What a packet's parts must be for a reader to find them again.
pub record IsReadable (id : Option Str) (path : Str) (hs : List (Str × Str)) : Type 0 where
  pub first_plain : IsPlainFirst id path
  pub heads_plain : All IsPlainHead hs
  pub starts : StartsUnspaced (first_line id path)
  pub head_text : IsText (print_head id path hs)

read-print :
    (id : Option Str) (path : Str) (hs : List (Str × Str)) (s : Str)
    → IsReadable id path hs
    → read_packet (trim (print_head id path hs ++ s))
      ≡ ok (heads_of id path hs, utf8_len (head_lines id path hs) + 8)
read-print id path hs s r =
    ap read_packet (trim-print_head id path hs s r.starts)
    ∙ read_packet-head_lines id path hs (trim_end (b'\n' ∷ s)) r.first_plain r.heads_plain

cut-print :
    (id : Option Str) (path : Str) (hs : List (Str × Str)) (s : Str)
    → cut_bytes (utf8_len (head_lines id path hs) + 8) (print_head id path hs ++ s)
      ≡ some (head_lines id path hs ++ head_body_separator, b'\n' ∷ s)
unfolding print_head utf8_len
cut-print id path hs s =
    let lines = head_lines id path hs in
    let front = lines ++ head_body_separator in
    let joined : print_head id path hs ++ s ≡ front ++ b'\n' ∷ s =
      append_assoc lines (head_body_separator ++ b'\n' ∷ []) s
      ∙ sym (append_assoc lines head_body_separator (b'\n' ∷ s)) in
    let size : utf8_len lines + 8 ≡ utf8_len front =
      sym (utf8_len-append lines head_body_separator) in
    ap (λ n. cut_bytes n (print_head id path hs ++ s)) size
    ∙ (ap (cut_bytes (utf8_len front)) joined ∙ cut_bytes-append front (b'\n' ∷ s))

pub from_bytes-text :
    (value : List ℕ) (t : Str) (heads : List (Str × Str)) (n : ℕ)
    → from_utf8 value ≡ some t
    → read_packet (trim t) ≡ ok (heads, n)
    → Tcp.from_bytes value ≡ ok (record { meta = new_meta value heads; body_index = n })
unfolding Tcp.from_bytes Tcp.packet_text
from_bytes-text value t heads n e q = rw (Tcp.from_bytes, Tcp.packet_text, e, q) refl

-- The text behind the index is read, and the buffer is taken.
pub body-read :
    (utf8_error : List ℕ → Str) (value : List ℕ) (t a b : Str) (heads : List (Str × Str)) (n : ℕ)
    → from_utf8 value ≡ some t
    → cut_bytes n t ≡ some (a, b)
    → Tcp.body utf8_error (record { meta = new_meta value heads; body_index = n }) ≡ (
      ok (string b),
      record {
        meta = record { req = none; resp = none; heads = heads; resp_heads = [] };
        body_index = n;
      },
    )
unfolding Tcp.body Tcp.set_meta new_meta
body-read utf8_error value t a b heads n e q = rw (Tcp.body, e, q) refl

answer_head-eq :
    {Req Resp : Type 0} (order : List (Str × Str) → List (Str × Str)) (meta : Meta Req Resp)
    (id : Option Str) (path : Str)
    → map_get head_id_name meta.heads ≡ id
    → map_get head_path_name meta.heads ≡ some path
    → answer_head order meta ≡ print_head id path (order meta.resp_heads)
unfolding answer_head
answer_head-eq order meta id path ei ep = rw (ei, ep) refl

pub into-string :
    (order : List (Str × Str) → List (Str × Str)) (rp : SemiTcpProtocol) (id : Option Str)
    (path s : Str)
    → map_get head_id_name rp.meta.heads ≡ id
    → map_get head_path_name rp.meta.heads ≡ some path
    → rp.meta.resp ≡ some (serialized (string s))
    → Tcp.into order rp ≡ as_bytes (print_head id path (order rp.meta.resp_heads) ++ s)
unfolding Tcp.into Tcp.sent Tcp.pack_resp
into-string order rp id path s ei ep er =
    ap₂ (Tcp.sent rp) (answer_head-eq order rp.meta id path ei ep) er
    ∙ (sym (as_bytes-append (print_head id path (order rp.meta.resp_heads)) s))

-- The bytes that a protocol over TCP or UDP answers with a text are read back as a packet with the
-- id, the path and the heads of the answer, and its body is the text behind a line feed, if the
-- parts of the head are readable and hold no separators, whatever order the heads are written in.
pub into-from_bytes :
    (utf8_error : List ℕ → Str) (order : List (Str × Str) → List (Str × Str)) (rp : SemiTcpProtocol)
    (id : Option Str) (path s : Str)
    → map_get head_id_name rp.meta.heads ≡ id
    → map_get head_path_name rp.meta.heads ≡ some path
    → rp.meta.resp ≡ some (serialized (string s))
    → IsReadable id path (order rp.meta.resp_heads)
    → IsText s
    → (read : SemiTcpProtocol) × (Tcp.from_bytes (Tcp.into order rp) ≡ ok read)
      × (read.meta.heads ≡ heads_of id path (order rp.meta.resp_heads))
      × ((Tcp.body utf8_error read).0 ≡ ok (string (b'\n' ∷ s)))
unfolding new_meta
into-from_bytes utf8_error order rp id path s ei ep er r ts =
    let hs = order rp.meta.resp_heads in
    let whole = print_head id path hs ++ s in
    let is_text : IsText whole = All-append _ (print_head id path hs) s r.head_text ts in
    let sent : from_utf8 (Tcp.into order rp) ≡ some whole =
      ap from_utf8 (into-string order rp id path s ei ep er) ∙ from_utf8-as_bytes whole is_text in
    (
      record {
        meta = new_meta (Tcp.into order rp) (heads_of id path hs);
        body_index = utf8_len (head_lines id path hs) + 8;
      },
      from_bytes-text _ whole _ _ sent (read-print id path hs s r),
      refl,
      ap (λ r. r.0) (body-read utf8_error _ whole _ _ _ _ sent (cut-print id path hs s)),
    )

module _ {Message : Type 0} (messages : Messages Message) (from_utf8_lossy : List ℕ → Str)
    (order : List (Str × Str) → List (Str × Str)) where
  from_message-text :
      (value : Message) (t : Str) (heads : List (Str × Str)) (n : ℕ)
      → messages.to_text value ≡ inr t
      → read_packet (trim t) ≡ ok (heads, n)
      → Websocket.from_message messages from_utf8_lossy order value
        ≡ ok (record { meta = new_meta value heads; body_index = n; binary_response = false })
  unfolding Websocket.from_message Websocket.packet_text
  from_message-text value t heads n e q =
      rw (Websocket.from_message, Websocket.packet_text, e, q) refl

  message_body-text :
      (value : Message) (t a b : Str) (heads : List (Str × Str)) (n : ℕ) (bin : Bool)
      → messages.to_text value ≡ inr t
      → cut_bytes n t ≡ some (a, b)
      → (Websocket.body messages from_utf8_lossy order
          (record { meta = new_meta value heads; body_index = n; binary_response = bin })).0
        ≡ ok (string b)
  unfolding Websocket.body new_meta
  message_body-text value t a b heads n bin e q = rw (Websocket.body, e, q) refl

  to_text-message_of :
      (bin : Bool) (head s : Str)
      → IsText (head ++ s)
      → messages.to_text
          (Websocket.message_of messages from_utf8_lossy order bin head (some (string s)))
        ≡ inr (head ++ s)
  unfolding Websocket.message_of Websocket.sd_text Websocket.sd_bytes
  to_text-message_of true head s ts =
      ap (λ b. messages.to_text (messages.binary_message b)) (sym (as_bytes-append head s))
      ∙ messages.to_text-binary_message (head ++ s) ts
  to_text-message_of false head s ts = messages.to_text-text_message (head ++ s)

  -- Of a text answer, either kind of message holds the head and the text.
  to_text-into :
      (rp : SemiWebsocketProtocol Message) (id : Option Str) (path s : Str)
      → map_get head_id_name rp.meta.heads ≡ id
      → map_get head_path_name rp.meta.heads ≡ some path
      → rp.meta.resp ≡ some (serialized (string s))
      → IsText (print_head id path (order rp.meta.resp_heads) ++ s)
      → messages.to_text (Websocket.into messages from_utf8_lossy order rp)
        ≡ inr (print_head id path (order rp.meta.resp_heads) ++ s)
  unfolding Websocket.into Websocket.sent
  to_text-into rp id path s ei ep er ts =
      ap messages.to_text (
        ap₂ (Websocket.sent messages from_utf8_lossy order rp.binary_response)
          (answer_head-eq order rp.meta id path ei ep) er)
      ∙ to_text-message_of rp.binary_response (print_head id path (order rp.meta.resp_heads)) s ts

  -- The message that a web socket's protocol answers with a text, binary or not, is read back as a
  -- packet with the id, the path and the heads of the answer, and its body is the text behind a line
  -- feed, if the parts of the head are readable and hold no separators, whatever order the heads
  -- are written in.
  pub into-from_message :
      (rp : SemiWebsocketProtocol Message) (id : Option Str) (path s : Str)
      → map_get head_id_name rp.meta.heads ≡ id
      → map_get head_path_name rp.meta.heads ≡ some path
      → rp.meta.resp ≡ some (serialized (string s))
      → IsReadable id path (order rp.meta.resp_heads)
      → IsText s
      → (read : SemiWebsocketProtocol Message) × (Websocket.from_message messages from_utf8_lossy
            order
            (Websocket.into messages from_utf8_lossy order rp)
          ≡ ok read)
        × (read.meta.heads ≡ heads_of id path (order rp.meta.resp_heads))
        × ((Websocket.body messages from_utf8_lossy order read).0 ≡ ok (string (b'\n' ∷ s)))
  unfolding new_meta
  into-from_message rp id path s ei ep er r ts =
      let hs = order rp.meta.resp_heads in
      let whole = print_head id path hs ++ s in
      let is_text : IsText whole = All-append _ (print_head id path hs) s r.head_text ts in
      let sent = to_text-into rp id path s ei ep er is_text in
      (
        record {
          meta = new_meta (Websocket.into messages from_utf8_lossy order rp) (heads_of id path hs);
          body_index = utf8_len (head_lines id path hs) + 8;
          binary_response = false;
        },
        from_message-text _ whole _ _ sent (read-print id path hs s r),
        refl,
        message_body-text _ whole _ _ _ _ false sent (cut-print id path hs s),
      )
