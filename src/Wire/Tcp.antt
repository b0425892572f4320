-- ===== src/Wire/Tcp.antt =====
-- crates/protocols/tokio/src/protocol.rs: packets over TCP and UDP, whose buffers are lists of bytes.
-- The order in which a hash map is gone through is a parameter, as is what the error of `from_utf8`
-- says.
use dce_rust.Base.{ℕ, Option, none, some, List, ◌≡◌, [], ◌++◌, list_eq, nat_eq, refl}
use dce_rust.Text.{Str, text, trim, cut_bytes}
use dce_rust.Text.Utf8.{as_bytes, from_utf8}
use dce_rust.Error.{Outcome, ok, panics, closed0_wrap, ◌>>=◌}
use dce_rust.Serializer.{Serialized, string, bytes}
use dce_rust.Protocol.{Meta, RoutableProtocol, Response, serialized, raw, new_meta}
use dce_rust.Wire.{read_packet, answer_head}

pub record SemiTcpProtocol : Type 0 where
  pub meta : Meta (List ℕ) (List ℕ)
  pub body_index : ℕ

-- The text of a buffer; that of one that is no text is empty.
unfoldable pub packet_text : List ℕ → Str
unfolding from_utf8 trim
packet_text value = elim (from_utf8 value) [ none ↦ [] | some v ↦ trim v ]

-- `From<BytesMut>`.
unfoldable pub from_bytes : List ℕ → Outcome SemiTcpProtocol
unfolding packet_text read_packet new_meta
from_bytes value = read_packet (packet_text value) >>= λ (heads, body_index).
    ok (record { meta = new_meta value heads; body_index = body_index })

unfoldable pub pack_resp : SemiTcpProtocol → Serialized → List ℕ
unfolding as_bytes
pack_resp rp (string s) = as_bytes s
pack_resp rp (bytes bs) = bs

unfoldable pub set_meta : Meta (List ℕ) (List ℕ) → SemiTcpProtocol → SemiTcpProtocol
set_meta meta rp = record rp { meta = meta }

pub meta-set_meta : (m : Meta (List ℕ) (List ℕ)) (rp : SemiTcpProtocol) → (set_meta m rp).meta ≡ m
unfolding set_meta
meta-set_meta m rp = refl

-- `body`: the buffer is taken, and the text behind the index is read from it.
unfoldable pub body : (List ℕ → Str) → SemiTcpProtocol → Outcome Serialized × SemiTcpProtocol
unfolding from_utf8 cut_bytes set_meta
body utf8_error rp = elim rp.meta.req [
  | none ↦ (closed0_wrap (text "Empty request"), rp)
  | some req ↦
      let rest = set_meta (record rp.meta { req = none }) rp in
      elim (from_utf8 req) [
        | none ↦ (closed0_wrap (utf8_error req), rest)
        | some t ↦ elim (cut_bytes rp.body_index t) [
          | none ↦ (panics, rest)
          | some (_, behind) ↦ (ok (string behind), rest)
        ]
      ]
]

-- `Into<BytesMut>`: an answer that is raw is sent as it is, without a head.
unfoldable pub sent : SemiTcpProtocol → Str → Option (Response (List ℕ)) → List ℕ
unfolding as_bytes pack_resp
sent rp head (some (raw resp)) = resp
sent rp head (some (serialized sd)) = as_bytes head ++ pack_resp rp sd
sent rp head none = as_bytes head

unfoldable pub into : (List (Str × Str) → List (Str × Str)) → SemiTcpProtocol → List ℕ
unfolding sent answer_head
into order rp = sent rp (answer_head order rp.meta) rp.meta.resp

abbrev pub semi_tcp :
    (List ℕ → Str)
    → (List (Str × Str) → List (Str × Str))
    → RoutableProtocol SemiTcpProtocol (List ℕ) (List ℕ)
semi_tcp utf8_error order = record {
  meta = λ rp. rp.meta;
  set_meta = set_meta;
  meta-set_meta = meta-set_meta;
  body = body utf8_error;
  pack_resp = pack_resp;
  into = into order;
}
