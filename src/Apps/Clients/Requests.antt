-- ===== src/Apps/Clients/Requests.antt =====
-- The requests of the clients, as the servers read them.
use dce_rust.Base.{
  ℕ, ◌+◌, ◌≡◌, refl, ap, sym, ◌∙◌, none, some, List, [], ◌∷◌, ◌++◌, append_assoc, arith, list_eq,
  nat_eq,
}
use dce_rust.Text.{Str, text, join, utf8_len, cut_bytes, trim, trim_end, is_whitespace}
use dce_rust.Text.Utf8.{as_bytes, IsText, from_utf8-as_bytes}
use dce_rust.Text.Split.{FreeOf}
use dce_rust.Text.Lines.{lines, find_text-append, trim-append, cut_bytes-append, utf8_len-append}
use dce_rust.Maps.{map_insert}
use dce_rust.Error.{ok}
use dce_rust.Serializer.{string}
use dce_rust.Protocol.{head_id_name, head_path_name, new_meta}
use dce_rust.Wire.{packet_of, read_packet, read_lines, id_path, extend_heads, head_body_separator}
use dce_rust.Wire.Packet.{IsPlain}
use dce_rust.Wire.RoundTrip.{from_bytes-text, body-read}
use dce_rust.Wire.Tcp.{SemiTcpProtocol, from_bytes}
use dce_rust.Wire.Tcp
use dce_rust.Apps.Clients.{request_text}

-- A text without line ends is one line, unless it is empty.
lines-one :
    (c : ℕ) (s : Str) → FreeOf b'\n' (c ∷ s) → FreeOf b'\r' (c ∷ s) → lines (c ∷ s) ≡ (c ∷ s) ∷ []
unfolding lines
lines-one c [] (n, _) (r, _) = ground arith
lines-one c (d ∷ s) (n, ns) (r, rs) = ground (arith, lines-one d s ns rs)

-- The line that the head of a request is.
abbrev pub request_head : Str → Str
request_head path = b'0' ∷ b';' ∷ path

abbrev pub request_heads : Str → List (Str × Str)
request_heads path = map_insert head_path_name path (map_insert head_id_name (text "0") [])

request-shape :
    (path behind : Str)
    → text "0;" ++ (path ++ (text ">BODY>>>" ++ behind))
      ≡ (request_head path ++ text ">BODY>>") ++ b'>' ∷ behind
request-shape path behind = sym (append_assoc (request_head path) (text ">BODY>>") (b'>' ∷ behind))

read-request :
    (path behind : Str)
    → IsPlain path
    → read_packet (request_head path ++ (head_body_separator ++ behind))
      ≡ ok (request_heads path, utf8_len (request_head path) + 8)
unfolding read_packet read_lines
read-request path behind (n, r, g) =
    let head = request_head path in
    let whole = head ++ (head_body_separator ++ behind) in
    let free : FreeOf b'>' head = ((λ e. omega arith), ((λ e. omega arith), g)) in
    let found = find_text-append b'>' (text "BODY>>>") head behind free in
    let one : lines head ≡ head ∷ [] =
      lines-one b'0' (b';' ∷ path) ((λ e. omega arith), ((λ e. omega arith), n))
        ((λ e. omega arith), ((λ e. omega arith), r)) in
    ap (packet_of whole) found
    ∙ rw (packet_of, one, read_lines) (unfold extend_heads id_path in refl)

-- A packet whose buffer is taken.
abbrev pub emptied : SemiTcpProtocol → SemiTcpProtocol
emptied rp = record rp { meta = record rp.meta { req = none } }

-- The packet that a request is read as.
abbrev pub read_request : Str → Str → SemiTcpProtocol
read_request path body = record {
  meta = record {
    req = some (as_bytes (request_head path ++ (head_body_separator ++ body)));
    resp = none;
    heads = request_heads path;
    resp_heads = [];
  };
  body_index = utf8_len (request_head path) + 8;
}

module _ (path body : Str)
    (is_text : IsText (request_head path ++ (head_body_separator ++ body))) where
  whole : Str
  whole = request_head path ++ (head_body_separator ++ body)

  pub from_bytes-request :
      IsPlain path
      → from_bytes (as_bytes (request_head path ++ (head_body_separator ++ body)))
        ≡ ok (read_request path body)
  unfolding whole new_meta is_whitespace
  from_bytes-request plain =
      let head = request_head path in
      let trimmed : trim whole ≡ head ++ (head_body_separator ++ trim_end body) =
        ap trim (request-shape path body)
        ∙ (trim-append b'>' (head ++ text ">BODY>>") body refl refl
            ∙ sym (request-shape path (trim_end body))) in
      from_bytes-text _ whole _ _ (from_utf8-as_bytes whole is_text)
        (ap read_packet trimmed ∙ read-request path (trim_end body) plain)

  pub body-request :
      (utf8_error : List ℕ → Str)
      → Tcp.body utf8_error (read_request path body)
        ≡ (ok (string body), emptied (read_request path body))
  unfolding whole new_meta utf8_len
  body-request utf8_error =
      let head = request_head path in
      let front = head ++ head_body_separator in
      let cut : cut_bytes (utf8_len head + 8) whole ≡ some (front, body) =
        ap (λ n. cut_bytes n whole) (sym (utf8_len-append head head_body_separator))
        ∙ (ap (cut_bytes (utf8_len front)) (sym (append_assoc head head_body_separator body))
            ∙ cut_bytes-append front body) in
      body-read utf8_error _ whole _ _ _ _ (from_utf8-as_bytes whole is_text) cut

-- What a client sends over TCP or UDP is read by the server as a request of the id 0 and the path
-- that was passed on, with the body that was sent, if the path has no line ends and no sign that
-- begins the separator.
pub request-from_bytes :
    (utf8_error : List ℕ → Str) (pass : List Str) (body : Str)
    → IsPlain (join b'/' pass)
    → IsText (request_text pass body)
    → (read : SemiTcpProtocol) × (from_bytes (as_bytes (request_text pass body)) ≡ ok read)
      × (read.meta.heads ≡ request_heads (join b'/' pass))
      × ((Tcp.body utf8_error read).0 ≡ ok (string body))
unfolding request_text
request-from_bytes utf8_error pass body plain is_text =
    let path = join b'/' pass in
    (
      read_request path body,
      from_bytes-request path body is_text plain,
      refl,
      ap (λ r. r.0) (body-request path body is_text utf8_error),
    )
