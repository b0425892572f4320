-- ===== src/Wire.antt =====
-- crates/protocols/tokio/src/protocol.rs and crates/protocols/tokio-tungstenite/src/protocol.rs: the
-- packets that the two text protocols of the network read and write. The parent has what both files
-- do alike, a head of lines and a body behind a separator.
pub mod Tcp
pub mod Websocket
pub mod Packet
pub mod RoundTrip
mod Panics
pub mod Sample
mod Tests
use dce_rust.Base.{ℕ, ◌+◌, Option, none, some, List, [], ◌∷◌, ◌++◌, list_eq, nat_eq}
use dce_rust.Text.{Str, text, split_once, utf8_len}
use dce_rust.Text.Lines.{find_text, lines}
use dce_rust.Maps.{map_get, map_insert}
use dce_rust.Error.{Outcome, ok, panics, ◌>>=◌}
use dce_rust.Protocol.{Meta, head_id_name, head_path_name}

abbrev pub id_path_separator : ℕ
id_path_separator = b';'

abbrev pub head_body_separator : Str
head_body_separator = text ">BODY>>>"

-- A line of the head is a key and a value; one without a colon is a key.
unfoldable pub head_of : Str → Str × Str
unfolding split_once
head_of line = elim (split_once b':' line) [ none ↦ (line, []) | some (k, v) ↦ (k, v) ]

unfoldable pub extend_heads : List Str → List (Str × Str) → List (Str × Str)
unfolding map_insert head_of
extend_heads [] heads = heads
extend_heads (line ∷ ls) heads = let (k, v) = head_of line in extend_heads ls (map_insert k v heads)

-- The first line: an id, if there is a separator, and the path.
unfoldable pub id_path : Str → List (Str × Str) × Str
unfolding split_once map_insert
id_path line = elim (split_once id_path_separator line) [
  | none ↦ ([], line)
  | some (id, path) ↦ (map_insert head_id_name id [], path)
]

-- `head_lines.remove(0)` panics if there is none.
unfoldable pub read_lines : List Str → Outcome (List (Str × Str) × Str)
unfolding id_path extend_heads
read_lines [] = panics
read_lines (first ∷ head_lines) =
    let (heads, path) = id_path first in ok (extend_heads head_lines heads, path)

-- What is read from a trimmed text, cut at the separator if it has one: the heads, the path among
-- them, and where the body begins.
unfoldable pub packet_of : Str → Option (Str × Str) → Outcome (List (Str × Str) × ℕ)
unfolding read_lines lines map_insert utf8_len
packet_of path none = ok (map_insert head_path_name path [], 0)
packet_of value (some (head, _)) = read_lines (lines head) >>= λ (heads, path).
    ok (map_insert head_path_name path heads, utf8_len head + utf8_len head_body_separator)

unfoldable pub read_packet : Str → Outcome (List (Str × Str) × ℕ)
unfolding find_text packet_of
read_packet path = packet_of path (find_text head_body_separator path)

-- The head of an answer, up to its body.
abbrev pub head_line : Str × Str → Str
head_line (k, v) = k ++ b':' ∷ v

unfoldable pub print_heads : List (Str × Str) → Str
print_heads [] = []
print_heads (h ∷ heads) = b'\n' ∷ head_line h ++ print_heads heads

abbrev pub first_line : Option Str → Str → Str
first_line none path = path
first_line (some id) path = id ++ id_path_separator ∷ path

abbrev pub head_lines : Option Str → Str → List (Str × Str) → Str
head_lines id path heads = first_line id path ++ (print_heads heads ++ b'\n' ∷ [])

unfoldable pub print_head : Option Str → Str → List (Str × Str) → Str
unfolding print_heads
print_head id path heads = head_lines id path heads ++ (head_body_separator ++ b'\n' ∷ [])

-- The head that an answer is given: the id and the path of the request, and the heads set for it.
unfoldable pub answer_head :
    {Req Resp : Type 0} → (List (Str × Str) → List (Str × Str)) → Meta Req Resp → Str
unfolding print_head map_get
answer_head order meta =
    print_head (map_get head_id_name meta.heads)
      (elim (map_get head_path_name meta.heads) [ none ↦ [] | some v ↦ v ]) (order meta.resp_heads)
