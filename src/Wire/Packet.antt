-- ===== src/Wire/Packet.antt =====
-- What is printed and read again, of the packets of the network.
use dce_rust.Base.{
  ℕ, ◌+◌, ◌≡◌, refl, ap, sym, ◌∙◌, Option, none, some, List, [], ◌∷◌, ◌++◌, map, append_assoc, All,
  All-append, arith, subst, list_eq, nat_eq,
}
use dce_rust.Text.{Str, text, utf8_len, trim, trim_end, is_whitespace}
use dce_rust.Text.Split.{FreeOf, split_once-append, split_once-free}
use dce_rust.Text.Lines.{
  find_text, lines, find_text-append, lines-free_append, StartsUnspaced, StartsUnspaced-append,
  trim-append,
}
use dce_rust.Maps.{map_insert}
use dce_rust.Error.{ok}
use dce_rust.Protocol.{head_id_name, head_path_name}
use dce_rust.Wire.{
  head_of, extend_heads, id_path, read_lines, packet_of, read_packet, print_heads, print_head,
  head_line, head_lines, first_line, head_body_separator, id_path_separator,
}

-- A text that can stand in a head: it has no line end, and no character that begins the separator.
abbrev pub IsPlain : Str → Type 0
IsPlain s = FreeOf b'\n' s × FreeOf b'\r' s × FreeOf b'>' s

abbrev pub IsPlainHead : Str × Str → Type 0
IsPlainHead (k, v) = FreeOf b':' k × IsPlain k × IsPlain v

-- The id has no separator; where there is no id, the path has none.
abbrev pub IsPlainFirst : Option Str → Str → Type 0
IsPlainFirst none path = FreeOf id_path_separator path × IsPlain path
IsPlainFirst (some id) path = FreeOf id_path_separator id × IsPlain id × IsPlain path

-- The heads that are read from printed ones: the id first, the others in order, the path last.
abbrev pub insert_all : List (Str × Str) → List (Str × Str) → List (Str × Str)
insert_all [] heads = heads
insert_all ((k, v) ∷ hs) heads = insert_all hs (map_insert k v heads)

abbrev pub heads_of : Option Str → Str → List (Str × Str) → List (Str × Str)
heads_of id path hs =
    map_insert head_path_name path
      (insert_all hs (elim id [ none ↦ [] | some i ↦ map_insert head_id_name i [] ]))

IsPlain-append :
    (c : ℕ) (a b : Str) → IsPlain a → IsPlain (c ∷ []) → IsPlain b → IsPlain (a ++ c ∷ b)
IsPlain-append c a b (n, r, g) ((n', _), (r', _), (g', _)) (n'', r'', g'') = (
  All-append _ a (c ∷ b) n (n', n''),
  All-append _ a (c ∷ b) r (r', r''),
  All-append _ a (c ∷ b) g (g', g''),
)

head_line-IsPlain : (h : Str × Str) → IsPlainHead h → IsPlain (head_line h)
head_line-IsPlain (k, v) (free, pk, pv) =
    IsPlain-append b':' k v pk
      (((λ e. omega arith), tt), ((λ e. omega arith), tt), ((λ e. omega arith), tt)) pv

first_line-IsPlain :
    (id : Option Str) (path : Str) → IsPlainFirst id path → IsPlain (first_line id path)
first_line-IsPlain none path (free, p) = p
first_line-IsPlain (some id) path (free, pi, pp) =
    IsPlain-append b';' id path pi
      (((λ e. omega arith), tt), ((λ e. omega arith), tt), ((λ e. omega arith), tt)) pp

head_of-head_line : (h : Str × Str) → IsPlainHead h → head_of (head_line h) ≡ h
unfolding head_of
head_of-head_line (k, v) (free, _, _) = rw (head_of, split_once-append b':' k v free) refl

extend_heads-lines :
    (hs heads : List (Str × Str))
    → All IsPlainHead hs
    → extend_heads (map head_line hs) heads ≡ insert_all hs heads
unfolding extend_heads
extend_heads-lines [] heads h = refl
extend_heads-lines ((k, v) ∷ hs) heads (p, h) =
    rw (extend_heads, head_of-head_line (k, v) p) (extend_heads-lines hs (map_insert k v heads) h)

-- The printed heads are cut into their lines again.
lines-print_heads :
    (a : Str) (hs : List (Str × Str))
    → IsPlain a
    → All IsPlainHead hs
    → lines (a ++ (print_heads hs ++ b'\n' ∷ [])) ≡ a ∷ map head_line hs
unfolding print_heads
lines-print_heads a [] (n, r, g) h = lines-free_append a [] n r ∙ (unfold lines in refl)
lines-print_heads a (x ∷ hs) (n, r, g) (p, h) =
    ap (λ t. lines (a ++ b'\n' ∷ t)) (append_assoc (head_line x) (print_heads hs) (b'\n' ∷ []))
    ∙ (lines-free_append a _ n r
        ∙ ap (λ t. a ∷ t) (lines-print_heads (head_line x) hs (head_line-IsPlain x p) h))

print_heads-FreeOf : (hs : List (Str × Str)) → All IsPlainHead hs → FreeOf b'>' (print_heads hs)
unfolding print_heads
print_heads-FreeOf [] h = tt
print_heads-FreeOf (x ∷ hs) (p, h) = (
  (λ e. omega arith),
  All-append _ (head_line x) _ (head_line-IsPlain x p).2 (print_heads-FreeOf hs h),
)

head_lines-FreeOf :
    (id : Option Str) (path : Str) (hs : List (Str × Str))
    → IsPlainFirst id path
    → All IsPlainHead hs
    → FreeOf b'>' (head_lines id path hs)
head_lines-FreeOf id path hs f h =
    All-append _ (first_line id path) _ (first_line-IsPlain id path f).2
      (All-append _ (print_heads hs) _ (print_heads-FreeOf hs h) ((λ e. omega arith), tt))

id_path-first_line :
    (id : Option Str) (path : Str)
    → IsPlainFirst id path
    → id_path (first_line id path)
      ≡ (elim id [ none ↦ [] | some i ↦ map_insert head_id_name i [] ], path)
unfolding id_path
id_path-first_line none path (free, _) = rw (id_path, split_once-free b';' path free) refl
id_path-first_line (some id) path (free, _, _) =
    rw (id_path, split_once-append b';' id path free) refl

read_packet_lem :
    (path : Str) → read_packet path ≡ packet_of path (find_text head_body_separator path)
unfolding read_packet
read_packet_lem path = refl

-- The lines of a printed head are read as its heads, whatever the text behind the separator.
pub read_packet-head_lines :
    (id : Option Str) (path : Str) (hs : List (Str × Str)) (behind : Str)
    → IsPlainFirst id path
    → All IsPlainHead hs
    → read_packet (head_lines id path hs ++ (head_body_separator ++ behind))
      ≡ ok (heads_of id path hs, utf8_len (head_lines id path hs) + 8)
unfolding read_packet read_lines
read_packet-head_lines id path hs behind f h =
    let found =
      find_text-append b'>' (text "BODY>>>") (head_lines id path hs) behind
        (head_lines-FreeOf id path hs f h) in
    let cut = lines-print_heads (first_line id path) hs (first_line-IsPlain id path f) h in
    let whole = head_lines id path hs ++ (head_body_separator ++ behind) in
    read_packet_lem whole
    ∙ (ap (packet_of whole) found
        ∙ rw (packet_of, cut, read_lines, id_path-first_line id path f)
            (rw (extend_heads-lines hs _ h) refl))

-- A printed head and a body, trimmed, are the head and what stays of the body.
pub trim-print_head :
    (id : Option Str) (path : Str) (hs : List (Str × Str)) (body : Str)
    → StartsUnspaced (first_line id path)
    → trim (print_head id path hs ++ body)
      ≡ head_lines id path hs ++ (head_body_separator ++ trim_end (b'\n' ∷ body))
unfolding print_head is_whitespace
trim-print_head id path hs body h =
    let lines = head_lines id path hs in
    let front = lines ++ text ">BODY>>" in
    let shape : (behind : Str) → lines ++ (head_body_separator ++ behind) ≡ front ++ b'>' ∷ behind =
      λ behind. sym (append_assoc lines (text ">BODY>>") (b'>' ∷ behind)) in
    let joined : print_head id path hs ++ body ≡ lines ++ (head_body_separator ++ b'\n' ∷ body) =
      append_assoc lines (head_body_separator ++ b'\n' ∷ []) body in
    let starts : StartsUnspaced (front ++ b'>' ∷ b'\n' ∷ body) =
      subst StartsUnspaced (shape (b'\n' ∷ body))
        (StartsUnspaced-append lines _ (StartsUnspaced-append (first_line id path) _ h)) in
    ap trim (joined ∙ shape (b'\n' ∷ body))
    ∙ (trim-append b'>' front (b'\n' ∷ body) starts refl ∙ sym (shape (trim_end (b'\n' ∷ body))))
