-- ===== src/Cli/Passing.antt =====
-- Which arguments make the path, and which are passed on.
use dce_rust.Base.{
  ◌≡◌, refl, sym, ap, ◌∙◌, some, List, [], ◌∷◌, ◌++◌, All, append-nil, append_assoc, list_eq,
  nat_eq,
}
use dce_rust.Text.{Str, join}
use dce_rust.Maps.{map_get}
use dce_rust.Protocol.{head_path_name}
use dce_rust.Cli.{CliProtocol, ArgType, Parsed, parse_type, parse_args, from_args, pass_separator}
use dce_rust.Cli

abbrev pub IsPart : Str → Type 0
IsPart arg = parse_type arg ≡ Cli.path

abbrev with_path : Parsed → List Str → List Str → Parsed
with_path seen parts passed = record seen {
  pass = seen.pass ++ passed;
  paths = seen.paths ++ parts;
}

-- A part joins the path, whatever comes after it.
parse_args-part :
    (arg : Str) (value : List Str) (seen : Parsed)
    → IsPart arg
    → parse_args (arg ∷ value) seen
      ≡ parse_args value (record seen { paths = seen.paths ++ arg ∷ [] })
unfolding parse_args
parse_args-part arg [] seen h = rw (h, parse_args) refl
parse_args-part arg (next ∷ value) seen h = rw (h, parse_args) refl

parse_args-separator :
    (after : List Str) (seen : Parsed)
    → parse_args (pass_separator ∷ after) seen ≡ record seen { pass = seen.pass ++ after }
unfolding parse_args parse_type
parse_args-separator [] seen =
    ap (λ (l : List Str). record seen { pass = l }) (sym (append-nil seen.pass))
parse_args-separator (next ∷ value) seen = refl

parse_args-append :
    (parts after : List Str) (seen : Parsed)
    → All IsPart parts
    → parse_args (parts ++ pass_separator ∷ after) seen ≡ with_path seen parts after
parse_args-append [] after seen h =
    parse_args-separator after seen
    ∙ ap (λ (l : List Str). record seen { pass = seen.pass ++ after; paths = l })
        (sym (append-nil seen.paths))
parse_args-append (arg ∷ parts) after seen (p, h) =
    parse_args-part arg (parts ++ pass_separator ∷ after) seen p
    ∙ parse_args-append parts after (record seen { paths = seen.paths ++ arg ∷ [] }) h
    ∙ ap (λ (l : List Str). record seen { pass = seen.pass ++ after; paths = l })
        (append_assoc seen.paths (arg ∷ []) parts)

-- Of a command of parts of a path, a separator and more arguments, the parts make the path, joined
-- by slashes, and all that stands behind the separator is passed on as it is, whatever it looks
-- like; no argument is bound.
pub from_args-append :
    (parts after : List Str)
    → All IsPart parts
    → ((from_args (parts ++ pass_separator ∷ after)).pass ≡ after)
      × (map_get head_path_name (from_args (parts ++ pass_separator ∷ after)).meta.heads
          ≡ some (join b'/' parts))
      × ((from_args (parts ++ pass_separator ∷ after)).args ≡ [])
unfolding from_args map_get
from_args-append parts after h =
    let run = parse_args-append parts after (record { pass = []; paths = []; args = [] }) h in
    (
      ap (λ (q : Parsed). q.pass) run,
      ap (λ (q : Parsed). some (join b'/' q.paths)) run,
      ap (λ (q : Parsed). q.args) run,
    )
