-- ===== src/Cli.antt =====
-- crates/protocols/cli/src/protocol.rs: the arguments of a command as a request.
pub mod Passing
mod Tests
use dce_rust.Base.{
  ℕ, ◌≡◌, Bool, true, false, Option, none, some, List, [], ◌∷◌, ◌++◌, drop, if◌then◌else◌, list_eq,
  nat_eq,
}
use dce_rust.Text.{Str, text, str_eq, split_once, starts_with, join}
use dce_rust.Maps.{map_get, map_insert}
use dce_rust.Error.{Outcome, ok, err, panics, out_of_fuel}
use dce_rust.Request.{Context}
use dce_rust.Serializer.{Serialized, string, bytes}
use dce_rust.Protocol.{Meta, Response, serialized, raw, new_meta, head_path_name, head_sid_name}

abbrev pub pass_separator : Str
pass_separator = text "--"

pub data ArgType : Type 0 where
  assign_expr : Str → Str → ArgType
  prefix_name : ArgType
  down_flow_separator : ArgType
  path : ArgType

pub record CliProtocol : Type 0 where
  pub meta : Meta (List Str) Str
  pub pass : List Str
  pub args : List (Str × Str)

unfoldable pub parse_type : Str → ArgType
unfolding split_once starts_with str_eq
parse_type arg = elim (split_once b'=' arg) [
  | some (left, right) ↦ assign_expr left right
  | none ↦
      if starts_with arg (text "-")
      then if str_eq arg pass_separator then down_flow_separator else prefix_name
      else path
]

-- What the loop of `from` has gathered: the arguments by name, the parts of the path, and what is
-- passed on.
pub record Parsed : Type 0 where
  pub pass : List Str
  pub paths : List Str
  pub args : List (Str × Str)

-- The loop of `from`. An argument with a prefix takes the next one, if that is for the path, and
-- all that follows a separator is passed on.
unfoldable pub parse_args : List Str → Parsed → Parsed
unfolding parse_type map_insert
parse_args [] seen = seen
parse_args (arg ∷ []) seen = elim (parse_type arg) [
  | assign_expr name value ↦ record seen { args = map_insert name value seen.args }
  | prefix_name ↦ record seen { args = map_insert arg [] seen.args }
  | down_flow_separator ↦ seen
  | path ↦ record seen { paths = seen.paths ++ arg ∷ [] }
]
parse_args (arg ∷ next ∷ value) seen = elim (parse_type arg) [
  | assign_expr name v ↦
      parse_args (next ∷ value) (record seen { args = map_insert name v seen.args })
  | prefix_name ↦ elim (parse_type next) [
    | path ↦ parse_args value (record seen { args = map_insert arg next seen.args })
    | _ ↦ parse_args (next ∷ value) (record seen { args = map_insert arg [] seen.args })
  ]
  | down_flow_separator ↦ record seen { pass = seen.pass ++ next ∷ value }
  | path ↦ parse_args (next ∷ value) (record seen { paths = seen.paths ++ arg ∷ [] })
]

unfoldable pub from_args : List Str → CliProtocol
unfolding parse_args join new_meta
from_args value =
    let parsed = parse_args value (record { pass = []; paths = []; args = [] }) in
    record {
      meta = new_meta [] ((head_path_name, join b'/' parsed.paths) ∷ []);
      pass = parsed.pass;
      args = parsed.args;
    }

-- `new`: the arguments of the process, of which the first `base` are not read.
unfoldable pub new : ℕ → List Str → CliProtocol
unfolding from_args
new base raw_args =
    let cli = from_args (drop base raw_args) in
    record cli { meta = record cli.meta { req = some raw_args } }

module _ (from_utf8_lossy : List ℕ → Str) where
  unfoldable pub pack_resp : Serialized → Str
  pack_resp (string s) = s
  pack_resp (bytes bs) = from_utf8_lossy bs

  -- What `resp_mut().take()` leaves to show.
  unfoldable pub shown : Option (Response Str) → Str
  unfolding pack_resp
  shown none = []
  shown (some (serialized sd)) = pack_resp sd
  shown (some (raw resp)) = resp

  -- `Into<String>`, with the feature "session".
  unfoldable pub into : CliProtocol → Str
  unfolding shown map_get
  into cli = elim (map_get head_sid_name cli.meta.resp_heads) [
    | none ↦ shown cli.meta.resp
    | some sid ↦ shown cli.meta.resp ++ (text "\n\nNew sid: " ++ sid)
  ]

  module _ {D : Type 0} where
    unfoldable pub is_unanswered : Context CliProtocol D → Bool
    is_unanswered context = elim context.api [ none ↦ false | some api ↦ api.unresponsive ]

    -- `handle_result` here answers no error.
    unfoldable pub handle_result :
        CliProtocol → Outcome (Unit {0}) → Context CliProtocol D → Outcome (Option Str)
    unfolding into is_unanswered
    handle_result cli (ok _) context = ok (if is_unanswered context then none else some (into cli))
    handle_result cli (err e) context = ok none
    handle_result cli panics context = panics
    handle_result cli out_of_fuel context = out_of_fuel

unfoldable pub sid : CliProtocol → Option Str
unfolding map_get
sid cli = map_get (text "--sid") cli.args
