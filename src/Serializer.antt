-- ===== src/Serializer.antt =====
-- crates/router/src/serializer.rs: what is serialized, and the two serializers. The functions of
-- serde_json and of `String::from_utf8_lossy` are parameters.
use dce_rust.Base.{ℕ, Bool, Option, none, some, List, if◌then◌else◌}
use dce_rust.Text.{Str, text}
use dce_rust.Error.{Outcome, ok, closed0_wrap, ℤ, ◌>>=◌}

pub record ResponseStatus (Dto : Type 0) : Type 0 where
  pub status : Bool
  pub code : ℤ
  pub message : Str
  pub data_dto : Option Dto

pub data Serializable (Dto : Type 0) : Type 0 where
  dto : Dto → Serializable Dto
  status : ResponseStatus Dto → Serializable Dto

pub data Serialized : Type 0 where
  string : Str → Serialized
  bytes : List ℕ → Serialized

abbrev pub Deserializer : Type 0 → Type 0
Deserializer Dto = Serialized → Outcome Dto

abbrev pub Serializer : Type 0 → Type 0
Serializer Dto = Serializable Dto → Outcome Serialized

unfoldable pub to_string : (List ℕ → Str) → Serialized → Str
to_string from_utf8_lossy (string v) = v
to_string from_utf8_lossy (bytes v) = from_utf8_lossy v

-- `json_value`, which reads the text as a value of serde_json.
unfoldable pub json_value :
    {Json : Type 0} → (List ℕ → Str) → (Str → Outcome Json) → Serialized → Outcome Json
unfolding to_string
json_value from_utf8_lossy from_str value = from_str (to_string from_utf8_lossy value)

-- `Result::or` with an error of the framework.
abbrev or_closed {ℓ} : {A : Type ℓ} → Option A → Str → Outcome A
or_closed none message = closed0_wrap message
or_closed (some a) message = ok a

module _ {Dto : Type 0} where
  -- `StringSerializer`: what it does to a status says only whether it is one of success.
  unfoldable pub string_deserialize : (Serialized → Dto) → Deserializer Dto
  string_deserialize from value = ok (from value)

  unfoldable pub string_serialize : (Dto → Serialized) → Serializer Dto
  string_serialize into (dto v) = ok (into v)
  string_serialize into (status s) =
      ok (string (if s.status then text "succeeded" else text "failed"))

  -- `JsonSerializer`; `none` is a failure of serde_json.
  unfoldable pub json_deserialize : (Str → Option Dto) → (List ℕ → Option Dto) → Deserializer Dto
  json_deserialize from_str from_slice (string v) =
      or_closed (from_str v) (text "Serialized cannot deserialize to ReqDto")
  json_deserialize from_str from_slice (bytes v) =
      or_closed (from_slice v) (text "Serialized cannot deserialize to ReqDto")

  unfoldable pub json_serialize :
      (Dto → Option Str) → (ResponseStatus Dto → Option Str) → Serializer Dto
  json_serialize dto_json status_json (dto v) =
      or_closed (dto_json v) (text "RespDto not a jsonable") >>= λ s. ok (string s)
  json_serialize dto_json status_json (status v) =
      or_closed (status_json v) (text "RespDto not a jsonable") >>= λ s. ok (string s)
