-- ===== src/Protocol.antt =====
-- crates/router/src/protocol.rs: what every protocol keeps and does. A protocol is an instance of
-- `RoutableProtocol`, whose fields are the methods that the trait leaves open and its conversions.
use dce_rust.Base.{
  ◌≡◌, Bool, true, false, Option, none, some, List, [], ◌∷◌, ◌++◌, find, last, if◌then◌else◌,
  list_eq, nat_eq,
}
use dce_rust.Text.{Str, text}
use dce_rust.Maps.{map_get, map_insert}
use dce_rust.Error.{
  Outcome, ok, err, panics, out_of_fuel, DceErr, closed0_wrap, new_openly, pos, to_responsible,
  ◌>>=◌,
}
use dce_rust.Api.{Api, method_match}
use dce_rust.Request.{Context, put_data, get_as}
use dce_rust.Serializer.{Serialized, string, Serializable, Serializer, Deserializer}

abbrev pub head_path_name : Str
head_path_name = text "$#path#"

abbrev pub head_id_name : Str
head_id_name = text "$#id#"

abbrev pub head_sid_name : Str
head_sid_name = text "Session-Id"

pub data Response (Resp : Type 0) : Type 0 where
  serialized : Serialized → Response Resp
  raw : Resp → Response Resp

pub record Meta (Req Resp : Type 0) : Type 0 where
  pub req : Option Req
  pub resp : Option (Response Resp)
  pub heads : List (Str × Str)
  pub resp_heads : List (Str × Str)

module _ {Req Resp : Type 0} where
  unfoldable pub new_meta : Req → List (Str × Str) → Meta Req Resp
  new_meta req heads = record { req = some req; resp = none; heads = heads; resp_heads = [] }

  -- `Meta::req`.
  unfoldable pub req : Meta Req Resp → Outcome Req
  req meta = elim meta.req [
    | none ↦ closed0_wrap (text "Invalid empty request")
    | some found ↦ ok found
  ]

-- `Deref` and `DerefMut` to the `Meta` are its reading and writing.
pub record RoutableProtocol (Rp Req Resp : Type 0) : Type 0 where
  pub meta : Rp → Meta Req Resp
  pub set_meta : Meta Req Resp → Rp → Rp
  pub meta-set_meta : (m : Meta Req Resp) (rp : Rp) → meta (set_meta m rp) ≡ m
  pub body : Rp → Outcome Serialized × Rp
  pub pack_resp : Rp → Serialized → Resp
  pub into : Rp → Resp

-- `deserializer` takes the first, `serializer` the last one.
unfoldable pub deserialize : {Dto : Type 0} → List (Deserializer Dto) → Serialized → Outcome Dto
deserialize [] value = closed0_wrap (text "No deserializer configured")
deserialize (d ∷ ds) value = d value

unfoldable pub serialize :
    {Dto : Type 0} → List (Serializer Dto) → Serializable Dto → Outcome Serialized
serialize serializers value = elim (last serializers) [
  | none ↦ closed0_wrap (text "No serializer configured")
  | some s ↦ s value
]

unfoldable pub pack_responsible :
    {Dto Resp : Type 0}
    → List (Serializer Dto)
    → Serializable Dto
    → Outcome (Option (Response Resp))
unfolding serialize
pack_responsible serializers value = serialize serializers value >>= λ sd. ok (some (serialized sd))

module _ {Rp Req Resp : Type 0} (p : RoutableProtocol Rp Req Resp) where
  unfoldable pub path : Rp → Str
  unfolding map_get
  path rp = elim (map_get head_path_name (p.meta rp).heads) [ none ↦ [] | some v ↦ v ]

  unfoldable pub id : Rp → Option Str
  unfolding map_get
  id rp = map_get head_id_name (p.meta rp).heads

  unfoldable pub sid : Rp → Option Str
  unfolding map_get
  sid rp = map_get head_sid_name (p.meta rp).heads

  unfoldable pub set_resp_sid : Str → Rp → Rp
  unfolding map_insert
  set_resp_sid sid rp =
      let meta = p.meta rp in
      p.set_meta (record meta { resp_heads = map_insert head_sid_name sid meta.resp_heads }) rp

  unfoldable pub get_resp_sid : Rp → Option Str
  unfolding map_get
  get_resp_sid rp = map_get head_sid_name (p.meta rp).resp_heads

  -- `*resp_mut() = resp`.
  unfoldable pub set_resp : Option (Response Resp) → Rp → Rp
  set_resp resp rp = let meta = p.meta rp in p.set_meta (record meta { resp = resp }) rp

  abbrev pub method_not_found : Str → DceErr
  method_not_found path =
      new_openly (pos 404) (text "Path \"" ++ (path ++ text "\" cannot match any Api by Method"))

  unfoldable pub api_match : Rp → List (Api Rp) → Outcome (Api Rp)
  unfolding find method_match path
  api_match rp apis = elim (find (λ api. method_match api rp) apis) [
    | none ↦ err (method_not_found (path rp))
    | some api ↦ ok api
  ]

  unfoldable pub err_into : Rp → DceErr → Resp
  unfolding set_resp to_responsible
  err_into rp e = p.into (set_resp (some (raw (p.pack_resp rp (string (to_responsible e))))) rp)

  module _ {D : Type 0} where
    -- Whether no answer is sent: for a request without an api, if it has no id.
    unfoldable pub is_unanswered : Rp → Context Rp D → Bool
    unfolding id
    is_unanswered rp context = elim context.api [
      | none ↦ elim (id rp) [ none ↦ true | some _ ↦ false ]
      | some api ↦ api.unresponsive
    ]

    -- `handle_result`; a panic on the way here goes on.
    unfoldable pub handle_result : Rp → Outcome (Unit {0}) → Context Rp D → Outcome (Option Resp)
    unfolding is_unanswered err_into
    handle_result rp (ok _) context =
        ok (if is_unanswered rp context then none else some (p.into rp))
    handle_result rp (err e) context =
        ok (if is_unanswered rp context then none else some (err_into rp e))
    handle_result rp panics context = panics
    handle_result rp out_of_fuel context = out_of_fuel

-- The session that a request is bound to, as the data of any type hold it.
abbrev pub session_key : Str
session_key = text "$#session#"

module _ {Rp D S : Type 0} where
  unfoldable pub set_session : (S → D) → S → Context Rp D → Context Rp D
  unfolding put_data
  set_session box value context = put_data session_key (box value) context

  -- `session`, by `get_as_mut`: what is done with it stays in the data.
  unfoldable pub on_session :
      {A : Type 0}
      → (S → D)
      → (D → Option S)
      → Str
      → (S → Outcome A × S)
      → Context Rp D
      → Outcome A × Context Rp D
  unfolding get_as set_session
  on_session box downcast type_name change context =
      elim (get_as downcast type_name context session_key) [
        | ok s ↦ let (result, t) = change s in (result, set_session box t context)
        | err e ↦ (err e, context)
        | panics ↦ (panics, context)
        | out_of_fuel ↦ (out_of_fuel, context)
      ]
