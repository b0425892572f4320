-- ===== src/Http.antt =====
-- crates/protocols/hyper/src/protocol.rs and serializer.rs: requests and answers over HTTP, with the
-- feature "session". What the files use of hyper is an interface; bodies are read at once.
pub mod Answers
pub mod Cookies
pub mod Sample
mod Tests
use dce_rust.Base.{
  ℕ, ◌+◌, ◌-◌, ◌%◌, ◌^◌, ◌≤◌, ◌<◌, ◌≡◌, ◌⊎◌, inl, inr, Bool, true, false, Option, none, some, List,
  [], ◌∷◌, ◌++◌, ltb, if◌then◌else◌, any, ◌==◌, list_eq, nat_eq,
}
use dce_rust.Text.{Str, text, split, trim_start_by}
use dce_rust.Text.Utf8.{as_bytes}
use dce_rust.Text.Lines.{find_text}
use dce_rust.Error.{
  Outcome, ok, err, panics, out_of_fuel, DceErr, openly, closed, value, ℤ, pos, negsuc,
  closed0_wrap, to_responsible, ◌>>=◌,
}
use dce_rust.Serializer.{
  Serialized, string, bytes, Serializable, dto, status, ResponseStatus, Serializer, Deserializer,
}
use dce_rust.Protocol.{Meta, Response, serialized, raw, new_meta, head_sid_name}
use dce_rust.Maps.{map_get}
use dce_rust.Request.{Context}

-- hyper, and http-body-util: `header` gives a header's value as text, if it is there and if it can be
-- shown; `from_str` makes a value of a text that can be one; `from_u16` makes a status of a number
-- from 100 to 999. A new response has the status 200.
pub record Hyper (Req Resp Method Value Status : Type 0) : Type 0 where
  pub uri_path : Req → Str
  pub method : Req → Method
  pub get : Method
  pub head : Method
  pub options : Method
  pub method_text : Method → Str
  pub method_eq : Method → Method → Bool
  pub header : Str → Req → Option (Option Str)
  pub collect : Req → Str ⊎ List ℕ
  pub new_response : List ℕ → Resp
  pub from_str : Str → Option Value
  pub insert_header : Str → Value → Resp → Resp
  pub from_u16 : ℕ → Option Status
  pub service_unavailable : Status
  pub set_status : Status → Resp → Resp

pub record HyperHttpProtocol (Req Resp : Type 0) : Type 0 where
  pub meta : Meta Req Resp

-- `code as u16`.
unfoldable pub as_u16 : ℤ → ℕ
as_u16 (pos n) = n % 2 ^ 16
as_u16 (negsuc n) = 2 ^ 16 - 1 - n % 2 ^ 16

abbrev pub below_600 : ℤ → Bool
below_600 (pos n) = ltb n 600
below_600 (negsuc n) = true

-- What stands behind "session_id=" in the first of the cookies that has it.
unfoldable pub find_sid : List Str → Option Str
unfolding find_text
find_sid [] = none
find_sid (kv ∷ cookies) =
    let rest = find_sid cookies in
    elim (find_text (text "session_id=") kv) [ none ↦ rest | some (_, sid) ↦ some sid ]

unfoldable pub cookie_sid : Option Str → Option Str
unfolding find_sid split
cookie_sid none = find_sid (split b';' [])
cookie_sid (some cookies) = find_sid (split b';' cookies)

-- The methods that an api allows, as its properties give them.
pub data MethodProp (Method : Type 0) : Type 0 where
  one : Method → MethodProp Method
  many : List Method → MethodProp Method
  other : MethodProp Method

module _ {Req Resp Method Value Status : Type 0} (hyper : Hyper Req Resp Method Value Status) where
  abbrev pub Rp : Type 0
  Rp = HyperHttpProtocol Req Resp

  unfoldable pub from_request : Req → Rp
  unfolding new_meta
  from_request value = record { meta = new_meta value [] }

  unfoldable pub pack_resp : Serialized → Resp
  unfolding as_bytes
  pack_resp (string s) = hyper.new_response (as_bytes s)
  pack_resp (bytes bs) = hyper.new_response bs

  unfoldable pub taken : Option (Response Resp) → Resp
  unfolding pack_resp
  taken none = hyper.new_response []
  taken (some (serialized sd)) = pack_resp sd
  taken (some (raw resp)) = resp

  -- The header of a new session id; a text that is no value of a header panics.
  unfoldable pub insert_sid : Option Str → Resp → Outcome Resp
  insert_sid none resp = ok resp
  insert_sid (some sid) resp = elim (hyper.from_str sid) [
    | none ↦ panics
    | some v ↦ ok (hyper.insert_header (text "X-Session-Id") v resp)
  ]

  unfoldable pub into : Rp → Outcome Resp
  unfolding taken insert_sid map_get
  into rp = insert_sid (map_get head_sid_name rp.meta.resp_heads) (taken rp.meta.resp)

  unfoldable pub body : Rp → Outcome Serialized × Rp
  body rp = elim rp.meta.req [
    | none ↦ (closed0_wrap (text "Empty request"), rp)
    | some req ↦ (
      elim (hyper.collect req) [ inl e ↦ closed0_wrap e | inr bs ↦ ok (bytes bs) ],
      record { meta = record rp.meta { req = none } },
    )
  ]

  unfoldable pub path : Rp → Str
  unfolding trim_start_by
  path rp = elim rp.meta.req [
    | none ↦ []
    | some req ↦ trim_start_by (λ c. c == b'/') (hyper.uri_path req)
  ]

  -- `err_into` of the trait, with the conversion of this protocol.
  unfoldable pub err_into : Rp → DceErr → Outcome Resp
  unfolding into pack_resp to_responsible
  err_into rp e = into (record {
    meta = record rp.meta { resp = some (raw (pack_resp (string (to_responsible e)))) };
  })

  unfoldable pub status_of : ℤ → Status
  unfolding as_u16
  status_of code = elim (hyper.from_u16 (as_u16 code)) [
    | none ↦ hyper.service_unavailable
    | some s ↦ s
  ]

  -- Only an open error with a code below 600 sets the status.
  unfoldable pub set_error_status : DceErr → Resp → Resp
  unfolding status_of
  set_error_status (openly e) resp =
      if below_600 e.code then hyper.set_status (status_of e.code) resp else resp
  set_error_status (closed e) resp = resp

  unfoldable pub handle_result : Rp → Outcome (Unit {0}) → Outcome (Option Resp)
  unfolding into err_into set_error_status
  handle_result rp (ok _) = into rp >>= λ resp. ok (some resp)
  handle_result rp (err e) = err_into rp e >>= λ resp. ok (some (set_error_status e resp))
  handle_result rp panics = panics
  handle_result rp out_of_fuel = out_of_fuel

  -- The answer of `handle` to what routing left: a handler may have taken the protocol out of the
  -- context, so that there is none to take.
  unfoldable pub answer : {D : Type 0} → Outcome (Unit {0}) × Context Rp D → Outcome (Option Resp)
  unfolding handle_result
  answer (ok u, context) = elim context.rp [ none ↦ ok none | some rp ↦ handle_result rp (ok u) ]
  answer (err e, context) = elim context.rp [ none ↦ ok none | some rp ↦ handle_result rp (err e) ]
  answer (panics, context) = panics
  answer (out_of_fuel, context) = out_of_fuel

  -- `route`, from what routing left: `unreachable!` where there is no answer.
  unfoldable pub route : {D : Type 0} → Outcome (Unit {0}) × Context Rp D → Outcome Resp
  unfolding answer
  route routed = answer routed >>= λ o. elim o [ none ↦ panics | some resp ↦ ok resp ]

  -- A header that cannot be shown panics.
  unfoldable pub sid : Rp → Outcome (Option Str)
  unfolding cookie_sid
  sid rp = elim rp.meta.req [
    | none ↦ ok none
    | some req ↦ elim (hyper.header (text "X-Session-Id") req) [
      | some none ↦ panics
      | some (some v) ↦ ok (some v)
      | none ↦ ok (elim (hyper.header (text "cookie") req) [ none ↦ none | some v ↦ cookie_sid v ])
    ]
  ]

  unfoldable pub method : Rp → Method
  method rp = elim rp.meta.req [ none ↦ hyper.get | some req ↦ hyper.method req ]

  -- `parse_http_method`: the methods allowed; none for a property of another type.
  unfoldable pub parse_http_method : Option (MethodProp Method) → Option (List Method)
  parse_http_method none = some (hyper.get ∷ hyper.head ∷ hyper.options ∷ [])
  parse_http_method (some (one m)) = some (m ∷ [])
  parse_http_method (some (many ms)) = some ms
  parse_http_method (some other) = none

  unfoldable pub req_match : List Method → Rp → Bool
  unfolding any method
  req_match methods rp = any (λ m. hyper.method_eq m (method rp)) methods

  -- The text of the methods allowed, each behind a comma, in the order of the set.
  unfoldable pub methods_from : Str → List Method → Str
  methods_from front [] = front
  methods_from front (m ∷ ms) = methods_from (front ++ (text ", " ++ hyper.method_text m)) ms

  unfoldable pub methods_text : List Method → Str
  unfolding methods_from
  methods_text methods = b'[' ∷ methods_from [] methods ++ text "]"

-- `SailfishSerializer`: the templates that sailfish renders are parameters.
module _ {Dto : Type 0} (render_dto : Dto → Str ⊎ Str)
    (render_notfound render_status : ResponseStatus Dto → Str ⊎ Str) where
  abbrev pub rendered : Str ⊎ Str → Outcome Serialized
  rendered (inl e) = closed0_wrap e
  rendered (inr s) = ok (string s)

  unfoldable pub is_404 : ℤ → Bool
  is_404 (pos n) = n == 404
  is_404 (negsuc n) = false

  unfoldable pub sailfish_serialize : Serializer Dto
  unfolding is_404
  sailfish_serialize (dto v) = rendered (render_dto v)
  sailfish_serialize (status s) = elim s.data_dto [
    | some v ↦ rendered (render_dto v)
    | none ↦ rendered (if is_404 s.code then render_notfound s else render_status s)
  ]

  unfoldable pub sailfish_deserialize : Deserializer Dto
  sailfish_deserialize value = panics
