-- ===== src/Answers.antt =====
-- `Request` of crates/router/src/request.rs: what a controller reads of a request and answers.
-- The context passes through; `deserializers` and `serializers` are those of the api.
use dce_rust.Base.{Bool, true, false, Option, none, some, List, []}
use dce_rust.Text.{Str}
use dce_rust.Error.{Outcome, ok, panics, ℤ, pos, ◌>>=◌}
use dce_rust.Request.{Context}
use dce_rust.Serializer.{dto, status as a_status, Serialized, Serializer, Deserializer}
use dce_rust.Protocol.{RoutableProtocol, Response, serialized, raw, deserialize, pack_responsible}

module _ {Rp Req Resp D : Type 0} (p : RoutableProtocol Rp Req Resp) where
  -- `dto`: the body, which may change the protocol, deserialized.
  unfoldable pub read_dto :
      {ReqDto : Type 0} → List (Deserializer ReqDto) → Context Rp D → Outcome ReqDto × Context Rp D
  unfolding deserialize
  read_dto deserializers context = elim context.rp [
    | none ↦ (panics, context)
    | some rp ↦
        let (body, after) = p.body rp in
        (body >>= λ b. deserialize deserializers b, record context { rp = some after })
  ]

module _ {Resp RespDto : Type 0} (serializers : List (Serializer RespDto)) where
  unfoldable pub status : Bool → Option RespDto → Option Str → ℤ → Outcome (Option (Response Resp))
  unfolding pack_responsible
  status succeeded data_dto message code = pack_responsible serializers (
      a_status (record {
        status = succeeded;
        code = code;
        message = elim message [ none ↦ [] | some m ↦ m ];
        data_dto = data_dto;
      }))

  unfoldable pub success : Option RespDto → Outcome (Option (Response Resp))
  unfolding status
  success data_dto = status true data_dto none (pos 0)

  unfoldable pub fail : Option Str → ℤ → Outcome (Option (Response Resp))
  unfolding status
  fail message code = status false none message code

  unfoldable pub resp : RespDto → Outcome (Option (Response Resp))
  unfolding pack_responsible
  resp value = pack_responsible serializers (dto value)

  unfoldable pub end : Option RespDto → Outcome (Option (Response Resp))
  unfolding pack_responsible
  end none = ok none
  end (some value) = pack_responsible serializers (dto value)

module _ {Resp : Type 0} where
  unfoldable pub pack : Serialized → Outcome (Option (Response Resp))
  pack value = ok (some (serialized value))

  unfoldable pub raw_resp : Resp → Outcome (Option (Response Resp))
  raw_resp value = ok (some (raw value))
