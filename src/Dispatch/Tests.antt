-- ===== src/Dispatch/Tests.antt =====
-- Requests of a protocol of texts.
use dce_rust.Base.{ℕ, ◌≡◌, ◌≢◌, ◌⊎◌, refl, false, Option, none, some, [], ◌∷◌, list_eq, nat_eq}
use dce_rust.Text.{Str, text}
use dce_rust.Error.{ok, err, closed, DceError, pos}
use dce_rust.Api.{Api, path_part_separator}
use dce_rust.Api.Suffixes.{suffix_boundary}
use dce_rust.Request.{Context}
use dce_rust.Serializer.{Serialized, string, bytes}
use dce_rust.Protocol.{
  Meta, RoutableProtocol, Response, serialized, raw, path, id, api_match, err_into, handle_result,
}
use dce_rust.Router.Registry.{Router, sync}
use dce_rust.Router.Locate.{locate, path_not_found}
use dce_rust.Dispatch.{Handled, handle}
use dce_rust.Dispatch.Laws.{handle_result-closed, handle-not_found}

abbrev Rp : Type 0
Rp = Meta Str Str

abbrev D : Type 0
D = Unit {0}

abbrev packed : Serialized → Str
packed (string s) = s
packed (bytes bs) = bs

abbrev shown : Option (Response Str) → Str
shown none = []
shown (some (serialized sd)) = packed sd
shown (some (raw r)) = r

abbrev texts : RoutableProtocol Rp Str Str
texts = record {
  meta = λ rp. rp;
  set_meta = λ meta rp. meta;
  meta-set_meta = λ meta rp. refl;
  body = λ rp. (ok (string []), rp);
  pack_resp = λ rp sd. packed sd;
  into = λ rp. shown rp.resp;
}

abbrev request : Rp
request = record {
  req = none;
  resp = none;
  heads = (text "$#path#", text "x") ∷ (text "$#id#", text "1") ∷ [];
  resp_heads = [];
}

abbrev noted : Context Rp D → Context Rp D
noted context = record context { data_map = (text "called", tt) ∷ context.data_map }

abbrev controllers : ℕ → Context Rp D → Handled (Option (Response Str)) Rp D
controllers n context = (ok (some (raw (text "hi"))), noted context)

abbrev router : Router Rp D
router = record {
  path_part_separator = path_part_separator;
  suffix_boundary = suffix_boundary;
  api_buffer = [];
  raw_omitted_paths = [];
  id_api_mapping = [];
  apis_mapping = [];
  apis_tree = [];
  before_controller = some (sync (λ context. (ok tt, noted context)));
  after_controller = none;
}

abbrev api : Api Rp
api = record {
  controller = 1;
  method = none;
  path = text "x";
  suffixes = record { text = [] } ∷ [];
  id = [];
  omission = false;
  redirect = [];
  name = [];
  unresponsive = false;
}

abbrev context : Context Rp D
context = record {
  api = some api;
  rp = some request;
  path_params = [];
  suffix = none;
  data_map = [];
}

abbrev error : ℕ → DceError
error n = record { code = pos n; message = text "secret" }

handle_result-closed_example :
    handle_result texts request (err (closed (error 1))) context
    ≡ handle_result texts request (err (closed (error 2))) context
handle_result-closed_example = handle_result-closed texts request context (error 1) (error 2)

not_found :
    locate router (api_match texts request) 1 (path texts request) ≡ err (path_not_found (text "x"))
unfolding locate path
not_found = refl

handle-not_found_example :
    ((id texts request ≡ none) × (handle texts controllers router 1 request [] ≡ ok none))
    ⊎ ((id texts request ≢ none)
        × (handle texts controllers router 1 request []
            ≡ ok (some (err_into texts request (path_not_found (text "x"))))))
handle-not_found_example =
    handle-not_found texts controllers router 1 request [] (path_not_found (text "x")) not_found
