-- ===== src/Http/Tests.antt =====
-- Requests and answers of a small hyper: a request is its cookies, a response its status and its body.
use dce_rust.Base.{
  ℕ, ◌≡◌, refl, Bool, true, false, none, some, [], ◌∷◌, leb, ltb, ◌&&◌, if◌then◌else◌, ◌==◌, inl,
  inr, arith, ◌⊎◌, ◌↔◌, Option, ◌≤◌, ◌<◌, list_beq, any, list_eq, nat_eq,
}
use dce_rust.Maps.{map_get}
use dce_rust.Text.Lines.{find_text}
use dce_rust.Text.{starts_with, Str, text, str_eq, join}
use dce_rust.Text.Split.{FreeOf}
use dce_rust.Error.{ok, err, panics, new_openly, new_closed, pos}
use dce_rust.Protocol.{head_sid_name}
use dce_rust.Request.{Context}
use dce_rust.Http.{Hyper, HyperHttpProtocol, handle_result, sid, answer, route, methods_text}
use dce_rust.Http.Sample.{Resp, hyper}
use dce_rust.Http.Answers.{
  Statuses, handle_result-status, Panicking, route-panics_iff, expected_status,
}
use dce_rust.Http.Cookies.{sid-cookie}

no_status :
    (n : ℕ) → (n < 100) ⊎ (1000 ≤ n) → (if leb 100 n && ltb n 1000 then some n else none) ≡ none
no_status n (inl a) = let f : (leb 100 n && ltb n 1000) ≡ false = ground arith in rw f refl
no_status n (inr b) = let f : (leb 100 n && ltb n 1000) ≡ false = ground arith in rw f refl

free : (c : ℕ) (s : Str) → any (λ d. d == c) s ≡ false → FreeOf c s
unfolding any
free c [] e = tt
free c (d ∷ s) e = (ground arith, free c s (ground arith))

laws : Statuses hyper
laws = record {
  status = λ r. r.0;
  number = λ s. s;
  status-new = λ b. refl;
  status-insert = λ k v r. refl;
  status-set = λ s r. refl;
  from_u16-number = λ n a b.
      let fits : (leb 100 n && ltb n 1000) ≡ true = ground arith in (n, rw fits refl, refl);
  from_u16-none = λ n h. no_status n h;
  unavailable = refl;
}

abbrev request : HyperHttpProtocol Str Resp
request = record {
  meta = record {
    req = some (text "a=b; session_id=xyz;c=d");
    resp = none;
    heads = [];
    resp_heads = [];
  };
}

handle_result-status_example :
    (resp : Resp) × (handle_result hyper request (err (new_openly (pos 404) (text "gone")))
      ≡ ok (some resp))
    × (resp.0 ≡ expected_status (new_openly (pos 404) (text "gone")))
unfolding map_get list_beq laws
handle_result-status_example =
    handle_result-status hyper laws request (new_openly (pos 404) (text "gone")) tt

-- A closed error is answered by the status of a success.
closed_status : (code : ℕ) (message : Str) → expected_status (new_closed (pos code) message) ≡ 200
closed_status code message = refl

-- A hyper in which no text can be the value of a header.
abbrev unsendable : Hyper Str Resp Bool Str ℕ
unsendable = record hyper { from_str = λ s. none }

abbrev with_sid : HyperHttpProtocol Str Resp
with_sid = record {
  meta = record {
    req = none;
    resp = none;
    heads = [];
    resp_heads = (head_sid_name, text "x") ∷ [];
  };
}

abbrev context : Option (HyperHttpProtocol Str Resp) → Context (HyperHttpProtocol Str Resp) Str
context rp = record { api = none; rp = rp; path_params = []; suffix = none; data_map = [] }

route-panics_iff_example :
    (route unsendable (ok tt, context (some with_sid)) ≡ panics)
    ↔ Panicking unsendable (ok tt, context (some with_sid))
route-panics_iff_example = route-panics_iff unsendable (ok tt, context (some with_sid))

panicked : route unsendable (ok tt, context (some with_sid)) ≡ panics
unfolding route answer handle_result map_get list_beq
panicked = refl

-- A handler that takes the protocol.
taken_by_handler : route hyper (ok tt, context none) ≡ panics
unfolding route answer
taken_by_handler = refl

sid-cookie_example : sid hyper request ≡ ok (some (text "xyz"))
unfolding str_eq list_beq join any find_text starts_with
sid-cookie_example =
    sid-cookie hyper request (text "a=b; session_id=xyz;c=d") (text "a=b" ∷ []) (text " ")
      (text "xyz") (text "c=d" ∷ []) refl refl refl (refl, tt) (free b';' (text "a=b") refl, tt)
      (free b's' (text " ") refl) (free b';' (text " ") refl) (free b';' (text "xyz") refl)
      (free b';' (text "c=d") refl, tt)

methods_shown : methods_text hyper (true ∷ true ∷ []) ≡ text "[, GET, GET]"
unfolding methods_text
methods_shown = refl
