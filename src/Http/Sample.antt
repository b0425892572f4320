-- ===== src/Http/Sample.antt =====
-- A small hyper, for runs: a request is its cookies, a response its status and its body.
use dce_rust.Base.{
  ℕ, Bool, true, false, none, some, List, [], leb, ltb, ◌&&◌, if◌then◌else◌, inr, list_eq, nat_eq,
}
use dce_rust.Text.{Str, text, str_eq}
use dce_rust.Http.{Hyper}

abbrev pub Resp : Type 0
Resp = ℕ × List ℕ

abbrev pub hyper : Hyper Str Resp Bool Str ℕ
hyper = record {
  uri_path = λ r. text "/x";
  method = λ r. true;
  get = true;
  head = false;
  options = false;
  method_text = λ m. text "GET";
  method_eq = λ a b. a;
  header = λ name req. if str_eq name (text "cookie") then some (some req) else none;
  collect = λ req. inr [];
  new_response = λ b. (200, b);
  from_str = λ s. some s;
  insert_header = λ name v r. r;
  from_u16 = λ n. if leb 100 n && ltb n 1000 then some n else none;
  service_unavailable = 503;
  set_status = λ s r. (s, r.1);
}
