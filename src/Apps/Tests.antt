-- ===== src/Apps/Tests.antt =====
-- The applications, on small requests and a small redis.
use dce_rust.Base.{
  arith, ℕ, ◌≡◌, refl, Bool, false, none, some, List, [], ◌∷◌, ◌++◌, any, list_eq, nat_eq, list_beq,
}
use dce_rust.Text.{Str, text, str_eq, join}
use dce_rust.Text.Utf8.{as_bytes}
use dce_rust.Maps.{map_get}
use dce_rust.Error.{ok, err, new_openly, pos}
use dce_rust.Api.{Api}
use dce_rust.Request.{Context, option, put_data}
use dce_rust.Serializer.{string, Serializer}
use dce_rust.Protocol.{session_key}
use dce_rust.Http.{HyperHttpProtocol}
use dce_rust.Http.Sample.{Resp, hyper}
use dce_rust.Session.Redis.{
  RedisSession, new_user_meta, redis_store, cloned_touch, cloned_silent_set,
}
use dce_rust.Session.Sample.{Fields, commands, view, laws, hash, cons-IsFresh}
use dce_rust.Session.User
use dce_rust.Session.Auto.{AutoRenew}
use dce_rust.Session.Auto
use dce_rust.Answers.{success}
use dce_rust.Wire.Sample.{plain, is_text}
use dce_rust.Apps.Greetings.{Answered, session_path, hello_key, interceptor, is_manager, session}
use dce_rust.Apps.Greetings.Entering.{session-interceptor}
use dce_rust.Wire.Tcp.{SemiTcpProtocol, from_bytes}
use dce_rust.Wire.Tcp
use dce_rust.Apps.Access.{Member, Draw, Uses, C, uid_of, opened, before_controller}
use dce_rust.Apps.Access.Refusals.{before_controller-refuses}
use dce_rust.Apps.Access.Steps.{told_sid}
use dce_rust.Apps.Access.Telling.{Told, before_controller-tells}
use dce_rust.Apps.Clients.{request_text}
use dce_rust.Apps.Clients.Requests.{request_heads, request-from_bytes}

abbrev Sessions : Type 0
Sessions = RedisSession Fields Member

-- An application whose apis with an id ask for the role 2.
abbrev uses : Uses Str Resp Bool Str ℕ Sessions Fields
uses = record {
  hyper = hyper;
  query = λ r. none;
  roles = λ api. elim api.id [ [] ↦ none | _ ↦ some (2 ∷ []) ];
  box = λ s. s;
  commands = commands;
  redis = [];
  from_json = λ json. ok (record { id = 1; name = json; role_id = 1 });
  to_json = λ member. ok member.name;
  hash = hash;
}

abbrev api : Str → Str → Api (HyperHttpProtocol Str Resp)
api path id = record {
  controller = 1;
  method = none;
  path = path;
  suffixes = [];
  id = id;
  omission = false;
  redirect = [];
  name = [];
  unresponsive = false;
}

abbrev asking : Str → Str → C uses
asking cookie id = record {
  api = some (api (text "manage/user") id);
  rp =
      some
        (record { meta = record { req = some cookie; resp = none; heads = []; resp_heads = [] } });
  path_params = [];
  suffix = none;
  data_map = [];
}

abbrev draw : ℕ → Draw
draw secs = record { now = ok (secs, 5); random = 7 }

-- A session of some time ago.
abbrev old_sid : Str
old_sid = text "FEDCBA9876543210FEDCBA9876543210FEDCBA9876543210FEDCBA9876543210003c6553f100"

abbrev of_old : C uses
of_old = asking (text "session_id=" ++ old_sid) []

abbrev old_auto : AutoRenew Sessions
old_auto = Auto.config (some 240) none none none (
    Auto.new (record {
      meta = record {
        sid_name = text "dcesid";
        ttl_minutes = 60;
        create_stamp = 1700000000;
        sid = old_sid;
        touches = none;
      };
      user_meta = new_user_meta;
      redis = some [];
      cloned = none;
    }))

opened_test : opened uses (draw 1700001000) of_old ≡ ok old_auto
unfolding opened str_eq
opened_test = refl

abbrev renewed_context : C uses
renewed_context = (before_controller uses (draw 1700001000) (draw 1700001000) of_old).1

renewed_test :
    before_controller uses (draw 1700001000) (draw 1700001000) of_old ≡ (ok tt, renewed_context)
unfolding before_controller str_eq map_get redis_store cloned_touch cloned_silent_set
renewed_test = refl

before_controller-tells_example :
    (s : Sessions) × (map_get session_key renewed_context.data_map ≡ some s)
    × Told (told_sid uses renewed_context) old_sid s.meta.sid
unfolding map_get Auto.config Auto.new
before_controller-tells_example =
    before_controller-tells uses view laws (draw 1700001000) (draw 1700001000) of_old
      renewed_context old_auto
      (cons-IsFresh (ok (1700001000, 5)) 7 70
        (text "EDCBA9876543210FEDCBA9876543210FEDCBA9876543210FEDCBA9876543210003c6553f100")
        (omega arith))
      opened_test refl renewed_test

-- No user is stored for the session, so that an api with a role is refused.
abbrev private_of_old : C uses
private_of_old = asking (text "session_id=" ++ old_sid) (text "x")

opened_private : opened uses (draw 1700001000) private_of_old ≡ ok old_auto
unfolding opened str_eq
opened_private = refl

abbrev read_session : Sessions
read_session = (User.user commands (uid_of uses) uses.from_json uses.to_json old_auto.session).1

nobody :
    User.user commands (uid_of uses) uses.from_json uses.to_json old_auto.session
    ≡ (ok none, read_session)
unfolding User.user Auto.config Auto.new new_user_meta map_get
nobody = refl

before_controller-refuses_example :
    before_controller uses (draw 1700001000) (draw 1700001000) private_of_old
    ≡ (err (new_openly (pos 401) (text "Unauthorized")), private_of_old)
before_controller-refuses_example =
    before_controller-refuses uses (draw 1700001000) (draw 1700001000) private_of_old old_auto
      read_session (api (text "manage/user") (text "x")) 2 [] none opened_private refl refl nobody
      refl

hello_request : request_text (text "hello" ∷ []) (text "42") ≡ text "0;hello>BODY>>>42"
unfolding request_text
hello_request = refl

request-from_bytes_example :
    (read : SemiTcpProtocol) × (from_bytes (as_bytes (request_text (text "hello" ∷ []) (text "42")))
      ≡ ok read)
    × (read.meta.heads ≡ request_heads (join b'/' (text "hello" ∷ [])))
    × ((Tcp.body (λ bs. []) read).0 ≡ ok (string (text "42")))
unfolding join any request_text
request-from_bytes_example =
    request-from_bytes (λ bs. []) (text "hello" ∷ []) (text "42")
      (plain (text "hello") refl refl refl) (is_text (text "0;hello>BODY>>>42") refl)

abbrev entering : Context (HyperHttpProtocol Str Resp) Str
entering = record {
  api = some (api session_path []);
  rp = none;
  path_params = (text "username", option (some (text "dce"))) ∷ [];
  suffix = none;
  data_map = [];
}

abbrev serializers : List (Serializer ℕ)
serializers = (λ value. ok (string (text "done"))) ∷ []

entered :
    interceptor (text "attach the to controller") entering
    ≡ (ok tt, put_data hello_key (text "attach the to controller") entering)
unfolding interceptor map_get
entered = refl

session-interceptor_example :
    ◌≡◌ {A = Answered Resp}
      (session serializers
        (λ d. some d)
        (put_data hello_key (text "attach the to controller") entering))
      (success serializers none)
unfolding map_get str_eq list_beq is_manager
session-interceptor_example =
    session-interceptor serializers (λ d. some d) (text "attach the to controller")
      (text "attach the to controller") entering
      (put_data hello_key (text "attach the to controller") entering) (api session_path []) refl
      refl refl entered
