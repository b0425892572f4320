-- ===== src/Session/ConnectionTests.antt =====
-- Connections of sessions in a redis that keeps fields only.
use dce_rust.Base.{ℕ, ◌≡◌, refl, none, some, [], ◌∷◌, ◌++◌, list_eq, nat_eq}
use dce_rust.Text.{Str, text}
use dce_rust.Maps.{map_insert}
use dce_rust.Error.{Outcome, ok}
use dce_rust.Session.User
use dce_rust.Session.Redis.{RedisSession, new_user_meta, silent_set, session_key, redis_store}
use dce_rust.Session.Sample.{Fields, commands, hash}
use dce_rust.Session.Connection.{
  Connection, Roots, update_shadow, connect, clone_for_request, new_connection_meta,
}
use dce_rust.Session.Connected.{ConnectionSession, redis_connection, connection_clone_with_id}

abbrev S : Type 0
S = ConnectionSession Fields ℕ

abbrev conn : Connection S
conn = redis_connection commands (λ u. u) (λ json. ok 7) (λ u. ok (text "u")) (ok (0, 0)) 7 hash

abbrev sid : Str
sid = text "0123456789ABCDEF0123456789ABCDEF0123456789ABCDEF0123456789ABCDEF003C6553F100"

abbrev session : RedisSession Fields ℕ
session = record {
  meta = record {
    sid_name = text "dcesid";
    ttl_minutes = 60;
    create_stamp = 0;
    sid = sid;
    touches = none;
  };
  user_meta = new_user_meta;
  redis = some [];
  cloned = none;
}

abbrev unbound_root : S
unbound_root = record {
  session = session;
  conn_meta = record {
    server_field = text "$server";
    shadow = none;
    server_unbound = some (some (text "a:1"));
  };
}

abbrev of_request : S
of_request = record {
  session = session;
  conn_meta = record { server_field = text "$server"; shadow = some 0; server_unbound = none };
}

abbrev new_sid : Str
new_sid = text "FEDCBA9876543210FEDCBA9876543210FEDCBA9876543210FEDCBA9876543210003C6553F1FF"

abbrev ran : Outcome (Unit {0}) × S × Roots S
ran = update_shadow conn (ok (0, 0)) 7 hash new_sid of_request (some unbound_root ∷ [])

-- The server is set in the record of the session.
server_set :
    ran.1.session.redis ≡ some ((text "dcesid:" ++ sid ++ text " $server", text "a:1") ∷ [])
unfolding update_shadow silent_set session_key map_insert
server_set = refl

-- The session of a request is made of the root.
cloned :
    clone_for_request conn 0 none
      (connect conn
        (text "a:1")
        (record { session = session; conn_meta = new_connection_meta })
        []).1
    ≡ ok (record of_request {
      session = record session {
        redis = none;
        meta = record session.meta { create_stamp = 1700000000 };
      };
    })
unfolding clone_for_request connect new_connection_meta connection_clone_with_id new_user_meta
    User.clone_with_id redis_store
cloned = refl
