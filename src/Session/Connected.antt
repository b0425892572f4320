-- ===== src/Session/Connected.antt =====
-- crates/session/src/redis.rs with the feature "connection": a session in redis has the meta of its
-- connection. That of a clone kept by a session is not read, and is left out.
use dce_rust.Base.{ℕ, refl, Bool}
use dce_rust.Text.{Str}
use dce_rust.Error.{Outcome, ok, ◌>>=◌}
use dce_rust.Session.Trait.{Ran}
use dce_rust.Session.Redis.{Redis, RedisSession, on_redis, session_key, silent_set}
use dce_rust.Session.User
use dce_rust.Session.Connection.{ConnectionMeta, Connection}

pub record ConnectionSession (R U : Type 0) : Type 0 where
  pub session : RedisSession R U
  pub conn_meta : ConnectionMeta

module _ {R U : Type 0} where
  -- What an operation of the session does leaves the meta of the connection.
  abbrev pub lift_ran :
      {A : Type 0} → ConnectionMeta → Ran A (RedisSession R U) → Ran A (ConnectionSession R U)
  lift_ran c m = (m.0, record { session = m.1; conn_meta = c })

  module _ (commands : Redis R) (uid_of : U → ℕ) (from_json : Str → Outcome U)
      (to_json : U → Outcome Str) (now : Outcome (ℕ × ℕ)) (random : ℕ) (hash : Str → Str) where
    unfoldable pub connection_unbinding : ConnectionSession R U → Ran Bool (ConnectionSession R U)
    unfolding on_redis session_key
    connection_unbinding s =
        lift_ran s.conn_meta
          (on_redis (commands.hdel (session_key s.session) s.conn_meta.server_field) s.session)

    unfoldable pub connection_clone_with_id :
        Str → ConnectionSession R U → Outcome (ConnectionSession R U)
    unfolding User.clone_with_id
    connection_clone_with_id sid s =
        User.clone_with_id commands uid_of from_json to_json now random hash sid s.session
        >>= λ cloned. ok (record { session = cloned; conn_meta = s.conn_meta })

    abbrev pub redis_connection : Connection (ConnectionSession R U)
    redis_connection = record {
      meta = λ s. s.session.meta;
      set_meta = λ m s. record s { session = record s.session { meta = m } };
      conn_meta = λ s. s.conn_meta;
      set_conn_meta = λ c s. record s { conn_meta = c };
      silent_set =
          λ field value s. lift_ran s.conn_meta (silent_set commands field value s.session);
      clone_with_id = connection_clone_with_id;
      unbinding = connection_unbinding;
      meta-set_meta = λ m s. refl;
      conn_meta-set_conn_meta = λ c s. refl;
      conn_meta-set_meta = λ m s. refl;
      conn_meta-silent_set = λ field value s. refl;
    }
