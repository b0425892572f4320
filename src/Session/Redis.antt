-- ===== src/Session/Redis.antt =====
-- crates/session/src/redis.rs: the sessions that are kept in redis, in the build without the feature
-- "connection". The commands of the redis crate are a parameter; their errors are the closed ones
-- that the source makes of them.
use dce_rust.Base.{
  ℕ, zero, suc, ◌-◌, ◌%◌, ◌^◌, refl, Bool, true, false, Option, none, some, List, ◌∷◌, ◌++◌, leb,
  if◌then◌else◌,
}
use dce_rust.Text.{Str, text}
use dce_rust.Error.{Outcome, ok, err, panics, out_of_fuel, closed0_wrap, ℤ, pos, negsuc, ◌>>=◌}
use dce_rust.Session.Meta.{Meta, ttl_seconds}
use dce_rust.Session.Meta
use dce_rust.Session.Trait.{Ran, ◌>>!◌, Session}

pub record Redis (R : Type 0) : Type 0 where
  pub hset : Str → Str → Str → R → Ran Bool R
  pub hget : Str → Str → R → Ran Str R
  pub hdel : Str → Str → R → Ran Bool R
  pub del : Str → R → Ran Bool R
  pub expire : Str → ℕ → R → Ran Bool R
  pub hset_multiple : Str → List (Str × Str) → R → Ran Bool R
  pub hgetall : Str → R → Ran (List (Str × Str)) R
  pub ttl : Str → R → Ran ℤ R
  pub sadd : Str → Str → R → Ran Bool R
  pub srem : Str → Str → R → Ran Bool R
  pub smembers : Str → R → Ran (List Str) R
  pub exists : Str → R → Ran Bool R

-- `UserMeta` of crates/session/src/user.rs.
pub record UserMeta (U : Type 0) : Type 0 where
  pub key_prefix : Str
  pub user_field : Str
  pub try_loaded : Bool
  pub user : Option U

-- A clone has no redis and no clone of its own.
pub record Snapshot (U : Type 0) : Type 0 where
  pub meta : Meta
  pub user_meta : UserMeta U

pub record RedisSession (R U : Type 0) : Type 0 where
  pub meta : Meta
  pub user_meta : UserMeta U
  pub redis : Option R
  pub cloned : Option (Snapshot U)

unfoldable pub gen_key : Str → Str → Str
gen_key sid_name id = sid_name ++ b':' ∷ id

module _ {U : Type 0} where
  unfoldable pub new_user_meta : UserMeta U
  new_user_meta = record {
    key_prefix = text "dceusmap";
    user_field = text "$user";
    try_loaded = false;
    user = none;
  }

  abbrev pub set_user : Option U → UserMeta U → UserMeta U
  set_user user user_meta = record user_meta { user = user }

  unfoldable pub config_user : Option Str → Option Str → UserMeta U → UserMeta U
  config_user key_prefix user_field user_meta = record user_meta {
    key_prefix = elim key_prefix [ none ↦ user_meta.key_prefix | some prefix ↦ prefix ];
    user_field = elim user_field [ none ↦ user_meta.user_field | some field ↦ field ];
  }

-- `ttl as u32`, and a subtraction of `u32` that is checked; only a time above 0 counts.
unfoldable pub passed : ℕ → ℤ → Outcome ℕ
passed seconds (negsuc n) = closed0_wrap (text "ttl was not initialized yet.")
passed seconds (pos zero) = closed0_wrap (text "ttl was not initialized yet.")
passed seconds (pos (suc n)) =
    let left = suc n % 2 ^ 32 in if leb left seconds then ok (seconds - left) else panics

module _ {R U : Type 0} where
  unfoldable pub with_meta : Meta → RedisSession R U
  unfolding new_user_meta
  with_meta meta = record { meta = meta; user_meta = new_user_meta; redis = none; cloned = none }

  unfoldable pub new : Outcome (ℕ × ℕ) → ℕ → (Str → Str) → ℕ → Outcome (RedisSession R U)
  unfolding with_meta Meta.new
  new now random hash ttl_minutes =
      Meta.new now random hash ttl_minutes >>= λ meta. ok (with_meta meta)

  -- `new_with_id`.
  unfoldable pub new_with_id : List Str → Outcome (RedisSession R U)
  unfolding with_meta Meta.new_with_sid
  new_with_id sid_pool = Meta.new_with_sid sid_pool >>= λ meta. ok (with_meta meta)

  -- `with` and `redis_then`.
  unfoldable pub set_redis : R → RedisSession R U → RedisSession R U
  set_redis redis s = record s { redis = some redis }

  -- `self.redis()?` and a command on it.
  unfoldable pub on_redis {ℓ} :
      {A : Type ℓ} → (R → Outcome A × R) → RedisSession R U → Outcome A × RedisSession R U
  on_redis command s = elim s.redis [
    | none ↦ (closed0_wrap (text "Not set the redis yet"), s)
    | some redis ↦ let (result, after) = command redis in (result, record s { redis = some after })
  ]

  unfoldable pub session_key : RedisSession R U → Str
  unfolding gen_key
  session_key s = gen_key s.meta.sid_name s.meta.sid

  module _ (commands : Redis R) where
    unfoldable pub silent_set : Str → Str → RedisSession R U → Ran Bool (RedisSession R U)
    unfolding on_redis session_key
    silent_set field value s =
        on_redis (commands.hset (session_key s) field value) s >>! (λ _ t. (ok true, t))

    unfoldable pub silent_get : Str → RedisSession R U → Ran Str (RedisSession R U)
    unfolding on_redis session_key
    silent_get field s = on_redis (commands.hget (session_key s) field) s

    unfoldable pub silent_del : Str → RedisSession R U → Ran Bool (RedisSession R U)
    unfolding on_redis session_key
    silent_del field s = on_redis (commands.hdel (session_key s) field) s

    unfoldable pub touch : RedisSession R U → Ran Bool (RedisSession R U)
    unfolding on_redis session_key ttl_seconds
    touch s = on_redis (commands.expire (session_key s) (ttl_seconds s.meta)) s

    unfoldable pub load : List (Str × Str) → RedisSession R U → Ran Bool (RedisSession R U)
    unfolding on_redis session_key
    load data_map s = on_redis (commands.hset_multiple (session_key s) data_map) s

    unfoldable pub raw : RedisSession R U → Ran (List (Str × Str)) (RedisSession R U)
    unfolding on_redis session_key
    raw s = on_redis (commands.hgetall (session_key s)) s

    -- An error of redis here is the same as a time that is not positive; no redis is one of its own.
    unfoldable pub ttl_of : Str → RedisSession R U → Ran ℕ (RedisSession R U)
    unfolding passed ttl_seconds
    ttl_of key s = elim s.redis [
      | none ↦ (closed0_wrap (text "Not set the redis yet"), s)
      | some redis ↦
          let (result, after) = commands.ttl key redis in
          (
            elim result [
              | ok ttl ↦ passed (ttl_seconds s.meta) ttl
              | err e ↦ closed0_wrap (text "ttl was not initialized yet.")
              | panics ↦ panics
              | out_of_fuel ↦ out_of_fuel
            ],
            record s { redis = some after },
          )
    ]

    unfoldable pub ttl_passed : RedisSession R U → Ran ℕ (RedisSession R U)
    unfolding ttl_of session_key
    ttl_passed s = ttl_of (session_key s) s

    -- The key of the session that was cloned, under the present name.
    unfoldable pub cloned_key : RedisSession R U → Outcome Str
    unfolding gen_key
    cloned_key s = elim s.cloned [
      | none ↦ closed0_wrap (text "None cloned cannot get id")
      | some snapshot ↦ ok (gen_key s.meta.sid_name snapshot.meta.sid)
    ]

    unfoldable pub cloned_silent_set : Str → Str → RedisSession R U → Ran Bool (RedisSession R U)
    unfolding on_redis cloned_key
    cloned_silent_set field value s =
        (cloned_key s, s)
        >>! (λ key t. on_redis (commands.hset key field value) t)
        >>! (λ _ t. (ok true, t))

    unfoldable pub cloned_touch : RedisSession R U → Ran Bool (RedisSession R U)
    unfolding on_redis cloned_key ttl_seconds
    cloned_touch s =
        (cloned_key s, s) >>! (λ key t. on_redis (commands.expire key (ttl_seconds s.meta)) t)

    unfoldable pub cloned_ttl_passed : RedisSession R U → Ran ℕ (RedisSession R U)
    unfolding ttl_of cloned_key
    cloned_ttl_passed s = (cloned_key s, s) >>! (λ key t. ttl_of key t)

    -- What the trait `Session` asks for.
    unfoldable pub redis_store : Session (RedisSession R U)
    unfolding gen_key silent_set silent_get silent_del touch load raw
    redis_store = record {
      meta = λ s. s.meta;
      set_meta = λ meta s. record s { meta = meta };
      meta-set_meta = λ meta s. refl;
      gen_key = gen_key;
      silent_set = silent_set;
      silent_get = silent_get;
      silent_del = silent_del;
      touch = touch;
      load = load;
      raw = raw;
    }
