-- ===== src/Session/Renewal/Succeeding.antt =====
-- That the renewal of a session succeeds in a redis that answers.
use dce_rust.Base.{
  ℕ, Bool, true, false, Option, none, some, List, is_empty, Option-cases, Bool-cases, inl, inr,
}
use dce_rust.Text.{Str, text}
use dce_rust.Error.{Outcome, ok, err, panics, out_of_fuel, closed0_wrap}
use dce_rust.Session.Meta.{Meta}
use dce_rust.Session.Meta
use dce_rust.Session.Trait.{Ran, ◌>>!◌, apply_filters, is_touched}
use dce_rust.Session.Trait
use dce_rust.Session.Redis.{
  Redis, RedisSession, on_redis, redis_store, silent_get, session_key, load, touch, raw,
}
use dce_rust.Session.User.{dropped, keep_user, loaded}
use dce_rust.Session.User
use dce_rust.Session.Working.{
  IsSettled, IsWorking, Succeeds, Settles, >>!-Succeeds, >>!-Settles, Settles-of_Succeeds,
  dropped-Succeeds, IsConnected, on_redis-Succeeds, on_redis-Settles,
}

module _ {R U : Type 0} (commands : Redis R) (working : IsWorking commands) (uid_of : U → ℕ)
    (from_json : Str → Outcome U) (to_json : U → Outcome Str)
    (readable : (json : Str) → IsSettled (from_json json)) where
  abbrev S : Type 0
  S = RedisSession R U

  keep_user-Settles :
      (m : Ran Str S)
      → Settles IsConnected m
      → Settles IsConnected (keep_user commands uid_of from_json to_json m)
  unfolding keep_user
  keep_user-Settles (ok json, s) h =
      elim (from_json json)
          as (λ o.
            IsSettled o
            → Settles IsConnected (elim o as (λ _. Ran (Unit {0}) S) [
              | ok user ↦ (ok tt, User.with_user commands uid_of from_json to_json (some user) s)
              | err e ↦ (ok tt, s)
              | panics ↦ (panics, s)
              | out_of_fuel ↦ (out_of_fuel, s)
            ])) [ ok user ↦ λ r. h | err e ↦ λ r. h | panics ↦ λ r. r | out_of_fuel ↦ λ r. r ]
        (readable json)
  keep_user-Settles (err e, s) h = h
  keep_user-Settles (panics, s) h = h
  keep_user-Settles (out_of_fuel, s) h = h

  user-Settles :
      (s : S) → IsConnected s → Settles IsConnected (User.user commands uid_of from_json to_json s)
  unfolding User.user silent_get
  user-Settles s c = elim (Bool-cases s.user_meta.try_loaded) [
    | inl known ↦ rw (User.user, known) c
    | inr fresh ↦
        let read = silent_get commands s.user_meta.user_field s in
        rw (User.user, fresh)
          (>>!-Settles IsConnected (keep_user commands uid_of from_json to_json read)
            (λ _ t.
              let noted = loaded commands uid_of from_json to_json true t in
              (ok noted.user_meta.user, noted))
            (keep_user-Settles read (
              on_redis-Settles (commands.hget (session_key s) s.user_meta.user_field) s
                (λ r. working.hget-IsSettled (session_key s) s.user_meta.user_field r) c))
            (λ _ t g. g))
  ]

  found-Settles :
      (found : Option U) (t : S)
      → IsConnected t
      → Settles IsConnected (elim found as (λ _. Ran ℕ S) [
        | none ↦ (closed0_wrap (text "Not a logged session cannot take uid"), t)
        | some u ↦ (ok (uid_of u), t)
      ])
  found-Settles none t h = h
  found-Settles (some u) t h = h

  mapping-Settles :
      (s : S)
      → IsConnected s
      → Settles IsConnected (User.mapping commands uid_of from_json to_json s)
  unfolding User.mapping User.user_key User.uid
  mapping-Settles s c =
      let uid = User.uid commands uid_of from_json to_json s in
      let key = User.user_key commands uid_of from_json to_json s in
      >>!-Settles IsConnected key
        (λ key t.
          on_redis (commands.sadd key t.meta.sid) t
          >>! (λ _ u. on_redis (commands.expire key User.mapping_ttl_seconds) u))
        (>>!-Settles IsConnected uid (λ id t. (ok (User.gen_user_key t.user_meta.key_prefix id), t))
          (>>!-Settles IsConnected (User.user commands uid_of from_json to_json s)
            (λ found t. elim found [
              | none ↦ (closed0_wrap (text "Not a logged session cannot take uid"), t)
              | some u ↦ (ok (uid_of u), t)
            ])
            (user-Settles s c) found-Settles)
          (λ id t g. g))
        (λ key t g.
          >>!-Settles IsConnected (on_redis (commands.sadd key t.meta.sid) t)
            (λ _ u. on_redis (commands.expire key User.mapping_ttl_seconds) u)
            (on_redis-Settles (commands.sadd key t.meta.sid) t
              (λ r. working.sadd-IsSettled key t.meta.sid r) g)
            (λ _ u k.
              Settles-of_Succeeds IsConnected
                (on_redis (commands.expire key User.mapping_ttl_seconds) u)
                (on_redis-Succeeds (commands.expire key User.mapping_ttl_seconds) u
                  (λ r. working.expire-IsOk key User.mapping_ttl_seconds r) k)))

  touch-Succeeds :
      (s : S)
      → IsConnected s
      → Succeeds (λ _ t. IsConnected t) (Trait.try_touch (redis_store commands) s)
  unfolding Trait.try_touch redis_store touch
  touch-Succeeds s c = elim (Option-cases s.meta.touches) [
    | inl never ↦
        rw (Trait.try_touch, never)
          (>>!-Succeeds (λ _ t. IsConnected t) (λ _ t. IsConnected t) (touch commands s)
            (λ touches t.
              let kept = record t { meta = record t.meta { touches = some touches } } in
              (ok (is_touched (redis_store commands) kept), kept))
            (on_redis-Succeeds _ s (λ r. working.expire-IsOk (session_key s) _ r) c)
            (λ touches t g. g))
    | inr (b, there) ↦ rw (Trait.try_touch, there) c
  ]

  load_or_not-Succeeds :
      (filtered : List (Str × Str)) (b : Bool) (s : S)
      → IsConnected s
      → Succeeds
          (λ _ t. IsConnected t)
          (elim b as (λ _. Ran Bool S) [
            | true ↦ (ok true, s)
            | false ↦
                load commands filtered s
                >>! (λ _ loaded. Trait.try_touch (redis_store commands) loaded)
          ])
  unfolding load
  load_or_not-Succeeds filtered true s c = c
  load_or_not-Succeeds filtered false s c =
      >>!-Succeeds (λ _ t. IsConnected t) (λ _ t. IsConnected t) (load commands filtered s)
        (λ _ loaded. Trait.try_touch (redis_store commands) loaded)
        (on_redis-Succeeds (commands.hset_multiple (session_key s) filtered) s
          (λ r. working.hset_multiple-IsOk (session_key s) filtered r) c)
        (λ _ t g. touch-Succeeds t g)

  module _ (secs nanos random : ℕ) (hash : Str → Str) where
    pub renew-Succeeds :
        (filters : List (Str × Option Str)) (s : S)
        → IsConnected s
        → Succeeds
            (λ _ t. IsConnected t)
            (User.renew commands uid_of from_json to_json (ok (secs, nanos)) random hash filters s)
    unfolding User.renew Trait.renew Trait.renew_meta redis_store raw Meta.renew
    renew-Succeeds filters s c =
        let store : Trait.Session S = redis_store commands in
        let now : Outcome (ℕ × ℕ) = ok (secs, nanos) in
        let rest = λ (filtered : List (Str × Str)) (renewed : S).
          elim (is_empty filtered) as (λ _. Ran Bool S) [
            | true ↦ (ok true, renewed)
            | false ↦
                load commands filtered renewed
                >>! (λ _ loaded. Trait.try_touch (redis_store commands) loaded)
          ] in
        let Live = λ (_ : Bool) (t : S). IsConnected t in
        >>!-Succeeds Live Live (Trait.renew store now random hash filters s)
          (λ result t.
            dropped (
              User.mapping commands uid_of from_json to_json
                (loaded commands uid_of from_json to_json false t))
            >>! (λ _ u. (ok result, u)))
          (>>!-Succeeds (λ _ t. IsConnected t) Live (raw commands s)
            (λ found t.
              Trait.renew_meta store now random hash none t
              >>! (λ _ renewed. rest (apply_filters filters found) renewed))
            (on_redis-Succeeds (commands.hgetall (session_key s)) s
              (λ r. working.hgetall-IsOk (session_key s) r) c)
            (λ found t g.
              load_or_not-Succeeds (apply_filters filters found)
                (is_empty (apply_filters filters found)) _ g))
          (λ result t g.
            let unloaded = loaded commands uid_of from_json to_json false t in
            let mapped = User.mapping commands uid_of from_json to_json unloaded in
            >>!-Succeeds (λ _ u. IsConnected u) Live (dropped mapped) (λ _ u. (ok result, u))
              (dropped-Succeeds IsConnected mapped (mapping-Settles unloaded g)) (λ _ u k. k))
