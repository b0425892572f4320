-- ===== src/Session/User.antt =====
-- crates/session/src/user.rs, and the methods of the trait `User` in crates/session/src/redis.rs:
-- the user of a session, and the sessions of a user. The conversions of serde_json and the id of a
-- user are parameters.
use dce_rust.Base.{ℕ, Bool, true, false, Option, none, some, List, [], ◌∷◌, ◌++◌, list_ord, nat_ord}
use dce_rust.Text.{Str, text, show_nat}
use dce_rust.Maps.{set_insert, set_extend}
use dce_rust.Error.{Outcome, ok, err, panics, out_of_fuel, closed0_wrap, ◌>>=◌}
use dce_rust.Session.Meta.{Meta}
use dce_rust.Session.Meta
use dce_rust.Session.Trait.{Ran, ◌>>!◌}
use dce_rust.Session.Trait
use dce_rust.Session.Redis.{
  Redis, RedisSession, UserMeta, set_user, gen_key, on_redis, silent_get, silent_del, redis_store,
  cloned_key,
}

-- `MAPPING_TTL_SECONDS`.
abbrev pub mapping_ttl_seconds : ℕ
mapping_ttl_seconds = 604800

unfoldable pub gen_user_key : Str → ℕ → Str
unfolding show_nat
gen_user_key user_prefix id = user_prefix ++ b':' ∷ show_nat id

-- `let _ =`: an error is dropped.
unfoldable pub dropped : {A S : Type 0} → Ran A S → Ran (Unit {0}) S
dropped (ok a, s) = (ok tt, s)
dropped (err e, s) = (ok tt, s)
dropped (panics, s) = (panics, s)
dropped (out_of_fuel, s) = (out_of_fuel, s)

module _ {R U : Type 0} (commands : Redis R) (uid_of : U → ℕ) (from_json : Str → Outcome U)
    (to_json : U → Outcome Str) where
  abbrev pub S : Type 0
  S = RedisSession R U

  abbrev pub with_user : Option U → S → S
  with_user user s = record s { user_meta = set_user user s.user_meta }

  abbrev pub loaded : Bool → S → S
  loaded b s = record s { user_meta = record s.user_meta { try_loaded = b } }

  -- What has been read of the user: only a text that is one counts.
  unfoldable pub keep_user : Ran Str S → Ran (Unit {0}) S
  keep_user (ok json, s) = elim (from_json json) [
    | ok user ↦ (ok tt, with_user (some user) s)
    | err e ↦ (ok tt, s)
    | panics ↦ (panics, s)
    | out_of_fuel ↦ (out_of_fuel, s)
  ]
  keep_user (err e, s) = (ok tt, s)
  keep_user (panics, s) = (panics, s)
  keep_user (out_of_fuel, s) = (out_of_fuel, s)

  -- `user`: read from the store once.
  unfoldable pub user : S → Ran (Option U) S
  unfolding keep_user silent_get
  user s = elim s.user_meta.try_loaded [
    | true ↦ (ok s.user_meta.user, s)
    | false ↦
        keep_user (silent_get commands s.user_meta.user_field s)
        >>! (λ _ t. let noted = loaded true t in (ok noted.user_meta.user, noted))
  ]

  unfoldable pub uid : S → Ran ℕ S
  unfolding user
  uid s = user s >>! (λ found t. elim found [
    | none ↦ (closed0_wrap (text "Not a logged session cannot take uid"), t)
    | some u ↦ (ok (uid_of u), t)
  ])

  unfoldable pub user_key : S → Ran Str S
  unfolding uid gen_user_key
  user_key s = uid s >>! (λ id t. (ok (gen_user_key t.user_meta.key_prefix id), t))

  unfoldable pub mapping : S → Ran Bool S
  unfolding user_key on_redis
  mapping s = user_key s >>! (λ key t.
      on_redis (commands.sadd key t.meta.sid) t
      >>! (λ _ u. on_redis (commands.expire key mapping_ttl_seconds) u))

  unfoldable pub unmap_key : Str → Ran Str S → Ran Bool S
  unfolding on_redis
  unmap_key sid (ok key, s) = on_redis (commands.srem key sid) s
  unmap_key sid (err e, s) = (ok false, s)
  unmap_key sid (panics, s) = (panics, s)
  unmap_key sid (out_of_fuel, s) = (out_of_fuel, s)

  unfoldable pub unmapping : S → Ran Bool S
  unfolding unmap_key user_key
  unmapping s = unmap_key s.meta.sid (user_key s)

  -- `destroy` of the trait `Session`.
  unfoldable pub destroy : S → Ran Bool S
  unfolding unmapping on_redis gen_key
  destroy s =
      unmapping s >>! (λ _ t. on_redis (commands.del (gen_key t.meta.sid_name t.meta.sid)) t)

  -- The user that was cloned is not loaded here.
  unfoldable pub cloned_unmapping : S → Ran Bool S
  unfolding on_redis gen_user_key
  cloned_unmapping s = elim s.cloned [
    | none ↦ (ok false, s)
    | some c ↦ elim c.user_meta.user [
      | none ↦ (ok false, s)
      | some u ↦
          on_redis (commands.srem (gen_user_key c.user_meta.key_prefix (uid_of u)) c.meta.sid) s
    ]
  ]

  -- The old session may not have been stored, so that the result is true in any case.
  unfoldable pub cloned_destroy : S → Ran Bool S
  unfolding cloned_unmapping cloned_key on_redis
  cloned_destroy s =
      cloned_unmapping s
      >>! (λ _ t. (cloned_key commands t, t))
      >>! (λ key t. on_redis (commands.del key) t)
      >>! (λ _ t. (ok true, t))

  unfoldable pub all_sid : ℕ → S → Ran (List Str) S
  unfolding gen_user_key on_redis
  all_sid id s = on_redis (commands.smembers (gen_user_key s.user_meta.key_prefix id)) s

  -- The sids whose session is there still; the others are taken from the user, if that succeeds.
  unfoldable pub filter_from : Str → List Str → List Str → S → Ran (List Str) S
  unfolding gen_key on_redis set_insert dropped
  filter_from key filtered [] s = (ok filtered, s)
  filter_from key filtered (sid ∷ sids) s =
      on_redis (commands.exists (gen_key s.meta.sid_name sid)) s >>! (λ there t. elim there [
        | true ↦ filter_from key (set_insert sid filtered) sids t
        | false ↦
            dropped (on_redis (commands.srem key sid) t)
            >>! (λ _ u. filter_from key filtered sids u)
      ])

  unfoldable pub filter_sids : ℕ → List Str → S → Ran (List Str) S
  unfolding filter_from gen_user_key
  filter_sids id sids s = filter_from (gen_user_key s.user_meta.key_prefix id) [] sids s

  unfoldable pub sids : ℕ → S → Ran (List Str) S
  unfolding all_sid filter_sids set_extend
  sids id s = all_sid id s >>! (λ all t. filter_sids id (set_extend [] all) t)

  unfoldable pub sync_each : Str → Str → List Str → S → Ran Bool S
  unfolding gen_key on_redis
  sync_each field json [] s = (ok true, s)
  sync_each field json (sid ∷ more) s =
      on_redis (commands.hset (gen_key s.meta.sid_name sid) field json) s
      >>! (λ _ t. sync_each field json more t)

  unfoldable pub sync : U → S → Ran Bool S
  unfolding sids sync_each
  sync u s = (to_json u, s) >>! (λ json t.
      sids (uid_of u) t >>! (λ found v. sync_each t.user_meta.user_field json found v))

  unfoldable pub logout : S → Ran Bool S
  unfolding user unmapping silent_del
  logout s = user s >>! (λ found t. elim found [
    | none ↦ (ok false, t)
    | some _ ↦
        unmapping t >>! (λ _ u. silent_del commands u.user_meta.user_field (with_user none u))
  ])

  module _ (now : Outcome (ℕ × ℕ)) (random : ℕ) (hash : Str → Str) where
    -- `renew`: the user is read anew, and mapped to the new id as far as that succeeds.
    unfoldable pub renew : List (Str × Option Str) → S → Ran Bool S
    unfolding Trait.renew mapping dropped
    renew filters s =
        Trait.renew (redis_store commands) now random hash filters s
        >>! (λ result t. dropped (mapping (loaded false t)) >>! (λ _ u. (ok result, u)))

    -- The user as a filter; a failure to write it removes the field.
    unfoldable pub login_filters : UserMeta U → List (Str × Option Str)
    login_filters user_meta = elim user_meta.user [
      | none ↦ []
      | some u ↦ (user_meta.user_field, elim (to_json u) [ ok json ↦ some json | _ ↦ none ]) ∷ []
    ]

    unfoldable pub log_in : Option U → Option ℕ → S → Ran Bool S
    unfolding Meta.config renew cloned_destroy login_filters
    log_in given ttl_minutes s =
        let configured = record s {
          cloned = some (record { meta = s.meta; user_meta = s.user_meta });
          meta = Meta.config none ttl_minutes s.meta;
        } in
        let named = elim given as (λ _. S) [
          | none ↦ configured
          | some u ↦ with_user (some u) configured
        ] in
        renew (login_filters named.user_meta) named >>! (λ _ t. cloned_destroy t)

    unfoldable pub login : U → ℕ → S → Ran Bool S
    unfolding log_in
    login u ttl_minutes s = log_in (some u) (some ttl_minutes) s

    unfoldable pub auto_login : S → Ran Bool S
    unfolding log_in
    auto_login s = log_in none none s

    -- `clone_with_id`: the user of another id is not that of the session.
    unfoldable pub clone_with_id : Str → S → Outcome S
    unfolding Trait.clone_with_id
    clone_with_id sid s =
        Trait.clone_with_id (redis_store commands) now random hash
          (λ x. record x { redis = none; cloned = none }) sid s
        >>= λ cloned. ok (loaded false (with_user none cloned))
