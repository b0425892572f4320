-- ===== src/Session/Keeping.antt =====
-- What the operations of a session in redis leave as it is: a property of the meta and of the clone
-- that a session keeps.
use dce_rust.Base.{
  ℕ, ◌≡◌, refl, Bool, true, false, Option, none, some, List, Option-cases, Bool-cases, inl, inr,
  is_empty,
}
use dce_rust.Text.{Str, text}
use dce_rust.Error.{Outcome, ok, err, panics, out_of_fuel, closed0_wrap}
use dce_rust.Session.Meta.{Meta, gen_id}
use dce_rust.Session.Meta
use dce_rust.Session.Trait.{Ran, ◌>>!◌, is_touched, apply_filters}
use dce_rust.Session.Trait
use dce_rust.Session.Redis.{
  Redis, RedisSession, Snapshot, on_redis, redis_store, ttl_of, silent_get, touch, load, raw,
  cloned_key, ttl_passed, cloned_ttl_passed, cloned_touch,
}
use dce_rust.Session.User.{
  dropped, keep_user, with_user, loaded, user, uid, user_key, mapping, cloned_unmapping,
  cloned_destroy, gen_user_key, mapping_ttl_seconds,
}
use dce_rust.Session.User

-- A property that holds of a session after its first step holds after both.
pub >>!-holds :
    {A B S : Type 0} (P : S → Type 0) (m : Ran A S) (k : A → S → Ran B S)
    → P m.1
    → ((a : A) (s : S) → P s → P (k a s).1)
    → P (m >>! k).1
>>!-holds P (ok a, s) k h go = go a s h
>>!-holds P (err e, s) k h go = h
>>!-holds P (panics, s) k h go = h
>>!-holds P (out_of_fuel, s) k h go = h

pub dropped-state : {A S : Type 0} (m : Ran A S) → (dropped m).1 ≡ m.1
unfolding dropped
dropped-state (ok a, s) = refl
dropped-state (err e, s) = refl
dropped-state (panics, s) = refl
dropped-state (out_of_fuel, s) = refl

pub dropped-holds : {A S : Type 0} (P : S → Type 0) (m : Ran A S) → P m.1 → P (dropped m).1
unfolding dropped
dropped-holds P (ok a, s) h = h
dropped-holds P (err e, s) h = h
dropped-holds P (panics, s) h = h
dropped-holds P (out_of_fuel, s) h = h

module _ {R U : Type 0} (P : Meta → Option (Snapshot U) → Type 0) where
  abbrev pub Holds : RedisSession R U → Type 0
  Holds s = P s.meta s.cloned

  pub on_redis-Holds :
      {A : Type 0} (command : R → Outcome A × R) (s : RedisSession R U)
      → Holds s
      → Holds (on_redis command s).1
  unfolding on_redis
  on_redis-Holds command s h = elim (Option-cases s.redis) [
    | inl gone ↦ rw (gone, on_redis) h
    | inr (redis, there) ↦ rw (there, on_redis) h
  ]

  module _ (commands : Redis R) where
    ttl_of-Holds : (key : Str) (s : RedisSession R U) → Holds s → Holds (ttl_of commands key s).1
    unfolding ttl_of
    ttl_of-Holds key s h = elim (Option-cases s.redis) [
      | inl gone ↦ rw (gone, ttl_of) h
      | inr (redis, there) ↦ rw (there, ttl_of) h
    ]

    pub ttl_passed-Holds : (s : RedisSession R U) → Holds s → Holds (ttl_passed commands s).1
    unfolding ttl_passed
    ttl_passed-Holds s h = ttl_of-Holds _ s h

    pub cloned_ttl_passed-Holds :
        (s : RedisSession R U) → Holds s → Holds (cloned_ttl_passed commands s).1
    unfolding cloned_ttl_passed
    cloned_ttl_passed-Holds s h =
        >>!-holds Holds (cloned_key commands s, s) (λ key t. ttl_of commands key t) h
          (λ key t g. ttl_of-Holds key t g)

    pub cloned_touch-Holds : (s : RedisSession R U) → Holds s → Holds (cloned_touch commands s).1
    unfolding cloned_touch
    cloned_touch-Holds s h =
        >>!-holds Holds (cloned_key commands s, s) _ h (λ key t g. on_redis-Holds _ t g)

    module _ (uid_of : U → ℕ) (from_json : Str → Outcome U) (to_json : U → Outcome Str) where
      cloned_unmapping-Holds :
          (s : RedisSession R U)
          → Holds s
          → Holds (cloned_unmapping commands uid_of from_json to_json s).1
      unfolding cloned_unmapping
      cloned_unmapping-Holds s h = elim (Option-cases s.cloned) [
        | inl gone ↦ rw (gone, cloned_unmapping) h
        | inr (c, there) ↦ elim (Option-cases c.user_meta.user) [
          | inl nobody ↦ rw (there, cloned_unmapping) (rw (nobody) h)
          | inr (u, found) ↦ rw (there, cloned_unmapping) (rw (found) (on_redis-Holds _ s h))
        ]
      ]

      pub cloned_destroy-Holds :
          (s : RedisSession R U)
          → Holds s
          → Holds (cloned_destroy commands uid_of from_json to_json s).1
      unfolding cloned_destroy
      cloned_destroy-Holds s h =
          let one = cloned_unmapping commands uid_of from_json to_json s in
          let two = one >>! (λ _ t. (cloned_key commands t, t)) in
          let three = two >>! (λ key t. on_redis (commands.del key) t) in
          >>!-holds Holds three (λ _ t. (ok true, t))
            (>>!-holds Holds two (λ key t. on_redis (commands.del key) t)
              (>>!-holds Holds one (λ _ t. (cloned_key commands t, t)) (cloned_unmapping-Holds s h)
                (λ _ t g. g))
              (λ key t g. on_redis-Holds (commands.del key) t g))
            (λ _ t g. g)

      keep_user-Holds :
          (r : Ran Str (RedisSession R U))
          → Holds r.1
          → Holds (keep_user commands uid_of from_json to_json r).1
      unfolding keep_user
      keep_user-Holds (ok json, s) h =
          elim (from_json json)
            as (λ o.
              Holds
                (elim o as (λ _. Ran (Unit {0}) (RedisSession R U)) [
                  | ok user ↦ (ok tt, with_user commands uid_of from_json to_json (some user) s)
                  | err e ↦ (ok tt, s)
                  | panics ↦ (panics, s)
                  | out_of_fuel ↦ (out_of_fuel, s)
                ]).1) [ ok user ↦ h | err e ↦ h | panics ↦ h | out_of_fuel ↦ h ]
      keep_user-Holds (err e, s) h = h
      keep_user-Holds (panics, s) h = h
      keep_user-Holds (out_of_fuel, s) h = h

      pub user-Holds :
          (s : RedisSession R U) → Holds s → Holds (user commands uid_of from_json to_json s).1
      unfolding user silent_get
      user-Holds s h = elim (Bool-cases s.user_meta.try_loaded) [
        | inl known ↦ rw (known, user) h
        | inr fresh ↦
            rw (fresh, user)
              (>>!-holds Holds
                (keep_user commands uid_of from_json to_json
                  (silent_get commands s.user_meta.user_field s))
                (λ _ t.
                  let noted = loaded commands uid_of from_json to_json true t in
                  (ok noted.user_meta.user, noted))
                (keep_user-Holds (silent_get commands s.user_meta.user_field s)
                  (on_redis-Holds _ s h))
                (λ _ t g. g))
      ]

      found-Holds :
          (found : Option U) (t : RedisSession R U)
          → Holds t
          → Holds
              (elim found as (λ _. Ran ℕ (RedisSession R U)) [
                | none ↦ (closed0_wrap (text "Not a logged session cannot take uid"), t)
                | some u ↦ (ok (uid_of u), t)
              ]).1
      found-Holds none t h = h
      found-Holds (some u) t h = h

      user_key-Holds :
          (s : RedisSession R U) → Holds s → Holds (user_key commands uid_of from_json to_json s).1
      unfolding user_key uid
      user_key-Holds s h =
          >>!-holds Holds (uid commands uid_of from_json to_json s)
            (λ id t. (ok (gen_user_key t.user_meta.key_prefix id), t))
            (>>!-holds Holds (user commands uid_of from_json to_json s)
              (λ found t. elim found [
                | none ↦ (closed0_wrap (text "Not a logged session cannot take uid"), t)
                | some u ↦ (ok (uid_of u), t)
              ])
              (user-Holds s h) found-Holds)
            (λ id t g. g)

      pub mapping-Holds :
          (s : RedisSession R U) → Holds s → Holds (mapping commands uid_of from_json to_json s).1
      unfolding mapping
      mapping-Holds s h =
          >>!-holds Holds (user_key commands uid_of from_json to_json s)
            (λ key t.
              on_redis (commands.sadd key t.meta.sid) t
              >>! (λ _ u. on_redis (commands.expire key mapping_ttl_seconds) u))
            (user_key-Holds s h)
            (λ key t g.
              >>!-holds Holds (on_redis (commands.sadd key t.meta.sid) t)
                (λ _ u. on_redis (commands.expire key mapping_ttl_seconds) u)
                (on_redis-Holds (commands.sadd key t.meta.sid) t g)
                (λ _ v k. on_redis-Holds (commands.expire key mapping_ttl_seconds) v k))

    module _
        (noted : (m : Meta) (c : Option (Snapshot U)) (b : Bool)
          → P m c
          → P (record m { touches = some b }) c) where
      pub try_touch-Holds :
          (s : RedisSession R U) → Holds s → Holds (Trait.try_touch (redis_store commands) s).1
      unfolding Trait.try_touch redis_store
      try_touch-Holds s h = elim (Option-cases s.meta.touches) [
        | inl never ↦
            rw (never, Trait.try_touch)
              (>>!-holds Holds (touch commands s)
                (λ touches t.
                  let kept = record t { meta = record t.meta { touches = some touches } } in
                  (ok (is_touched (redis_store commands) kept), kept))
                (on_redis-Holds _ s h) (λ touches t g. noted t.meta t.cloned touches g))
        | inr (b, there) ↦ rw (there, Trait.try_touch) h
      ]

      pub load_or_not-Holds :
          (filtered : List (Str × Str)) (b : Bool) (s : RedisSession R U)
          → Holds s
          → Holds
              (elim b as (λ _. Ran Bool (RedisSession R U)) [
                | true ↦ (ok true, s)
                | false ↦
                    load commands filtered s
                    >>! (λ _ loaded. Trait.try_touch (redis_store commands) loaded)
              ]).1
      unfolding load redis_store
      load_or_not-Holds filtered true s h = h
      load_or_not-Holds filtered false s h =
          >>!-holds Holds (load commands filtered s)
            (λ _ loaded. Trait.try_touch (redis_store commands) loaded) (on_redis-Holds _ s h)
            (λ _ t g. try_touch-Holds t g)

      module _ (uid_of : U → ℕ) (from_json : Str → Outcome U) (to_json : U → Outcome Str)
          (now : Outcome (ℕ × ℕ)) (random : ℕ) (hash : Str → Str)
          (named : (m : Meta) (c : Option (Snapshot U))
            → P m c
            → P (Meta.renew now random hash none m).1 c) where
        trait_renew-Holds :
            (filters : List (Str × Option Str)) (s : RedisSession R U)
            → Holds s
            → Holds (Trait.renew (redis_store commands) now random hash filters s).1
        unfolding Trait.renew Trait.renew_meta redis_store
        trait_renew-Holds filters s h =
            let rest = λ (filtered : List (Str × Str)) (renewed : RedisSession R U).
              elim (is_empty filtered) as (λ _. Ran Bool (RedisSession R U)) [
                | true ↦ (ok true, renewed)
                | false ↦
                    load commands filtered renewed
                    >>! (λ _ loaded. Trait.try_touch (redis_store commands) loaded)
              ] in
            let store : Trait.Session (RedisSession R U) = redis_store commands in
            >>!-holds Holds (raw commands s)
              (λ found t.
                Trait.renew_meta store now random hash none t
                >>! (λ _ renewed. rest (apply_filters filters found) renewed))
              (on_redis-Holds _ s h)
              (λ found t g.
                >>!-holds Holds (Trait.renew_meta store now random hash none t)
                  (λ _ renewed. rest (apply_filters filters found) renewed)
                  (named t.meta t.cloned g)
                  (λ _ renewed k.
                    load_or_not-Holds (apply_filters filters found)
                      (is_empty (apply_filters filters found)) renewed k))

        pub renew-Holds :
            (filters : List (Str × Option Str)) (s : RedisSession R U)
            → Holds s
            → Holds (User.renew commands uid_of from_json to_json now random hash filters s).1
        unfolding User.renew
        renew-Holds filters s h =
            >>!-holds Holds (Trait.renew (redis_store commands) now random hash filters s)
              (λ result t.
                dropped (
                  mapping commands uid_of from_json to_json
                    (loaded commands uid_of from_json to_json false t))
                >>! (λ _ u. (ok result, u)))
              (trait_renew-Holds filters s h)
              (λ result t g.
                let unloaded = loaded commands uid_of from_json to_json false t in
                >>!-holds Holds (dropped (mapping commands uid_of from_json to_json unloaded))
                  (λ _ u. (ok result, u))
                  (dropped-holds Holds (mapping commands uid_of from_json to_json unloaded)
                    (mapping-Holds uid_of from_json to_json unloaded g))
                  (λ _ u k. k))
