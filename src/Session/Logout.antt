-- ===== src/Session/Logout.antt =====
-- What a session knows of its user after `logout`.
use dce_rust.Base.{
  ℕ, ◌≡◌, refl, sym, ap, ◌∙◌, Bool, true, false, Option, none, some, Option-cases, Bool-cases, inl,
  inr,
}
use dce_rust.Text.{Str}
use dce_rust.Error.{Outcome, ok}
use dce_rust.Session.Trait.{Ran, ◌>>!◌, >>!-ok, ran-inj}
use dce_rust.Session.Redis.{
  Redis, RedisSession, on_redis, silent_get, silent_del, UserMeta, session_key,
}
use dce_rust.Session.User.{user, unmapping, logout, with_user, loaded, keep_user}

module _ {R U : Type 0} where
  -- A command of redis leaves what is known of the user.
  on_redis-user_meta :
      {A : Type 0} (command : R → Outcome A × R) (s : RedisSession R U)
      → (on_redis command s).1.user_meta ≡ s.user_meta
  unfolding on_redis
  on_redis-user_meta command s = elim (Option-cases s.redis) [
    | inl gone ↦ rw (gone, on_redis) refl
    | inr (redis, there) ↦ rw (there, on_redis) refl
  ]

  silent_del-user_meta :
      (commands : Redis R) (field : Str) (s : RedisSession R U)
      → (silent_del commands field s).1.user_meta ≡ s.user_meta
  unfolding silent_del
  silent_del-user_meta commands field s = on_redis-user_meta (commands.hdel (session_key s) field) s

module _ {R U : Type 0} (commands : Redis R) (uid_of : U → ℕ) (from_json : Str → Outcome U)
    (to_json : U → Outcome Str) where
  user-user_meta :
      (s t : RedisSession R U) (found : Option U)
      → user commands uid_of from_json to_json s ≡ (ok found, t)
      → t.user_meta.user ≡ found
  unfolding user
  user-user_meta s t found e = elim (Bool-cases s.user_meta.try_loaded) [
    | inl known ↦
        let run = rw (known, user) at e in
        let (x, y) = ran-inj s.user_meta.user found s t run in
        ap (λ (z : RedisSession R U). z.user_meta.user) (sym y) ∙ x
    | inr first ↦
        let run = rw (first, user) at e in
        let (_, u, kept, last) =
          >>!-ok
            (keep_user commands uid_of from_json to_json
              (silent_get commands s.user_meta.user_field s))
            (λ _ v. (ok v.user_meta.user, loaded commands uid_of from_json to_json true v)) found t
            run in
        let (x, y) =
          ran-inj u.user_meta.user found (loaded commands uid_of from_json to_json true u) t last in
        ap (λ (z : RedisSession R U). z.user_meta.user) (sym y) ∙ x
  ]

  -- After a `logout` that succeeds, the session knows no user.
  pub logout-none :
      (s t : RedisSession R U) (b : Bool)
      → logout commands uid_of from_json to_json s ≡ (ok b, t)
      → t.user_meta.user ≡ none
  unfolding logout
  logout-none s t b e =
      let (found, u, read, next) = >>!-ok (user commands uid_of from_json to_json s) _ b t e in
      after found u next (user-user_meta s u found read)
    where
      after :
          (found : Option U) (u : RedisSession R U)
          → elim found as (λ _. Ran Bool (RedisSession R U)) [
            | none ↦ (ok false, u)
            | some _ ↦ unmapping commands uid_of from_json to_json u >>! (λ _ v.
                silent_del commands v.user_meta.user_field
                  (with_user commands uid_of from_json to_json none v))
          ]
            ≡ (ok b, t)
          → u.user_meta.user ≡ found
          → t.user_meta.user ≡ none
      after none u next was =
          let (_, y) = ran-inj false b u t next in
          ap (λ (z : RedisSession R U). z.user_meta.user) (sym y) ∙ was
      after (some x) u next was =
          let (_, v, unmapped, last) =
            >>!-ok (unmapping commands uid_of from_json to_json u) _ b t next in
          ap (λ (r : Ran Bool (RedisSession R U)). r.1.user_meta.user) (sym last)
          ∙ ap (λ (m : UserMeta U). m.user)
              (silent_del-user_meta commands v.user_meta.user_field
                (with_user commands uid_of from_json to_json none v))
