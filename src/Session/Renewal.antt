-- ===== src/Session/Renewal.antt =====
-- What a session that renews itself does to its id, and to the note of a new id that the record of
-- the old one has in redis.
pub mod Runs
pub mod Contract
mod Succeeding
pub mod Due
use dce_rust.Base.{
  ℕ, ◌≡◌, ◌≢◌, refl, ap, ap₂, sym, ◌∙◌, subst, Bool, true, false, Option, none, some, List, [], ◌∷◌,
  Option-cases, Bool-cases, inl, inr, ltb, ◌^◌, ◌-◌,
}
use dce_rust.Text.{Str}
use dce_rust.Error.{
  Outcome, ok, err, panics, out_of_fuel, ℤ, pos, negsuc, closed0_wrap, DceErr, ◌>>=◌,
}
use dce_rust.Session.Meta.{Meta, gen_id, ttl_seconds}
use dce_rust.Session.Meta
use dce_rust.Session.Trait.{Ran, ◌>>!◌}
use dce_rust.Session.Trait
use dce_rust.Session.Redis.{
  Redis, RedisSession, Snapshot, on_redis, gen_key, session_key, silent_get, touch, redis_store,
  cloned_key, cloned_silent_set,
}
use dce_rust.Session.User.{dropped}
use dce_rust.Session.Auto.{
  AutoRenew, Renewable, redis_renewable, as_snapshot, do_clone, is_superseded, settle, judge, keep,
  renew_due, renewed, try_renew, unwrap_or, is_newer, to_option, was_destroyed,
}
use dce_rust.Session.Isize.{seconds_from_renew}
use dce_rust.Session.Fresh.{OnOk}
use dce_rust.Session.Keeping.{
  >>!-holds, dropped-holds, on_redis-Holds, ttl_passed-Holds, cloned_ttl_passed-Holds,
  cloned_touch-Holds, cloned_destroy-Holds, try_touch-Holds, renew-Holds,
}

-- The contract of a renewal, of the id of a session and the new id noted for it: either nothing
-- changes, or the session has another id, which is the one noted for the old.
pub data Renewal (id : Str) (link : Option Str) : Bool → Str → Option Str → Type 0 where
  kept : Renewal id link false id link
  renewed_to : (new : Str) → new ≢ id → Renewal id link true new (some new)

-- After a renewal the id is another one, which is the one noted.
pub Renewal-true :
    {id new : Str} {link after : Option Str} {b : Bool}
    → Renewal id link b new after
    → b ≡ true
    → (new ≢ id) × (after ≡ some new)
Renewal-true Renewal.kept e = cc
Renewal-true (Renewal.renewed_to new other) e = (other, refl)

-- What the commands do to a field of a record, which `view` reads: `hset` that succeeds sets its
-- own, `hget` and `expire` change none.
pub record Noting {R : Type 0} (commands : Redis R) (view : R → Str → Str → Option Str)
    : Type 0 where
  pub hset-view :
      (key field value : Str) (r : R) (b : Bool)
      → (commands.hset key field value r).0 ≡ ok b
      → view (commands.hset key field value r).1 key field ≡ some value
  pub hget-view :
      (key field k f : Str) (r : R) → view (commands.hget key field r).1 k f ≡ view r k f
  pub expire-view :
      (key k f : Str) (n : ℕ) (r : R) → view (commands.expire key n r).1 k f ≡ view r k f

unfoldable pub link_of :
    {R U : Type 0} → (R → Str → Str → Option Str) → Str → Str → RedisSession R U → Option Str
link_of view key field s = elim s.redis [ none ↦ none | some r ↦ view r key field ]

>>!-meets :
    {A B S : Type 0} (P : S → Type 0) (Meets : Ran B S → Type 0) (m : Ran A S) (k : A → S → Ran B S)
    → ((e : DceErr) (s : S) → Meets (err e, s))
    → ((s : S) → Meets (panics, s))
    → ((s : S) → Meets (out_of_fuel, s))
    → P m.1
    → ((a : A) (s : S) → P s → Meets (k a s))
    → Meets (m >>! k)
>>!-meets P Meets (ok a, s) k fails panicked stopped h go = go a s h
>>!-meets P Meets (err e, s) k fails panicked stopped h go = fails e s
>>!-meets P Meets (panics, s) k fails panicked stopped h go = panicked s
>>!-meets P Meets (out_of_fuel, s) k fails panicked stopped h go = stopped s

-- Renewing a meta leaves the name of its ids.
pub renew_none-sid_name :
    (now : Outcome (ℕ × ℕ)) (random : ℕ) (hash : Str → Str) (m : Meta)
    → (Meta.renew now random hash none m).1.sid_name ≡ m.sid_name
unfolding Meta.renew
renew_none-sid_name now random hash m =
    elim (gen_id now random hash m.ttl_minutes)
      as (λ o.
        (elim o as (λ _. Ran (Unit {0}) Meta) [
          | ok (sid, stamp) ↦ (ok tt, record m { touches = none; create_stamp = stamp; sid = sid })
          | err e ↦ (err e, record m { touches = none })
          | panics ↦ (panics, record m { touches = none })
          | out_of_fuel ↦ (out_of_fuel, record m { touches = none })
        ]).1.sid_name
        ≡ m.sid_name) [ ok x ↦ refl | err e ↦ refl | panics ↦ refl | out_of_fuel ↦ refl ]

module _ {R U : Type 0} (view : R → Str → Str → Option Str) (name id field : Str)
    (link : Option Str) where
  abbrev pub link_at : RedisSession R U → Option Str
  link_at s = link_of view (gen_key name id) field s

  -- The contract of a run; one that fails has none.
  abbrev pub Meets : Ran Bool (RedisSession R U) → Type 0
  Meets (ok b, t) = Renewal id link b t.meta.sid (link_at t)
  Meets (err e, t) = Unit
  Meets (panics, t) = Unit
  Meets (out_of_fuel, t) = Unit

  pub >>!-Meets :
      {A : Type 0} (P : RedisSession R U → Type 0) (m : Ran A (RedisSession R U))
      (k : A → RedisSession R U → Ran Bool (RedisSession R U))
      → P m.1
      → ((a : A) (s : RedisSession R U) → P s → Meets (k a s))
      → Meets (m >>! k)
  >>!-Meets P m k h go = >>!-meets P Meets m k (λ e s. tt) (λ s. tt) (λ s. tt) h go

  pub Meets-of_OnOk :
      {A : Type 0} (P : RedisSession R U → Type 0) (m : Ran A (RedisSession R U))
      (k : A → RedisSession R U → Ran Bool (RedisSession R U))
      → OnOk P m
      → ((a : A) (s : RedisSession R U) → P s → Meets (k a s))
      → Meets (m >>! k)
  Meets-of_OnOk P (ok a, s) k h go = go a s h
  Meets-of_OnOk P (err e, s) k h go = tt
  Meets-of_OnOk P (panics, s) k h go = tt
  Meets-of_OnOk P (out_of_fuel, s) k h go = tt

  pub on_redis-link :
      {A : Type 0} (command : R → Outcome A × R) (s : RedisSession R U)
      → ((r : R) → view (command r).1 (gen_key name id) field ≡ view r (gen_key name id) field)
      → link_at (on_redis command s).1 ≡ link_at s
  unfolding on_redis link_of
  on_redis-link command s same = elim (Option-cases s.redis) [
    | inl gone ↦ rw (gone, on_redis) (rw (gone, link_of) refl)
    | inr (redis, there) ↦ rw (there, on_redis) (same redis)
  ]

  -- What holds of a session that has the id still.
  abbrev pub IsOld : Meta → Option (Snapshot U) → Type 0
  IsOld m c = (m.sid ≡ id) × (m.sid_name ≡ name)

  -- What holds of one that is renewed from it, and keeps it as its clone.
  abbrev pub IsFromOld : Meta → Option (Snapshot U) → Type 0
  IsFromOld m c = (m.sid_name ≡ name) × ((old : Snapshot U) × (c ≡ some old) × (old.meta.sid ≡ id))

  -- What holds of it once it has its new id.
  abbrev pub IsRenewed : Meta → Option (Snapshot U) → Type 0
  IsRenewed m c = (m.sid ≢ id) × IsFromOld m c

  module _ (commands : Redis R) (laws : Noting commands view) where
    wrote :
        (s : RedisSession R U) (result : Outcome Bool) (after : R)
        → s.meta.sid ≢ id
        → ((b : Bool) → result ≡ ok b → view after (gen_key name id) field ≡ some s.meta.sid)
        → Meets ((result, record s { redis = some after }) >>! (λ _ t. (ok true, t)))
    unfolding link_of
    wrote s (ok b) after other noted =
        subst (Renewal id link true s.meta.sid) (sym (noted b refl)) (renewed_to s.meta.sid other)
    wrote s (err e) after other noted = tt
    wrote s panics after other noted = tt
    wrote s out_of_fuel after other noted = tt

    -- The last step of a renewal notes the new id.
    pub cloned_silent_set-Meets :
        (s : RedisSession R U)
        → IsRenewed s.meta s.cloned
        → Meets (cloned_silent_set commands field s.meta.sid s)
    unfolding cloned_silent_set cloned_key on_redis
    cloned_silent_set-Meets s (other, (n, (old, there, same))) =
        let key : cloned_key commands s ≡ ok (gen_key name id) =
          rw (there, cloned_key) (ap₂ (λ a b. ok (gen_key a b)) n same) in
        rw (cloned_silent_set, key)
          (elim (Option-cases s.redis) [
            | inl gone ↦ rw (gone, on_redis) tt
            | inr (r, found) ↦
                rw (found, on_redis)
                  (wrote s (commands.hset (gen_key name id) field s.meta.sid r).0
                    (commands.hset (gen_key name id) field s.meta.sid r).1 other
                    (λ b e. laws.hset-view (gen_key name id) field s.meta.sid r b e))
          ])
