-- ===== src/Session/Renewal/Due.antt =====
-- That a session whose time to renew has come is renewed.
use dce_rust.Base.{
  arith, ℕ, ◌+◌, ◌-◌, ◌^◌, ◌≤◌, ◌<◌, ◌≡◌, ◌≢◌, refl, ap, ◌∙◌, Bool, true, some, [], subst, Option,
}
use dce_rust.Text.{Str}
use dce_rust.Error.{Outcome, ok, err, panics, out_of_fuel, DceErr, pos}
use dce_rust.Session.Meta.{Meta}
use dce_rust.Session.Meta
use dce_rust.Session.Trait.{Ran, ◌>>!◌}
use dce_rust.Session.Redis.{
  Redis, RedisSession, Snapshot, on_redis, silent_get, session_key, cloned_key, gen_key,
  cloned_touch, cloned_silent_set,
}
use dce_rust.Session.User.{dropped}
use dce_rust.Session.Auto.{
  AutoRenew, Renewable, renew_due, redis_renewable, as_snapshot, with_cloned, do_clone, try_renew,
  renewed,
}
use dce_rust.Session.Fresh.{IsFresh}
use dce_rust.Session.Renewal.{Noting, link_of, Renewal-true}
use dce_rust.Session.Renewal.Contract.{try_renew-Renewal}
use dce_rust.Session.Isize.{seconds_from_renew, seconds_from_renew-exact, diff_pos}
use dce_rust.Session.Keeping.{renew-Holds, on_redis-Holds}
use dce_rust.Session.Working.{
  IsSettled, IsWorking, Succeeds, Settles, >>!-Succeeds, Settles-of_Succeeds, dropped-Succeeds,
  Succeeds-and, IsConnected, on_redis-Succeeds, on_redis-Settles,
}
use dce_rust.Session.Renewal.Succeeding.{renew-Succeeds}

module _ {R U : Type 0} (commands : Redis R) (working : IsWorking commands) (uid_of : U → ℕ)
    (from_json : Str → Outcome U) (to_json : U → Outcome Str)
    (readable : (json : Str) → IsSettled (from_json json)) where
  abbrev S : Type 0
  S = RedisSession R U

  module _ (secs nanos random : ℕ) (hash : Str → Str) where
    abbrev ops : Renewable S
    ops = redis_renewable commands uid_of from_json to_json (ok (secs, nanos)) random hash

    -- A session on redis that has its clone.
    abbrev Cloned : Snapshot U → S → Type 0
    Cloned snapshot t = IsConnected t × (t.cloned ≡ some snapshot)

    cloned_key-Cloned :
        (snapshot : Snapshot U) (t : S)
        → t.cloned ≡ some snapshot
        → cloned_key commands t ≡ ok (gen_key t.meta.sid_name snapshot.meta.sid)
    unfolding cloned_key
    cloned_key-Cloned snapshot t kept = rw (cloned_key, kept) refl

    cloned_touch-Settles :
        (snapshot : Snapshot U) (t : S)
        → Cloned snapshot t
        → Settles (Cloned snapshot) (cloned_touch commands t)
    unfolding cloned_touch
    cloned_touch-Settles snapshot t (c, kept) =
        let key = gen_key t.meta.sid_name snapshot.meta.sid in
        rw (cloned_touch, cloned_key-Cloned snapshot t kept)
          (Settles-of_Succeeds (Cloned snapshot)
            (on_redis (commands.expire key (Meta.ttl_seconds t.meta)) t)
            (Succeeds-and (λ _ u. IsConnected u) (λ (u : S). u.cloned ≡ some snapshot)
              (on_redis (commands.expire key (Meta.ttl_seconds t.meta)) t)
              (on_redis-Succeeds (commands.expire key (Meta.ttl_seconds t.meta)) t
                (λ r. working.expire-IsOk key (Meta.ttl_seconds t.meta) r) c)
              (on_redis-Holds (λ _ x. x ≡ some snapshot)
                (commands.expire key (Meta.ttl_seconds t.meta)) t kept)))

    noting-Succeeds :
        (snapshot : Snapshot U) (field value : Str) (t : S)
        → Cloned snapshot t
        → Succeeds (λ (b : Bool) _. b ≡ true) (cloned_silent_set commands field value t)
    unfolding cloned_silent_set
    noting-Succeeds snapshot field value t (c, kept) =
        let key = gen_key t.meta.sid_name snapshot.meta.sid in
        rw (cloned_silent_set, cloned_key-Cloned snapshot t kept)
          (>>!-Succeeds (λ _ u. IsConnected u) (λ (b : Bool) _. b ≡ true)
            (on_redis (commands.hset key field value) t) (λ _ u. (ok true, u))
            (on_redis-Succeeds (commands.hset key field value) t
              (λ r. working.hset-IsOk key field value r) c)
            (λ _ u g. refl))

    -- The new session is noted in the record of the old one.
    do_clone-Succeeds :
        (auto : AutoRenew S) (s : S)
        → IsConnected s
        → Succeeds (λ (b : Bool) _. b ≡ true) (do_clone ops auto [] s)
    unfolding do_clone
    do_clone-Succeeds auto s c =
        let snapshot =
          as_snapshot commands uid_of from_json to_json (ok (secs, nanos)) random hash s in
        let cloned =
          with_cloned commands uid_of from_json to_json (ok (secs, nanos)) random hash
            (some snapshot) s in
        let renewed = ops.renew [] cloned in
        let touched = renewed >>! (λ _ t. dropped (cloned_touch commands t)) in
        let P = Cloned snapshot in
        let first =
          Succeeds-and (λ _ t. IsConnected t) (λ (t : S). t.cloned ≡ some snapshot) renewed
            (renew-Succeeds commands working uid_of from_json to_json readable secs nanos random
              hash [] cloned c)
            (renew-Holds (λ _ x. x ≡ some snapshot) commands (λ m x b h. h) uid_of from_json to_json
              (ok (secs, nanos)) random hash (λ m x h. h) [] cloned refl) in
        >>!-Succeeds (λ _ t. P t) (λ (b : Bool) _. b ≡ true) touched
          (λ _ t. cloned_silent_set commands auto.new_sid_field t.meta.sid t)
          (>>!-Succeeds (λ _ t. P t) (λ _ t. P t) renewed (λ _ t. dropped (cloned_touch commands t))
            first
            (λ _ t g.
              dropped-Succeeds P (cloned_touch commands t) (cloned_touch-Settles snapshot t g)))
          (λ _ t g. noting-Succeeds snapshot auto.new_sid_field t.meta.sid t g)

    result : (m : Ran Bool S) → Succeeds (λ (b : Bool) _. b ≡ true) m → (t : S) × (m ≡ (ok true, t))
    result (ok b, t) h = (t, ap (λ x. (ok x, t)) h)
    result (err e, t) h = elim h [ ]
    result (panics, t) h = elim h [ ]
    result (out_of_fuel, t) h = elim h [ ]

  -- A session in a redis that answers, whose time to renew has come and for which no newer session
  -- is noted, is renewed by try_renew: it has another id, and that is noted in the record of its old
  -- id. This is for a time within 62 bits and an interval of 16 bits, if the texts of users can be
  -- read or refused, for commands of which hset sets the field that it is given, and hget and expire
  -- change none, and for an old id that does not start with the hash that is drawn.
  pub try_renew-due :
      (view : R → Str → Str → Option Str) (laws : Noting commands view) (secs nanos random : ℕ)
      (hash : Str → Str) (auto : AutoRenew S) (e : DceErr) (t : S)
      → IsFresh (ok (secs, nanos)) random hash auto.session.meta.sid
      → secs < 2 ^ 62
      → auto.renew_interval_seconds < 2 ^ 16
      → auto.session.meta.create_stamp + auto.renew_interval_seconds ≤ secs
      → IsConnected auto.session
      → silent_get commands auto.new_sid_field auto.session ≡ (err e, t)
      → (after : AutoRenew S) × (try_renew
            (redis_renewable commands uid_of from_json to_json (ok (secs, nanos)) random hash)
            (ok (secs, nanos))
            auto
          ≡ (ok true, after))
        × (after.session.meta.sid ≢ auto.session.meta.sid)
        × (link_of view (session_key auto.session) auto.new_sid_field after.session
            ≡ some after.session.meta.sid)
  unfolding try_renew renewed renew_due silent_get
  try_renew-due view laws secs nanos random hash auto e t fresh small short due c unnoted =
      let s = auto.session in
      let stamp = s.meta.create_stamp in
      let interval = auto.renew_interval_seconds in
      let late = secs - (stamp + interval) in
      let store = ops secs nanos random hash in
      let age : seconds_from_renew secs stamp interval ≡ ok (pos late) =
        seconds_from_renew-exact secs stamp interval small (omega arith) short
        ∙ ap ok (diff_pos secs (stamp + interval) due) in
      let there : IsConnected t = subst (Settles IsConnected) unnoted (
        on_redis-Settles (commands.hget (session_key s) auto.new_sid_field) s
          (λ r. working.hget-IsSettled (session_key s) auto.new_sid_field r) c) in
      let (u, done) =
        result secs nanos random hash (do_clone store auto [] t)
          (do_clone-Succeeds secs nanos random hash auto t there) in
      let ran : ((seconds_from_renew secs stamp interval, s)
            >>! (λ seconds u. renewed store auto u seconds))
          ≡ (ok true, u) =
        ap (λ a. (a, s) >>! (λ seconds u. renewed store auto u seconds)) age
        ∙ (ap (renew_due store auto late) unnoted ∙ done) in
      let after = record auto { session = u } in
      let done : try_renew store (ok (secs, nanos)) auto ≡ (ok true, after) =
        ap (λ (r : Ran Bool S). (r.0, record auto { session = r.1 })) ran in
      let (other, noted) =
        Renewal-true
          (try_renew-Renewal commands view laws uid_of from_json to_json (ok (secs, nanos))
            (ok (secs, nanos)) random hash auto after true fresh done)
          refl in
      (after, done, other, noted)
