-- ===== src/Session/RenewalTests.antt =====
-- A renewal in a redis that keeps fields only.
use dce_rust.Base.{
  ℕ, ◌≡◌, ◌≢◌, refl, Bool, true, false, none, some, [], list_eq, nat_eq, arith, ◌^◌,
}
use dce_rust.Text.{text}
use dce_rust.Maps.{map_get}
use dce_rust.Error.{closed0, closed0_wrap, Outcome, ok, panics}
use dce_rust.Session.Sample.{Fields, commands, view, laws, working, hash, cons-IsFresh}
use dce_rust.Session.Redis.{
  RedisSession, session_key, silent_get, redis_store, cloned_touch, cloned_silent_set,
}
use dce_rust.Session.User
use dce_rust.Session.Trait
use dce_rust.Session.Stamps.{try_renew-panics}
use dce_rust.Session.Auto.{AutoRenew, redis_renewable, new, try_renew}
use dce_rust.Session.Renewal.{Renewal, link_of}
use dce_rust.Session.Renewal.Contract.{try_renew-Renewal}
use dce_rust.Session.Renewal.Due.{try_renew-due}
use dce_rust.Session.Isize.{seconds_from_renew, diff, seconds_from_renew-exact}

abbrev renewing : AutoRenew (RedisSession Fields ℕ)
renewing = new (record {
  meta = record {
    sid_name = text "dcesid";
    ttl_minutes = 60;
    create_stamp = 1700000000;
    sid = text "old";
    touches = none;
  };
  user_meta = record {
    key_prefix = text "dceusmap";
    user_field = text "$user";
    try_loaded = false;
    user = none;
  };
  redis = some [];
  cloned = none;
})

abbrev run : ℕ → Outcome Bool × AutoRenew (RedisSession Fields ℕ)
run secs =
    try_renew
      (redis_renewable commands (λ u. u) (λ json. ok 7) (λ u. ok (text "u")) (ok (secs, 5)) 7 hash)
      (ok (secs, 5)) renewing

is_renewed : (run 1700001000).0 ≡ ok true
unfolding try_renew new silent_get map_get User.renew redis_store cloned_touch cloned_silent_set
is_renewed = refl

is_kept : (run 1700000100).0 ≡ ok false
unfolding try_renew new Trait.try_touch redis_store
is_kept = refl

try_renew-Renewal_example :
    Renewal
      (text "old")
      none
      true
      (run 1700001000).1.session.meta.sid
      (link_of view (text "dcesid:old") (text "$newid") (run 1700001000).1.session)
unfolding try_renew new link_of session_key silent_get map_get User.renew redis_store cloned_touch
    cloned_silent_set
try_renew-Renewal_example =
    try_renew-Renewal commands view laws (λ u. u) (λ json. ok 7) (λ u. ok (text "u"))
      (ok (1700001000, 5)) (ok (1700001000, 5)) 7 hash renewing (run 1700001000).1 true
      (cons-IsFresh (ok (1700001000, 5)) 7 111 (text "ld") (omega arith)) refl

seconds_from_renew-exact_example : seconds_from_renew 1000 300 600 ≡ ok (diff 1000 900)
seconds_from_renew-exact_example =
    seconds_from_renew-exact 1000 300 600 (omega arith) (omega arith) (omega arith)

-- The id of a client, with a creation far beyond the present.
abbrev future : AutoRenew (RedisSession Fields ℕ)
future =
    let s = renewing.session in
    record renewing { session = record s { meta = record s.meta { create_stamp = 2 ^ 63 } } }

try_renew-panics_example :
    (try_renew
      (redis_renewable commands (λ u. u) (λ json. ok 7) (λ u. ok (text "u")) (ok (0, 0)) 7 hash)
      (ok (1700001000, 5))
      future).0
    ≡ panics
unfolding new
try_renew-panics_example =
    try_renew-panics
      (redis_renewable commands (λ u. u) (λ json. ok 7) (λ u. ok (text "u")) (ok (0, 0)) 7 hash)
      1700001000 5 future (omega arith) (omega arith) (omega arith) (omega arith)

unnoted :
    silent_get commands renewing.new_sid_field renewing.session
    ≡ (closed0_wrap (text "nil"), renewing.session)
unfolding silent_get map_get new
unnoted = refl

try_renew-due_example :
    (after : AutoRenew (RedisSession Fields ℕ)) × (try_renew
        (redis_renewable commands
          (λ u. u)
          (λ json. ok 7)
          (λ u. ok (text "u"))
          (ok (1700001000, 5))
          7
          hash)
        (ok (1700001000, 5))
        renewing
      ≡ (ok true, after))
    × (after.session.meta.sid ≢ text "old")
    × (link_of view (text "dcesid:old") (text "$newid") after.session ≡ some after.session.meta.sid)
unfolding new session_key
try_renew-due_example =
    try_renew-due commands working (λ u. u) (λ json. ok 7) (λ u. ok (text "u")) (λ json. tt) view
      laws 1700001000 5 7 hash renewing (closed0 (text "nil")) renewing.session
      (cons-IsFresh (ok (1700001000, 5)) 7 111 (text "ld") (omega arith)) (omega arith)
      (omega arith) (omega arith) tt unnoted
