-- ===== src/Session/Renewal/Contract.antt =====
-- What try_renew does to a session in redis.
use dce_rust.Base.{ℕ, ◌≡◌, refl, ap, subst, Bool, Option}
use dce_rust.Text.{Str}
use dce_rust.Error.{Outcome, ok, ◌>>=◌}
use dce_rust.Session.Trait.{Ran, ◌>>!◌}
use dce_rust.Session.Redis.{Redis, RedisSession, session_key}
use dce_rust.Session.Auto.{AutoRenew, redis_renewable, renewed, try_renew}
use dce_rust.Session.Fresh.{IsFresh}
use dce_rust.Session.Isize.{seconds_from_renew}
use dce_rust.Session.Renewal.{Renewal, Noting, link_of, Meets, >>!-Meets}
use dce_rust.Session.Renewal.Runs.{IsKept, renewed-Meets}

-- A session in redis that try_renew brings to a result meets the contract of a renewal: where the
-- result is false, it has the id that it had, and the note in the record of that id is the same;
-- where it is true, it has another id, and that is the one noted in the record of the old id. This
-- is for commands of which hset sets the field that it is given, and hget and expire change none,
-- and for an old id that does not start with the hash that is drawn.
pub try_renew-Renewal :
    {R U : Type 0} (commands : Redis R) (view : R → Str → Str → Option Str)
    (laws : Noting commands view) (uid_of : U → ℕ) (from_json : Str → Outcome U)
    (to_json : U → Outcome Str) (clock now : Outcome (ℕ × ℕ)) (random : ℕ) (hash : Str → Str)
    (auto after : AutoRenew (RedisSession R U)) (b : Bool)
    → IsFresh now random hash auto.session.meta.sid
    → try_renew (redis_renewable commands uid_of from_json to_json now random hash) clock auto
      ≡ (ok b, after)
    → Renewal auto.session.meta.sid
        (link_of view (session_key auto.session) auto.new_sid_field auto.session)
        b
        after.session.meta.sid
        (link_of view (session_key auto.session) auto.new_sid_field after.session)
unfolding try_renew session_key
try_renew-Renewal {R} {U} commands view laws uid_of from_json to_json clock now random hash auto
      after b fresh e =
    let s = auto.session in
    let field = auto.new_sid_field in
    let link = link_of view (session_key s) field s in
    let ops = redis_renewable commands uid_of from_json to_json now random hash in
    let age = clock >>= λ (secs, nanos).
    seconds_from_renew secs s.meta.create_stamp auto.renew_interval_seconds in
    let ran = (age, s) >>! (λ seconds u. renewed ops auto u seconds) in
    let meets : Meets view s.meta.sid_name s.meta.sid field link ran =
      >>!-Meets view s.meta.sid_name s.meta.sid field link
        (IsKept view s.meta.sid_name s.meta.sid field link commands laws uid_of from_json to_json
          now random hash fresh auto refl)
        (age, s) (λ seconds u. renewed ops auto u seconds) ((refl, refl), refl)
        (λ seconds u h.
          renewed-Meets view s.meta.sid_name s.meta.sid field link commands laws uid_of from_json
            to_json now random hash fresh auto refl u seconds h) in
    let same : ran ≡ (ok b, after.session) =
      ap (λ (x : Ran Bool (AutoRenew (RedisSession R U))). (x.0, x.1.session)) e in
    subst (Meets view s.meta.sid_name s.meta.sid field link) same meets
