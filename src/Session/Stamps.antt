-- ===== src/Session/Stamps.antt =====
-- What the time of creation that a session id gives does to a renewal.
use dce_rust.Base.{ℕ, ◌+◌, ◌^◌, ◌≤◌, ◌<◌, ◌≡◌, ap}
use dce_rust.Error.{ok, panics}
use dce_rust.Session.Trait.{◌>>!◌}
use dce_rust.Session.Auto.{AutoRenew, Renewable, try_renew, renewed}
use dce_rust.Session.Isize.{seconds_from_renew-panics}

-- A session whose id dates its creation at 2 ^ 63 seconds or more, but not by more than the present
-- time beyond, makes try_renew panic, whatever the session does.
pub try_renew-panics :
    {S : Type 0} (ops : Renewable S) (secs nanos : ℕ) (auto : AutoRenew S)
    → secs < 2 ^ 63
    → 2 ^ 63 ≤ (ops.meta auto.session).create_stamp
    → (ops.meta auto.session).create_stamp < 2 ^ 64
    → (ops.meta auto.session).create_stamp ≤ secs + 2 ^ 63
    → (try_renew ops (ok (secs, nanos)) auto).0 ≡ panics
unfolding try_renew
try_renew-panics ops secs nanos auto a b c d =
    ap (λ age. ((age, auto.session) >>! (λ seconds u. renewed ops auto u seconds)).0)
      (seconds_from_renew-panics secs (ops.meta auto.session).create_stamp
        auto.renew_interval_seconds a b c d)
