-- ===== src/Session/Auto.antt =====
-- crates/session/src/auto.rs: sessions that renew themselves. What `AutoRenew` calls of a session is
-- an interface, which the sessions in redis fill.
use dce_rust.Base.{
  ℕ, ◌-◌, ◌^◌, Bool, true, false, Option, none, some, List, [], ◌∷◌, ◌++◌, ltb, if◌then◌else◌,
}
use dce_rust.Text.{Str, text}
use dce_rust.Error.{Outcome, ok, err, panics, out_of_fuel, closed0_wrap, ℤ, pos, negsuc, ◌>>=◌}
use dce_rust.Session.Meta.{Meta}
use dce_rust.Session.Trait.{Ran, ◌>>!◌}
use dce_rust.Session.Trait
use dce_rust.Session.Redis.{
  Redis, RedisSession, Snapshot, redis_store, silent_get, ttl_passed, cloned_silent_set,
  cloned_touch, cloned_ttl_passed,
}
use dce_rust.Session.User.{dropped}
use dce_rust.Session.User
use dce_rust.Session.Isize.{seconds_from_renew}

-- The methods of a session. `keep_clone` is `*self.cloned_mut() = Some(self.clone())`, `clone_named`
-- makes the clone that `clone_with_id` returns, and `set_cloned` keeps it or none.
pub record Renewable (S : Type 0) : Type 0 where
  pub meta : S → Meta
  pub try_touch : S → Ran Bool S
  pub silent_get : Str → S → Ran Str S
  pub keep_clone : S → S
  pub clone_with_id : Str → S → Outcome S
  pub set_cloned : Option S → S → S
  pub ttl_passed : S → Ran ℕ S
  pub destroy : S → Ran Bool S
  pub renew : List (Str × Option Str) → S → Ran Bool S
  pub cloned_destroy : S → Ran Bool S
  pub cloned_touch : S → Ran Bool S
  pub cloned_silent_set : Str → Str → S → Ran Bool S
  pub cloned_ttl_passed : S → Ran ℕ S

pub record AutoRenew (S : Type 0) : Type 0 where
  pub session : S
  pub new_sid_field : Str
  pub renew_interval_seconds : ℕ
  pub original_judgment_seconds : ℕ
  pub cloned_inactive_judgment_seconds : ℕ

abbrev pub default_new_sid_field : Str
default_new_sid_field = text "$newid"

abbrev pub default_renew_interval_seconds : ℕ
default_renew_interval_seconds = 600

abbrev pub default_original_judgment_seconds : ℕ
default_original_judgment_seconds = 120

abbrev pub default_cloned_inactive_judgment_seconds : ℕ
default_cloned_inactive_judgment_seconds = 60

abbrev pub or_else : {A : Type 0} → A → Option A → A
or_else old none = old
or_else old (some v) = v

-- `unwrap_or` on a result; a panic on the way stays one.
abbrev pub unwrap_or : {A S : Type 0} → A → Ran A S → Ran A S
unwrap_or a (ok b, s) = (ok b, s)
unwrap_or a (err e, s) = (ok a, s)
unwrap_or a (panics, s) = (panics, s)
unwrap_or a (out_of_fuel, s) = (out_of_fuel, s)

-- `.ok()` on a result.
abbrev pub to_option : {A : Type 0} → Outcome A → Outcome (Option A)
to_option (ok a) = ok (some a)
to_option (err e) = ok none
to_option panics = panics
to_option out_of_fuel = out_of_fuel

-- `.map_or(true, |old_tp| new_tp < old_tp)`.
unfoldable pub is_newer : {S : Type 0} → ℕ → Ran ℕ S → Ran Bool S
is_newer new_tp (ok old_tp, s) = (ok (ltb new_tp old_tp), s)
is_newer new_tp (err e, s) = (ok true, s)
is_newer new_tp (panics, s) = (panics, s)
is_newer new_tp (out_of_fuel, s) = (out_of_fuel, s)

abbrev pub was_destroyed : Str → Str
was_destroyed id = text "session \"" ++ (id ++ text "\" was destroied, unable to continue use")

module _ {S : Type 0} where
  unfoldable pub new : S → AutoRenew S
  new session = record {
    session = session;
    new_sid_field = default_new_sid_field;
    renew_interval_seconds = default_renew_interval_seconds;
    original_judgment_seconds = default_original_judgment_seconds;
    cloned_inactive_judgment_seconds = default_cloned_inactive_judgment_seconds;
  }

  unfoldable pub config : Option ℕ → Option ℕ → Option ℕ → Option Str → AutoRenew S → AutoRenew S
  config interval original inactive field auto = record auto {
    renew_interval_seconds = or_else auto.renew_interval_seconds interval;
    original_judgment_seconds = or_else auto.original_judgment_seconds original;
    cloned_inactive_judgment_seconds = or_else auto.cloned_inactive_judgment_seconds inactive;
    new_sid_field = or_else auto.new_sid_field field;
  }

  unfoldable pub unwrap : AutoRenew S → S
  unwrap auto = auto.session

  module _ (ops : Renewable S) (auto : AutoRenew S) where
    -- The new id is noted in the old session, which is the clone.
    unfoldable pub do_clone : List (Str × Option Str) → S → Ran Bool S
    unfolding dropped
    do_clone filters s =
        ops.renew filters (ops.keep_clone s)
        >>! (λ _ renewed. dropped (ops.cloned_touch renewed))
        >>! (λ _ touched. ops.cloned_silent_set auto.new_sid_field (ops.meta touched).sid touched)

    -- Whether the new session is in use, and more lately than the old one.
    unfoldable pub is_superseded : ℕ → S → Ran Bool S
    unfolding is_newer
    is_superseded new_tp s =
        if ltb new_tp auto.cloned_inactive_judgment_seconds
        then is_newer new_tp (ops.ttl_passed s)
        else (ok false, s)

    -- The old session gives way to a new one in use; one that is not is replaced.
    unfoldable pub settle : Bool → S → Ran Bool S
    unfolding do_clone
    settle true s = ops.destroy s >>! (λ _ t. (closed0_wrap (was_destroyed (ops.meta t).sid), t))
    settle false s = ops.cloned_destroy s >>! (λ _ t. do_clone ((auto.new_sid_field, none) ∷ []) t)

    -- What is done with a session whose time to renew has come and that has a newer one.
    unfoldable pub judge : Str → S → Ran Bool S
    unfolding is_superseded settle
    judge new_sid s =
        (to_option (ops.clone_with_id new_sid s), s)
        >>! (λ cloned t. unwrap_or (2 ^ 32 - 1) (ops.cloned_ttl_passed (ops.set_cloned cloned t)))
        >>! (λ new_tp t. is_superseded new_tp t)
        >>! (λ superseded t. settle superseded t)

    -- `let _ = self.try_touch(); Ok(false)`.
    unfoldable pub keep : S → Ran Bool S
    unfolding dropped
    keep s = dropped (ops.try_touch s) >>! (λ _ t. (ok false, t))

    unfoldable pub renew_due : ℕ → Ran Str S → Ran Bool S
    unfolding judge keep do_clone
    renew_due seconds (ok new_sid, s) =
        let judged = judge new_sid s in
        if ltb auto.original_judgment_seconds seconds then judged else keep s
    renew_due seconds (err e, s) = do_clone [] s
    renew_due seconds (panics, s) = (panics, s)
    renew_due seconds (out_of_fuel, s) = (out_of_fuel, s)

    -- By the seconds since the renewal was due.
    unfoldable pub renewed : S → ℤ → Ran Bool S
    unfolding keep renew_due
    renewed s (negsuc n) = keep s
    renewed s (pos seconds) = renew_due seconds (ops.silent_get auto.new_sid_field s)

  -- `try_renew`, with the time since the epoch.
  unfoldable pub try_renew : Renewable S → Outcome (ℕ × ℕ) → AutoRenew S → Ran Bool (AutoRenew S)
  unfolding renewed seconds_from_renew
  try_renew ops now auto =
      let s = auto.session in
      let age = now >>= λ (secs, nanos).
      seconds_from_renew secs (ops.meta s).create_stamp auto.renew_interval_seconds in
      let (result, t) = (age, s) >>! (λ seconds u. renewed ops auto u seconds) in
      (result, record auto { session = t })

-- The sessions in redis.
module _ {R U : Type 0} (commands : Redis R) (uid_of : U → ℕ) (from_json : Str → Outcome U)
    (to_json : U → Outcome Str) (now : Outcome (ℕ × ℕ)) (random : ℕ) (hash : Str → Str) where
  abbrev pub as_snapshot : RedisSession R U → Snapshot U
  as_snapshot s = record { meta = s.meta; user_meta = s.user_meta }

  abbrev pub with_cloned : Option (Snapshot U) → RedisSession R U → RedisSession R U
  with_cloned cloned s = record s { cloned = cloned }

  abbrev pub redis_renewable : Renewable (RedisSession R U)
  redis_renewable = record {
    meta = λ s. s.meta;
    try_touch = Trait.try_touch (redis_store commands);
    silent_get = silent_get commands;
    keep_clone = λ s. with_cloned (some (as_snapshot s)) s;
    clone_with_id = User.clone_with_id commands uid_of from_json to_json now random hash;
    set_cloned =
        λ cloned s. with_cloned (elim cloned [ none ↦ none | some c ↦ some (as_snapshot c) ]) s;
    ttl_passed = ttl_passed commands;
    destroy = User.destroy commands uid_of from_json to_json;
    renew = User.renew commands uid_of from_json to_json now random hash;
    cloned_destroy = User.cloned_destroy commands uid_of from_json to_json;
    cloned_touch = cloned_touch commands;
    cloned_silent_set = cloned_silent_set commands;
    cloned_ttl_passed = cloned_ttl_passed commands;
  }
