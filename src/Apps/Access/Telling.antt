-- ===== src/Apps/Access/Telling.antt =====
-- What a request is told of the id of its session.
use dce_rust.Base.{
  ◌≡◌, ◌≢◌, refl, ap, sym, ◌∙◌, Bool, true, false, Option, none, some, list_eq, nat_eq, beq_refl,
  if◌then◌else◌, subst,
}
use dce_rust.Text.{Str}
use dce_rust.Maps.{map_get, map_get-insert}
use dce_rust.Error.{ok}
use dce_rust.Protocol.{session_key, set_session}
use dce_rust.Request.{put_data}
use dce_rust.Session.Trait.{Ran, ◌>>!◌, >>!-ok, ran-inj}
use dce_rust.Session.User
use dce_rust.Session.Auto.{AutoRenew, redis_renewable}
use dce_rust.Session.Auto
use dce_rust.Session.Fresh.{IsFresh}
use dce_rust.Session.Renewal.{Renewal, Renewal-true, Noting}
use dce_rust.Session.Renewal.Contract.{try_renew-Renewal}
use dce_rust.Apps.Access.{
  Draw, Uses, C, S, AppAuth, uid_of, opened, new_auth, valid, before_controller, admit, refresh,
  on_session, tell_sid, auto_login, try_renew, is_auto_login, is_login,
}
use dce_rust.Apps.Access.Steps.{
  told_sid, sid_of, tell_sid-told, log_in-true, log_in-new, valid-keeps, new_auth-keeps,
}

-- A session of the id `old` that has the id `sid` now: it is told if, and only if, it is
-- another one.
abbrev pub Told : Option Str → Str → Str → Type 0
Told none old sid = sid ≡ old
Told (some told) old sid = (told ≡ sid) × (sid ≢ old)

Told-of_some :
    (o : Option Str) (old sid told : Str) → o ≡ some told → sid ≡ told → told ≢ old → Told o old sid
Told-of_some o old sid told e same other =
    subst (λ x. Told x old sid) (sym e) (sym same, λ q. other (sym same ∙ q))

Told-of_none : (o : Option Str) (old sid : Str) → o ≡ none → sid ≡ old → Told o old sid
Told-of_none o old sid e same = subst (λ x. Told x old sid) (sym e) same

Renewal-false :
    {id new : Str} {link after : Option Str} {b : Bool}
    → Renewal id link b new after
    → b ≡ false
    → new ≡ id
Renewal-false Renewal.kept e = refl
Renewal-false (Renewal.renewed_to new other) e = cc

module _ {Req Resp Method Value Status D R : Type 0}
    (uses : Uses Req Resp Method Value Status D R) where
  open uses use {box, commands, from_json, to_json, hash}

  -- What the checks do to the id, and that the request is told of it.
  auto_login-Told :
      (draw : Draw) (auth after : AppAuth uses)
      → IsFresh draw.now draw.random hash (sid_of uses auth)
      → auto_login uses draw auth ≡ (ok tt, after)
      → Told (told_sid uses after.context) (sid_of uses auth) (sid_of uses after)
  unfolding auto_login
  auto_login-Told draw auth after fresh e =
      let call =
        User.auto_login commands (uid_of uses) from_json to_json draw.now draw.random hash in
      let (b, logged, first, told) =
        >>!-ok (on_session uses call auth) (λ renewed a. tell_sid uses renewed a) tt after e in
      let other =
        log_in-new uses draw auth.session.session logged.session.session b fresh
          (ap (λ (r : Ran Bool (AppAuth uses)). (r.0, r.1.session.session)) first) in
      let is_true =
        log_in-true uses draw auth.session.session logged.session.session b
          (ap (λ (r : Ran Bool (AppAuth uses)). (r.0, r.1.session.session)) first) in
      let (some_sid, same) =
        tell_sid-told uses logged after
          (subst (λ x. tell_sid uses x logged ≡ (ok tt, after)) is_true told) in
      Told-of_some (told_sid uses after.context) (sid_of uses auth) (sid_of uses after)
        (sid_of uses logged) some_sid same other

  module _ (view : R → Str → Str → Option Str) (laws : Noting commands view) where
    try_renew-Told :
        (draw : Draw) (auth after : AppAuth uses)
        → IsFresh draw.now draw.random hash (sid_of uses auth)
        → told_sid uses auth.context ≡ none
        → try_renew uses draw auth ≡ (ok tt, after)
        → Told (told_sid uses after.context) (sid_of uses auth) (sid_of uses after)
    unfolding try_renew
    try_renew-Told draw auth after fresh untold e =
        let ran =
          Auto.try_renew
            (redis_renewable commands (uid_of uses) from_json to_json draw.now draw.random hash)
            draw.now auth.session in
        let (b, renewed, first, told) =
          >>!-ok (ran.0, record auth { session = ran.1 }) (λ b a. tell_sid uses b a) tt after e in
        let contract =
          try_renew-Renewal commands view laws (uid_of uses) from_json to_json draw.now draw.now
            draw.random hash auth.session renewed.session b fresh
            (ap (λ (r : Ran Bool (AppAuth uses)). (r.0, r.1.session)) first) in
        let context : auth.context ≡ renewed.context =
          ap (λ (r : Ran Bool (AppAuth uses)). r.1.context) first in
        by_result b renewed (Renewal-false contract) (λ is_true. (Renewal-true contract is_true).0)
          (sym (ap (told_sid uses) context) ∙ untold) told
      where
        by_result :
            (b : Bool) (renewed : AppAuth uses)
            → (b ≡ false → sid_of uses renewed ≡ sid_of uses auth)
            → (b ≡ true → sid_of uses renewed ≢ sid_of uses auth)
            → told_sid uses renewed.context ≡ none
            → tell_sid uses b renewed ≡ (ok tt, after)
            → Told (told_sid uses after.context) (sid_of uses auth) (sid_of uses after)
        by_result true renewed kept other none_yet told =
            let (some_sid, same) = tell_sid-told uses renewed after told in
            Told-of_some (told_sid uses after.context) (sid_of uses auth) (sid_of uses after)
              (sid_of uses renewed) some_sid same (other refl)
        by_result false renewed kept other none_yet told =
            let same = (ran-inj tt tt renewed after told).1 in
            subst
              (λ (x : AppAuth uses).
                Told (told_sid uses x.context) (sid_of uses auth) (sid_of uses x))
              same
              (Told-of_none (told_sid uses renewed.context) (sid_of uses auth) (sid_of uses renewed)
                none_yet (kept refl))

    refresh-Told :
        (draw : Draw) (auth after : AppAuth uses)
        → IsFresh draw.now draw.random hash (sid_of uses auth)
        → told_sid uses auth.context ≡ none
        → refresh uses draw auth ≡ (ok tt, after)
        → Told (told_sid uses after.context) (sid_of uses auth) (sid_of uses after)
    unfolding refresh
    refresh-Told draw auth after fresh untold e =
        let rest = λ (logs_in : Bool) (_ : AppAuth uses).
          elim logs_in as (λ _. Ran (Unit {0}) (AppAuth uses)) [
            | true ↦ auto_login uses draw auth
            | false ↦ (is_login uses auth, auth) >>! (λ at_login _. elim at_login [
              | true ↦ (ok tt, auth)
              | false ↦ try_renew uses draw auth
            ])
          ] in
        let (logs_in, _, _, ran) = >>!-ok (is_auto_login uses auth, auth) rest tt after e in
        by_query logs_in ran
      where
        by_page :
            (at_login : Bool)
            → (elim at_login as (λ _. Ran (Unit {0}) (AppAuth uses)) [
              | true ↦ (ok tt, auth)
              | false ↦ try_renew uses draw auth
            ])
              ≡ (ok tt, after)
            → Told (told_sid uses after.context) (sid_of uses auth) (sid_of uses after)
        by_page true ran =
            let same = (ran-inj tt tt auth after ran).1 in
            subst
              (λ (x : AppAuth uses).
                Told (told_sid uses x.context) (sid_of uses auth) (sid_of uses x))
              same
              (Told-of_none (told_sid uses auth.context) (sid_of uses auth) (sid_of uses auth)
                untold refl)
        by_page false ran = try_renew-Told draw auth after fresh untold ran

        by_query :
            (logs_in : Bool)
            → (elim logs_in as (λ _. Ran (Unit {0}) (AppAuth uses)) [
              | true ↦ auto_login uses draw auth
              | false ↦ (is_login uses auth, auth) >>! (λ at_login _. elim at_login [
                | true ↦ (ok tt, auth)
                | false ↦ try_renew uses draw auth
              ])
            ])
              ≡ (ok tt, after)
            → Told (told_sid uses after.context) (sid_of uses auth) (sid_of uses after)
        by_query true ran = auto_login-Told draw auth after fresh ran
        by_query false ran =
            let page = λ (at_login : Bool) (_ : AppAuth uses).
              elim at_login as (λ _. Ran (Unit {0}) (AppAuth uses)) [
                | true ↦ (ok tt, auth)
                | false ↦ try_renew uses draw auth
              ] in
            let (at_login, _, _, last) = >>!-ok (is_login uses auth, auth) page tt after ran in
            by_page at_login last

    admit-tells :
        (draw : Draw) (auth : AppAuth uses) (after : C uses)
        → IsFresh draw.now draw.random hash (sid_of uses auth)
        → told_sid uses auth.context ≡ none
        → admit uses draw auth ≡ (ok tt, after)
        → (s : S uses) × (map_get session_key after.data_map ≡ some (box s))
          × Told (told_sid uses after) (sid_of uses auth) s.meta.sid
    unfolding admit set_session put_data Auto.unwrap
    admit-tells draw auth after fresh untold e =
        let chain = valid uses auth >>! (λ _ checked. refresh uses draw checked) in
        let last = chain.1 in
        let s = last.session.session in
        let (_, c, first, bound) =
          >>!-ok (chain.0, last.context)
            (λ (_ : Unit {0}) (c : C uses). (ok tt, set_session box s c)) tt after e in
        let (_, checked, valid_ok, ran) =
          >>!-ok (valid uses auth) (λ _ a. refresh uses draw a) tt last
            (ap (λ (r : Ran (Unit {0}) (C uses)). (r.0, last)) first) in
        let checked_is : (valid uses auth).1 ≡ checked =
          ap (λ (r : Ran (Unit {0}) (AppAuth uses)). r.1) valid_ok in
        let (context, sid) =
          subst
            (λ (a : AppAuth uses). (a.context ≡ auth.context) × (sid_of uses a ≡ sid_of uses auth))
            checked_is (valid-keeps uses auth) in
        let told : Told (told_sid uses last.context) (sid_of uses auth) (sid_of uses last) =
          subst (λ x. Told (told_sid uses last.context) x (sid_of uses last)) sid
            (refresh-Told draw checked last
              (subst (IsFresh draw.now draw.random hash) (sym sid) fresh)
              (ap (told_sid uses) context ∙ untold) ran) in
        let c_is : last.context ≡ c = ap (λ (r : Ran (Unit {0}) (C uses)). r.1) first in
        let after_is : set_session box s c ≡ after =
          ap (λ (r : Ran (Unit {0}) (C uses)). r.1) bound in
        (
          s,
          ap (λ (x : C uses). map_get session_key x.data_map) (sym after_is)
              ∙ (map_get-insert session_key session_key (box s) c.data_map
                  ∙ ap (λ b. if b then some (box s) else map_get session_key c.data_map)
                      (beq_refl session_key)),
          subst (λ (x : C uses). Told (told_sid uses x) (sid_of uses auth) s.meta.sid) after_is
              (subst (λ (x : C uses). Told (told_sid uses x) (sid_of uses auth) s.meta.sid) c_is
                told),
        )

    -- Before a controller is called the request is bound to a session; if that has another id than
    -- the session that was opened, the request is told of it, and otherwise of none. This is for a
    -- request that is told of none before, for commands of which hset sets the field that it is
    -- given, and hget and expire change none, and for an id of the session opened that does not
    -- start with the hash that is drawn.
    pub before_controller-tells :
        (created renewed : Draw) (context after : C uses) (session : AutoRenew (S uses))
        → IsFresh renewed.now renewed.random hash session.session.meta.sid
        → opened uses created context ≡ ok session
        → told_sid uses context ≡ none
        → before_controller uses created renewed context ≡ (ok tt, after)
        → (s : S uses) × (map_get session_key after.data_map ≡ some (box s))
          × Told (told_sid uses after) session.session.meta.sid s.meta.sid
    unfolding before_controller
    before_controller-tells created renewed context after session fresh open_ok untold e =
        let start =
          (opened uses created context, context) >>! (λ session c. (new_auth uses c session, c)) in
        let (auth, _, made, ran) = >>!-ok start (λ auth _. admit uses renewed auth) tt after e in
        let made_of : (new_auth uses context session) ≡ ok auth =
          ap (λ (r : Ran (AppAuth uses) (C uses)). r.0) (rw open_ok at made) in
        let (context_is, session_is) = new_auth-keeps uses context session auth made_of in
        let tells =
          admit-tells renewed auth after
            (subst
              (λ (x : AutoRenew (S uses)).
                IsFresh renewed.now renewed.random hash x.session.meta.sid)
              (sym session_is) fresh)
            (ap (told_sid uses) context_is ∙ untold) ran in
        (
          tells.0,
          tells.1,
          subst
              (λ (x : AutoRenew (S uses)).
                Told (told_sid uses after) x.session.meta.sid tells.0.meta.sid)
              session_is tells.2,
        )
