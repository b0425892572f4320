-- ===== src/Apps/Access/Steps.antt =====
-- What the steps before a controller do to the request and to the id of its session.
use dce_rust.Base.{
  ◌≡◌, ◌≢◌, refl, ap, sym, ◌∙◌, Bool, true, Option, none, some, list_eq, nat_eq, beq_refl, arith,
  any, ◌==◌, Bool-cases, if◌then◌else◌, inl, inr, Option-cases, subst,
}
use dce_rust.Text.{Str, text}
use dce_rust.Maps.{map_get, map_get-insert}
use dce_rust.Error.{ok, err, new_openly, pos}
use dce_rust.Protocol.{head_sid_name}
use dce_rust.Session.Meta.{Meta}
use dce_rust.Session.Meta
use dce_rust.Session.Trait.{Ran, ◌>>!◌, >>!-ok, ran-inj}
use dce_rust.Session.Redis.{cloned_key, on_redis, Snapshot}
use dce_rust.Session.User
use dce_rust.Session.Fresh.{IsFresh, OnOk, renew-OnOk, renew_none-new}
use dce_rust.Session.Keeping.{user-Holds, >>!-holds, cloned_destroy-Holds}
use dce_rust.Session.Auto.{AutoRenew}
use dce_rust.Apps.Access.{
  Member, Draw, Uses, C, S, AppAuth, uid_of, new_auth, valid, is_private, on_session, set_resp_sid,
  tell_sid,
}

module _ {Req Resp Method Value Status D R : Type 0}
    (uses : Uses Req Resp Method Value Status D R) where
  open uses use {box, commands, from_json, to_json, hash}

  -- `get_resp_sid`.
  abbrev pub told_sid : C uses → Option Str
  told_sid context = elim context.rp [
    | none ↦ none
    | some rp ↦ map_get head_sid_name rp.meta.resp_heads
  ]

  abbrev pub sid_of : AppAuth uses → Str
  sid_of auth = auth.session.session.meta.sid

  set_resp_sid-told :
      (sid : Str) (context after : C uses)
      → set_resp_sid uses sid context ≡ (ok tt, after)
      → told_sid after ≡ some sid
  unfolding set_resp_sid
  set_resp_sid-told sid context after e = elim (Option-cases context.rp) [
    | inl gone ↦ absurd (ground (arith, gone))
    | inr (rp, there) ↦
        let same = (ran-inj tt tt _ after (rw (there, set_resp_sid) at e)).1 in
        subst (λ c. told_sid c ≡ some sid) same
          (map_get-insert head_sid_name head_sid_name sid rp.meta.resp_heads
            ∙ ap (λ b. if b then some sid else map_get head_sid_name rp.meta.resp_heads)
                (beq_refl head_sid_name))
  ]

  pub new_auth-keeps :
      (context : C uses) (session : AutoRenew (S uses)) (auth : AppAuth uses)
      → new_auth uses context session ≡ ok auth
      → (auth.context ≡ context) × (auth.session ≡ session)
  unfolding new_auth
  new_auth-keeps context session auth e = elim (Option-cases context.api) [
    | inl gone ↦ absurd (ground (arith, gone))
    | inr (api, routed) ↦ ground arith
  ]

  pub tell_sid-told :
      (auth after : AppAuth uses)
      → tell_sid uses true auth ≡ (ok tt, after)
      → (told_sid after.context ≡ some (sid_of auth)) × (sid_of after ≡ sid_of auth)
  unfolding tell_sid
  tell_sid-told auth after e = (
    set_resp_sid-told (sid_of auth) auth.context after.context
        (ap (λ (r : Ran (Unit {0}) (AppAuth uses)). (r.0, r.1.context)) e),
    sym (ap (λ (r : Ran (Unit {0}) (AppAuth uses)). sid_of r.1) e),
  )

  destroyed-true :
      (s t : S uses) (b : Bool)
      → User.cloned_destroy commands (uid_of uses) from_json to_json s ≡ (ok b, t)
      → b ≡ true
  unfolding User.cloned_destroy
  destroyed-true s t b e =
      let unmapped = User.cloned_unmapping commands (uid_of uses) from_json to_json s in
      let gone =
        unmapped
        >>! (λ _ u. (cloned_key commands u, u))
        >>! (λ key u. on_redis (commands.del key) u) in
      let (_, last, _, done) = >>!-ok gone (λ _ u. (ok true, u)) b t e in
      sym (ran-inj true b last t done).0

  -- A login that ends has renewed the session.
  pub log_in-true :
      (draw : Draw) (s t : S uses) (b : Bool)
      → User.auto_login commands (uid_of uses) from_json to_json draw.now draw.random hash s
        ≡ (ok b, t)
      → b ≡ true
  unfolding User.auto_login User.log_in
  log_in-true draw s t b e =
      let named : S uses = record s {
        meta = Meta.config none none s.meta;
        cloned = some (record { meta = s.meta; user_meta = s.user_meta });
      } in
      let filters =
        User.login_filters commands (uid_of uses) from_json to_json draw.now draw.random hash
          s.user_meta in
      let renewed =
        User.renew commands (uid_of uses) from_json to_json draw.now draw.random hash filters
          named in
      let destroy =
        λ (_ : Bool) (u : S uses). User.cloned_destroy commands (uid_of uses) from_json to_json u in
      let (_, u, _, destroyed) = >>!-ok renewed destroy b t e in destroyed-true u t b destroyed

  OnOk-ran :
      {A T : Type 0} (P : T → Type 0) (m : Ran A T) (a : A) (t : T) → OnOk P m → m ≡ (ok a, t) → P t
  OnOk-ran P m a t h e = subst (OnOk P) e h

  -- A login that ends has given the session another id.
  pub log_in-new :
      (draw : Draw) (s t : S uses) (b : Bool)
      → IsFresh draw.now draw.random hash s.meta.sid
      → User.auto_login commands (uid_of uses) from_json to_json draw.now draw.random hash s
        ≡ (ok b, t)
      → t.meta.sid ≢ s.meta.sid
  unfolding User.auto_login User.log_in
  log_in-new draw s t b fresh e =
      let named : S uses = record s {
        meta = Meta.config none none s.meta;
        cloned = some (record { meta = s.meta; user_meta = s.user_meta });
      } in
      let filters =
        User.login_filters commands (uid_of uses) from_json to_json draw.now draw.random hash
          s.user_meta in
      let renewed =
        User.renew commands (uid_of uses) from_json to_json draw.now draw.random hash filters
          named in
      let destroy =
        λ (_ : Bool) (u : S uses). User.cloned_destroy commands (uid_of uses) from_json to_json u in
      let (c, u, ran, destroyed) = >>!-ok renewed destroy b t e in
      let Any = λ (m : Meta) (clone : Option (Snapshot Member)). Unit {0} in
      let Other = λ (m : Meta) (clone : Option (Snapshot Member)). m.sid ≢ s.meta.sid in
      let other : u.meta.sid ≢ s.meta.sid =
        OnOk-ran (λ (x : S uses). x.meta.sid ≢ s.meta.sid) renewed c u
          (renew-OnOk Any Other commands (λ m clone touched h. h) (uid_of uses) from_json to_json
            draw.now draw.random hash
            (λ m clone h. renew_none-new draw.now draw.random hash s.meta.sid fresh m) filters named
            tt)
          ran in
      subst (λ (x : S uses). x.meta.sid ≢ s.meta.sid)
        (ap (λ (r : Ran Bool (S uses)). r.1) destroyed)
        (cloned_destroy-Holds Other commands (uid_of uses) from_json to_json u other)

  -- The check of the roles reads the session only.
  pub valid-keeps :
      (auth : AppAuth uses)
      → ((valid uses auth).1.context ≡ auth.context) × (sid_of (valid uses auth).1 ≡ sid_of auth)
  unfolding valid on_session
  valid-keeps auth =
      let Kept = λ (a : AppAuth uses). (a.context ≡ auth.context) × (sid_of a ≡ sid_of auth) in
      let read = on_session uses (User.user commands (uid_of uses) from_json to_json) auth in
      let decide = λ (found : Option Member) (checked : AppAuth uses).
        elim found as (λ _. Ran (Unit {0}) (AppAuth uses)) [
          | none ↦ (err (new_openly (pos 401) (text "Unauthorized")), checked)
          | some user ↦
              if any (λ role. role == user.role_id) checked.roles_needs
              then (ok tt, checked)
              else (err (new_openly (pos 403) (text "Forbidden")), checked)
        ] in
      let same_sid : sid_of read.1 ≡ sid_of auth =
        user-Holds (λ m _. m.sid ≡ sid_of auth) commands (uid_of uses) from_json to_json
          auth.session.session refl in
      elim (Bool-cases (is_private uses auth)) [
        | inl private ↦ rw (valid, private) (>>!-holds Kept read decide (refl, same_sid) decided)
        | inr public ↦ rw (valid, public) (refl, refl)
      ]
    where
      decided :
          (found : Option Member) (a : AppAuth uses)
          → (a.context ≡ auth.context) × (sid_of a ≡ sid_of auth)
          → let r : Ran (Unit {0}) (AppAuth uses) =
              elim found as (λ _. Ran (Unit {0}) (AppAuth uses)) [
                | none ↦ (err (new_openly (pos 401) (text "Unauthorized")), a)
                | some user ↦
                    if any (λ role. role == user.role_id) a.roles_needs
                    then (ok tt, a)
                    else (err (new_openly (pos 403) (text "Forbidden")), a)
              ] in
            (r.1.context ≡ auth.context) × (sid_of r.1 ≡ sid_of auth)
      decided none a kept = kept
      decided (some user) a kept =
          elim (Bool-cases (any (λ role. role == user.role_id) a.roles_needs)) [
            | inl t ↦ rw t kept
            | inr f ↦ rw f kept
          ]
