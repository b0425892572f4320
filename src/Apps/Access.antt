-- ===== src/Apps/Access.antt =====
-- src/src/apis/session.rs: who may call an api. The session of a request is opened before its
-- controller, checked against the roles of the api, and renewed or logged in anew. The requests are
-- those of hyper, the sessions those in redis.
pub mod Refusals
pub mod Steps
pub mod Telling
use dce_rust.Base.{
  ℕ, Bool, true, false, not, Option, none, some, List, [], ◌∷◌, ◌++◌, any, is_empty, ◌==◌, list_eq,
  nat_eq, if◌then◌else◌,
}
use dce_rust.Text.{Str, text, ends_with}
use dce_rust.Text.Lines.{find_text}
use dce_rust.Maps.{map_get, map_insert}
use dce_rust.Error.{Outcome, ok, err, panics, out_of_fuel, new_openly, pos, ◌>>=◌}
use dce_rust.Api.{Api}
use dce_rust.Request.{Context, borrow_rp}
use dce_rust.Serializer.{string}
use dce_rust.Protocol.{serialized, head_sid_name, set_session, req}
use dce_rust.Http.{Hyper, HyperHttpProtocol}
use dce_rust.Http
use dce_rust.Session.Trait.{Ran, ◌>>!◌}
use dce_rust.Session.Redis.{Redis, RedisSession, new_with_id, set_redis}
use dce_rust.Session.Redis
use dce_rust.Session.User
use dce_rust.Session.Auto.{AutoRenew, redis_renewable}
use dce_rust.Session.Auto

pub record Member : Type 0 where
  pub id : ℕ
  pub name : Str
  pub role_id : ℕ

-- What the clock and the random numbers give for the making of one id.
pub record Draw : Type 0 where
  pub now : Outcome (ℕ × ℕ)
  pub random : ℕ

-- What the application uses of other crates. `query` is that of the request's uri, `roles` the
-- roles of an api among its extras, if they are a vector of numbers; `box` keeps a session in the
-- data of a request, and `redis` is the connection.
pub record Uses (Req Resp Method Value Status D R : Type 0) : Type 0 where
  pub hyper : Hyper Req Resp Method Value Status
  pub query : Req → Option Str
  pub roles : Api (HyperHttpProtocol Req Resp) → Option (List ℕ)
  pub box : RedisSession R Member → D
  pub commands : Redis R
  pub redis : R
  pub from_json : Str → Outcome Member
  pub to_json : Member → Outcome Str
  pub hash : Str → Str

module _ {Req Resp Method Value Status D R : Type 0}
    (uses : Uses Req Resp Method Value Status D R) where
  open uses use {hyper, query, roles, box, commands, redis, from_json, to_json, hash}

  abbrev pub Rp : Type 0
  Rp = HyperHttpProtocol Req Resp

  abbrev pub C : Type 0
  C = Context Rp D

  abbrev pub S : Type 0
  S = RedisSession R Member

  pub record AppAuth : Type 0 where
    pub context : C
    pub session : AutoRenew S
    pub roles_needs : List ℕ

  abbrev pub uid_of : Member → ℕ
  uid_of member = member.id

  -- `context.api().unwrap()`.
  abbrev pub routed_api : C → Outcome (Api Rp)
  routed_api context = elim context.api [ none ↦ panics | some api ↦ ok api ]

  unfoldable pub new_auth : C → AutoRenew S → Outcome AppAuth
  new_auth context session = routed_api context >>= λ api. ok (record {
    context = context;
    session = session;
    roles_needs = elim (roles api) [ none ↦ [] | some needs ↦ needs ];
  })

  unfoldable pub is_private : AppAuth → Bool
  is_private auth = not (is_empty auth.roles_needs)

  unfoldable pub is_login : AppAuth → Outcome Bool
  unfolding ends_with
  is_login auth = routed_api auth.context >>= λ api. ok (ends_with api.path (text "login"))

  unfoldable pub is_auto_login : AppAuth → Outcome Bool
  unfolding borrow_rp req find_text
  is_auto_login auth = borrow_rp auth.context >>= λ rp. req rp.meta >>= λ r. ok (elim (query r) [
    | none ↦ false
    | some q ↦ elim (find_text (text "autologin") q) [ none ↦ false | some _ ↦ true ]
  ])

  -- A method of the session.
  unfoldable pub on_session : {A : Type 0} → (S → Ran A S) → AppAuth → Ran A AppAuth
  on_session call auth =
      let (result, s) = call auth.session.session in
      (result, record auth { session = record auth.session { session = s } })

  -- `context.rp_mut().set_resp_sid(self.session.id().to_string())`.
  unfoldable pub set_resp_sid : Str → C → Ran (Unit {0}) C
  unfolding map_insert
  set_resp_sid sid context = elim context.rp [
    | none ↦ (panics, context)
    | some rp ↦ (
      ok tt,
      record context {
        rp = some (record {
          meta = record rp.meta { resp_heads = map_insert head_sid_name sid rp.meta.resp_heads };
        });
      },
    )
  ]

  unfoldable pub tell_sid : Bool → AppAuth → Ran (Unit {0}) AppAuth
  unfolding set_resp_sid
  tell_sid false auth = (ok tt, auth)
  tell_sid true auth =
      let (result, context) = set_resp_sid auth.session.session.meta.sid auth.context in
      (result, record auth { context = context })

  unfoldable pub valid : AppAuth → Ran (Unit {0}) AppAuth
  unfolding is_private on_session User.user any
  valid auth = elim (is_private auth) [
    | false ↦ (ok tt, auth)
    | true ↦ on_session (User.user commands uid_of from_json to_json) auth >>! (λ found checked.
        elim found [
          | none ↦ (err (new_openly (pos 401) (text "Unauthorized")), checked)
          | some user ↦
              if any (λ role. role == user.role_id) checked.roles_needs
              then (ok tt, checked)
              else (err (new_openly (pos 403) (text "Forbidden")), checked)
        ])
  ]

  module _ (draw : Draw) where
    unfoldable pub auto_login : AppAuth → Ran (Unit {0}) AppAuth
    unfolding on_session User.auto_login tell_sid
    auto_login auth =
        on_session (User.auto_login commands uid_of from_json to_json draw.now draw.random hash)
          auth
        >>! (λ renewed after. tell_sid renewed after)

    unfoldable pub try_renew : AppAuth → Ran (Unit {0}) AppAuth
    unfolding Auto.try_renew tell_sid
    try_renew auth =
        let (result, session) =
          Auto.try_renew
            (redis_renewable commands uid_of from_json to_json draw.now draw.random hash) draw.now
            auth.session in
        (result, record auth { session = session }) >>! (λ renewed after. tell_sid renewed after)

    -- What follows the check.
    unfoldable pub refresh : AppAuth → Ran (Unit {0}) AppAuth
    unfolding is_auto_login is_login auto_login try_renew
    refresh auth = (is_auto_login auth, auth) >>! (λ logs_in _. elim logs_in [
      | true ↦ auto_login auth
      | false ↦
          (is_login auth, auth)
          >>! (λ at_login _. elim at_login [ true ↦ (ok tt, auth) | false ↦ try_renew auth ])
    ])

  -- The session of a request: that of the id it comes with, or a new one for an hour.
  unfoldable pub open_session : Draw → Option Str → Outcome (AutoRenew S)
  unfolding new_with_id Redis.new set_redis Auto.new Auto.config
  open_session draw sid =
      (elim sid as (λ _. Outcome S) [
        | none ↦ Redis.new draw.now draw.random hash 60
        | some s ↦ new_with_id (s ∷ [])
      ])
      >>= λ s. ok (Auto.config (some 240) none none none (Auto.new (set_redis redis s)))

  unfoldable pub opened : Draw → C → Outcome (AutoRenew S)
  unfolding borrow_rp Http.sid open_session
  opened draw context =
      borrow_rp context >>= λ rp. Http.sid hyper rp >>= λ sid. open_session draw sid

  -- The session is bound to the request once it is checked and refreshed.
  unfoldable pub admit : Draw → AppAuth → Ran (Unit {0}) C
  unfolding valid refresh set_session Auto.unwrap
  admit renewed auth =
      let (result, after) = valid auth >>! (λ _ checked. refresh renewed checked) in
      (result, after.context) >>! (λ _ c. (ok tt, set_session box (Auto.unwrap after.session) c))

  -- The draws are those for a new session and for the id of a renewal.
  unfoldable pub before_controller : Draw → Draw → C → Ran (Unit {0}) C
  unfolding opened new_auth admit
  before_controller created renewed context =
      (opened created context, context)
      >>! (λ session c. (new_auth c session, c))
      >>! (λ auth _. admit renewed auth)

  -- The body of an answer tells of a new id.
  unfoldable pub after_controller : C → Ran (Unit {0}) C
  unfolding map_get
  after_controller context = elim context.rp [
    | none ↦ (panics, context)
    | some rp ↦ elim (map_get head_sid_name rp.meta.resp_heads) [
      | none ↦ (ok tt, context)
      | some sid ↦ elim rp.meta.resp [
        | some (serialized (string body)) ↦ (
          ok tt,
          record context {
            rp = some (record {
              meta = record rp.meta {
                resp = some (
                    serialized (
                      string (
                        body
                        ++ (text "\n\nGot new sid, you can use it to access private page:\n"
                            ++ sid))));
              };
            });
          },
        )
        | _ ↦ (ok tt, context)
      ]
    ]
  ]
