-- ===== src/Apps/Access/Refusals.antt =====
-- Who is turned away before a controller is called.
use dce_rust.Base.{ℕ, ◌≡◌, refl, Bool, true, false, Option, none, some, List, ◌∷◌, any, ◌==◌}
use dce_rust.Text.{text}
use dce_rust.Error.{ok, err, DceErr, new_openly, pos}
use dce_rust.Api.{Api}
use dce_rust.Session.User
use dce_rust.Session.Auto.{AutoRenew}
use dce_rust.Apps.Access.{
  Member, Draw, Uses, Rp, C, S, AppAuth, uid_of, opened, new_auth, valid, before_controller, admit,
  is_private, on_session,
}

-- Whether a user, if there is one, has one of the roles.
abbrev pub has_role : List ℕ → Option Member → Bool
has_role needs none = false
has_role needs (some user) = any (λ role. role == user.role_id) needs

abbrev pub refusal : Option Member → DceErr
refusal none = new_openly (pos 401) (text "Unauthorized")
refusal (some user) = new_openly (pos 403) (text "Forbidden")

module _ {Req Resp Method Value Status D R : Type 0}
    (uses : Uses Req Resp Method Value Status D R) where
  -- The check of an api that asks for roles, once the user is read.
  valid-refuses :
      (auth : AppAuth uses) (t : S uses) (found : Option Member)
      → is_private uses auth ≡ true
      → User.user uses.commands (uid_of uses) uses.from_json uses.to_json auth.session.session
        ≡ (ok found, t)
      → has_role auth.roles_needs found ≡ false
      → valid uses auth
        ≡ (err (refusal found), record auth { session = record auth.session { session = t } })
  unfolding valid on_session
  valid-refuses auth t none private read lacks = rw (valid, private) (rw read refl)
  valid-refuses auth t (some user) private read lacks =
      rw (valid, private) (rw read (rw lacks refl))

  -- A request for an api that asks for roles, whose session has no user, or one without any of the
  -- roles, is refused before the controller: by 401 or 403, the context as it was.
  pub before_controller-refuses :
      (created renewed : Draw) (context : C uses) (session : AutoRenew (S uses)) (t : S uses)
      (api : Api (Rp uses)) (role : ℕ) (needs : List ℕ) (found : Option Member)
      → opened uses created context ≡ ok session
      → context.api ≡ some api
      → uses.roles api ≡ some (role ∷ needs)
      → User.user uses.commands (uid_of uses) uses.from_json uses.to_json session.session
        ≡ (ok found, t)
      → has_role (role ∷ needs) found ≡ false
      → before_controller uses created renewed context ≡ (err (refusal found), context)
  unfolding before_controller admit new_auth is_private
  before_controller-refuses created renewed context session t api role needs found open_ok routed
        asked read lacks =
      let auth : AppAuth uses = record {
        context = context;
        session = session;
        roles_needs = role ∷ needs;
      } in
      let made : new_auth uses context session ≡ ok auth = rw (new_auth, routed) (rw asked refl) in
      let checked = valid-refuses auth t found refl read lacks in
      rw (before_controller, admit, open_ok) (rw made (rw checked refl))
