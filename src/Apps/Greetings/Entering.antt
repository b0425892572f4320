-- ===== src/Apps/Greetings/Entering.antt =====
-- What the interceptor leaves for the controller of a session.
use dce_rust.Base.{
  ◌≡◌, ◌≢◌, refl, ap, sym, ◌∙◌, subst, true, Option, none, some, List, inl, inr, arith,
  Option-cases, Bool-cases, if◌then◌else◌, list_eq, nat_eq, beq_refl, list_beq_iff,
}
use dce_rust.Text.{Str, text, str_eq}
use dce_rust.Maps.{map_get, map_get-insert}
use dce_rust.Error.{Outcome, ok, err, DceErr, new_openly, pos}
use dce_rust.Api.{Api}
use dce_rust.Request.{Context, put_data}
use dce_rust.Serializer.{Serializer}
use dce_rust.Answers.{success, fail}
use dce_rust.Dispatch.{Handled}
use dce_rust.Apps.Greetings.{
  Answered, session_path, hello_key, username, intercept, interceptor, attachment, is_manager,
  session,
}

err-ne-ok : {A : Type 0} {x : DceErr} {a : A} → ◌≢◌ {A = Outcome A} (err x) (ok a)
err-ne-ok e = ground (arith, e)

attachment-put :
    {Rp D : Type 0} (downcast : D → Option Str) (attached : D) (message : Str)
    (context : Context Rp D)
    → downcast attached ≡ some message
    → attachment downcast (put_data hello_key attached context) ≡ ok message
unfolding attachment put_data
attachment-put downcast attached message context texts =
    let got =
      map_get-insert hello_key hello_key attached context.data_map
      ∙ ap (λ b. if b then some attached else map_get hello_key context.data_map)
          (beq_refl hello_key) in
    rw (attachment, got) (rw texts refl)

-- What the interceptor lets through to the controller of a session has what that unwraps: the
-- manager is answered with success, and any other user by the failure 403.
pub session-interceptor :
    {Rp D Dto Resp : Type 0} (serializers : List (Serializer Dto)) (downcast : D → Option Str)
    (attached : D) (message : Str) (context after : Context Rp D) (api : Api Rp)
    → downcast attached ≡ some message
    → context.api ≡ some api
    → api.path ≡ session_path
    → interceptor attached context ≡ (ok tt, after)
    → ◌≡◌ {A = Answered Resp} (session serializers downcast after) (
        if is_manager context
        then success serializers none
        else fail serializers (some (text "invalid manager")) (pos 403))
unfolding interceptor intercept session attachment is_manager put_data str_eq
session-interceptor {Rp} {D} {Dto} {Resp} serializers downcast attached message context after api
      texts routed at_session e =
    let test : str_eq api.path session_path ≡ true =
      (list_beq_iff api.path session_path).1 at_session in
    elim (Option-cases (username context.path_params)) [
      | inl nobody ↦
          let refused : interceptor attached context
              ≡ (err (new_openly (pos 401) (text "need to login")), context) =
            ap (intercept attached context) routed ∙ rw (intercept, test) (rw nobody refl) in
          absurd (err-ne-ok (ap (λ (r : Handled (Unit {0}) Rp D). r.0) (sym refused ∙ e)))
      | inr (name, given) ↦
          let entered = put_data hello_key attached context in
          let run : interceptor attached context ≡ (ok tt, entered) =
            ap (intercept attached context) routed ∙ rw (intercept, test) (rw given refl) in
          let same : entered ≡ after = ap (λ (r : Handled (Unit {0}) Rp D). r.1) (sym run ∙ e) in
          let found : attachment downcast entered ≡ ok message =
            attachment-put downcast attached message context texts in
          subst
            (λ (c : Context Rp D). ◌≡◌ {A = Answered Resp} (session serializers downcast c) (
              if is_manager context
              then success serializers none
              else fail serializers (some (text "invalid manager")) (pos 403)))
            same
            (elim (Bool-cases (is_manager context)) [
              | inl manager ↦ rw (session, manager) (rw found refl)
              | inr other ↦ rw (session, other) refl
            ])
    ]
