-- ===== src/Apps/Members.antt =====
-- The controllers of src/src/apis/session.rs: members log in, read their profiles and change them.
use dce_rust.Base.{ℕ, ◌%◌, ◌^◌, true, false, Option, none, some, List, [], ◌∷◌, ◌++◌, find}
use dce_rust.Text.{Str, text, show_nat, eq_ignore_ascii_case}
use dce_rust.Error.{Outcome, ok, err, panics, new_openly, pos, ◌>>=◌}
use dce_rust.Serializer.{string, json_value}
use dce_rust.Protocol.{Response, on_session}
use dce_rust.Answers.{pack}
use dce_rust.Http
use dce_rust.Session.Meta.{default_ttl_minutes}
use dce_rust.Session.Trait.{Ran, ◌>>!◌}
use dce_rust.Session.User
use dce_rust.Apps.Access.{Member, Draw, Uses, C, S, uid_of, set_resp_sid}

abbrev pub members : List Member
members =
    record { id = 1000; name = text "Drunk"; role_id = 1 }
    ∷ record { id = 1001; name = text "Dce"; role_id = 2 }
    ∷ record { id = 1002; name = text "Rust"; role_id = 2 }
    ∷ []

unfoldable pub find_member : Str → Option Member
unfolding find eq_ignore_ascii_case
find_member name = find (λ m. eq_ignore_ascii_case m.name name) members

-- What the controllers use besides: the values of serde_json with the text and the number under a
-- key, the text of a member for debugging, and the type of a session by name.
pub record Values (D R Json : Type 0) : Type 0 where
  pub from_utf8_lossy : List ℕ → Str
  pub from_str : Str → Outcome Json
  pub str_at : Str → Json → Option Str
  pub u64_at : Str → Json → Option ℕ
  pub debug : Member → Str

module _ {Req Resp Method Value Status D R Json : Type 0}
    (uses : Uses Req Resp Method Value Status D R) (values : Values D R Json)
    (downcast : D → Option (S uses)) (type_name : Str) where
  open uses use {hyper, box, commands, from_json, to_json, hash}
  open values use {from_utf8_lossy, from_str, str_at, u64_at, debug}

  abbrev pub Answered : Type 0
  Answered = Ran (Option (Response Resp)) (C uses)

  abbrev pub answer : Str → C uses → Answered
  answer message context = (pack (string message), context)

  -- `req.rp_mut().body().await?.json_value()?`.
  unfoldable pub json_body : C uses → Ran Json (C uses)
  unfolding Http.body json_value
  json_body context = elim context.rp [
    | none ↦ (panics, context)
    | some rp ↦
        let (body, after) = Http.body hyper rp in
        (body >>= λ b. json_value from_utf8_lossy from_str b, record context { rp = some after })
  ]

  unfoldable pub index : C uses → Answered
  index context = answer (text "This is a public page, you can access without a token") context

  -- A method of the session that the request is bound to.
  unfoldable pub with_session : {A : Type 0} → (S uses → Ran A (S uses)) → C uses → Ran A (C uses)
  unfolding on_session
  with_session call context = on_session box downcast type_name call context

  abbrev sid : S uses → Ran Str (S uses)
  sid s = (ok s.meta.sid, s)

  -- `session.user().await.unwrap().clone()`.
  unfoldable pub the_user : S uses → Ran Member (S uses)
  unfolding User.user
  the_user s =
      User.user commands (uid_of uses) from_json to_json s
      >>! (λ found t. elim found [ none ↦ (panics, t) | some user ↦ (ok user, t) ])

  -- The member that a request names.
  unfoldable pub named_member : Json → Outcome Member
  unfolding find_member
  named_member value = elim (str_at (text "name") value) [
    | none ↦ err (new_openly (pos 1000) (text "Name required"))
    | some name ↦ elim (find_member name) [
      | none ↦ err (new_openly (pos 1001) (text "Wrong name"))
      | some member ↦ ok member
    ]
  ]

  unfoldable pub login : Draw → C uses → Answered
  unfolding json_body named_member with_session User.login set_resp_sid
  login draw context = json_body context >>! (λ value c. (named_member value, c)) >>! (λ member c.
      with_session
        (λ s.
          User.login commands (uid_of uses) from_json to_json draw.now draw.random hash member
            default_ttl_minutes s)
        c
      >>! (λ logged d. elim logged [
        | false ↦ answer (text "Failed to login") d
        | true ↦
            with_session sid d
            >>! (λ new_sid e. set_resp_sid uses new_sid e)
            >>! (λ _ e. answer (text "Succeed login with:\n" ++ debug member) e)
      ]))

  unfoldable pub profile : C uses → Answered
  unfolding with_session the_user
  profile context =
      with_session the_user context
      >>! (λ member c. answer (text "Your profile:\n" ++ debug member) c)

  -- `v as u16` cuts the role.
  unfoldable pub modified : Option Str → Option ℕ → Member → Member
  modified name role_id member = record member {
    name = elim name [ none ↦ member.name | some v ↦ v ];
    role_id = elim role_id [ none ↦ member.role_id | some v ↦ v % 2 ^ 16 ];
  }

  -- What a request asks to change, which is something.
  unfoldable pub asked : Json → Outcome (Option Str × Option ℕ)
  asked value = elim (str_at (text "name") value) [
    | some name ↦ ok (some name, u64_at (text "role_id") value)
    | none ↦ elim (u64_at (text "role_id") value) [
      | some role_id ↦ ok (none, some role_id)
      | none ↦ err (new_openly (pos 1010) (text "Must specified something to modify"))
    ]
  ]

  unfoldable pub modify : C uses → Answered
  unfolding json_body asked with_session the_user modified User.sync
  modify context = json_body context >>! (λ value c. (asked value, c)) >>! (λ wish c.
      with_session the_user c >>! (λ member d.
        let changed = modified wish.0 wish.1 member in
        with_session (User.sync commands (uid_of uses) from_json to_json changed) d
        >>! (λ _ e. answer (text "You have succeed to modified profile to:\n" ++ debug changed) e)))

  unfoldable pub user : C uses → Answered
  unfolding with_session the_user
  user context = with_session the_user context >>! (λ member c.
      answer
        (text "You are role "
          ++ (show_nat member.role_id
              ++ (text ", so you can access, your profile:\n" ++ debug member)))
        c)
