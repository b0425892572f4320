-- ===== src/Apps/Commands.antt =====
-- src/src/apis/cli.rs: the commands that greet, over the arguments of a process. `random` is the byte
-- that is drawn.
mod Tests
use dce_rust.Base.{ℕ, Option, none, some, List, ◌++◌, ltb, if◌then◌else◌, list_eq, nat_eq}
use dce_rust.Text.{Str, text}
use dce_rust.Maps.{map_get, map_remove}
use dce_rust.Error.{err, panics, openly0, ◌>>=◌}
use dce_rust.Request.{Context, param, as_str}
use dce_rust.Serializer.{Serializer}
use dce_rust.Protocol.{Response}
use dce_rust.Answers.{raw_resp, resp}
use dce_rust.Dispatch.{Handled}
use dce_rust.Cli.{CliProtocol}

pub data Gender : Type 0 where
  male female : Gender

pub record User : Type 0 where
  pub nickname : Str
  pub gender : Gender
  pub name : Str
  pub cellphone : Str

pub record UserDto : Type 0 where
  pub nickname : Str
  pub gender : Gender

unfoldable pub from_user : User → UserDto
from_user value = record { nickname = value.nickname; gender = value.gender }

module _ {D : Type 0} where
  unfoldable pub index : Context CliProtocol D → Handled (Option (Response Str)) CliProtocol D
  unfolding raw_resp
  index context = (raw_resp (text "Welcome to DCE !"), context)

  -- Without a target it is "RUST" that is greeted.
  unfoldable pub hello : Context CliProtocol D → Handled (Option (Response Str)) CliProtocol D
  unfolding raw_resp param as_str
  hello context = (
    param context (text "target") >>= λ found. as_str found >>= λ given.
        let target : Str = elim given [ none ↦ text "RUST" | some v ↦ v ] in
        raw_resp (text "Hello " ++ (target ++ text " !")),
    context,
  )

  -- The user is taken out of the arguments.
  unfoldable pub session :
      List (Serializer UserDto)
      → ℕ
      → Context CliProtocol D
      → Handled (Option (Response Str)) CliProtocol D
  unfolding map_get map_remove resp from_user
  session serializers random context = elim context.rp [
    | none ↦ (panics, context)
    | some rp ↦
        let left = record context {
          rp = some (record rp { args = map_remove (text "--user") rp.args });
        } in
        elim (map_get (text "--user") rp.args) [
          | none ↦ (err (openly0 (text "please pass in the \"--user\" arg")), left)
          | some name ↦ (
            resp serializers (
                from_user (record {
                  nickname = name;
                  gender = if ltb 127 random then female else male;
                  name = name;
                  cellphone = text "+8613344445555";
                })),
            left,
          )
        ]
  ]
