-- ===== src/Apps/Commands/Tests.antt =====
-- Runs of the commands.
use dce_rust.Base.{◌≡◌, refl, none, some, List, [], ◌∷◌, list_beq}
use dce_rust.Text.{Str, text}
use dce_rust.Maps.{map_get, map_remove}
use dce_rust.Error.{ok, err, openly0}
use dce_rust.Request.{Context, option, PathParams}
use dce_rust.Serializer.{Serializer, string, dto}
use dce_rust.Protocol.{raw, serialized}
use dce_rust.Cli.{CliProtocol}
use dce_rust.Apps.Commands.{UserDto, male, female, hello, session}

abbrev context : PathParams → List (Str × Str) → Context CliProtocol (Unit {0})
context params args = record {
  api = none;
  rp = some (record {
    meta = record { req = none; resp = none; heads = []; resp_heads = [] };
    pass = [];
    args = args;
  });
  path_params = params;
  suffix = none;
  data_map = [];
}

abbrev names : List (Serializer UserDto)
names =
    (λ value. elim value [
      | dto user ↦ elim user.gender [
        | male ↦ ok (string (text "male"))
        | female ↦ ok (string user.nickname)
      ]
      | _ ↦ ok (string [])
    ])
    ∷ []

hello_test :
    (hello (context ((text "target", option none) ∷ []) [])).0
    ≡ ok (some (raw (text "Hello RUST !")))
unfolding hello map_get list_beq
hello_test = refl

session_test :
    ((session names 128 (context [] ((text "--user", text "DCE") ∷ []))).0
      ≡ ok (some (serialized (string (text "DCE")))))
    × ((session names 127 (context [] ((text "--user", text "DCE") ∷ []))).0
        ≡ ok (some (serialized (string (text "male")))))
unfolding session map_get map_remove list_beq
session_test = (refl, refl)

no_user_test :
    (session names 0 (context [] [])).0 ≡ err (openly0 (text "please pass in the \"--user\" arg"))
unfolding session map_get
no_user_test = refl
