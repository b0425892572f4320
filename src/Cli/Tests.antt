-- ===== src/Cli/Tests.antt =====
-- Small commands.
use dce_rust.Base.{◌≡◌, refl, List, [], ◌∷◌, ◌++◌, some, All, list_eq, nat_eq}
use dce_rust.Text.{Str, text, join}
use dce_rust.Maps.{map_get}
use dce_rust.Protocol.{head_path_name}
use dce_rust.Cli.{parse_type, from_args, pass_separator}
use dce_rust.Cli.Passing.{IsPart, from_args-append}

abbrev parts : List Str
parts = text "git" ∷ text "push" ∷ []

abbrev after : List Str
after = text "-f" ∷ text "--" ∷ text "a=b" ∷ []

parts-IsPart : All IsPart parts
unfolding parse_type
parts-IsPart = (refl, (refl, tt))

args_test :
    (from_args (text "-v" ∷ text "run" ∷ text "all" ∷ text "k=v" ∷ [])).args
    ≡ (text "-v", text "run") ∷ (text "k", text "v") ∷ []
unfolding from_args
args_test = refl

from_args-append_example :
    ((from_args (parts ++ pass_separator ∷ after)).pass ≡ after)
    × (map_get head_path_name (from_args (parts ++ pass_separator ∷ after)).meta.heads
        ≡ some (join b'/' parts))
    × ((from_args (parts ++ pass_separator ∷ after)).args ≡ [])
from_args-append_example = from_args-append parts after parts-IsPart
