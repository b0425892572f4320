-- ===== src/Session/Hex.antt =====
-- Hexadecimal numbers of the standard library: `{:X}`, `{:04X}`, and `from_str_radix` to the base 16
-- for an unsigned type.
use dce_rust.Base.{
  ℕ, zero, suc, ◌+◌, ◌-◌, ◌*◌, ◌/◌, ◌%◌, ◌&&◌, Option, none, some, [], ◌∷◌, ltb, leb, ◌==◌,
  if◌then◌else◌, length,
}
use dce_rust.Text.{Str, text}
use dce_rust.Error.{Outcome, ok, closed0_wrap}

unfoldable pub hex_char : ℕ → ℕ
hex_char d = if ltb d 10 then 48 + d else 55 + d

unfoldable pub hex_from : ℕ → ℕ → Str → Str
unfolding hex_char
hex_from zero n behind = behind
hex_from (suc fuel) n behind =
    let more = hex_from fuel (n / 16) (hex_char (n % 16) ∷ behind) in
    if ltb n 16 then hex_char n ∷ behind else more

-- `{:X}`; a number has fewer digits than its successor counts.
unfoldable pub show_hex : ℕ → Str
unfolding hex_from
show_hex n = hex_from (suc n) n []

-- Zeros in front, to a width.
unfoldable pub zeros : ℕ → Str → Str
zeros zero s = s
zeros (suc n) s = 48 ∷ zeros n s

unfoldable pub pad : ℕ → Str → Str
unfolding zeros
pad width s = zeros (width - length s) s

unfoldable pub hex_digit : ℕ → Option ℕ
hex_digit c =
    if leb 48 c && leb c 57
    then some (c - 48)
    else if leb 65 c && leb c 70
    then some (c - 55)
    else if leb 97 c && leb c 102
    then some (c - 87)
    else none

unfoldable pub hex_digits : ℕ → ℕ → Str → Outcome ℕ
unfolding hex_digit
hex_digits bound n [] = ok n
hex_digits bound n (c ∷ s) = elim (hex_digit c) [
  | none ↦ closed0_wrap (text "invalid digit found in string")
  | some d ↦
      let rest = hex_digits bound (n * 16 + d) s in
      if ltb (n * 16 + d) bound
      then rest
      else closed0_wrap (text "number too large to fit in target type")
]

-- `from_str_radix(_, 16)` for the numbers below a bound, its error made a closed one.
unfoldable pub from_str_radix : ℕ → Str → Outcome ℕ
unfolding hex_digits
from_str_radix bound [] = closed0_wrap (text "cannot parse integer from empty string")
from_str_radix bound (c ∷ []) = hex_digits bound 0 (c ∷ [])
from_str_radix bound (c ∷ d ∷ s) =
    if c == b'+' then hex_digits bound 0 (d ∷ s) else hex_digits bound 0 (c ∷ d ∷ s)
