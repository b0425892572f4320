-- ===== src/Text.antt =====
-- The text operations of the standard library that the sources call. A text is the list of its
-- characters (code points); `utf8_len` is the length in bytes that `str::len` returns.
pub mod Split
pub mod Utf8
pub mod Lines
use Prim.Native.Char.{code}
use Prim.Native.String
use Prim.Native.String.{String}
use dce_rust.Base.{
  ℕ, zero, suc, ◌+◌, ◌-◌, ◌/◌, ◌%◌, Bool, true, false, ◌&&◌, ◌||◌, Option, none, some, List, [],
  ◌∷◌, ◌++◌, map, reverse, ltb, leb, ◌==◌, if◌then◌else◌, list_beq, nat_eq,
}

abbrev pub Str : Type 0
Str = List ℕ

-- A literal of the source.
abbrev pub text : String → Str
text String.[] = []
text (String.◌∷◌ c s) = code c ∷ text s

unfoldable pub str_eq : Str → Str → Bool
unfolding list_beq
str_eq = list_beq

-- `str::len`: each character takes one to four bytes.
abbrev pub utf8_width : ℕ → ℕ
utf8_width c = if ltb c 0x80 then 1 else if ltb c 0x800 then 2 else if ltb c 0x10000 then 3 else 4

unfoldable pub utf8_len : Str → ℕ
utf8_len [] = 0
utf8_len (c ∷ s) = utf8_width c + utf8_len s

-- A text cut at a number of bytes; `none` is a panic, beyond the end or inside a character.
unfoldable pub cut_bytes : ℕ → Str → Option (Str × Str)
cut_bytes zero s = some ([], s)
cut_bytes (suc n) [] = none
cut_bytes (suc n) (c ∷ s) =
    let rest = cut_bytes (suc n - utf8_width c) s in
    if leb (utf8_width c) (suc n)
    then elim rest [ none ↦ none | some (front, behind) ↦ some (c ∷ front, behind) ]
    else none

-- `str::split` at a character. There is always one part at least.
abbrev pub cons_head : ℕ → List Str → List Str
cons_head c [] = (c ∷ []) ∷ []
cons_head c (p ∷ ps) = (c ∷ p) ∷ ps

unfoldable pub split : ℕ → Str → List Str
split sep [] = [] ∷ []
split sep (c ∷ s) = let parts = split sep s in if c == sep then [] ∷ parts else cons_head c parts

-- `[Str]::join` with a separator of one character.
unfoldable pub join : ℕ → List Str → Str
join sep [] = []
join sep (p ∷ []) = p
join sep (p ∷ q ∷ ps) = p ++ sep ∷ join sep (q ∷ ps)

-- `str::find` and `str::rfind` of a character, with the two slices around the position found.
unfoldable pub split_once : ℕ → Str → Option (Str × Str)
split_once sep [] = none
split_once sep (c ∷ s) =
    if c == sep
    then some ([], s)
    else elim (split_once sep s) [ none ↦ none | some (a, b) ↦ some (c ∷ a, b) ]

unfoldable pub rsplit_once : ℕ → Str → Option (Str × Str)
rsplit_once sep [] = none
rsplit_once sep (c ∷ s) = elim (rsplit_once sep s) [
  | none ↦ if c == sep then some ([], s) else none
  | some (a, b) ↦ some (c ∷ a, b)
]

-- Every position of the character from the right to the left, with the slices around it: what
-- repeated `rfind` calls on the shrinking front part visit.
abbrev pub cons_fst : ℕ → Str × Str → Str × Str
cons_fst c (a, b) = (c ∷ a, b)

unfoldable pub rsplits : ℕ → Str → List (Str × Str)
rsplits sep [] = []
rsplits sep (c ∷ s) = map (cons_fst c) (rsplits sep s) ++ (if c == sep then ([], s) ∷ [] else [])

unfoldable pub starts_with : Str → Str → Bool
starts_with s [] = true
starts_with [] (c ∷ p) = false
starts_with (d ∷ s) (c ∷ p) = (d == c) && starts_with s p

unfoldable pub ends_with : Str → Str → Bool
unfolding starts_with
ends_with s p = starts_with (reverse s) (reverse p)

abbrev pub skip : ℕ → Str → Str
skip zero s = s
skip (suc n) [] = []
skip (suc n) (c ∷ s) = skip n s

-- `&s[.. s.len() - n]` where the cut is `n` characters from the end.
unfoldable pub drop_end : ℕ → Str → Str
drop_end n s = reverse (skip n (reverse s))

unfoldable pub trim_start_by : (ℕ → Bool) → Str → Str
trim_start_by p [] = []
trim_start_by p (c ∷ s) = let rest = trim_start_by p s in if p c then rest else c ∷ s

unfoldable pub trim_end_by : (ℕ → Bool) → Str → Str
unfolding trim_start_by
trim_end_by p s = reverse (trim_start_by p (reverse s))

-- `str::trim_matches` of a character.
unfoldable pub trim_matches : ℕ → Str → Str
unfolding trim_start_by trim_end_by
trim_matches sep s = trim_end_by (λ c. c == sep) (trim_start_by (λ c. c == sep) s)

-- The characters of Unicode's White_Space, which `str::trim` and `str::trim_end` take away.
unfoldable pub is_whitespace : ℕ → Bool
is_whitespace c =
    (leb 9 c && leb c 13)
    || c == 32
    || c == 0x85
    || c == 0xa0
    || c == 0x1680
    || (leb 0x2000 c && leb c 0x200a)
    || c == 0x2028
    || c == 0x2029
    || c == 0x202f
    || c == 0x205f
    || c == 0x3000

unfoldable pub trim : Str → Str
unfolding trim_start_by trim_end_by is_whitespace
trim s = trim_end_by is_whitespace (trim_start_by is_whitespace s)

unfoldable pub trim_end : Str → Str
unfolding trim_end_by is_whitespace
trim_end s = trim_end_by is_whitespace s

abbrev pub ascii_lower : ℕ → ℕ
ascii_lower c = if leb b'A' c && leb c b'Z' then c + 32 else c

unfoldable pub eq_ignore_ascii_case : Str → Str → Bool
unfolding str_eq
eq_ignore_ascii_case s t = str_eq (map ascii_lower s) (map ascii_lower t)

-- The decimal digits that `format!("{}", n)` writes.
digits_from : ℕ → ℕ → Str → Str
digits_from zero n out = out
digits_from (suc fuel) n out =
    let more = digits_from fuel (n / 10) ((b'0' + n % 10) ∷ out) in
    if ltb n 10 then (b'0' + n) ∷ out else more

unfoldable pub show_nat : ℕ → Str
unfolding digits_from
show_nat n = digits_from (suc n) n []
