-- ===== src/Text/Utf8.antt =====
-- The encoding of texts in bytes, which the standard library does: `as_bytes` and `from_utf8`.
use dce_rust.Base.{
  ℕ, suc, ◌+◌, ◌-◌, ◌*◌, ◌/◌, ◌%◌, ◌<◌, ◌≤◌, ◌≡◌, inl, inr, refl, ap, ◌∙◌, Bool, true, not, ◌&&◌,
  ◌||◌, Option, none, some, List, [], ◌∷◌, ◌++◌, append_assoc, arith, ltb, leb, if◌then◌else◌, All,
  Bool-cases, sym,
}
use dce_rust.Text.{Str}

abbrev pub encode_char : ℕ → List ℕ
encode_char c =
    if ltb c 0x80
    then c ∷ []
    else if ltb c 0x800
    then (0xc0 + c / 64) ∷ (0x80 + c % 64) ∷ []
    else if ltb c 0x10000
    then (0xe0 + c / 4096) ∷ (0x80 + c / 64 % 64) ∷ (0x80 + c % 64) ∷ []
    else (0xf0 + c / 262144) ∷ (0x80 + c / 4096 % 64) ∷ (0x80 + c / 64 % 64) ∷ (0x80 + c % 64) ∷ []

-- `str::as_bytes`.
unfoldable pub as_bytes : Str → List ℕ
as_bytes [] = []
as_bytes (c ∷ s) = encode_char c ++ as_bytes s

-- Where the decoder stands: between two characters, or within one, with the bytes it still waits
-- for, the bits read, and the least character for which so many bytes are allowed.
pub data Decoding : Type 0 where
  between : Decoding
  within : ℕ → ℕ → ℕ → Decoding

pub data Read : Type 0 where
  bad : Read
  char : ℕ → Read
  more : ℕ → ℕ → ℕ → Read

-- A `char` is no surrogate and at most 0x10ffff.
abbrev pub is_scalar : ℕ → Bool
is_scalar c = ltb c 0xd800 || (leb 0xe000 c && ltb c 0x110000)

first_byte : ℕ → Read
first_byte b =
    if ltb b 0x80
    then char b
    else if ltb b 0xc0
    then bad
    else if ltb b 0xe0
    then more 1 (b - 0xc0) 0x80
    else if ltb b 0xf0
    then more 2 (b - 0xe0) 0x800
    else if ltb b 0xf8
    then more 3 (b - 0xf0) 0x10000
    else bad

next_byte : ℕ → ℕ → ℕ → ℕ → Read
next_byte left bits least b =
    let bits = bits * 64 + (b - 0x80) in
    if not (leb 0x80 b && ltb b 0xc0)
    then bad
    else if ltb 1 left
    then more (left - 1) bits least
    else if leb least bits && is_scalar bits
    then char bits
    else bad

read_byte : Decoding → ℕ → Read
unfolding first_byte next_byte
read_byte between b = first_byte b
read_byte (within left bits least) b = next_byte left bits least b

at_end : Decoding → Option Str
at_end between = some []
at_end (within left bits least) = none

abbrev push : ℕ → Option Str → Option Str
push c none = none
push c (some t) = some (c ∷ t)

unfoldable decode : List ℕ → Decoding → Option Str
unfolding at_end
decode [] st = at_end st
decode (b ∷ s) st = elim (read_byte st b) [
  | bad ↦ none
  | char c ↦ push c (decode s between)
  | more left bits least ↦ decode s (within left bits least)
]

-- `String::from_utf8`, less the error.
unfoldable pub from_utf8 : List ℕ → Option Str
unfolding decode read_byte
from_utf8 s = decode s between

-- A text holds scalar values.
abbrev pub IsText : Str → Type 0
IsText s = All (λ c. is_scalar c ≡ true) s

resume : List ℕ → Read → Option Str
resume s bad = none
resume s (char c) = push c (decode s between)
resume s (more left bits least) = decode s (within left bits least)

resume_lem : (st : Decoding) (b : ℕ) (s : List ℕ) → decode (b ∷ s) st ≡ resume s (read_byte st b)
unfolding decode resume
resume_lem st b s =
    elim (read_byte st b)
      as (λ r.
        elim r as (λ _. Option Str) [
          | bad ↦ none
          | char c ↦ push c (decode s between)
          | more left bits least ↦ decode s (within left bits least)
        ]
        ≡ resume s r) [ bad ↦ refl | char c ↦ refl | more l a w ↦ refl ]

decode-char :
    (st : Decoding) (b c : ℕ) (s : List ℕ)
    → read_byte st b ≡ char c
    → decode (b ∷ s) st ≡ push c (decode s between)
unfolding resume
decode-char st b c s e = resume_lem st b s ∙ ap (resume s) e

decode-more :
    (st : Decoding) (b l a w : ℕ) (s : List ℕ)
    → read_byte st b ≡ more l a w
    → decode (b ∷ s) st ≡ decode s (within l a w)
unfolding resume
decode-more st b l a w s e = resume_lem st b s ∙ ap (resume s) e

first_of_one : (c : ℕ) → c < 0x80 → read_byte between c ≡ char c
unfolding read_byte first_byte
first_of_one c h = ground arith

first_of_two : (h : ℕ) → 2 ≤ h → h < 32 → read_byte between (0xc0 + h) ≡ more 1 h 0x80
unfolding read_byte first_byte
first_of_two h a b = ground arith

first_of_three : (h : ℕ) → h < 16 → read_byte between (0xe0 + h) ≡ more 2 h 0x800
unfolding read_byte first_byte
first_of_three h b = ground arith

first_of_four : (h : ℕ) → h < 8 → read_byte between (0xf0 + h) ≡ more 3 h 0x10000
unfolding read_byte first_byte
first_of_four h b = ground arith

following :
    (l a w t : ℕ)
    → t < 64
    → read_byte (within (suc (suc l)) a w) (0x80 + t) ≡ more (suc l) (a * 64 + t) w
unfolding read_byte next_byte
following l a w t h = ground arith

last_byte :
    (a w t : ℕ)
    → t < 64
    → w ≤ a * 64 + t
    → is_scalar (a * 64 + t) ≡ true
    → read_byte (within 1 a w) (0x80 + t) ≡ char (a * 64 + t)
unfolding read_byte next_byte
last_byte a w t h k e =
    let back : 0x80 + t - 0x80 ≡ t = omega arith in
    let fits : (leb 0x80 (0x80 + t) && ltb (0x80 + t) 0xc0) ≡ true = ground arith in
    let enough : leb w (a * 64 + t) ≡ true = ground arith in
    rw fits (rw back (rw enough (rw e refl)))

decode_one : (c : ℕ) (s : List ℕ) → c < 0x80 → decode (c ∷ s) between ≡ push c (decode s between)
decode_one c s h = decode-char between c c s (first_of_one c h)

decode_two :
    (h t : ℕ) (s : List ℕ)
    → 2 ≤ h
    → h < 32
    → t < 64
    → is_scalar (h * 64 + t) ≡ true
    → decode ((0xc0 + h) ∷ (0x80 + t) ∷ s) between ≡ push (h * 64 + t) (decode s between)
decode_two h t s a b c e =
    decode-more between _ _ _ _ _ (first_of_two h a b)
    ∙ decode-char _ _ _ s (last_byte h 0x80 t c (omega arith) e)

decode_three :
    (h t u : ℕ) (s : List ℕ)
    → h < 16
    → t < 64
    → u < 64
    → 0x800 ≤ (h * 64 + t) * 64 + u
    → is_scalar ((h * 64 + t) * 64 + u) ≡ true
    → decode ((0xe0 + h) ∷ (0x80 + t) ∷ (0x80 + u) ∷ s) between
      ≡ push ((h * 64 + t) * 64 + u) (decode s between)
decode_three h t u s a b c k e =
    decode-more between _ _ _ _ _ (first_of_three h a)
    ∙ (decode-more _ _ _ _ _ _ (following 0 h 0x800 t b)
        ∙ decode-char _ _ _ s (last_byte (h * 64 + t) 0x800 u c k e))

decode_four :
    (h t u v : ℕ) (s : List ℕ)
    → h < 8
    → t < 64
    → u < 64
    → v < 64
    → 0x10000 ≤ ((h * 64 + t) * 64 + u) * 64 + v
    → is_scalar (((h * 64 + t) * 64 + u) * 64 + v) ≡ true
    → decode ((0xf0 + h) ∷ (0x80 + t) ∷ (0x80 + u) ∷ (0x80 + v) ∷ s) between
      ≡ push (((h * 64 + t) * 64 + u) * 64 + v) (decode s between)
decode_four h t u v s a b c d k e =
    decode-more between _ _ _ _ _ (first_of_four h a)
    ∙ (decode-more _ _ _ _ _ _ (following 1 h 0x10000 t b)
        ∙ (decode-more _ _ _ _ _ _ (following 0 (h * 64 + t) 0x10000 u c)
            ∙ decode-char _ _ _ s (last_byte ((h * 64 + t) * 64 + u) 0x10000 v d k e)))

scalar_lt : (c : ℕ) → is_scalar c ≡ true → c < 0x110000
scalar_lt c e = ground arith

push_whole : (m c : ℕ) (o : Option Str) → m ≡ c → push m o ≡ push c o
push_whole m c o e = ap (λ k. push k o) e

encode_char-decode :
    (c : ℕ) (s : List ℕ)
    → is_scalar c ≡ true
    → decode (encode_char c ++ s) between ≡ push c (decode s between)
encode_char-decode c s e = elim (Bool-cases (ltb c 0x80)) [
  | inl a ↦ rw a (decode_one c s (ground arith))
  | inr a ↦ elim (Bool-cases (ltb c 0x800)) [
    | inl b ↦
        let whole : c / 64 * 64 + c % 64 ≡ c = omega arith in
        let low : 0x80 ≤ c = ground arith in
        let high : c < 0x800 = ground arith in
        rw (a, b)
          (decode_two (c / 64) (c % 64) s (omega arith) (omega arith) (omega arith)
              (ap (λ k. is_scalar k) whole ∙ e)
            ∙ push_whole _ c _ whole)
    | inr b ↦ elim (Bool-cases (ltb c 0x10000)) [
      | inl d ↦
          let whole : (c / 4096 * 64 + c / 64 % 64) * 64 + c % 64 ≡ c = omega arith in
          let low : 0x800 ≤ c = ground arith in
          let high : c < 0x10000 = ground arith in
          rw (a, b, d)
            (decode_three (c / 4096) (c / 64 % 64) (c % 64) s (omega arith) (omega arith)
                (omega arith) (omega arith) (ap (λ k. is_scalar k) whole ∙ e)
              ∙ push_whole _ c _ whole)
      | inr d ↦
          let whole : ((c / 262144 * 64 + c / 4096 % 64) * 64 + c / 64 % 64) * 64 + c % 64 ≡ c =
            omega arith in
          let low : 0x10000 ≤ c = ground arith in
          let high = scalar_lt c e in
          rw (a, b, d)
            (decode_four (c / 262144) (c / 4096 % 64) (c / 64 % 64) (c % 64) s (omega arith)
                (omega arith) (omega arith) (omega arith) (omega arith)
                (ap (λ k. is_scalar k) whole ∙ e)
              ∙ push_whole _ c _ whole)
    ]
  ]
]

decode-as_bytes : (s : Str) → IsText s → decode (as_bytes s) between ≡ some s
unfolding as_bytes decode at_end
decode-as_bytes [] h = refl
decode-as_bytes (c ∷ s) (e, h) =
    encode_char-decode c (as_bytes s) e ∙ ap (push c) (decode-as_bytes s h)

-- What `as_bytes` gives is read back.
pub from_utf8-as_bytes : (s : Str) → IsText s → from_utf8 (as_bytes s) ≡ some s
unfolding from_utf8
from_utf8-as_bytes s h = decode-as_bytes s h

pub as_bytes-append : (a b : Str) → as_bytes (a ++ b) ≡ as_bytes a ++ as_bytes b
unfolding as_bytes
as_bytes-append [] b = refl
as_bytes-append (c ∷ a) b =
    rw (as_bytes-append a b) (sym (append_assoc (encode_char c) (as_bytes a) (as_bytes b)))
