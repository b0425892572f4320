-- ===== src/Session/Digits.antt =====
-- Reading hexadecimal digits that were written, and how many there are.
use native.Mathlib.Nat.{one-le-pow, pow-suc}
use dce_rust.Base.{
  ℕ, zero, suc, ◌+◌, ◌*◌, ◌/◌, ◌%◌, ◌^◌, ◌<◌, ◌≤◌, ◌≡◌, ◌≢◌, refl, ap, ◌∙◌, true, false, some, [],
  ◌∷◌, arith, length, ltb, ◌==◌, All, Bool-cases, inl, inr,
}
use dce_rust.Text.{Str}
use dce_rust.Error.{ok}
use dce_rust.Session.Hex.{
  hex_char, hex_from, show_hex, zeros, hex_digit, hex_digits, from_str_radix,
}

pub hex_digit-hex_char : (d : ℕ) → d < 16 → hex_digit (hex_char d) ≡ some d
unfolding hex_digit hex_char
hex_digit-hex_char d h = ground arith

pub hex_digits-cons :
    (bound n d : ℕ) (s : Str)
    → d < 16
    → n * 16 + d < bound
    → hex_digits bound n (hex_char d ∷ s) ≡ hex_digits bound (n * 16 + d) s
unfolding hex_digits
hex_digits-cons bound n d s h lt = rw (hex_digit-hex_char d h, hex_digits) (ground arith)

pub hex_digits-hex_from :
    (bound fuel n : ℕ) (behind : Str)
    → n < bound
    → n < fuel
    → hex_digits bound 0 (hex_from fuel n behind) ≡ hex_digits bound n behind
unfolding hex_from
hex_digits-hex_from bound zero n behind lt h = absurd (omega arith)
hex_digits-hex_from bound (suc fuel) n behind lt h = elim (Bool-cases (ltb n 16)) [
  | inl small ↦
      let below : n < 16 = ground arith in
      rw small (
        hex_digits-cons bound 0 n behind below (omega arith)
        ∙ ap (λ m. hex_digits bound m behind) (omega arith))
  | inr big ↦
      let least : 16 ≤ n = ground arith in
      rw big (
        hex_digits-hex_from bound fuel (n / 16) (hex_char (n % 16) ∷ behind) (omega arith)
          (omega arith)
        ∙ hex_digits-cons bound (n / 16) (n % 16) behind (omega arith) (omega arith)
        ∙ ap (λ m. hex_digits bound m behind) (omega arith))
]

-- A number below a power has no more digits than the exponent, and one from a power on has more.
pub length-hex_from-le :
    (k fuel n : ℕ) (behind : Str)
    → n < fuel
    → n < 16 ^ suc k
    → length (hex_from fuel n behind) ≤ suc k + length behind
unfolding hex_from
length-hex_from-le k zero n behind h lt = absurd (omega arith)
length-hex_from-le k (suc fuel) n behind h lt = elim (Bool-cases (ltb n 16)) [
  | inl small ↦ rw small (omega arith)
  | inr big ↦
      let least : 16 ≤ n = ground arith in
      rw big (more (λ j l. length-hex_from-le j fuel (n / 16) _ (omega arith) l) least k lt)
]
  where
    more :
        ((j : ℕ)
          → n / 16 < 16 ^ suc j
          → length (hex_from fuel (n / 16) (hex_char (n % 16) ∷ behind))
            ≤ suc j + length (hex_char (n % 16) ∷ behind))
        → 16 ≤ n
        → (k : ℕ) → n < 16 ^ suc k
        → length (hex_from fuel (n / 16) (hex_char (n % 16) ∷ behind)) ≤ suc k + length behind
    more ih least zero lt = absurd (omega arith)
    more ih least (suc j) lt =
        let step : 16 ^ suc (suc j) ≡ 16 ^ suc j * 16 = pow-suc 16 (suc j) in
        omega (arith, ih j (omega arith))

pub length-hex_from-ge :
    (k fuel n : ℕ) (behind : Str)
    → n < fuel
    → 16 ^ k ≤ n
    → suc k + length behind ≤ length (hex_from fuel n behind)
unfolding hex_from
length-hex_from-ge k zero n behind h le = absurd (omega arith)
length-hex_from-ge zero (suc fuel) n behind h le = elim (Bool-cases (ltb n 16)) [
  | inl small ↦ rw small (omega arith)
  | inr big ↦
      let least : 16 ≤ n = ground arith in
      rw big (
        omega (
          arith,
          length-hex_from-ge 0 fuel (n / 16) (hex_char (n % 16) ∷ behind) (omega arith)
              (omega arith),
        ))
]
length-hex_from-ge (suc k) (suc fuel) n behind h le =
    let step : 16 ^ suc k ≡ 16 ^ k * 16 = pow-suc 16 k in
    let one : 1 ≤ 16 ^ k = one-le-pow k 16 (omega arith) in
    let big : ltb n 16 ≡ false = ground arith in
    rw big (
      omega (
        arith,
        length-hex_from-ge k fuel (n / 16) (hex_char (n % 16) ∷ behind) (omega arith) (omega arith),
      ))

abbrev pub IsAscii : Str → Type 0
IsAscii s = All (λ c. c < 128) s

pub hex_char-lt : (d : ℕ) → d < 16 → hex_char d < 128
unfolding hex_char
hex_char-lt d h = ground arith

pub hex_from-IsAscii :
    (fuel n : ℕ) (behind : Str) → IsAscii behind → IsAscii (hex_from fuel n behind)
unfolding hex_from
hex_from-IsAscii zero n behind h = h
hex_from-IsAscii (suc fuel) n behind h = elim (Bool-cases (ltb n 16)) [
  | inl small ↦ rw small (hex_char-lt n (ground arith), h)
  | inr big ↦ rw big (
      hex_from-IsAscii fuel (n / 16) (hex_char (n % 16) ∷ behind)
        (hex_char-lt (n % 16) (omega arith), h))
]

pub zeros-IsAscii : (k : ℕ) (s : Str) → IsAscii s → IsAscii (zeros k s)
unfolding zeros
zeros-IsAscii zero s h = h
zeros-IsAscii (suc k) s h = (omega arith, zeros-IsAscii k s h)

pub length-zeros : (k : ℕ) (s : Str) → length (zeros k s) ≡ k + length s
unfolding zeros
length-zeros zero s = omega arith
length-zeros (suc k) s = omega (arith, length-zeros k s)

pub hex_digits-zeros :
    (bound k : ℕ) (s : Str) → 0 < bound → hex_digits bound 0 (zeros k s) ≡ hex_digits bound 0 s
unfolding zeros hex_char
hex_digits-zeros bound zero s h = refl
hex_digits-zeros bound (suc k) s h =
    hex_digits-cons bound 0 0 (zeros k s) (omega arith) (omega arith) ∙ hex_digits-zeros bound k s h

pub unsigned : (bound : ℕ) (s : Str) (v : ℕ) → hex_digits bound 0 (43 ∷ s) ≢ ok v
unfolding hex_digits hex_digit
unsigned bound s v e = ground arith

-- A text of digits has no sign in front.
pub from_str_radix_of_hex_digits :
    (bound : ℕ) (s : Str) (v : ℕ)
    → s ≢ []
    → hex_digits bound 0 s ≡ ok v
    → from_str_radix bound s ≡ ok v
unfolding from_str_radix
from_str_radix_of_hex_digits bound [] v n e = absurd (n refl)
from_str_radix_of_hex_digits bound (c ∷ []) v n e = e
from_str_radix_of_hex_digits bound (c ∷ d ∷ s) v n e = elim (Bool-cases (c == b'+')) [
  | inr digit ↦ rw digit e
  | inl plus ↦
      absurd (unsigned bound (d ∷ s) v (ap (λ x. hex_digits bound 0 (x ∷ d ∷ s)) (sign plus) ∙ e))
]
  where
    sign : (c == b'+') ≡ true → 43 ≡ c
    sign plus = ground arith

pub show_hex-IsAscii : (n : ℕ) → IsAscii (show_hex n)
unfolding show_hex
show_hex-IsAscii n = hex_from-IsAscii (suc n) n [] tt

pub hex_digits-show_hex : (bound n : ℕ) → n < bound → hex_digits bound 0 (show_hex n) ≡ ok n
unfolding show_hex hex_digits
hex_digits-show_hex bound n h = hex_digits-hex_from bound (suc n) n [] h (omega arith)

pub length-show_hex-le : (k n : ℕ) → n < 16 ^ suc k → length (show_hex n) ≤ suc k
unfolding show_hex
length-show_hex-le k n h = omega (arith, length-hex_from-le k (suc n) n [] (omega arith) h)

pub length-show_hex-ge : (k n : ℕ) → 16 ^ k ≤ n → suc k ≤ length (show_hex n)
unfolding show_hex
length-show_hex-ge k n h = omega (arith, length-hex_from-ge k (suc n) n [] (omega arith) h)
