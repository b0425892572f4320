-- ===== src/Session/Isize.antt =====
-- The arithmetic of `isize` on a machine of 64 bits: the casts wrap around, and a subtraction that
-- does not fit panics, as in a build with checks for overflow.
use dce_rust.Base.{
  ℕ, suc, ◌+◌, ◌-◌, ◌%◌, ◌^◌, ◌≤◌, ◌<◌, ◌≡◌, refl, ap, ◌∙◌, Bool, true, false, arith, ltb, leb,
  Bool-cases, ◌⊎◌, inl, inr, sym, if◌then◌else◌,
}
use dce_rust.Error.{ℤ, pos, negsuc, Outcome, ok, panics, ◌>>=◌}

unfoldable pub as_isize : ℕ → ℤ
as_isize n =
    let wrapped = n % 2 ^ 64 in
    if ltb wrapped (2 ^ 63) then pos wrapped else negsuc (2 ^ 64 - 1 - wrapped)

-- The difference of two natural numbers.
unfoldable pub diff : ℕ → ℕ → ℤ
diff a b = if leb b a then pos (a - b) else negsuc (b - a - 1)

unfoldable pub sub_int : ℤ → ℤ → ℤ
unfolding diff
sub_int (pos a) (pos b) = diff a b
sub_int (pos a) (negsuc b) = pos (a + suc b)
sub_int (negsuc a) (pos b) = negsuc (a + b)
sub_int (negsuc a) (negsuc b) = diff b a

unfoldable pub is_isize : ℤ → Bool
is_isize (pos a) = ltb a (2 ^ 63)
is_isize (negsuc a) = ltb a (2 ^ 63)

unfoldable pub checked_sub : ℤ → ℤ → Outcome ℤ
unfolding sub_int is_isize
checked_sub x y = let d = sub_int x y in if is_isize d then ok d else panics

-- The seconds since a renewal was due.
unfoldable pub seconds_from_renew : ℕ → ℕ → ℕ → Outcome ℤ
unfolding as_isize checked_sub
seconds_from_renew secs create_stamp interval =
    checked_sub (as_isize secs) (as_isize create_stamp) >>= λ age.
    checked_sub age (as_isize interval)

as_isize_small : (n : ℕ) → n < 2 ^ 63 → as_isize n ≡ pos n
unfolding as_isize
as_isize_small n h =
    let same : n % 2 ^ 64 ≡ n = omega arith in
    let small : ltb (n % 2 ^ 64) (2 ^ 63) ≡ true = ground arith in rw small (ap pos same)

as_isize_large : (n : ℕ) → 2 ^ 63 ≤ n → n < 2 ^ 64 → as_isize n ≡ negsuc (2 ^ 64 - 1 - n)
unfolding as_isize
as_isize_large n h k =
    let same : n % 2 ^ 64 ≡ n = omega arith in
    let large : ltb (n % 2 ^ 64) (2 ^ 63) ≡ false = ground arith in
    rw large (ap (λ m. negsuc (2 ^ 64 - 1 - m)) same)

pub diff_pos : (a b : ℕ) → b ≤ a → diff a b ≡ pos (a - b)
unfolding diff
diff_pos a b h = let t : leb b a ≡ true = ground arith in rw t refl

diff_negsuc : (a b : ℕ) → a < b → diff a b ≡ negsuc (b - a - 1)
unfolding diff
diff_negsuc a b h = let f : leb b a ≡ false = ground arith in rw f refl

le_or_lt : (a b : ℕ) → (a ≤ b) ⊎ (b < a)
le_or_lt a b = elim (Bool-cases (leb a b)) [
  | inl t ↦ inl (ground arith)
  | inr f ↦ inr (ground arith)
]

checked_sub-ok : (x y d : ℤ) → sub_int x y ≡ d → is_isize d ≡ true → checked_sub x y ≡ ok d
unfolding checked_sub
checked_sub-ok x y d e h = rw e (rw h refl)

checked_sub-panics : (x y d : ℤ) → sub_int x y ≡ d → is_isize d ≡ false → checked_sub x y ≡ panics
unfolding checked_sub
checked_sub-panics x y d e h = rw e (rw h refl)

checked_diff : (a b : ℕ) → a < 2 ^ 63 → b < 2 ^ 63 → checked_sub (pos a) (pos b) ≡ ok (diff a b)
unfolding sub_int is_isize
checked_diff a b h k = elim (le_or_lt b a) [
  | inl l ↦
      let fits : is_isize (pos (a - b)) ≡ true = ground arith in
      checked_sub-ok (pos a) (pos b) (pos (a - b)) (diff_pos a b l) fits
      ∙ ap ok (sym (diff_pos a b l))
  | inr l ↦
      let fits : is_isize (negsuc (b - a - 1)) ≡ true = ground arith in
      checked_sub-ok (pos a) (pos b) (negsuc (b - a - 1)) (diff_negsuc a b l) fits
      ∙ ap ok (sym (diff_negsuc a b l))
]

checked_negsuc : (a b : ℕ) → a + b < 2 ^ 63 → checked_sub (negsuc a) (pos b) ≡ ok (negsuc (a + b))
unfolding sub_int is_isize
checked_negsuc a b h =
    let fits : is_isize (negsuc (a + b)) ≡ true = ground arith in
    checked_sub-ok (negsuc a) (pos b) (negsuc (a + b)) refl fits

diff-diff : (a b c : ℕ) → b ≤ a → diff (a - b) c ≡ diff a (b + c)
diff-diff a b c h = elim (le_or_lt (b + c) a) [
  | inl l ↦
      let same : a - b - c ≡ a - (b + c) = omega arith in
      diff_pos (a - b) c (omega arith) ∙ (ap pos same ∙ sym (diff_pos a (b + c) l))
  | inr l ↦
      let same : c - (a - b) - 1 ≡ b + c - a - 1 = omega arith in
      diff_negsuc (a - b) c (omega arith) ∙ (ap negsuc same ∙ sym (diff_negsuc a (b + c) l))
]

negsuc-diff : (a b c : ℕ) → a < b → negsuc (b - a - 1 + c) ≡ diff a (b + c)
negsuc-diff a b c h =
    let same : b - a - 1 + c ≡ b + c - a - 1 = omega arith in
    ap negsuc same ∙ sym (diff_negsuc a (b + c) (omega arith))

-- The seconds are exact for a time and a creation within 62 bits.
pub seconds_from_renew-exact :
    (secs create_stamp interval : ℕ)
    → secs < 2 ^ 62
    → create_stamp < 2 ^ 62
    → interval < 2 ^ 16
    → seconds_from_renew secs create_stamp interval ≡ ok (diff secs (create_stamp + interval))
unfolding seconds_from_renew
seconds_from_renew-exact secs stamp interval a b c =
    rw
      (
        as_isize_small secs (omega arith),
        as_isize_small stamp (omega arith),
        as_isize_small interval (omega arith),
      )
      (elim (le_or_lt stamp secs) [
        | inl h ↦ rw (checked_diff secs stamp (omega arith) (omega arith)) (
            rw (diff_pos secs stamp h) (
              checked_diff (secs - stamp) interval (omega arith) (omega arith)
              ∙ ap ok (diff-diff secs stamp interval h)))
        | inr h ↦ rw (checked_diff secs stamp (omega arith) (omega arith)) (
            rw (diff_negsuc secs stamp h) (
              checked_negsuc (stamp - secs - 1) interval (omega arith)
              ∙ ap ok (negsuc-diff secs stamp interval h)))
      ])

-- A creation that a session id dates beyond 63 bits, by no more than the present time, panics.
pub seconds_from_renew-panics :
    (secs create_stamp interval : ℕ)
    → secs < 2 ^ 63
    → 2 ^ 63 ≤ create_stamp
    → create_stamp < 2 ^ 64
    → create_stamp ≤ secs + 2 ^ 63
    → seconds_from_renew secs create_stamp interval ≡ panics
unfolding seconds_from_renew sub_int is_isize
seconds_from_renew-panics secs stamp interval a b c d =
    rw
      (
        as_isize_small secs a,
        as_isize_large stamp b c,
        checked_sub-panics (pos secs) (negsuc (2 ^ 64 - 1 - stamp)) _ refl (ground arith),
      )
      refl
