-- ===== src/Text/Lines.antt =====
-- Texts found in texts, and the lines of a text.
use dce_rust.Base.{
  ℕ, suc, ◌+◌, ◌-◌, ◌≤◌, ◌≡◌, inl, inr, refl, ap, sym, ◌∙◌, Bool, true, false, ◌&&◌, Option, none,
  some, List, [], ◌∷◌, ◌++◌, reverse, append_assoc, arith, leb, length, ◌==◌, ==_refl,
  if◌then◌else◌, Bool-cases, Option-cases,
}
use dce_rust.Text.{
  Str, starts_with, skip, cons_head, cut_bytes, utf8_len, utf8_width, trim, trim_end, trim_start_by,
  trim_end_by, is_whitespace,
}
use mathlib.Core.List.{reverse-append, reverse-reverse, reverse-cons}
use dce_rust.Text.Split.{FreeOf}

-- `str::find` of a text, with the slices before it and behind it.
unfoldable pub find_text : Str → Str → Option (Str × Str)
unfolding starts_with
find_text pat [] = if starts_with [] pat then some ([], []) else none
find_text pat (c ∷ s) =
    let rest = find_text pat s in
    if starts_with (c ∷ s) pat
    then some ([], skip (length pat) (c ∷ s))
    else elim rest [ none ↦ none | some (a, b) ↦ some (c ∷ a, b) ]

-- `str::lines`: an empty line at the end is none, and a line ends in "\n" or "\r\n".
unfoldable pub lines : Str → List Str
unfolding starts_with
lines [] = []
lines (c ∷ s) =
    let rest = lines s in
    if c == b'\n'
    then [] ∷ rest
    else if c == b'\r' && starts_with s (b'\n' ∷ [])
    then rest
    else cons_head c rest

leb_add : (a n : ℕ) → leb a (a + n) ≡ true
leb_add a n = ground arith

add_sub : (a n : ℕ) → a + n - a ≡ n
add_sub a n = omega arith

add_pos : (a n : ℕ) → 1 ≤ a → a + n ≡ suc (a + n - 1)
add_pos a n h = omega arith

utf8_width_pos : (c : ℕ) → 1 ≤ utf8_width c
utf8_width_pos c = ground arith

abbrev push : ℕ → Option (Str × Str) → Option (Str × Str)
push c none = none
push c (some (a, b)) = some (c ∷ a, b)

cut_bytes-suc :
    (w n m c : ℕ) (s : Str)
    → utf8_width c ≡ w
    → w + n ≡ suc m
    → cut_bytes (suc m) (c ∷ s) ≡ push c (cut_bytes n s)
unfolding cut_bytes
cut_bytes-suc w n m c s e q =
    let fits : leb (utf8_width c) (suc m) ≡ true =
      ap (λ k. leb k (suc m)) e ∙ (ap (leb w) (sym q) ∙ leb_add w n) in
    let rest : suc m - utf8_width c ≡ n =
      ap (λ k. suc m - k) e ∙ (ap (λ k. k - w) (sym q) ∙ add_sub w n) in
    rw fits (
      rw rest
        (elim (Option-cases (cut_bytes n s)) [ inl e ↦ rw e refl | inr (found, e) ↦ rw e refl ]))

cut_bytes-cons :
    (w n c : ℕ) (s : Str)
    → utf8_width c ≡ w
    → 1 ≤ w
    → cut_bytes (w + n) (c ∷ s) ≡ push c (cut_bytes n s)
cut_bytes-cons w n c s e h =
    let q = add_pos w n h in ap (λ k. cut_bytes k (c ∷ s)) q ∙ cut_bytes-suc w n (w + n - 1) c s e q

-- The cut at the length of the front part.
pub cut_bytes-append : (a b : Str) → cut_bytes (utf8_len a) (a ++ b) ≡ some (a, b)
unfolding utf8_len
cut_bytes-append [] b = unfold cut_bytes in refl
cut_bytes-append (c ∷ a) b =
    cut_bytes-cons (utf8_width c) (utf8_len a) c (a ++ b) refl (utf8_width_pos c)
    ∙ ap (push c) (cut_bytes-append a b)

pub starts_with-append : (p s : Str) → starts_with (p ++ s) p ≡ true
unfolding starts_with
starts_with-append [] s = refl
starts_with-append (c ∷ p) s = ground (arith, starts_with-append p s)

pub skip-append : (p s : Str) → skip (length p) (p ++ s) ≡ s
skip-append [] s = refl
skip-append (c ∷ p) s = skip-append p s

-- A text is found behind one that lacks its first character.
pub find_text-append :
    (c : ℕ) (p a b : Str) → FreeOf c a → find_text (c ∷ p) (a ++ ((c ∷ p) ++ b)) ≡ some (a, b)
unfolding find_text
find_text-append c p [] b h =
    rw (==_refl c) (rw (starts_with-append p b) (ap (λ t. some ([], t)) (skip-append p b)))
find_text-append c p (d ∷ a) b (n, h) = ground (arith, find_text-append c p a b h)

-- A line is what stands before a line feed, without a carriage return.
pub lines-free_append :
    (a s : Str) → FreeOf b'\n' a → FreeOf b'\r' a → lines (a ++ b'\n' ∷ s) ≡ a ∷ lines s
unfolding lines
lines-free_append [] s h k = refl
lines-free_append (c ∷ a) s (n, h) (m, k) = ground (arith, lines-free_append a s h k)

pub trim_start_by-append :
    (p : ℕ → Bool) (c : ℕ) (a b : Str)
    → p c ≡ false
    → trim_start_by p (a ++ c ∷ b) ≡ trim_start_by p a ++ c ∷ b
unfolding trim_start_by
trim_start_by-append p c [] b e = rw e refl
trim_start_by-append p c (d ∷ a) b e = elim (Bool-cases (p d)) [
  | inl t ↦ rw t (trim_start_by-append p c a b e)
  | inr f ↦ rw f refl
]

pub trim_end_by-append :
    (p : ℕ → Bool) (c : ℕ) (a b : Str)
    → p c ≡ false
    → trim_end_by p (a ++ c ∷ b) ≡ a ++ c ∷ trim_end_by p b
unfolding trim_end_by
trim_end_by-append p c a b e =
    let turned : reverse (a ++ c ∷ b) ≡ reverse b ++ c ∷ reverse a =
      reverse-append a (c ∷ b)
      ∙ (ap (λ t. t ++ reverse a) (reverse-cons c b)
          ∙ append_assoc (reverse b) (c ∷ []) (reverse a)) in
    let back : reverse (c ∷ reverse a) ≡ a ++ c ∷ [] =
      reverse-cons c (reverse a) ∙ ap (λ t. t ++ c ∷ []) (reverse-reverse a) in
    let kept = trim_start_by p (reverse b) in
    ap (λ t. reverse (trim_start_by p t)) turned
    ∙ (ap reverse (trim_start_by-append p c (reverse b) (reverse a) e)
        ∙ (reverse-append kept (c ∷ reverse a)
            ∙ (ap (λ t. t ++ reverse kept) back ∙ append_assoc a (c ∷ []) (reverse kept))))

-- The text begins with a character that is no white space.
abbrev pub StartsUnspaced : Str → Type 0
StartsUnspaced [] = ⊥
StartsUnspaced (c ∷ s) = is_whitespace c ≡ false

pub StartsUnspaced-append : (a b : Str) → StartsUnspaced a → StartsUnspaced (a ++ b)
StartsUnspaced-append [] b h = elim h [ ]
StartsUnspaced-append (c ∷ a) b h = h

trim_start_by-StartsUnspaced : (s : Str) → StartsUnspaced s → trim_start_by is_whitespace s ≡ s
unfolding trim_start_by
trim_start_by-StartsUnspaced [] h = elim h [ ]
trim_start_by-StartsUnspaced (c ∷ s) h = rw h refl

-- Trimming takes white space away behind the last other character only.
pub trim-append :
    (c : ℕ) (a b : Str)
    → StartsUnspaced (a ++ c ∷ b)
    → is_whitespace c ≡ false
    → trim (a ++ c ∷ b) ≡ a ++ c ∷ trim_end b
unfolding trim trim_end
trim-append c a b h e =
    ap (trim_end_by is_whitespace) (trim_start_by-StartsUnspaced (a ++ c ∷ b) h)
    ∙ trim_end_by-append is_whitespace c a b e

pub utf8_len-append : (a b : Str) → utf8_len (a ++ b) ≡ utf8_len a + utf8_len b
unfolding utf8_len
utf8_len-append [] b = omega arith
utf8_len-append (c ∷ a) b = omega (arith, utf8_len-append a b)
