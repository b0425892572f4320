-- ===== src/Session/RoundTrip.antt =====
-- The id that `gen_id` makes, and what `parse_sid` reads from it.
use dce_rust.Base.{
  ℕ, suc, ◌+◌, ◌-◌, ◌^◌, ◌<◌, ◌≤◌, ◌≡◌, ◌≢◌, refl, sym, ap, ◌∙◌, true, false, some, [], ◌∷◌, ◌++◌,
  arith, length, ltb, leb, All,
}
use dce_rust.Text.{Str, cut_bytes, utf8_len, utf8_width, show_nat}
use dce_rust.Error.{ok}
use dce_rust.Session.Hex.{show_hex, zeros, pad, from_str_radix}
use dce_rust.Session.Meta.{parse_sid, gen_id}
use dce_rust.Session.Digits.{
  IsAscii, show_hex-IsAscii, hex_digits-show_hex, length-show_hex-le, length-show_hex-ge,
  zeros-IsAscii, length-zeros, hex_digits-zeros, from_str_radix_of_hex_digits,
}

utf8_len-append : (a b : Str) → IsAscii a → utf8_len (a ++ b) ≡ length a + utf8_len b
unfolding utf8_len
utf8_len-append [] b h = omega arith
utf8_len-append (c ∷ a) b (lt, h) =
    let one : utf8_width c ≡ 1 = ground arith in omega (arith, one, utf8_len-append a b h)

utf8_len-length : (a : Str) → IsAscii a → utf8_len a ≡ length a
unfolding utf8_len
utf8_len-length [] h = omega arith
utf8_len-length (c ∷ a) (lt, h) =
    let one : utf8_width c ≡ 1 = ground arith in omega (arith, one, utf8_len-length a h)

cut_bytes-append : (a b : Str) → IsAscii a → cut_bytes (length a) (a ++ b) ≡ some (a, b)
unfolding cut_bytes
cut_bytes-append [] b h = refl
cut_bytes-append (c ∷ a) b (lt, h) =
    let one : utf8_width c ≡ 1 = ground arith in
    let fits : leb (utf8_width c) (suc (length a)) ≡ true = ground arith in
    let less : suc (length a) - utf8_width c ≡ length a = omega arith in
    rw fits (rw less (rw (cut_bytes-append a b h) refl))

-- The two numbers are read behind the digits of a hash.
parse_sid-parts :
    (hashed ttl stamp : Str) (t c : ℕ)
    → IsAscii hashed
    → length hashed ≡ 64
    → IsAscii ttl
    → length ttl ≡ 4
    → from_str_radix (2 ^ 16) ttl ≡ ok t
    → IsAscii stamp
    → 8 ≤ length stamp
    → from_str_radix (2 ^ 64) stamp ≡ ok c
    → parse_sid (hashed ++ (ttl ++ stamp)) ≡ ok (t, c)
unfolding parse_sid
parse_sid-parts hashed ttl stamp t c ah lh at lt rt as' ls rs =
    let size : 76 ≤ utf8_len (hashed ++ (ttl ++ stamp)) = omega (
      arith,
      utf8_len-append hashed (ttl ++ stamp) ah,
      utf8_len-append ttl stamp at,
      utf8_len-length stamp as',
    ) in
    let long : ltb (utf8_len (hashed ++ (ttl ++ stamp))) 76 ≡ false = ground arith in
    let first : cut_bytes 64 (hashed ++ (ttl ++ stamp)) ≡ some (hashed, ttl ++ stamp) =
      ap (λ n. cut_bytes n (hashed ++ (ttl ++ stamp))) (sym lh)
      ∙ cut_bytes-append hashed (ttl ++ stamp) ah in
    let second : cut_bytes 4 (ttl ++ stamp) ≡ some (ttl, stamp) =
      ap (λ n. cut_bytes n (ttl ++ stamp)) (sym lt) ∙ cut_bytes-append ttl stamp at in
    rw long (rw first (rw second (rw rt (rw rs refl))))

ne-nil_of_length : (s : Str) → 0 < length s → s ≢ []
ne-nil_of_length [] h e = absurd (omega arith)
ne-nil_of_length (c ∷ s) h e = cc

ttl_text :
    (ttl : ℕ)
    → ttl < 2 ^ 16
    → (length (pad 4 (show_hex ttl)) ≡ 4)
      × IsAscii (pad 4 (show_hex ttl))
      × (from_str_radix (2 ^ 16) (pad 4 (show_hex ttl)) ≡ ok ttl)
unfolding pad
ttl_text ttl h =
    let le : length (show_hex ttl) ≤ 4 = length-show_hex-le 3 ttl (omega arith) in
    let count = length-zeros (4 - length (show_hex ttl)) (show_hex ttl) in
    (
      omega (arith, count),
      zeros-IsAscii (4 - length (show_hex ttl)) (show_hex ttl) (show_hex-IsAscii ttl),
      from_str_radix_of_hex_digits (2 ^ 16) (zeros (4 - length (show_hex ttl)) (show_hex ttl)) ttl
          (ne-nil_of_length _ (omega (arith, count)))
          (hex_digits-zeros (2 ^ 16) (4 - length (show_hex ttl)) (show_hex ttl) (omega arith)
            ∙ hex_digits-show_hex (2 ^ 16) ttl h),
    )

stamp_text :
    (secs : ℕ)
    → 16 ^ 7 ≤ secs
    → secs < 2 ^ 64
    → (8 ≤ length (show_hex secs))
      × IsAscii (show_hex secs)
      × (from_str_radix (2 ^ 64) (show_hex secs) ≡ ok secs)
stamp_text secs least h =
    let size = length-show_hex-ge 7 secs least in
    (
      size,
      show_hex-IsAscii secs,
      from_str_radix_of_hex_digits (2 ^ 64) (show_hex secs) secs
          (ne-nil_of_length (show_hex secs) (omega arith)) (hex_digits-show_hex (2 ^ 64) secs h),
    )

-- What `gen_id` makes at a time is read back as the life time and the time, for a hash of 64 ASCII
-- characters, a life time of 16 bits, and a time that has 8 hexadecimal digits at least and 64
-- bits at most.
pub gen_id-parse_sid :
    (secs nanos random : ℕ) (hash : Str → Str) (ttl : ℕ)
    → ((t : Str) → length (hash t) ≡ 64)
    → ((t : Str) → All (λ c. c < 128) (hash t))
    → ttl < 2 ^ 16
    → 16 ^ 7 ≤ secs
    → secs < 2 ^ 64
    → (sid : Str) × (gen_id (ok (secs, nanos)) random hash ttl ≡ ok (sid, secs))
      × (parse_sid sid ≡ ok (ttl, secs))
unfolding gen_id
gen_id-parse_sid secs nanos random hash ttl size ascii h least most =
    let (four, plain, read) = ttl_text ttl h in
    let (eight, plain', read') = stamp_text secs least most in
    let t = show_nat nanos ++ b'-' ∷ show_nat random in
    (
      _,
      refl,
      parse_sid-parts (hash t) (pad 4 (show_hex ttl)) (show_hex secs) ttl secs (ascii t) (size t)
          plain four read plain' eight read',
    )
