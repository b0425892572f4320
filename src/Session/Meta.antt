-- ===== src/Session/Meta.antt =====
-- `Meta` of crates/session/src/session.rs: the id of a session, which holds its life time and the
-- time of its creation. The clock, the random number and the hash of the sha2 crate, as the text of
-- its hexadecimal digits, are parameters. This is the build without the feature "test".
use dce_rust.Base.{ℕ, ◌*◌, ◌^◌, Bool, Option, none, some, List, [], ◌∷◌, ◌++◌, ltb, if◌then◌else◌}
use dce_rust.Text.{Str, text, cut_bytes, utf8_len, show_nat}
use dce_rust.Error.{Outcome, ok, err, panics, out_of_fuel, closed0_wrap, ◌>>=◌}
use dce_rust.Session.Hex.{show_hex, pad, from_str_radix}

abbrev pub default_id_name : Str
default_id_name = text "dcesid"

abbrev pub default_ttl_minutes : ℕ
default_ttl_minutes = 60

abbrev pub min_sid_len : ℕ
min_sid_len = 76

pub record Meta : Type 0 where
  pub sid_name : Str
  pub ttl_minutes : ℕ
  pub create_stamp : ℕ
  pub sid : Str
  pub touches : Option Bool

-- `ttl_minutes as u32 * 60`, which a `u16` does not bring out of bounds.
unfoldable pub ttl_seconds : Meta → ℕ
ttl_seconds meta = meta.ttl_minutes * 60

abbrev pub invalid_sid : Str → Str
invalid_sid sid = text "invalid sid \"" ++ (sid ++ text "\", less then 76 chars")

unfoldable pub parse_sid : Str → Outcome (ℕ × ℕ)
unfolding utf8_len cut_bytes from_str_radix
parse_sid sid =
    if ltb (utf8_len sid) min_sid_len
    then closed0_wrap (invalid_sid sid)
    else elim (cut_bytes 64 sid) [
      | none ↦ panics
      | some (hashed, behind) ↦ elim (cut_bytes 4 behind) [
        | none ↦ panics
        | some (ttl, stamp) ↦ from_str_radix (2 ^ 16) ttl >>= λ ttl_minutes.
            from_str_radix (2 ^ 64) stamp >>= λ create_stamp. ok (ttl_minutes, create_stamp)
      ]
    ]

unfoldable pub config : Option Str → Option ℕ → Meta → Meta
config sid_name ttl_minutes meta = record meta {
  sid_name = elim sid_name [ none ↦ meta.sid_name | some name ↦ name ];
  ttl_minutes = elim ttl_minutes [ none ↦ meta.ttl_minutes | some ttl ↦ ttl ];
}

unfoldable pub new_with_sid : List Str → Outcome Meta
unfolding parse_sid
new_with_sid [] = panics
new_with_sid (sid ∷ sid_pool) = parse_sid sid >>= λ t. ok (record {
  sid_name = default_id_name;
  ttl_minutes = t.0;
  create_stamp = t.1;
  sid = sid;
  touches = none;
})

-- `now` in seconds and in nanoseconds.
module _ (now : Outcome (ℕ × ℕ)) (random : ℕ) (hash : Str → Str) where
  unfoldable pub gen_id : ℕ → Outcome (Str × ℕ)
  unfolding show_hex pad
  gen_id ttl_minutes = now >>= λ t. ok (
    hash (show_nat t.1 ++ b'-' ∷ show_nat random) ++ (pad 4 (show_hex ttl_minutes) ++ show_hex t.0),
    t.0,
  )

  unfoldable pub new : ℕ → Outcome Meta
  unfolding gen_id
  new ttl_minutes = gen_id ttl_minutes >>= λ g. ok (record {
    sid_name = default_id_name;
    ttl_minutes = ttl_minutes;
    create_stamp = g.1;
    sid = g.0;
    touches = none;
  })

  -- `renew`, which forgets the touch even where it fails.
  unfoldable pub renew : Option Str → Meta → Outcome (Unit {0}) × Meta
  unfolding parse_sid gen_id
  renew (some sid) meta =
      let untouched = record meta { touches = none } in
      elim (parse_sid sid) [
        | ok (ttl, stamp) ↦
            (ok tt, record untouched { ttl_minutes = ttl; create_stamp = stamp; sid = sid })
        | err e ↦ (err e, untouched)
        | panics ↦ (panics, untouched)
        | out_of_fuel ↦ (out_of_fuel, untouched)
      ]
  renew none meta =
      let untouched = record meta { touches = none } in
      elim (gen_id meta.ttl_minutes) [
        | ok (sid, stamp) ↦ (ok tt, record untouched { create_stamp = stamp; sid = sid })
        | err e ↦ (err e, untouched)
        | panics ↦ (panics, untouched)
        | out_of_fuel ↦ (out_of_fuel, untouched)
      ]
