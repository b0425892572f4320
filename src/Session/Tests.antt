-- ===== src/Session/Tests.antt =====
-- A session of fixed values, whose store counts the touches.
use dce_rust.Base.{
  Bool, ℕ, suc, ◌<◌, ◌≡◌, ◌++◌, refl, true, none, some, [], ◌∷◌, All, arith, any, leb, false,
}
use dce_rust.Text.{Str, text}
use dce_rust.Error.{ok, pos}
use dce_rust.Session.Meta.{Meta, gen_id, parse_sid}
use dce_rust.Session.Trait.{Session, try_touch, try_touch-once}
use dce_rust.Session.Redis.{Redis, RedisSession, UserMeta}
use dce_rust.Session.User.{logout}
use dce_rust.Session.Logout.{logout-none}
use dce_rust.Session.RoundTrip.{gen_id-parse_sid}

abbrev Counted : Type 0
Counted = Meta × ℕ

abbrev counting : Session Counted
counting = record {
  meta = λ s. s.0;
  set_meta = λ m s. (m, s.1);
  meta-set_meta = λ m s. refl;
  gen_key = λ name id. name ++ id;
  silent_set = λ field value s. (ok true, s);
  silent_get = λ field s. (ok field, s);
  silent_del = λ field s. (ok true, s);
  touch = λ s. (ok true, (s.0, suc s.1));
  load = λ data_map s. (ok true, s);
  raw = λ s. (ok [], s);
}

abbrev meta : Meta
meta = record {
  sid_name = text "dcesid";
  ttl_minutes = 60;
  create_stamp = 0;
  sid = text "x";
  touches = none;
}

abbrev touched : Counted
touched = (record meta { touches = some true }, 1)

try_touch-once_example : try_touch counting touched ≡ (ok true, touched)
unfolding try_touch
try_touch-once_example = try_touch-once counting (meta, 0) touched true refl

abbrev hash : Str → Str
hash t = text "0123456789ABCDEF0123456789ABCDEF0123456789ABCDEF0123456789ABCDEF"

ascii : (s : Str) → any (λ c. leb 128 c) s ≡ false → All (λ c. c < 128) s
unfolding any
ascii [] e = tt
ascii (c ∷ s) e = (ground arith, ascii s (ground arith))

hash-ascii : (t : Str) → All (λ c. c < 128) (hash t)
unfolding any
hash-ascii t = ascii (hash t) refl

gen_id-parse_sid_example :
    (sid : Str) × (gen_id (ok (1700000000, 5)) 7 hash 60 ≡ ok (sid, 1700000000))
    × (parse_sid sid ≡ ok (60, 1700000000))
gen_id-parse_sid_example =
    gen_id-parse_sid 1700000000 5 7 hash 60 (λ t. refl) hash-ascii (omega arith) (omega arith)
      (omega arith)

-- A redis that counts its commands, whose every hash field is the user's text.
abbrev commands : Redis ℕ
commands = record {
  hset = λ key field value r. (ok true, suc r);
  hget = λ key field r. (ok (text "u"), suc r);
  hdel = λ key field r. (ok true, suc r);
  del = λ key r. (ok true, suc r);
  expire = λ key seconds r. (ok true, suc r);
  hset_multiple = λ key data_map r. (ok true, suc r);
  hgetall = λ key r. (ok [], suc r);
  ttl = λ key r. (ok (pos 1), suc r);
  sadd = λ key member r. (ok true, suc r);
  srem = λ key member r. (ok true, suc r);
  smembers = λ key r. (ok [], suc r);
  exists = λ key r. (ok true, suc r);
}

abbrev user_meta : Bool → UserMeta ℕ
user_meta try_loaded = record {
  key_prefix = text "dceusmap";
  user_field = text "$user";
  try_loaded = try_loaded;
  user = none;
}

abbrev stored : Bool → ℕ → RedisSession ℕ ℕ
stored try_loaded count = record {
  meta = meta;
  user_meta = user_meta try_loaded;
  redis = some count;
  cloned = none;
}

logout_test :
    logout commands (λ u. u) (λ json. ok 7) (λ u. ok (text "u")) (stored false 0)
    ≡ (ok true, stored true 3)
unfolding logout
logout_test = refl

logout-none_example : (stored true 3).user_meta.user ≡ none
logout-none_example =
    logout-none commands (λ u. u) (λ json. ok 7) (λ u. ok (text "u")) (stored false 0)
      (stored true 3) true logout_test
