-- ===== src/Session/Sample.antt =====
-- A redis that keeps fields only, and a hash, for runs of the sessions.
use dce_rust.Base.{
  refl, true, Option, ℕ, ◌≢◌, none, some, List, [], ◌∷◌, ◌++◌, list_eq, nat_eq, beq_refl, ◌∙◌, ap,
  if◌then◌else◌,
}
use dce_rust.Text.{Str, text}
use dce_rust.Maps.{map_get, map_insert, map_get-insert}
use dce_rust.Error.{Outcome, ok, closed0_wrap, pos}
use dce_rust.Session.Working.{IsWorking, IsSettled}
use dce_rust.Session.Redis.{Redis}
use dce_rust.Session.Renewal.{Noting}
use dce_rust.Session.Fresh.{IsFresh}

abbrev pub Fields : Type 0
Fields = List (Str × Str)

abbrev pub slot : Str → Str → Str
slot key field = key ++ b' ' ∷ field

abbrev pub commands : Redis Fields
commands = record {
  hset = λ key field value r. (ok true, map_insert (slot key field) value r);
  hget = λ key field r.
      (elim (map_get (slot key field) r) [ none ↦ closed0_wrap (text "nil") | some v ↦ ok v ], r);
  hdel = λ key field r. (ok true, r);
  del = λ key r. (ok true, r);
  expire = λ key seconds r. (ok true, r);
  hset_multiple = λ key data_map r. (ok true, r);
  hgetall = λ key r. (ok [], r);
  ttl = λ key r. (ok (pos 1), r);
  sadd = λ key member r. (ok true, r);
  srem = λ key member r. (ok true, r);
  smembers = λ key r. (ok [], r);
  exists = λ key r. (ok true, r);
}

abbrev pub view : Fields → Str → Str → Option Str
view r key field = map_get (slot key field) r

pub laws : Noting commands view
laws = record {
  hset-view = λ key field value r b e.
      map_get-insert (slot key field) (slot key field) value r
      ∙ ap (λ t. if t then some value else map_get (slot key field) r) (beq_refl (slot key field));
  hget-view = λ key field k f r. refl;
  expire-view = λ key k f n r. refl;
}

pub working : IsWorking commands
working = record {
  hgetall-IsOk = λ key r. tt;
  hset_multiple-IsOk = λ key d r. tt;
  hset-IsOk = λ key field value r. tt;
  expire-IsOk = λ key n r. tt;
  hget-IsSettled = λ key field r. get_settles (map_get (slot key field) r);
  sadd-IsSettled = λ key member r. tt;
}
  where
    get_settles :
        (o : Option Str)
        → IsSettled
            (elim o as (λ _. Outcome Str) [ none ↦ closed0_wrap (text "nil") | some v ↦ ok v ])
    get_settles none = tt
    get_settles (some v) = tt

abbrev pub hash : Str → Str
hash t = text "0123456789ABCDEF0123456789ABCDEF0123456789ABCDEF0123456789ABCDEF"

-- An id that does not start with the digit zero.
pub cons-IsFresh :
    (now : Outcome (ℕ × ℕ)) (random : ℕ) (first : ℕ) (more : Str)
    → 48 ≢ first
    → IsFresh now random hash (first ∷ more)
cons-IsFresh now random first more other secs nanos behind drawn same =
    other (ap (λ (s : Str). elim s as (λ _. ℕ) [ [] ↦ 48 | d ∷ rest ↦ d ]) same)
