-- ===== src/Session/Working.antt =====
-- Sessions in a redis that answers: runs that succeed, and those that end in a result at least.
use dce_rust.Base.{ℕ, none, some, List, Option-cases, inl, inr}
use dce_rust.Text.{Str}
use dce_rust.Error.{Outcome, ok, err, panics, out_of_fuel}
use dce_rust.Session.Trait.{Ran, ◌>>!◌}
use dce_rust.Session.Redis.{Redis, RedisSession, on_redis}
use dce_rust.Session.User.{dropped}

abbrev pub IsOk : {A : Type 0} → Outcome A → Type 0
IsOk (ok a) = Unit
IsOk _ = ⊥

abbrev pub IsSettled : {A : Type 0} → Outcome A → Type 0
IsSettled (ok a) = Unit
IsSettled (err e) = Unit
IsSettled _ = ⊥

-- A redis that answers: the commands that write do not fail, nor does the reading of a record.
pub record IsWorking {R : Type 0} (commands : Redis R) : Type 0 where
  pub hgetall-IsOk : (key : Str) (r : R) → IsOk (commands.hgetall key r).0
  pub hset_multiple-IsOk :
      (key : Str) (d : List (Str × Str)) (r : R) → IsOk (commands.hset_multiple key d r).0
  pub hset-IsOk : (key field value : Str) (r : R) → IsOk (commands.hset key field value r).0
  pub expire-IsOk : (key : Str) (n : ℕ) (r : R) → IsOk (commands.expire key n r).0
  pub hget-IsSettled : (key field : Str) (r : R) → IsSettled (commands.hget key field r).0
  pub sadd-IsSettled : (key member : Str) (r : R) → IsSettled (commands.sadd key member r).0

abbrev pub Succeeds : {A S : Type 0} → (A → S → Type 0) → Ran A S → Type 0
Succeeds P (ok a, s) = P a s
Succeeds P _ = ⊥

abbrev pub Settles : {A S : Type 0} → (S → Type 0) → Ran A S → Type 0
Settles P (ok a, s) = P s
Settles P (err e, s) = P s
Settles P _ = ⊥

pub >>!-Succeeds :
    {A B S : Type 0} (P : A → S → Type 0) (Q : B → S → Type 0) (m : Ran A S) (k : A → S → Ran B S)
    → Succeeds P m
    → ((a : A) (s : S) → P a s → Succeeds Q (k a s))
    → Succeeds Q (m >>! k)
>>!-Succeeds P Q (ok a, s) k h go = go a s h
>>!-Succeeds P Q (err e, s) k h go = elim h [ ]
>>!-Succeeds P Q (panics, s) k h go = elim h [ ]
>>!-Succeeds P Q (out_of_fuel, s) k h go = elim h [ ]

pub >>!-Settles :
    {A B S : Type 0} (P : S → Type 0) (m : Ran A S) (k : A → S → Ran B S)
    → Settles P m
    → ((a : A) (s : S) → P s → Settles P (k a s))
    → Settles P (m >>! k)
>>!-Settles P (ok a, s) k h go = go a s h
>>!-Settles P (err e, s) k h go = h
>>!-Settles P (panics, s) k h go = elim h [ ]
>>!-Settles P (out_of_fuel, s) k h go = elim h [ ]

pub Settles-of_Succeeds :
    {A S : Type 0} (P : S → Type 0) (m : Ran A S) → Succeeds (λ _ s. P s) m → Settles P m
Settles-of_Succeeds P (ok a, s) h = h
Settles-of_Succeeds P (err e, s) h = elim h [ ]
Settles-of_Succeeds P (panics, s) h = elim h [ ]
Settles-of_Succeeds P (out_of_fuel, s) h = elim h [ ]

pub dropped-Succeeds :
    {A S : Type 0} (P : S → Type 0) (m : Ran A S) → Settles P m → Succeeds (λ _ s. P s) (dropped m)
unfolding dropped
dropped-Succeeds P (ok a, s) h = h
dropped-Succeeds P (err e, s) h = h
dropped-Succeeds P (panics, s) h = elim h [ ]
dropped-Succeeds P (out_of_fuel, s) h = elim h [ ]

pub Succeeds-and :
    {A S : Type 0} (P : A → S → Type 0) (Q : S → Type 0) (m : Ran A S)
    → Succeeds P m
    → Q m.1
    → Succeeds (λ a s. P a s × Q s) m
Succeeds-and P Q (ok a, s) h q = (h, q)
Succeeds-and P Q (err e, s) h q = elim h [ ]
Succeeds-and P Q (panics, s) h q = elim h [ ]
Succeeds-and P Q (out_of_fuel, s) h q = elim h [ ]

module _ {R U : Type 0} where
  abbrev pub IsConnected : RedisSession R U → Type 0
  IsConnected s = elim s.redis [ none ↦ ⊥ | some _ ↦ Unit {0} ]

  ran-Succeeds :
      {A : Type 0} (s : RedisSession R U) (x : Outcome A × R)
      → IsOk x.0
      → Succeeds
          (λ (_ : A) (t : RedisSession R U). IsConnected t)
          (x.0, record s { redis = some x.1 })
  ran-Succeeds s (ok a, r) h = tt
  ran-Succeeds s (err e, r) h = elim h [ ]
  ran-Succeeds s (panics, r) h = elim h [ ]
  ran-Succeeds s (out_of_fuel, r) h = elim h [ ]

  ran-Settles :
      {A : Type 0} (s : RedisSession R U) (x : Outcome A × R)
      → IsSettled x.0
      → Settles {A = A} IsConnected (x.0, record s { redis = some x.1 })
  ran-Settles s (ok a, r) h = tt
  ran-Settles s (err e, r) h = tt
  ran-Settles s (panics, r) h = elim h [ ]
  ran-Settles s (out_of_fuel, r) h = elim h [ ]

  pub on_redis-Succeeds :
      {A : Type 0} (command : R → Outcome A × R) (s : RedisSession R U)
      → ((r : R) → IsOk (command r).0)
      → IsConnected s
      → Succeeds (λ _ t. IsConnected t) (on_redis command s)
  unfolding on_redis
  on_redis-Succeeds command s works c = elim (Option-cases s.redis) [
    | inl gone ↦ absurd (rw gone at c)
    | inr (r, there) ↦ rw (on_redis, there) (ran-Succeeds s (command r) (works r))
  ]

  pub on_redis-Settles :
      {A : Type 0} (command : R → Outcome A × R) (s : RedisSession R U)
      → ((r : R) → IsSettled (command r).0)
      → IsConnected s
      → Settles IsConnected (on_redis command s)
  unfolding on_redis
  on_redis-Settles command s works c = elim (Option-cases s.redis) [
    | inl gone ↦ absurd (rw gone at c)
    | inr (r, there) ↦ rw (on_redis, there) (ran-Settles s (command r) (works r))
  ]
