-- ===== src/Session/Fresh.antt =====
-- That a renewed session has a new id.
use dce_rust.Base.{
  ℕ, ◌≡◌, ◌≢◌, refl, ap, ◌∙◌, Bool, true, false, Option, none, some, List, [], ◌∷◌, ◌++◌, is_empty,
  arith,
}
use dce_rust.Text.{Str, show_nat}
use dce_rust.Error.{Outcome, ok, err, panics, out_of_fuel}
use dce_rust.Session.Hex.{show_hex, pad}
use dce_rust.Session.Meta.{Meta, gen_id}
use dce_rust.Session.Meta
use dce_rust.Session.Trait.{Ran, ◌>>!◌, apply_filters}
use dce_rust.Session.Trait
use dce_rust.Session.Redis.{Redis, RedisSession, Snapshot, redis_store, load, raw}
use dce_rust.Session.User.{dropped, mapping, loaded}
use dce_rust.Session.User
use dce_rust.Session.Keeping.{
  Holds, dropped-holds, on_redis-Holds, load_or_not-Holds, mapping-Holds,
}

-- The hash of the time and of the random number that are drawn is not what an id starts with.
abbrev pub IsFresh : Outcome (ℕ × ℕ) → ℕ → (Str → Str) → Str → Type 0
IsFresh now random hash id =
    (secs nanos : ℕ) (behind : Str)
    → now ≡ ok (secs, nanos)
    → hash (show_nat nanos ++ b'-' ∷ show_nat random) ++ behind ≢ id

-- What holds of the state that a run leaves, if the run succeeds.
abbrev pub OnOk : {A S : Type 0} → (S → Type 0) → Ran A S → Type 0
OnOk P (ok a, s) = P s
OnOk P (err e, s) = Unit
OnOk P (panics, s) = Unit
OnOk P (out_of_fuel, s) = Unit

pub OnOk-of_holds : {A S : Type 0} (P : S → Type 0) (m : Ran A S) → P m.1 → OnOk P m
OnOk-of_holds P (ok a, s) h = h
OnOk-of_holds P (err e, s) h = tt
OnOk-of_holds P (panics, s) h = tt
OnOk-of_holds P (out_of_fuel, s) h = tt

pub OnOk-and :
    {A S : Type 0} (P Q : S → Type 0) (m : Ran A S) → OnOk P m → Q m.1 → OnOk (λ s. P s × Q s) m
OnOk-and P Q (ok a, s) h k = (h, k)
OnOk-and P Q (err e, s) h k = tt
OnOk-and P Q (panics, s) h k = tt
OnOk-and P Q (out_of_fuel, s) h k = tt

pub >>!-OnOk :
    {A B S : Type 0} (P Q : S → Type 0) (m : Ran A S) (k : A → S → Ran B S)
    → OnOk P m
    → ((a : A) (s : S) → P s → OnOk Q (k a s))
    → OnOk Q (m >>! k)
>>!-OnOk P Q (ok a, s) k h go = go a s h
>>!-OnOk P Q (err e, s) k h go = tt
>>!-OnOk P Q (panics, s) k h go = tt
>>!-OnOk P Q (out_of_fuel, s) k h go = tt

pub gen_id-new :
    (now : Outcome (ℕ × ℕ)) (random : ℕ) (hash : Str → Str) (id : Str)
    → IsFresh now random hash id
    → (ttl stamp : ℕ) (new : Str) → gen_id now random hash ttl ≡ ok (new, stamp)
    → new ≢ id
unfolding gen_id
gen_id-new (ok (secs, nanos)) random hash id fresh ttl stamp new e same =
    let sid_in = λ (o : Outcome (Str × ℕ)). elim o as (λ _. Str) [
      | ok p ↦ p.0
      | err x ↦ []
      | panics ↦ []
      | out_of_fuel ↦ []
    ] in
    fresh secs nanos (pad 4 (show_hex ttl) ++ show_hex secs) refl (ap sid_in e ∙ same)
gen_id-new (err x) random hash id fresh ttl stamp new e same = absurd (ground arith)
gen_id-new panics random hash id fresh ttl stamp new e same = absurd (ground arith)
gen_id-new out_of_fuel random hash id fresh ttl stamp new e same = absurd (ground arith)

-- A meta that is renewed has a new id.
pub renew_none-new :
    (now : Outcome (ℕ × ℕ)) (random : ℕ) (hash : Str → Str) (id : Str)
    → IsFresh now random hash id
    → (m : Meta) → OnOk (λ (n : Meta). n.sid ≢ id) (Meta.renew now random hash none m)
unfolding Meta.renew
renew_none-new now random hash id fresh m =
    by_id (gen_id now random hash m.ttl_minutes) (gen_id-new now random hash id fresh m.ttl_minutes)
  where
    by_id :
        (o : Outcome (Str × ℕ))
        → ((stamp : ℕ) (new : Str) → o ≡ ok (new, stamp) → new ≢ id)
        → OnOk
            (λ (n : Meta). n.sid ≢ id)
            (elim o as (λ _. Ran (Unit {0}) Meta) [
              | ok (sid, stamp) ↦
                  (ok tt, record m { touches = none; create_stamp = stamp; sid = sid })
              | err e ↦ (err e, record m { touches = none })
              | panics ↦ (panics, record m { touches = none })
              | out_of_fuel ↦ (out_of_fuel, record m { touches = none })
            ])
    by_id (ok (new, stamp)) made = made stamp new refl
    by_id (err e) made = tt
    by_id panics made = tt
    by_id out_of_fuel made = tt

-- A property that holds before the meta of a session is renewed, and one that holds from then on.
module _ {R U : Type 0} (P Q : Meta → Option (Snapshot U) → Type 0) (commands : Redis R)
    (noted : (m : Meta) (c : Option (Snapshot U)) (b : Bool)
      → Q m c
      → Q (record m { touches = some b }) c)
    (uid_of : U → ℕ) (from_json : Str → Outcome U) (to_json : U → Outcome Str)
    (now : Outcome (ℕ × ℕ)) (random : ℕ) (hash : Str → Str)
    (renewing : (m : Meta) (c : Option (Snapshot U))
      → P m c
      → OnOk (λ n. Q n c) (Meta.renew now random hash none m)) where
  meta-OnOk :
      (r : Ran (Unit {0}) Meta) (s : RedisSession R U)
      → OnOk (λ n. Q n s.cloned) r
      → OnOk (Holds Q) (r.0, record s { meta = r.1 })
  meta-OnOk (ok u, m) s h = h
  meta-OnOk (err e, m) s h = tt
  meta-OnOk (panics, m) s h = tt
  meta-OnOk (out_of_fuel, m) s h = tt

  trait_renew-OnOk :
      (filters : List (Str × Option Str)) (s : RedisSession R U)
      → Holds P s
      → OnOk (Holds Q) (Trait.renew (redis_store commands) now random hash filters s)
  unfolding Trait.renew Trait.renew_meta redis_store
  trait_renew-OnOk filters s h =
      let rest = λ (filtered : List (Str × Str)) (renewed : RedisSession R U).
        elim (is_empty filtered) as (λ _. Ran Bool (RedisSession R U)) [
          | true ↦ (ok true, renewed)
          | false ↦
              load commands filtered renewed
              >>! (λ _ loaded. Trait.try_touch (redis_store commands) loaded)
        ] in
      let store : Trait.Session (RedisSession R U) = redis_store commands in
      >>!-OnOk (Holds P) (Holds Q) (raw commands s)
        (λ found t.
          Trait.renew_meta store now random hash none t
          >>! (λ _ renewed. rest (apply_filters filters found) renewed))
        (OnOk-of_holds (Holds P) (raw commands s) (on_redis-Holds P _ s h))
        (λ found t g.
          >>!-OnOk (Holds Q) (Holds Q) (Trait.renew_meta store now random hash none t)
            (λ _ renewed. rest (apply_filters filters found) renewed)
            (meta-OnOk (Meta.renew now random hash none t.meta) t (renewing t.meta t.cloned g))
            (λ _ renewed k. OnOk-of_holds (Holds Q) (rest (apply_filters filters found) renewed) (
              load_or_not-Holds Q commands noted (apply_filters filters found)
                (is_empty (apply_filters filters found)) renewed k)))

  pub renew-OnOk :
      (filters : List (Str × Option Str)) (s : RedisSession R U)
      → Holds P s
      → OnOk (Holds Q) (User.renew commands uid_of from_json to_json now random hash filters s)
  unfolding User.renew
  renew-OnOk filters s h =
      >>!-OnOk (Holds Q) (Holds Q) (Trait.renew (redis_store commands) now random hash filters s)
        (λ result t.
          dropped (
            mapping commands uid_of from_json to_json
              (loaded commands uid_of from_json to_json false t))
          >>! (λ _ u. (ok result, u)))
        (trait_renew-OnOk filters s h)
        (λ result t g.
          let unloaded = loaded commands uid_of from_json to_json false t in
          let mapped = dropped (mapping commands uid_of from_json to_json unloaded) in
          >>!-OnOk (Holds Q) (Holds Q) mapped (λ _ u. (ok result, u))
            (OnOk-of_holds (Holds Q) mapped (
              dropped-holds (Holds Q) (mapping commands uid_of from_json to_json unloaded)
                (mapping-Holds Q commands uid_of from_json to_json unloaded g)))
            (λ _ u k. k))
