-- ===== src/Session/Renewal/Runs.antt =====
-- The runs of a session that renews itself, which meet the contract of a renewal.
use dce_rust.Base.{
  ℕ, ◌≡◌, ◌≢◌, refl, sym, ◌∙◌, subst, Bool, true, false, Option, none, some, List, [], ◌∷◌,
  Option-cases, Bool-cases, inl, inr, ltb, ◌^◌, ◌-◌,
}
use dce_rust.Text.{Str}
use dce_rust.Error.{Outcome, ok, err, panics, out_of_fuel, ℤ, pos, negsuc, closed0_wrap}
use dce_rust.Session.Meta.{Meta, gen_id, ttl_seconds}
use dce_rust.Session.Meta
use dce_rust.Session.Trait.{Ran, ◌>>!◌}
use dce_rust.Session.Trait
use dce_rust.Session.Redis.{
  Redis, RedisSession, Snapshot, session_key, silent_get, touch, redis_store, cloned_silent_set,
}
use dce_rust.Session.User.{dropped}
use dce_rust.Session.Auto.{
  AutoRenew, Renewable, redis_renewable, as_snapshot, do_clone, is_superseded, settle, judge, keep,
  renew_due, renewed, unwrap_or, is_newer, to_option, was_destroyed,
}
use dce_rust.Session.Fresh.{
  IsFresh, OnOk, OnOk-and, OnOk-of_holds, >>!-OnOk, renew_none-new, renew-OnOk,
}
use dce_rust.Session.Keeping.{
  >>!-holds, dropped-holds, on_redis-Holds, ttl_passed-Holds, cloned_ttl_passed-Holds,
  cloned_touch-Holds, cloned_destroy-Holds, try_touch-Holds,
}
use dce_rust.Session.Renewal.{
  Renewal, kept, Noting, link_of, Meets, >>!-Meets, on_redis-link, link_at, IsOld, IsFromOld,
  IsRenewed, Meets-of_OnOk, cloned_silent_set-Meets, renew_none-sid_name,
}

module _ {R U : Type 0} (view : R → Str → Str → Option Str) (name id field : Str)
    (link : Option Str) (commands : Redis R) (laws : Noting commands view) (uid_of : U → ℕ)
    (from_json : Str → Outcome U) (to_json : U → Outcome Str) (now : Outcome (ℕ × ℕ)) (random : ℕ)
    (hash : Str → Str) (fresh : IsFresh now random hash id) (auto : AutoRenew (RedisSession R U))
    (fields : auto.new_sid_field ≡ field) where
  abbrev pub ops : Renewable (RedisSession R U)
  ops = redis_renewable commands uid_of from_json to_json now random hash

  renew-IsRenewed :
      (m : Meta) (c : Option (Snapshot U))
      → (IsFromOld view name id field link) m c
      → OnOk (λ r. (IsRenewed view name id field link) r c) (Meta.renew now random hash none m)
  renew-IsRenewed m c (n, there) =
      OnOk-and (λ (r : Meta). r.sid ≢ id) (λ r. (IsFromOld view name id field link) r c)
        (Meta.renew now random hash none m) (renew_none-new now random hash id fresh m)
        (renew_none-sid_name now random hash m ∙ n, there)

  do_clone-Meets :
      (filters : List (Str × Option Str)) (s : RedisSession R U)
      → (IsOld view name id field link) s.meta s.cloned
      → (Meets view name id field link) (do_clone ops auto filters s)
  unfolding do_clone
  do_clone-Meets filters s (same, n) =
      let FromOld = λ (t : RedisSession R U). (IsFromOld view name id field link) t.meta t.cloned in
      let first = ops.renew filters (ops.keep_clone s) in
      let second = first >>! (λ _ renewed. dropped (ops.cloned_touch renewed)) in
      let began : FromOld (ops.keep_clone s) =
        (n, (as_snapshot commands uid_of from_json to_json now random hash s, refl, same)) in
      let Renewed = λ (t : RedisSession R U). (IsRenewed view name id field link) t.meta t.cloned in
      let renewed : OnOk Renewed first =
        renew-OnOk (IsFromOld view name id field link) (IsRenewed view name id field link) commands
          (λ m c b h. h) uid_of from_json to_json now random hash renew-IsRenewed filters
          (ops.keep_clone s) began in
      let touched : OnOk Renewed second =
        >>!-OnOk Renewed Renewed first (λ _ t. dropped (ops.cloned_touch t)) renewed
          (λ _ t h. OnOk-of_holds Renewed (dropped (ops.cloned_touch t)) (
            dropped-holds Renewed (ops.cloned_touch t)
              (cloned_touch-Holds (IsRenewed view name id field link) commands t h))) in
      (Meets-of_OnOk view name id field link) Renewed second
        (λ _ t. ops.cloned_silent_set auto.new_sid_field t.meta.sid t) touched
        (λ _ t h.
          subst (λ f. (Meets view name id field link) (cloned_silent_set commands f t.meta.sid t))
            (sym fields) ((cloned_silent_set-Meets view name id field link commands laws) t h))

  unwrap_or-IsOld :
      {A : Type 0} (a : A) (m : Ran A (RedisSession R U))
      → (IsOld view name id field link) m.1.meta m.1.cloned
      → (IsOld view name id field link) (unwrap_or a m).1.meta (unwrap_or a m).1.cloned
  unwrap_or-IsOld a (ok b, s) h = h
  unwrap_or-IsOld a (err e, s) h = h
  unwrap_or-IsOld a (panics, s) h = h
  unwrap_or-IsOld a (out_of_fuel, s) h = h

  is_newer-IsOld :
      (n : ℕ) (m : Ran ℕ (RedisSession R U))
      → (IsOld view name id field link) m.1.meta m.1.cloned
      → (IsOld view name id field link) (is_newer n m).1.meta (is_newer n m).1.cloned
  unfolding is_newer
  is_newer-IsOld n (ok b, s) h = h
  is_newer-IsOld n (err e, s) h = h
  is_newer-IsOld n (panics, s) h = h
  is_newer-IsOld n (out_of_fuel, s) h = h

  -- A touch changes no note.
  touch-link :
      (s : RedisSession R U)
      → (link_at view name id field link) (touch commands s).1 ≡ (link_at view name id field link) s
  unfolding touch
  touch-link s =
      (on_redis-link view name id field link) (commands.expire (session_key s) (ttl_seconds s.meta))
        s (λ r. laws.expire-view _ _ _ _ r)

  try_touch-link :
      (s : RedisSession R U)
      → (link_at view name id field link) (ops.try_touch s).1 ≡ (link_at view name id field link) s
  unfolding Trait.try_touch redis_store link_of
  try_touch-link s = elim (Option-cases s.meta.touches) [
    | inl never ↦
        rw (never, Trait.try_touch)
          (>>!-holds
            (λ t. (link_at view name id field link) t ≡ (link_at view name id field link) s)
            (touch commands s)
            (λ touches t.
              let noted = record t { meta = record t.meta { touches = some touches } } in
              (ok (Trait.is_touched (redis_store commands) noted), noted))
            (touch-link s) (λ touches t g. g))
    | inr (b, there) ↦ rw (there, Trait.try_touch) refl
  ]

  -- Of a session that has its id and its note still.
  abbrev pub IsKept : RedisSession R U → Type 0
  IsKept s =
      ((IsOld view name id field link) s.meta s.cloned)
      × ((link_at view name id field link) s ≡ link)

  kept_as :
      (t : RedisSession R U)
      → IsKept t
      → Renewal id link false t.meta.sid ((link_at view name id field link) t)
  kept_as t (h, noted) =
      subst (λ n. Renewal id link false n ((link_at view name id field link) t)) (sym h.0)
        (subst (Renewal id link false id) (sym noted) kept)

  settle-Meets :
      (superseded : Bool) (s : RedisSession R U)
      → (IsOld view name id field link) s.meta s.cloned
      → (Meets view name id field link) (settle ops auto superseded s)
  unfolding settle
  settle-Meets true s h =
      (>>!-Meets view name id field link) (λ _. Unit) (ops.destroy s)
        (λ _ t. (closed0_wrap (was_destroyed (ops.meta t).sid), t)) tt (λ _ t g. tt)
  settle-Meets false s h =
      (>>!-Meets view name id field link) (λ t. (IsOld view name id field link) t.meta t.cloned)
        (ops.cloned_destroy s) (λ _ t. do_clone ops auto ((auto.new_sid_field, none) ∷ []) t)
        (cloned_destroy-Holds (IsOld view name id field link) commands uid_of from_json to_json s h)
        (λ _ t g. do_clone-Meets ((auto.new_sid_field, none) ∷ []) t g)

  is_superseded-IsOld :
      (new_tp : ℕ) (s : RedisSession R U)
      → (IsOld view name id field link) s.meta s.cloned
      → (IsOld view name id field link)
          (is_superseded ops auto new_tp s).1.meta
          (is_superseded ops auto new_tp s).1.cloned
  unfolding is_superseded
  is_superseded-IsOld new_tp s h =
      elim (Bool-cases (ltb new_tp auto.cloned_inactive_judgment_seconds)) [
        | inl t ↦ rw t (
            is_newer-IsOld new_tp (ops.ttl_passed s)
              (ttl_passed-Holds (IsOld view name id field link) commands s h))
        | inr f ↦ rw f h
      ]

  judge-Meets :
      (new_sid : Str) (s : RedisSession R U)
      → (IsOld view name id field link) s.meta s.cloned
      → (Meets view name id field link) (judge ops auto new_sid s)
  unfolding judge
  judge-Meets new_sid s h =
      let Old = λ (t : RedisSession R U). (IsOld view name id field link) t.meta t.cloned in
      let one : Ran (Option (RedisSession R U)) (RedisSession R U) =
        (to_option (ops.clone_with_id new_sid s), s) in
      let two = one >>! (λ cloned t.
        unwrap_or (2 ^ 32 - 1) (ops.cloned_ttl_passed (ops.set_cloned cloned t))) in
      let three = two >>! (λ new_tp t. is_superseded ops auto new_tp t) in
      let aged : Old two.1 =
        >>!-holds Old one
          (λ cloned t. unwrap_or (2 ^ 32 - 1) (ops.cloned_ttl_passed (ops.set_cloned cloned t))) h
          (λ cloned t g.
            unwrap_or-IsOld (2 ^ 32 - 1) (ops.cloned_ttl_passed (ops.set_cloned cloned t)) (
              cloned_ttl_passed-Holds (IsOld view name id field link) commands
                (ops.set_cloned cloned t) g)) in
      let judged : Old three.1 =
        >>!-holds Old two (λ new_tp t. is_superseded ops auto new_tp t) aged
          (λ new_tp t g. is_superseded-IsOld new_tp t g) in
      (>>!-Meets view name id field link) Old three (λ superseded t. settle ops auto superseded t)
        judged (λ superseded t g. settle-Meets superseded t g)

  keep-Meets : (s : RedisSession R U) → IsKept s → (Meets view name id field link) (keep ops auto s)
  unfolding keep
  keep-Meets s (h, noted) =
      (>>!-Meets view name id field link) IsKept (dropped (ops.try_touch s)) (λ _ t. (ok false, t))
        (dropped-holds IsKept (ops.try_touch s) (
          try_touch-Holds (IsOld view name id field link) commands (λ m c b g. g) s h,
          try_touch-link s ∙ noted,
        ))
        (λ _ t g. kept_as t g)

  renew_due-Meets :
      (seconds : ℕ) (found : Ran Str (RedisSession R U))
      → IsKept found.1
      → (Meets view name id field link) (renew_due ops auto seconds found)
  unfolding renew_due
  renew_due-Meets seconds (ok new_sid, s) h =
      elim (Bool-cases (ltb auto.original_judgment_seconds seconds)) [
        | inl late ↦ rw late (judge-Meets new_sid s h.0)
        | inr early ↦ rw early (keep-Meets s h)
      ]
  renew_due-Meets seconds (err e, s) h = do_clone-Meets [] s h.0
  renew_due-Meets seconds (panics, s) h = tt
  renew_due-Meets seconds (out_of_fuel, s) h = tt

  pub renewed-Meets :
      (s : RedisSession R U) (age : ℤ)
      → IsKept s
      → (Meets view name id field link) (renewed ops auto s age)
  unfolding renewed silent_get
  renewed-Meets s (negsuc n) h = keep-Meets s h
  renewed-Meets s (pos seconds) h = renew_due-Meets seconds (ops.silent_get auto.new_sid_field s) (
    on_redis-Holds (IsOld view name id field link)
        (commands.hget (session_key s) auto.new_sid_field) s h.0,
    (on_redis-link view name id field link) (commands.hget (session_key s) auto.new_sid_field) s
          (λ r. laws.hget-view _ _ _ _ r)
        ∙ h.1,
  )
