-- ===== src/Session/Trait.antt =====
-- The trait `Session` of crates/session/src/session.rs: the methods that it gives, on those that a
-- store fills in. A method returns its result with the session as it leaves it, error or not.
use dce_rust.Base.{
  ℕ, ◌≡◌, refl, sym, ap, subst, ◌∙◌, arith, Option-cases, inl, inr, Bool, true, false, Option, none,
  some, List, [], ◌∷◌, is_empty, list_eq, nat_eq,
}
use dce_rust.Text.{Str}
use dce_rust.Maps.{map_insert, map_remove}
use dce_rust.Error.{Outcome, ok, err, panics, out_of_fuel}
use dce_rust.Session.Meta.{Meta}
use dce_rust.Session.Meta

abbrev pub Ran : Type 0 → Type 0 → Type 0
Ran A S = Outcome A × S

-- `?` after a call.
infixl 5 ◌>>!◌
abbrev pub ◌>>!◌ : {A B S : Type 0} → Ran A S → (A → S → Ran B S) → Ran B S
(ok a, s) >>! k = k a s
(err e, s) >>! k = (err e, s)
(panics, s) >>! k = (panics, s)
(out_of_fuel, s) >>! k = (out_of_fuel, s)

-- A chain that succeeds has a first step that did.
pub >>!-ok :
    {A B S : Type 0} (m : Ran A S) (k : A → S → Ran B S) (b : B) (t : S)
    → (m >>! k) ≡ (ok b, t)
    → (a : A) × (s : S) × (m ≡ (ok a, s)) × (k a s ≡ (ok b, t))
>>!-ok (ok a, s) k b t e = (a, s, refl, e)
>>!-ok (err x, s) k b t e = absurd (ground arith)
>>!-ok (panics, s) k b t e = absurd (ground arith)
>>!-ok (out_of_fuel, s) k b t e = absurd (ground arith)

-- What two results that are the same have the same.
abbrev value_or : {A : Type 0} → A → Outcome A → A
value_or a (ok b) = b
value_or a _ = a

pub ran-inj :
    {A S : Type 0} (a b : A) (s t : S) → ◌≡◌ {A = Ran A S} (ok a, s) (ok b, t) → (a ≡ b) × (s ≡ t)
ran-inj {A} {S} a b s t e = (ap (λ (r : Ran A S). value_or a r.0) e, ap (λ (r : Ran A S). r.1) e)

-- What a store fills in; `meta` and `meta_mut` are a reading and a writing of one place.
pub record Session (S : Type 0) : Type 0 where
  pub meta : S → Meta
  pub set_meta : Meta → S → S
  pub meta-set_meta : (m : Meta) (s : S) → meta (set_meta m s) ≡ m
  pub gen_key : Str → Str → Str
  pub silent_set : Str → Str → S → Ran Bool S
  pub silent_get : Str → S → Ran Str S
  pub silent_del : Str → S → Ran Bool S
  pub touch : S → Ran Bool S
  pub load : List (Str × Str) → S → Ran Bool S
  pub raw : S → Ran (List (Str × Str)) S

-- The filters of `renew` applied to the data: a value replaces, none removes.
unfoldable pub apply_filters : List (Str × Option Str) → List (Str × Str) → List (Str × Str)
unfolding map_insert map_remove
apply_filters [] raw = raw
apply_filters ((k, some v) ∷ filters) raw = apply_filters filters (map_insert k v raw)
apply_filters ((k, none) ∷ filters) raw = apply_filters filters (map_remove k raw)

module _ {S : Type 0} (store : Session S) where
  unfoldable pub id : S → Str
  id s = (store.meta s).sid

  unfoldable pub key : S → Str
  unfolding id
  key s = store.gen_key (store.meta s).sid_name (id s)

  -- `matches!(self.meta().touches, Some(true))`.
  unfoldable pub is_touched : S → Bool
  is_touched s = elim (store.meta s).touches [ none ↦ false | some touched ↦ touched ]

  unfoldable pub try_touch : S → Ran Bool S
  unfolding is_touched
  try_touch s = elim (store.meta s).touches [
    | some touched ↦ (ok (is_touched s), s)
    | none ↦ store.touch s >>! (λ touches t.
        let noted = store.set_meta (record (store.meta t) { touches = some touches }) t in
        (ok (is_touched noted), noted))
  ]

  -- A change that was made is followed by a touch.
  unfoldable pub touch_after : Ran Bool S → Ran Bool S
  unfolding try_touch
  touch_after (ok true, s) = try_touch s
  touch_after result = result

  -- `set`, on the value as serde_json writes it.
  unfoldable pub set : Str → Outcome Str → S → Ran Bool S
  unfolding touch_after
  set field value s = (value, s) >>! (λ v t. touch_after (store.silent_set field v t))

  unfoldable pub del : Str → S → Ran Bool S
  unfolding touch_after
  del field s = touch_after (store.silent_del field s)

  -- `get`; `from_str` is that of serde_json. A value that was read is followed by a touch.
  unfoldable pub get : {T : Type 0} → (Str → Outcome T) → Str → S → Ran T S
  unfolding try_touch
  get from_str field s =
      store.silent_get field s >>! (λ value t. try_touch t >>! (λ _ u. (from_str value, u)))

  module _ (now : Outcome (ℕ × ℕ)) (random : ℕ) (hash : Str → Str) where
    -- `meta_mut().renew(id)`.
    unfoldable pub renew_meta : Option Str → S → Ran (Unit {0}) S
    unfolding Meta.renew
    renew_meta sid s =
        let (result, meta) = Meta.renew now random hash sid (store.meta s) in
        (result, store.set_meta meta s)

    unfoldable pub renew : List (Str × Option Str) → S → Ran Bool S
    unfolding renew_meta apply_filters try_touch
    renew filters s = store.raw s >>! (λ raw t.
        let filtered = apply_filters filters raw in
        renew_meta none t >>! (λ _ renewed. elim (is_empty filtered) [
          | true ↦ (ok true, renewed)
          | false ↦ store.load filtered renewed >>! (λ _ loaded. try_touch loaded)
        ]))

    -- `clone_with_id`; the session itself stays as it is.
    unfoldable pub clone_with_id : (S → S) → Str → S → Outcome S
    unfolding renew_meta
    clone_with_id clone sid s =
        let (result, cloned) = renew_meta (some sid) (clone s) in
        elim result [
          | ok _ ↦ ok cloned
          | err e ↦ err e
          | panics ↦ panics
          | out_of_fuel ↦ out_of_fuel
        ]

  try_touch_known : (s : S) (v : Bool) → (store.meta s).touches ≡ some v → try_touch s ≡ (ok v, s)
  unfolding try_touch is_touched
  try_touch_known s v there = rw (there, try_touch) (rw (there, is_touched) refl)

  -- After a touch that succeeds a session is touched no more: a second one returns the same and
  -- leaves the session, and with it the store, as it is.
  pub try_touch-once :
      (s t : S) (touched : Bool) → try_touch s ≡ (ok touched, t) → try_touch t ≡ (ok touched, t)
  unfolding try_touch is_touched
  try_touch-once s t touched e = elim (Option-cases (store.meta s).touches) [
    | inr (v, there) ↦
        let same : s ≡ t = ap (λ (r : Ran Bool S). r.1) (sym (try_touch_known s v there) ∙ e) in
        subst (λ x. try_touch x ≡ (ok touched, t)) same e
    | inl never ↦ touches never (store.touch s) refl
  ]
    where
      touches :
          (store.meta s).touches ≡ none
          → (r : Ran Bool S) → store.touch s ≡ r
          → try_touch t ≡ (ok touched, t)
      touches never (ok v, u) ran =
          let noted = store.set_meta (record (store.meta u) { touches = some v }) u in
          let known : (store.meta noted).touches ≡ some v =
            ap (λ (m : Meta). m.touches) (store.meta-set_meta _ u) in
          let first : try_touch s ≡ (ok (is_touched noted), noted) =
            rw (never, try_touch) (rw (ran, ◌>>!◌) refl) in
          let value : is_touched noted ≡ v = rw (known, is_touched) refl in
          let same : (ok v, noted) ≡ (ok touched, t) =
            ap (λ b. (ok b, noted)) (sym value) ∙ sym first ∙ e in
          subst (λ (r : Ran Bool S). try_touch r.1 ≡ r) same (try_touch_known noted v known)
      touches never (err x, u) ran = absurd (ground arith)
      touches never (panics, u) ran = absurd (ground arith)
      touches never (out_of_fuel, u) ran = absurd (ground arith)
