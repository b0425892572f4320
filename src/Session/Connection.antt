-- ===== src/Session/Connection.antt =====
-- crates/session/src/connection.rs, with the feature "async": sessions of a connection. The root of a
-- connection is shared by `Arc<Mutex<_>>`: the roots stand in a list, a place in it is the `Weak`
-- of one, and an empty place is a root that was dropped. Locks are uncontended.
use dce_rust.Base.{
  ℕ, zero, suc, ◌≡◌, Bool, Option, none, some, List, [], ◌∷◌, ◌++◌, get_elem?, length,
}
use dce_rust.Text.{Str, text}
use dce_rust.Error.{Outcome, ok, err, panics, out_of_fuel, closed0_wrap, ◌>>=◌}
use dce_rust.Session.Meta.{Meta}
use dce_rust.Session.Meta
use dce_rust.Session.Trait.{Ran}

abbrev pub default_server_field : Str
default_server_field = text "$server"

-- `shadow` is the place of the root; `none` is `Weak::default()`. `server_unbound` is the server that
-- a root is to bind, `some none` where it is bound, and `none` for the session of a request.
pub record ConnectionMeta : Type 0 where
  pub server_field : Str
  pub shadow : Option ℕ
  pub server_unbound : Option (Option Str)

unfoldable pub new_connection_meta : ConnectionMeta
new_connection_meta = record {
  server_field = default_server_field;
  shadow = none;
  server_unbound = none;
}

-- What a session with a connection has.
pub record Connection (S : Type 0) : Type 0 where
  pub meta : S → Meta
  pub set_meta : Meta → S → S
  pub conn_meta : S → ConnectionMeta
  pub set_conn_meta : ConnectionMeta → S → S
  pub silent_set : Str → Str → S → Ran Bool S
  pub clone_with_id : Str → S → Outcome S
  pub unbinding : S → Ran Bool S
  pub meta-set_meta : (m : Meta) (s : S) → meta (set_meta m s) ≡ m
  pub conn_meta-set_conn_meta : (c : ConnectionMeta) (s : S) → conn_meta (set_conn_meta c s) ≡ c
  pub conn_meta-set_meta : (m : Meta) (s : S) → conn_meta (set_meta m s) ≡ conn_meta s
  pub conn_meta-silent_set :
      (field value : Str) (s : S) → conn_meta (silent_set field value s).1 ≡ conn_meta s

abbrev pub Roots : Type 0 → Type 0
Roots S = List (Option S)

-- `Weak::upgrade`.
unfoldable pub upgrade : {S : Type 0} → Option ℕ → Roots S → Option S
upgrade none roots = none
upgrade (some i) roots = elim (get_elem? roots i) [ none ↦ none | some root ↦ root ]

unfoldable pub set_root : {S : Type 0} → ℕ → S → Roots S → Roots S
set_root i root [] = []
set_root zero root (r ∷ roots) = some root ∷ roots
set_root (suc i) root (r ∷ roots) = r ∷ set_root i root roots

module _ {S : Type 0} (conn : Connection S) where
  unfoldable pub set_server_unbound : Option (Option Str) → S → S
  set_server_unbound server s =
      conn.set_conn_meta (record (conn.conn_meta s) { server_unbound = server }) s

  -- `connect`: the session is the root of a new connection.
  unfoldable pub connect : Str → S → Roots S → ℕ × Roots S
  unfolding set_server_unbound
  connect server s roots =
      (length roots, roots ++ some (set_server_unbound (some (some server)) s) ∷ [])

  unfoldable pub disconnect : S → Ran Bool S
  disconnect s = conn.unbinding s

  abbrev pub id_or : Option Str → S → Str
  id_or none root = (conn.meta root).sid
  id_or (some sid) root = sid

  unfoldable pub clone_for_request : ℕ → Option Str → Roots S → Outcome S
  unfolding upgrade
  clone_for_request root sid roots = elim (upgrade (some root) roots) [
    | none ↦ closed0_wrap (text "Failed to upgrade to Arc")
    | some guard ↦ conn.clone_with_id (id_or sid guard) guard >>= λ session. ok (
        conn.set_conn_meta
          (record (conn.conn_meta session) { server_unbound = none; shadow = some root }) session)
  ]

  module _ (now : Outcome (ℕ × ℕ)) (random : ℕ) (hash : Str → Str) where
    -- `lock.meta_mut().renew(Some(new_sid))`, on the root at a place.
    unfoldable pub renew_root : Str → ℕ → S → S → Roots S → Outcome (Unit {0}) × S × Roots S
    unfolding set_root Meta.renew
    renew_root new_sid i root s roots =
        let (result, meta) = Meta.renew now random hash (some new_sid) (conn.meta root) in
        (result, s, set_root i (conn.set_meta meta root) roots)

    -- `let _ = self.silent_set(..)`, and what comes then.
    unfoldable pub after_note :
        Ran Bool S
        → Roots S
        → (S → Outcome (Unit {0}) × S × Roots S)
        → Outcome (Unit {0}) × S × Roots S
    after_note (ok b, s) roots k = k s
    after_note (err e, s) roots k = k s
    after_note (panics, s) roots k = (panics, s, roots)
    after_note (out_of_fuel, s) roots k = (out_of_fuel, s, roots)

    -- The server of a root that has none yet is noted in the session first, as far as that succeeds.
    unfoldable pub update_root :
        Option (Option Str) → Str → ℕ → S → S → Roots S → Outcome (Unit {0}) × S × Roots S
    unfolding renew_root set_server_unbound after_note
    update_root (some (some server)) new_sid i root s roots =
        after_note (conn.silent_set (conn.conn_meta s).server_field server s) roots
          (λ t. renew_root new_sid i (set_server_unbound (some none) root) t roots)
    update_root (some none) new_sid i root s roots = renew_root new_sid i root s roots
    update_root none new_sid i root s roots = renew_root new_sid i root s roots

    unfoldable pub update_shadow : Str → S → Roots S → Outcome (Unit {0}) × S × Roots S
    unfolding update_root upgrade
    update_shadow new_sid s roots = elim (conn.conn_meta s).shadow [
      | none ↦ (closed0_wrap (text "Not the cloned connection session"), s, roots)
      | some i ↦ elim (upgrade (some i) roots) [
        | none ↦ (closed0_wrap (text "Not the cloned connection session"), s, roots)
        | some root ↦ update_root (conn.conn_meta root).server_unbound new_sid i root s roots
      ]
    ]

    -- `renew` of the sessions in redis: that of a request brings its root along.
    unfoldable pub renew_along : Ran Bool S → Roots S → Outcome Bool × S × Roots S
    unfolding update_shadow
    renew_along (ok b, s) roots = elim (conn.conn_meta s).server_unbound [
      | some _ ↦ (ok b, s, roots)
      | none ↦
          let (result, t, after) = update_shadow (conn.meta s).sid s roots in
          (result >>= λ _. ok b, t, after)
    ]
    renew_along (err e, s) roots = (err e, s, roots)
    renew_along (panics, s) roots = (panics, s, roots)
    renew_along (out_of_fuel, s) roots = (out_of_fuel, s, roots)
