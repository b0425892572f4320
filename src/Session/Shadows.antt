-- ===== src/Session/Shadows.antt =====
-- What the root of a connection learns from the session of a request.
use dce_rust.Base.{ℕ, ◌≡◌, ◌≢◌, Option, none, some, get_elem?}
use dce_rust.Text.{Str}
use dce_rust.Error.{Outcome, ok, err, panics, out_of_fuel}
use dce_rust.Session.Meta.{Meta}
use dce_rust.Session.Meta
use dce_rust.Session.Connection.{Connection, Roots, upgrade}

-- What a root is bound to after it was brought along: a server that was to bind is.
abbrev pub bound : Option (Option Str) → Option (Option Str)
bound none = none
bound (some server) = some none

module _ {S : Type 0} (conn : Connection S) (i : ℕ) (new_sid : Str) where
  -- The root at the place has the id, and the other roots are as they were.
  abbrev pub Follows : Option (Option Str) → Roots S → Roots S → Type 0
  Follows server roots after =
      (root : S) × (upgrade (some i) after ≡ some root)
      × ((conn.meta root).sid ≡ new_sid)
      × ((conn.conn_meta root).server_unbound ≡ server)
      × ((j : ℕ) → j ≢ i → get_elem? after j ≡ get_elem? roots j)

  -- The session that is left: a server that was to bind is set in its record.
  abbrev pub with_server : Option (Option Str) → S → S
  with_server none s = s
  with_server (some none) s = s
  with_server (some (some server)) s = (conn.silent_set (conn.conn_meta s).server_field server s).1

  -- The contract of a run; one that fails has none.
  abbrev Meets : Option (Option Str) → S → Roots S → Outcome (Unit {0}) × S × Roots S → Type 0
  Meets server left roots (ok u, t, after) = Follows server roots after × (t ≡ left)
  Meets server left roots (err e, t, after) = Unit
  Meets server left roots (panics, t, after) = Unit
  Meets server left roots (out_of_fuel, t, after) = Unit
