-- ===== src/Wire/Panics.antt =====
-- When the readers of the network's packets panic.
use dce_rust.Base.{
  ℕ, ◌≡◌, ◌≢◌, ◌↔◌, inl, inr, refl, ap, ◌∙◌, Bool, true, false, Option, none, some, List, [], ◌∷◌,
  Bool-cases, arith, length, ◌==◌, ◌&&◌, if◌then◌else◌, ◌≢◌, list_eq, nat_eq,
}
use dce_rust.Text.{Str, starts_with, cons_head, skip}
use dce_rust.Text.Lines.{find_text, lines}
use dce_rust.Error.{Outcome, ok, err, panics, out_of_fuel, ◌>>=◌}
use dce_rust.Protocol.{new_meta}
use dce_rust.Wire.{read_lines, packet_of, read_packet, head_body_separator}
use dce_rust.Wire.Tcp.{SemiTcpProtocol, from_bytes, packet_text}

cons_head-ne-nil : (c : ℕ) (ps : List Str) → cons_head c ps ≢ []
cons_head-ne-nil c [] e = cc
cons_head-ne-nil c (p ∷ ps) e = cc

never_nil :
    (b b' : Bool) (c : ℕ) (rest : List Str)
    → rest ≢ []
    → (if b then [] ∷ rest else if b' then rest else cons_head c rest) ≢ []
never_nil true b' c rest h e = cc
never_nil false true c rest h e = h e
never_nil false false c rest h e = cons_head-ne-nil c rest e

-- Only the empty text has no line.
lines-ne-nil : (c : ℕ) (s : Str) → lines (c ∷ s) ≢ []
unfolding lines starts_with
lines-ne-nil c [] e = ground (arith, cons_head-ne-nil c [])
lines-ne-nil c (d ∷ s) e =
    never_nil (c == b'\n') (c == b'\r' && starts_with (d ∷ s) (b'\n' ∷ [])) c (lines (d ∷ s))
      (lines-ne-nil d s) e

lines-eq-nil : (s : Str) → lines s ≡ [] → s ≡ []
lines-eq-nil [] e = refl
lines-eq-nil (c ∷ s) e = absurd (lines-ne-nil c s e)

find_text-nil : (p s b : Str) → find_text p s ≡ some ([], b) → starts_with s p ≡ true
unfolding find_text
find_text-nil p [] b e = elim (Bool-cases (starts_with [] p)) [ inl t ↦ t | inr f ↦ ground arith ]
find_text-nil p (c ∷ s) b e = elim (Bool-cases (starts_with (c ∷ s) p)) [
  | inl t ↦ t
  | inr f ↦ ground (arith)
]

find_text-starts : (p s : Str) → starts_with s p ≡ true → (b : Str) × (find_text p s ≡ some ([], b))
unfolding find_text
find_text-starts p [] e = ([], rw e refl)
find_text-starts p (c ∷ s) e = (skip (length p) (c ∷ s), rw (find_text, e) refl)

-- A step that goes on with a result panics only where it did before.
panics_before :
    {A B : Type 0} (o : Outcome A) (f : A → B) → (o >>= λ x. ok (f x)) ≡ panics → o ≡ panics
panics_before (ok a) f e = cc
panics_before (err x) f e = cc
panics_before panics f e = refl
panics_before out_of_fuel f e = cc

read_lines-panics : (ls : List Str) → read_lines ls ≡ panics → ls ≡ []
unfolding read_lines
read_lines-panics [] e = refl
read_lines-panics (first ∷ ls) e = cc

packet_of-panics :
    (t : Str) (o : Option (Str × Str)) → packet_of t o ≡ panics → (b : Str) × (o ≡ some ([], b))
unfolding packet_of
packet_of-panics t none e = absurd (ground arith)
packet_of-panics t (some (a, b)) e = (
  b,
  ap (λ x. some (x, b))
      (lines-eq-nil a (read_lines-panics (lines a) (panics_before (read_lines (lines a)) _ e))),
)

packet_of-nil : (t b : Str) → packet_of t (some ([], b)) ≡ panics
unfolding packet_of read_lines lines
packet_of-nil t b = refl

read_as : List ℕ → List (Str × Str) × ℕ → SemiTcpProtocol
read_as value (heads, n) = record { meta = new_meta value heads; body_index = n }

-- The reader of a packet over TCP or UDP panics exactly on the packets whose text begins with the
-- separator of the body, apart from white space.
pub from_bytes-panics_iff :
    (value : List ℕ)
    → (from_bytes value ≡ panics) ↔ (starts_with (packet_text value) head_body_separator ≡ true)
unfolding from_bytes read_packet read_as
from_bytes-panics_iff value =
    let t = packet_text value in
    (
      (λ e.
          let (b, found) =
            packet_of-panics t (find_text head_body_separator t)
              (panics_before (packet_of t (find_text head_body_separator t)) _ e) in
          find_text-nil head_body_separator t b found),
      (λ e.
          let (b, found) = find_text-starts head_body_separator t e in
          ap (λ o. packet_of t o >>= λ x. ok (read_as value x)) found
          ∙ ap (λ o. o >>= λ x. ok (read_as value x)) (packet_of-nil t b)),
    )
