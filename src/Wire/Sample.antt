-- ===== src/Wire/Sample.antt =====
-- What texts are made of, by evaluation, and messages, for runs.
use dce_rust.Base.{
  none, some, List, ◌⊎◌, inl, inr, refl, ap, ℕ, ◌≡◌, list_eq, nat_eq, false, not, [], ◌∷◌, ◌==◌,
  any, arith,
}
use dce_rust.Text.{Str}
use dce_rust.Text.Split.{FreeOf}
use dce_rust.Text.Utf8.{from_utf8, from_utf8-as_bytes, is_scalar, IsText}
use dce_rust.Wire.Websocket.{Messages}
use dce_rust.Wire.Packet.{IsPlain}

pub free : (c : ℕ) (s : Str) → any (λ d. d == c) s ≡ false → FreeOf c s
unfolding any
free c [] e = tt
free c (d ∷ s) e = (ground arith, free c s (ground arith))

pub plain :
    (s : Str)
    → any (λ d. d == b'\n') s ≡ false
    → any (λ d. d == b'\r') s ≡ false
    → any (λ d. d == b'>') s ≡ false
    → IsPlain s
plain s n r g = (free b'\n' s n, free b'\r' s r, free b'>' s g)

pub is_text : (s : Str) → any (λ c. not (is_scalar c)) s ≡ false → IsText s
unfolding any
is_text [] e = tt
is_text (c ∷ s) e = (ground arith, is_text s (ground arith))

-- Messages as the two variants.
pub data Message : Type 0 where
  text_message : Str → Message
  binary_message : List ℕ → Message

abbrev pub to_text : Message → Str ⊎ Str
to_text (text_message s) = inr s
to_text (binary_message b) = elim (from_utf8 b) [ none ↦ inl [] | some s ↦ inr s ]

abbrev pub messages : Messages Message
messages = record {
  text_message = text_message;
  binary_message = binary_message;
  to_text = to_text;
  to_text-text_message = λ s. refl;
  to_text-binary_message = λ s h.
      ap (λ o. elim o as (λ _. Str ⊎ Str) [ none ↦ inl [] | some t ↦ inr t ])
        (from_utf8-as_bytes s h);
}
