-- ===== src/Error.antt =====
-- crates/util/src/mixed.rs: the framework's errors. A `DceResult<T>` is an `Outcome T`, which also
-- says that the code panicked, or that a loop did not come to its end within the fuel given.
use dce_rust.Base.{ℕ, suc, ◌∷◌, ◌++◌}
use dce_rust.Text.{Str, text, show_nat}

-- `isize`; `negsuc n` is -(n + 1).
pub data ℤ : Type 0 where
  pos : ℕ → ℤ
  negsuc : ℕ → ℤ

unfoldable pub show_int : ℤ → Str
unfolding show_nat
show_int (pos n) = show_nat n
show_int (negsuc n) = b'-' ∷ show_nat (suc n)

pub record DceError : Type 0 where
  pub code : ℤ
  pub message : Str

pub data DceErr : Type 0 where
  openly : DceError → DceErr
  closed : DceError → DceErr

unfoldable pub value : DceErr → DceError
value (openly e) = e
value (closed e) = e

abbrev pub new_openly : ℤ → Str → DceErr
new_openly code message = openly (record { code = code; message = message })

abbrev pub new_closed : ℤ → Str → DceErr
new_closed code message = closed (record { code = code; message = message })

abbrev pub openly0 : Str → DceErr
openly0 message = new_openly (pos 0) message

abbrev pub closed0 : Str → DceErr
closed0 message = new_closed (pos 0) message

-- `DceErr::none`.
abbrev pub none_error : DceErr
none_error = closed0 (text "Need Some but got None")

abbrev pub service_unavailable : ℤ
service_unavailable = pos 503

abbrev pub service_unavailable_message : Str
service_unavailable_message = text "Service Unavailable"

-- "code: message", as `Display` and `to_responsible` write it.
unfoldable pub show_error : DceError → Str
unfolding show_int
show_error e = show_int e.code ++ b':' ∷ b' ' ∷ e.message

unfoldable pub display : DceErr → Str
unfolding show_error
display (openly e) = show_error e
display (closed e) = show_error e

-- The text for the client: that of a closed error says nothing of it.
unfoldable pub to_responsible : DceErr → Str
unfolding show_error
to_responsible (openly e) = show_error e
to_responsible (closed e) =
    show_error (record { code = service_unavailable; message = service_unavailable_message })

pub data Outcome {ℓ} (A : Type ℓ) : Type ℓ where
  ok : A → Outcome A
  err : DceErr → Outcome A
  panics : Outcome A
  out_of_fuel : Outcome A

infixl 5 ◌>>=◌ ◌>>◌
abbrev pub ◌>>=◌ {ℓ κ} : {A : Type ℓ} {B : Type κ} → Outcome A → (A → Outcome B) → Outcome B
ok a >>= f = f a
err e >>= f = err e
panics >>= f = panics
out_of_fuel >>= f = out_of_fuel

abbrev pub ◌>>◌ {ℓ} : {B : Type ℓ} → Outcome (Unit {0}) → Outcome B → Outcome B
m >> k = m >>= λ _. k

abbrev pub openly0_wrap {ℓ} : {A : Type ℓ} → Str → Outcome A
openly0_wrap message = err (openly0 message)

abbrev pub closed0_wrap {ℓ} : {A : Type ℓ} → Str → Outcome A
closed0_wrap message = err (closed0 message)
