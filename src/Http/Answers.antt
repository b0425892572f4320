-- ===== src/Http/Answers.antt =====
-- The status of the answers over HTTP.
use dce_rust.Base.{
  ℕ, ◌-◌, ◌%◌, ◌^◌, ◌≤◌, ◌<◌, ◌≡◌, ◌⊎◌, inl, inr, refl, ap, ◌∙◌, false, Option, none, some, List,
  arith, ltb, leb, if◌then◌else◌, ◌&&◌, Bool-cases, list_eq, nat_eq, sym, ◌↔◌, Option-cases,
}
use mathlib.Core.Option.{some_inj, none-ne-some}
use dce_rust.Request.{Context}
use dce_rust.Text.{Str, text}
use dce_rust.Maps.{map_get}
use dce_rust.Error.{
  Outcome, ok, err, panics, out_of_fuel, DceErr, openly, closed, ℤ, pos, negsuc, to_responsible,
  ◌>>=◌,
}
use dce_rust.Serializer.{string}
use dce_rust.Protocol.{head_sid_name, raw}
use dce_rust.Http.{
  Hyper, HyperHttpProtocol, as_u16, below_600, pack_resp, insert_sid, into, taken, err_into,
  status_of, set_error_status, handle_result, answer, route,
}

-- What hyper does with statuses, which `status` reads from a response, as `number` does from one.
pub record Statuses {Req Resp Method Value Status : Type 0}
    (hyper : Hyper Req Resp Method Value Status) : Type 0 where
  pub status : Resp → ℕ
  pub number : Status → ℕ
  pub status-new : (b : List ℕ) → status (hyper.new_response b) ≡ 200
  pub status-insert :
      (k : Str) (v : Value) (r : Resp) → status (hyper.insert_header k v r) ≡ status r
  pub status-set : (s : Status) (r : Resp) → status (hyper.set_status s r) ≡ number s
  pub from_u16-number :
      (n : ℕ) → 100 ≤ n → n < 1000 → (s : Status) × (hyper.from_u16 n ≡ some s) × (number s ≡ n)
  pub from_u16-none : (n : ℕ) → (n < 100) ⊎ (1000 ≤ n) → hyper.from_u16 n ≡ none
  pub unavailable : number hyper.service_unavailable ≡ 503

-- The status of the answer to an error: that of its code, for an open error of a code below 600, or
-- 503 where the code, cut to 16 bits, is no status; that of a new response in the other cases.
abbrev pub valid_or_503 : ℕ → ℕ
valid_or_503 n = if leb 100 n && ltb n 1000 then n else 503

abbrev pub expected_status : DceErr → ℕ
expected_status (closed e) = 200
expected_status (openly e) = elim e.code [
  | pos n ↦ if ltb n 600 then valid_or_503 n else 200
  | negsuc n ↦ valid_or_503 (2 ^ 16 - 1 - n % 2 ^ 16)
]

module _ {Req Resp Method Value Status : Type 0} (hyper : Hyper Req Resp Method Value Status)
    (laws : Statuses hyper) where
  -- The new session id, if there is one, can be the value of a header.
  abbrev pub IsSendable : Option Str → Type 0
  IsSendable none = Unit
  IsSendable (some sid) = (v : Value) × (hyper.from_str sid ≡ some v)

  insert_sid-status :
      (o : Option Str) (r : Resp)
      → IsSendable o
      → (r' : Resp) × (insert_sid hyper o r ≡ ok r') × (laws.status r' ≡ laws.status r)
  unfolding insert_sid
  insert_sid-status none r h = (r, refl, refl)
  insert_sid-status (some sid) r (v, e) = (
    hyper.insert_header (text "X-Session-Id") v r,
    rw (e, insert_sid) refl,
    laws.status-insert (text "X-Session-Id") v r,
  )

  outside : (n : ℕ) → (leb 100 n && ltb n 1000) ≡ false → (n < 100) ⊎ (1000 ≤ n)
  outside n e = elim (Bool-cases (leb 100 n)) [
    | inl t ↦ inr (ground arith)
    | inr f ↦ inl (ground arith)
  ]

  valid_status :
      (n : ℕ) (r : Resp)
      → laws.status (
          hyper.set_status
            (elim (hyper.from_u16 n) [ none ↦ hyper.service_unavailable | some s ↦ s ])
            r)
        ≡ valid_or_503 n
  valid_status n r = elim (Bool-cases (leb 100 n && ltb n 1000)) [
    | inl fits ↦
        let (s, made, same) = laws.from_u16-number n (ground arith) (ground arith) in
        rw (made, fits) (laws.status-set s r ∙ same)
    | inr not_one ↦
        let gone = laws.from_u16-none n (outside n not_one) in
        rw (gone, not_one) (laws.status-set hyper.service_unavailable r ∙ laws.unavailable)
  ]

  -- The status that an open error sets, by its code.
  open_status-expected :
      (code : ℤ) (r : Resp)
      → laws.status r ≡ 200
      → laws.status (if below_600 code then hyper.set_status (status_of hyper code) r else r)
        ≡ elim code [
          | pos n ↦ if ltb n 600 then valid_or_503 n else 200
          | negsuc n ↦ valid_or_503 (2 ^ 16 - 1 - n % 2 ^ 16)
        ]
  unfolding status_of as_u16
  open_status-expected (pos n) r h = elim (Bool-cases (ltb n 600)) [
    | inl small ↦
        let whole : n % 2 ^ 16 ≡ n = ground arith in
        rw small (valid_status (n % 2 ^ 16) r ∙ ap valid_or_503 whole)
    | inr large ↦ rw large h
  ]
  open_status-expected (negsuc n) r h = valid_status (2 ^ 16 - 1 - n % 2 ^ 16) r

  set_error_status-expected :
      (e : DceErr) (r : Resp)
      → laws.status r ≡ 200
      → laws.status (set_error_status hyper e r) ≡ expected_status e
  unfolding set_error_status status_of as_u16
  set_error_status-expected (closed e) r h = h
  set_error_status-expected (openly e) r h = open_status-expected e.code r h

  -- An error is answered, and by the status that is expected of it, whenever the new session id, if
  -- there is one, can be the value of a header.
  pub handle_result-status :
      (rp : HyperHttpProtocol Req Resp) (e : DceErr)
      → IsSendable (map_get head_sid_name rp.meta.resp_heads)
      → (resp : Resp) × (handle_result hyper rp (err e) ≡ ok (some resp))
        × (laws.status resp ≡ expected_status e)
  unfolding handle_result err_into into taken pack_resp
  handle_result-status rp e sendable =
      let plain = pack_resp hyper (string (to_responsible e)) in
      let (r, made, same) =
        insert_sid-status (map_get head_sid_name rp.meta.resp_heads) plain sendable in
      (
        set_error_status hyper e r,
        ap (λ o. o >>= λ x. ok (some (set_error_status hyper e x))) made,
        set_error_status-expected e r (same ∙ laws.status-new _),
      )

-- A result that can be answered: the code before came to its end.
abbrev pub IsAnswerable : Outcome (Unit {0}) → Type 0
IsAnswerable (ok u) = Unit
IsAnswerable (err e) = Unit
IsAnswerable panics = ⊥
IsAnswerable out_of_fuel = ⊥

no_panic : (result : Outcome (Unit {0})) → IsAnswerable result → ¬ (result ≡ panics)
no_panic (ok u) a e = absurd (ground arith)
no_panic (err x) a e = absurd (ground arith)
no_panic panics a e = elim a [ ]
no_panic out_of_fuel a e = elim a [ ]

module _ {Req Resp Method Value Status : Type 0} (hyper : Hyper Req Resp Method Value Status) where
  -- The new session id is no value of a header.
  abbrev pub IsUnsendable : Option Str → Type 0
  IsUnsendable heads = (sid : Str) × (heads ≡ some sid) × (hyper.from_str sid ≡ none)

  insert_sid-panics_iff :
      (heads : Option Str) (r : Resp) → (insert_sid hyper heads r ≡ panics) ↔ IsUnsendable heads
  unfolding insert_sid
  insert_sid-panics_iff none r =
      ((λ e. absurd (ground arith)), λ (sid, e, n). absurd (none-ne-some sid e))
  insert_sid-panics_iff (some sid) r = elim (Option-cases (hyper.from_str sid)) [
    | inl gone ↦ ((λ e. (sid, refl, gone)), λ h. rw (gone, insert_sid) refl)
    | inr (v, there) ↦ (
      (λ e. absurd (ground arith)),
      λ (sid', e, n).
          absurd (none-ne-some v (sym n ∙ ap hyper.from_str (sym (some_inj.0 e)) ∙ there)),
    )
  ]

  -- An answer that is made of a response panics where the response did.
  made-panics_iff :
      (o : Outcome Resp) (f : Resp → Resp)
      → (((o >>= λ r. ok (some (f r))) >>= λ x. elim x as (λ _. Outcome Resp) [
        | none ↦ panics
        | some resp ↦ ok resp
      ])
          ≡ panics)
        ↔ (o ≡ panics)
  made-panics_iff (ok r) f = ((λ e. absurd (ground arith)), λ e. absurd (ground arith))
  made-panics_iff (err x) f = ((λ e. absurd (ground arith)), λ e. absurd (ground arith))
  made-panics_iff panics f = ((λ e. refl), λ e. refl)
  made-panics_iff out_of_fuel f = ((λ e. absurd (ground arith)), λ e. absurd (ground arith))

  module _ {D : Type 0} where
    -- The ways in which `route` panics.
    abbrev pub Panicking : Outcome (Unit {0}) × Context (HyperHttpProtocol Req Resp) D → Type 0
    Panicking (result, context) =
        (result ≡ panics)
        ⊎ (IsAnswerable result
            × ((context.rp ≡ none)
                ⊎ ((rp : HyperHttpProtocol Req Resp) × (context.rp ≡ some rp)
                    × IsUnsendable (map_get head_sid_name rp.meta.resp_heads))))

    -- Where the protocol is there, an answer panics by the new session id only.
    there-panics_iff :
        (result : Outcome (Unit {0})) (rp : HyperHttpProtocol Req Resp)
        (context : Context (HyperHttpProtocol Req Resp) D)
        → IsAnswerable result
        → context.rp ≡ some rp
        → (route hyper (result, context) ≡ panics)
          ↔ IsUnsendable (map_get head_sid_name rp.meta.resp_heads)
    unfolding route answer handle_result into err_into
    there-panics_iff (ok u) rp context a there =
        let heads = map_get head_sid_name rp.meta.resp_heads in
        let made = made-panics_iff (into hyper rp) (λ r. r) in
        let sent = insert_sid-panics_iff heads (taken hyper rp.meta.resp) in
        rw (there, route) ((λ e. sent.0 (made.0 e)), λ h. made.1 (sent.1 h))
    there-panics_iff (err x) rp context a there =
        let heads = map_get head_sid_name rp.meta.resp_heads in
        let made = made-panics_iff (err_into hyper rp x) (set_error_status hyper x) in
        let sent =
          insert_sid-panics_iff heads
            (taken hyper (some (raw (pack_resp hyper (string (to_responsible x)))))) in
        rw (there, route) ((λ e. sent.0 (made.0 e)), λ h. made.1 (sent.1 h))
    there-panics_iff panics rp context a there = elim a [ ]
    there-panics_iff out_of_fuel rp context a there = elim a [ ]

    taken_panics :
        (result : Outcome (Unit {0})) (context : Context (HyperHttpProtocol Req Resp) D)
        → IsAnswerable result
        → context.rp ≡ none
        → route hyper (result, context) ≡ panics
    unfolding route answer
    taken_panics (ok u) context a gone = rw (gone, route) refl
    taken_panics (err x) context a gone = rw (gone, route) refl
    taken_panics panics context a gone = elim a [ ]
    taken_panics out_of_fuel context a gone = elim a [ ]

    finished-panics_iff :
        (result : Outcome (Unit {0})) (context : Context (HyperHttpProtocol Req Resp) D)
        → IsAnswerable result
        → (route hyper (result, context) ≡ panics) ↔ Panicking (result, context)
    finished-panics_iff result context a = (
      (λ e. elim (Option-cases context.rp) [
        | inl gone ↦ inr (a, inl gone)
        | inr (rp, there) ↦
            inr (a, inr (rp, there, (there-panics_iff result rp context a there).0 e))
      ]),
      λ h. elim h [
        | inl p ↦ absurd (no_panic result a p)
        | inr (_, inl gone) ↦ taken_panics result context a gone
        | inr (_, inr (rp, there, un)) ↦ (there-panics_iff result rp context a there).1 un
      ],
    )

    -- `route` panics exactly where the code before did, where a handler has taken the protocol, so
    -- that the arm called unreachable is reached, and where the new session id is no value of a
    -- header.
    pub route-panics_iff :
        (routed : Outcome (Unit {0}) × Context (HyperHttpProtocol Req Resp) D)
        → (route hyper routed ≡ panics) ↔ Panicking routed
    unfolding route answer
    route-panics_iff (ok u, context) = finished-panics_iff (ok u) context tt
    route-panics_iff (err x, context) = finished-panics_iff (err x) context tt
    route-panics_iff (panics, context) = ((λ e. inl refl), λ h. refl)
    route-panics_iff (out_of_fuel, context) = (
      (λ e. absurd (ground arith)),
      λ h. elim h [ inl e ↦ absurd (ground arith) | inr (a, _) ↦ elim a [ ] ],
    )
