-- ===== src/Http/Cookies.antt =====
-- The session id that a request over HTTP has in its cookies.
use dce_rust.Base.{
  ℕ, ◌≡◌, refl, ap, ◌∙◌, Option, none, some, List, [], ◌∷◌, ◌++◌, All, All-append, arith, ◌≢◌, any,
  ◌==◌, false,
}
use dce_rust.Text.{Str, text, split, join}
use dce_rust.Text.Split.{FreeOf, split-join}
use dce_rust.Text.Lines.{find_text, find_text-append}
use dce_rust.Error.{ok}
use dce_rust.Http.{Hyper, HyperHttpProtocol, find_sid, cookie_sid, sid}

abbrev pub sid_cookie : Str
sid_cookie = text "session_id="

-- A cookie that has the text nowhere.
abbrev pub IsOther : Str → Type 0
IsOther kv = find_text sid_cookie kv ≡ none

find_sid-first :
    (before : List Str) (lead v : Str) (after : List Str)
    → All IsOther before
    → FreeOf b's' lead
    → find_sid (before ++ (lead ++ (sid_cookie ++ v)) ∷ after) ≡ some v
unfolding find_sid
find_sid-first [] lead v after h l =
    let found : find_text sid_cookie (lead ++ (sid_cookie ++ v)) ≡ some (lead, v) =
      find_text-append b's' (text "ession_id=") lead v l in
    ap (λ o. elim o as (λ _. Option Str) [ none ↦ find_sid after | some (_, s) ↦ some s ]) found
find_sid-first (kv ∷ before) lead v after (h, hs) l =
    rw (find_sid, h) (find_sid-first before lead v after hs l)

free : (c : ℕ) (s : Str) → any (λ d. d == c) s ≡ false → FreeOf c s
unfolding any
free c [] e = tt
free c (d ∷ s) e = (ground arith, free c s (ground arith))

append_cons-ne-nil : (xs : List Str) (y : Str) (ys : List Str) → xs ++ y ∷ ys ≢ []
append_cons-ne-nil [] y ys e = cc
append_cons-ne-nil (x ∷ xs) y ys e = cc

-- Of a request without the header of its own, the session id is what stands behind "session_id=" in
-- the first cookie that has this text, if nothing before it in the cookie is the letter s, and no
-- cookie has a semicolon.
pub sid-cookie :
    {Req Resp Method Value Status : Type 0} (hyper : Hyper Req Resp Method Value Status)
    (rp : HyperHttpProtocol Req Resp) (req : Req) (before : List Str) (lead v : Str)
    (after : List Str)
    → rp.meta.req ≡ some req
    → hyper.header (text "X-Session-Id") req ≡ none
    → hyper.header (text "cookie") req
      ≡ some (some (join b';' (before ++ (lead ++ (sid_cookie ++ v)) ∷ after)))
    → All IsOther before
    → All (FreeOf b';') before
    → FreeOf b's' lead
    → FreeOf b';' lead
    → FreeOf b';' v
    → All (FreeOf b';') after
    → sid hyper rp ≡ ok (some v)
unfolding sid cookie_sid any
sid-cookie hyper rp req before lead v after there own cookies other fb ls fl fv fa =
    let parts = before ++ (lead ++ (sid_cookie ++ v)) ∷ after in
    let named : FreeOf b';' (lead ++ (sid_cookie ++ v)) =
      All-append _ lead (sid_cookie ++ v) fl
        (All-append _ sid_cookie v (free b';' sid_cookie refl) fv) in
    let whole : All (FreeOf b';') parts = All-append _ before _ fb (named, fa) in
    let cut : split b';' (join b';' parts) ≡ parts =
      split-join b';' parts (append_cons-ne-nil before _ after) whole in
    rw (sid, there, own, cookies)
      (ap (λ ps. ok (find_sid ps)) cut ∙ ap ok (find_sid-first before lead v after other ls))
