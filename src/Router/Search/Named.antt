-- ===== src/Router/Search/Named.antt =====
-- The children of a branch that a part of a path names.
use mathlib.Core.Option.{some_inj, none-ne-some}
use dce_rust.Base.{
  ℕ, ◌≡◌, ◌⊎◌, refl, sym, ap, ◌∙◌, Bool, true, none, some, List, [], ◌∷◌, ◌++◌, map, arith,
  get_elem?, ◌==◌, Option-cases, Bool-cases, inl, inr, Memᴰ, Memᴰ-append-cases, find, find_sound,
  subst, list_beq_iff, list_eq, nat_eq, list_ord, nat_ord,
}
use dce_rust.Text.{Str, str_eq, rsplits, cons_fst}
use dce_rust.Maps.{btree_get}
use dce_rust.Tree.{ATree, Arena}
use dce_rust.Tree.Shape.{At}
use dce_rust.Api.{Api}
use dce_rust.Api.Suffixes.{Suffix}
use dce_rust.Router.Branch.{ApiBranch}
use dce_rust.Router.Search.{
  Children, flat_suffixes, get_child, suffixes_at, find_at_boundary, find_consider_suffix,
}

-- A place is the child of a name: a child proper, or, where there is none, one that is passed on
-- from an omitted branch.
abbrev pub IsChild : Children → Children → Str → ℕ → Type 0
IsChild children omitted name place =
    (btree_get name children ≡ some place)
    ⊎ ((btree_get name children ≡ none) × (btree_get name omitted ≡ some place))

abbrev pub HasNoChild : Children → Children → Str → Type 0
HasNoChild children omitted name =
    (btree_get name children ≡ none) × (btree_get name omitted ≡ none)

-- One of the apis has a suffix of the text.
abbrev pub HasSuffix : {Rp : Type 0} → List (Api Rp) → Str → Type 0
HasSuffix {Rp} apis s =
    (api : Api Rp) × Memᴰ api apis × ((x : Suffix) × Memᴰ x api.suffixes × (x.text ≡ s))

get_child-IsChild :
    (children omitted : Children) (name : Str) (place : ℕ)
    → get_child children omitted name ≡ some place
    → IsChild children omitted name place
unfolding get_child
get_child-IsChild children omitted name place e = elim (Option-cases (btree_get name children)) [
  | inr (c, there) ↦ inl (there ∙ ap some (some_inj.0 (sym (rw (there, get_child) refl) ∙ e)))
  | inl gone ↦ inr (gone, sym (rw (gone, get_child) refl) ∙ e)
]

get_child-HasNoChild :
    (children omitted : Children) (name : Str)
    → get_child children omitted name ≡ none
    → HasNoChild children omitted name
unfolding get_child
get_child-HasNoChild children omitted name e = elim (Option-cases (btree_get name children)) [
  | inr (c, there) ↦ absurd (none-ne-some c (sym e ∙ rw (there, get_child) refl))
  | inl gone ↦ (gone, sym (rw (gone, get_child) refl) ∙ e)
]

flat_suffixes-HasSuffix :
    {Rp : Type 0} (apis : List (Api Rp)) (x : Suffix)
    → Memᴰ x (flat_suffixes apis)
    → HasSuffix apis x.text
unfolding flat_suffixes
flat_suffixes-HasSuffix [] x m = elim m [ ]
flat_suffixes-HasSuffix (api ∷ apis) x m =
    elim (Memᴰ-append-cases api.suffixes (flat_suffixes apis) m) [
      | inl here ↦ (api, Memᴰ.head refl, (x, here, refl))
      | inr later ↦
          let (a, within, has) = flat_suffixes-HasSuffix apis x later in (a, Memᴰ.tail within, has)
    ]

-- The pairs of `rsplit_once` and its like make the text up.
rsplits_sound :
    (sep : ℕ) (s front behind : Str)
    → Memᴰ {A = Str × Str} (front, behind) (rsplits sep s)
    → s ≡ front ++ sep ∷ behind
unfolding rsplits
rsplits_sound sep [] front behind m = elim m [ ]
rsplits_sound sep (c ∷ s) front behind m =
    elim (Memᴰ-append-cases (map (cons_fst c) (rsplits sep s)) _ m) [
      | inl inside ↦ within (rsplits sep s) (λ f b n. rsplits_sound sep s f b n) inside
      | inr end ↦ elim (Bool-cases (c == sep)) [
        | inl t ↦ whole (ground arith) (rw t at end)
        | inr f ↦ elim (rw f at end) [ ]
      ]
    ]
  where
    within :
        (pairs : List (Str × Str))
        → ((f b : Str) → Memᴰ {A = Str × Str} (f, b) pairs → s ≡ f ++ sep ∷ b)
        → Memᴰ {A = Str × Str} (front, behind) (map (cons_fst c) pairs)
        → c ∷ s ≡ front ++ sep ∷ behind
    within [] ih n = elim n [ ]
    within ((f, b) ∷ pairs) ih (Memᴰ.head e) =
        ap (λ (t : Str). c ∷ t) (ih f b (Memᴰ.head refl))
        ∙ ap (λ (p : Str × Str). p.0 ++ sep ∷ p.1) (sym e)
    within ((f, b) ∷ pairs) ih (Memᴰ.tail n) = within pairs (λ f' b' k. ih f' b' (Memᴰ.tail k)) n

    whole :
        c ≡ sep
        → Memᴰ {A = Str × Str} (front, behind) (([], s) ∷ [])
        → c ∷ s ≡ front ++ sep ∷ behind
    whole q (Memᴰ.head e) = ap (λ d. d ∷ s) q ∙ ap (λ (p : Str × Str). p.0 ++ sep ∷ p.1) (sym e)
    whole q (Memᴰ.tail n) = elim n [ ]

module _ {Rp : Type 0} (tree : Arena (ApiBranch Rp) Str) where
  -- A place holds a branch with an api that has the suffix.
  abbrev pub Offers : ℕ → Str → Type 0
  Offers place s =
      (below : ATree (ApiBranch Rp) Str) × At tree place below × HasSuffix below.element.apis s

  suffixes_at-Offers :
      (place : ℕ) (x : Suffix) → Memᴰ x (suffixes_at tree place) → Offers place x.text
  unfolding suffixes_at
  suffixes_at-Offers place x m = elim (Option-cases (get_elem? tree place)) [
    | inl gone ↦ elim (rw (gone, suffixes_at) at m) [ ]
    | inr (node, at) ↦
        (node, at, flat_suffixes-HasSuffix node.element.apis x (rw (at, suffixes_at) at m))
  ]

  -- What the loop over the boundaries finds is the child of the text in front of one of them, and
  -- the text behind is a suffix there.
  find_at_boundary_sound :
      (children omitted : Children) (splits : List (Str × Str)) (place : ℕ) (s : Str)
      → find_at_boundary tree children omitted splits ≡ some (place, s)
      → (front : Str) × Memᴰ {A = Str × Str} (front, s) splits
        × IsChild children omitted front place
        × Offers place s
  unfolding find_at_boundary str_eq
  find_at_boundary_sound children omitted [] place s e = absurd (ground arith)
  find_at_boundary_sound children omitted ((front, behind) ∷ more) place s e =
      elim (Option-cases (get_child children omitted front)) [
        | inl gone ↦
            let (f, m, child, offers) =
              find_at_boundary_sound children omitted more place s
                (sym (rw (gone, find_at_boundary) refl) ∙ e) in
            (f, Memᴰ.tail m, child, offers)
        | inr (c, there) ↦
            elim (Option-cases (find (λ x. str_eq behind x.text) (suffixes_at tree c))) [
              | inl missing ↦
                  let run : find_at_boundary tree children omitted ((front, behind) ∷ more) ≡ none =
                    rw (there, find_at_boundary) (rw (missing, find_at_boundary) refl) in
                  absurd (none-ne-some (place, s) (sym run ∙ e))
              | inr (x, hit) ↦
                  let run : find_at_boundary tree children omitted ((front, behind) ∷ more)
                      ≡ some (c, x.text) =
                    rw (there, find_at_boundary) (rw (hit, find_at_boundary) refl) in
                  let same : (c, x.text) ≡ (place, s) = some_inj.0 (sym run ∙ e) in
                  let (inside, test) =
                    find_sound (λ y. str_eq behind y.text) (suffixes_at tree c) hit in
                  let text_is : behind ≡ x.text = (list_beq_iff behind x.text).0 test in
                  (
                    front,
                    Memᴰ.head (
                        ap (λ (t : Str). (front, t))
                          (sym (text_is ∙ ap (λ (p : ℕ × Str). p.1) same))),
                    subst (IsChild children omitted front) (ap (λ (p : ℕ × Str). p.0) same)
                        (get_child-IsChild children omitted front c there),
                    subst (λ (p : ℕ × Str). Offers p.0 p.1) same (suffixes_at-Offers c x inside),
                  )
            ]
      ]

  -- What `find_consider_suffix` finds.
  pub find_consider_suffix_sound :
      (boundary : ℕ) (part : Str) (is_last_part : Bool) (children omitted : Children) (place : ℕ)
      (s : Str)
      → find_consider_suffix tree boundary part is_last_part children omitted ≡ some (place, s)
      → IsChild children omitted part place
        ⊎ ((is_last_part ≡ true)
            × HasNoChild children omitted part
            × ((front : Str) × (part ≡ front ++ boundary ∷ s)
                × IsChild children omitted front place
                × Offers place s))
  unfolding find_consider_suffix
  find_consider_suffix_sound boundary part is_last_part children omitted place s e =
      elim (Option-cases (get_child children omitted part)) [
        | inr (c, there) ↦
            let run : find_consider_suffix tree boundary part is_last_part children omitted
                ≡ some (c, []) =
              rw (there, find_consider_suffix) refl in
            let same : (c, []) ≡ (place, s) = some_inj.0 (sym run ∙ e) in
            inl (
              get_child-IsChild children omitted part place
                (there ∙ ap (λ (p : ℕ × Str). some p.0) same))
        | inl gone ↦ elim (Bool-cases is_last_part) [
          | inr mid ↦
              let run : find_consider_suffix tree boundary part is_last_part children omitted
                  ≡ none =
                rw (gone, find_consider_suffix) (rw (mid, find_consider_suffix) refl) in
              absurd (none-ne-some (place, s) (sym run ∙ e))
          | inl end ↦
              let run : find_consider_suffix tree boundary part is_last_part children omitted
                  ≡ find_at_boundary tree children omitted (rsplits boundary part) =
                rw (gone, find_consider_suffix) (rw (end, find_consider_suffix) refl) in
              let (front, m, child, offers) =
                find_at_boundary_sound children omitted (rsplits boundary part) place s
                  (sym run ∙ e) in
              inr (
                end,
                get_child-HasNoChild children omitted part gone,
                (front, rsplits_sound boundary part front s m, child, offers),
              )
        ]
      ]
