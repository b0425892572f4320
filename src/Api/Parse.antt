-- ===== src/Api/Parse.antt =====
-- Reading an api's path and its suffixes.
use dce_rust.Base.{
  ℕ, ◌≡◌, ◌≢◌, refl, ap, sym, ◌∙◌, some, List, [], ◌∷◌, ◌++◌, map, reverse, arith, ◌==◌, All, inl,
  inr, append_assoc, Option-cases, ◌↔◌, Memᴰ,
}
use mathlib.Core.List.{reverse-append, reverse-reverse, reverse-cons}
use dce_rust.Text.{
  Str, split, join, split_once, rsplit_once, trim_matches, trim_start_by, trim_end_by,
}
use dce_rust.Text.Split.{
  FreeOf, split-join, rsplit_once-eq-some, split_once-append, rsplit_once-extend,
}
use dce_rust.Maps.{
  Memᴰ-set_extend_new, Memᴰ-set_extend-cases, IsAscending, set_extend, set_extend-ascending,
  set_extend-IsAscending,
}
use dce_rust.Api.Suffixes.{Suffix, suffix_ord, suffix_boundary}
use dce_rust.Api.{
  path_part_separator, suffix_separator, last_part, before_last_part, parse_path, cut_suffixes,
  as_suffix,
}

-- The text whose suffixes are read back: the path, a dot, and the suffixes between bars.
abbrev pub suffix_text : Suffix → Str
suffix_text s = s.text

unfoldable pub print_path : Str → List Suffix → Str
print_path path suffixes =
    path ++ suffix_boundary ∷ join suffix_separator (map suffix_text suffixes)

abbrev pub StartsNot : ℕ → Str → Type 0
StartsNot sep [] = Unit
StartsNot sep (c ∷ s) = c ≢ sep

pub trim_start-StartsNot :
    (sep : ℕ) (s : Str) → StartsNot sep s → trim_start_by (λ c. c == sep) s ≡ s
unfolding trim_start_by
trim_start-StartsNot sep [] h = refl
trim_start-StartsNot sep (c ∷ s) h = ground arith

pub StartsNot-append_free :
    (sep d : ℕ) (u v : Str) → FreeOf sep u → d ≢ sep → StartsNot sep (u ++ d ∷ v)
StartsNot-append_free sep d [] v h n = n
StartsNot-append_free sep d (c ∷ u) v (m, h) n = m

FreeOf-append : (sep : ℕ) (u v : Str) → FreeOf sep u → FreeOf sep v → FreeOf sep (u ++ v)
FreeOf-append sep [] v h k = k
FreeOf-append sep (c ∷ u) v (n, h) k = (n, FreeOf-append sep u v h k)

pub FreeOf-reverse : (sep : ℕ) (u : Str) → FreeOf sep u → FreeOf sep (reverse u)
FreeOf-reverse sep [] h = tt
FreeOf-reverse sep (c ∷ u) (n, h) =
    rw reverse-cons (FreeOf-append sep (reverse u) (c ∷ []) (FreeOf-reverse sep u h) (n, tt))

trim_end-append_free :
    (sep d : ℕ) (p t : Str)
    → FreeOf sep t
    → d ≢ sep
    → trim_end_by (λ c. c == sep) (p ++ d ∷ t) ≡ p ++ d ∷ t
unfolding trim_end_by
trim_end-append_free sep d p t h n =
    let turned : reverse (p ++ d ∷ t) ≡ reverse t ++ d ∷ reverse p =
      simp (reverse-append, reverse-cons, append_assoc) in
    let starts : StartsNot sep (reverse (p ++ d ∷ t)) =
      rw turned (StartsNot-append_free sep d (reverse t) (reverse p) (FreeOf-reverse sep t h) n) in
    rw (trim_start-StartsNot sep (reverse (p ++ d ∷ t)) starts) (reverse-reverse (p ++ d ∷ t))

StartsNot-append : (sep d : ℕ) (p t : Str) → StartsNot sep p → d ≢ sep → StartsNot sep (p ++ d ∷ t)
StartsNot-append sep d [] t h n = n
StartsNot-append sep d (c ∷ p) t h n = h

trim_matches-print :
    (p t : Str)
    → StartsNot path_part_separator p
    → FreeOf path_part_separator t
    → trim_matches path_part_separator (p ++ suffix_boundary ∷ t) ≡ p ++ suffix_boundary ∷ t
unfolding trim_matches
trim_matches-print p t h k =
    rw
      (trim_start-StartsNot path_part_separator (p ++ suffix_boundary ∷ t)
        (StartsNot-append path_part_separator suffix_boundary p t h (omega arith)))
      (trim_end-append_free path_part_separator suffix_boundary p t k (omega arith))

pub last_part-extend :
    (p t : Str) → FreeOf path_part_separator t → last_part (p ++ t) ≡ last_part p ++ t
unfolding last_part
last_part-extend p t h = ground (arith, rsplit_once-extend path_part_separator p t h)

pub before_last_part-extend :
    (p t : Str) → FreeOf path_part_separator t → before_last_part (p ++ t) ≡ before_last_part p
unfolding before_last_part
before_last_part-extend p t h = ground (arith, rsplit_once-extend path_part_separator p t h)

-- The two parts of a path make it up.
pub before-append-last_part : (p : Str) → before_last_part p ++ last_part p ≡ p
unfolding before_last_part last_part
before-append-last_part p = elim (Option-cases (rsplit_once path_part_separator p)) [
  | inl n ↦ rw (n, before_last_part, last_part) refl
  | inr ((d, n), e) ↦
      let (whole, free) = rsplit_once-eq-some path_part_separator p d n e in
      rw (e, before_last_part, last_part) (append_assoc d (path_part_separator ∷ []) n ∙ sym whole)
]

FreeOf-join :
    (sep bar : ℕ) (ps : List Str) → bar ≢ sep → All (FreeOf sep) ps → FreeOf sep (join bar ps)
unfolding join
FreeOf-join sep bar [] n h = tt
FreeOf-join sep bar (p ∷ []) n (f, h) = f
FreeOf-join sep bar (p ∷ q ∷ ps) n (f, h) =
    FreeOf-append sep p (bar ∷ join bar (q ∷ ps)) f (n, FreeOf-join sep bar (q ∷ ps) n h)

map-as_suffix : (ss : List Suffix) → map as_suffix (map suffix_text ss) ≡ ss
map-as_suffix [] = refl
map-as_suffix (s ∷ ss) = ap (λ (t : List Suffix). s ∷ t) (map-as_suffix ss)

-- A suffix that can stand in a path.
abbrev pub IsPlain : Suffix → Type 0
IsPlain s = FreeOf suffix_separator s.text × FreeOf path_part_separator s.text

All-map_text :
    (sep : ℕ) (ss : List Suffix)
    → All (λ s. FreeOf sep s.text) ss
    → All (FreeOf sep) (map suffix_text ss)
All-map_text sep [] h = tt
All-map_text sep (s ∷ ss) (f, h) = (f, All-map_text sep ss h)

All-fst : (ss : List Suffix) → All IsPlain ss → All (λ s. FreeOf suffix_separator s.text) ss
All-fst [] h = tt
All-fst (s ∷ ss) ((f, g), h) = (f, All-fst ss h)

All-snd : (ss : List Suffix) → All IsPlain ss → All (λ s. FreeOf path_part_separator s.text) ss
All-snd [] h = tt
All-snd (s ∷ ss) ((f, g), h) = (g, All-snd ss h)

split-print :
    (ss : List Suffix)
    → ss ≢ []
    → All IsPlain ss
    → IsAscending ss
    → set_extend []
        (map as_suffix (split suffix_separator (join suffix_separator (map suffix_text ss))))
      ≡ ss
split-print [] n h a = absurd (n refl)
split-print (s ∷ ss) n h a =
    rw
      (split-join suffix_separator (map suffix_text (s ∷ ss)) (λ e. cc)
        (All-map_text suffix_separator (s ∷ ss) (All-fst (s ∷ ss) h)))
      (rw (map-as_suffix (s ∷ ss)) (set_extend-ascending [] (s ∷ ss) a))

cut_suffixes-cut :
    (t name behind : Str)
    → split_once suffix_boundary (last_part t) ≡ some (name, behind)
    → cut_suffixes t
      ≡ (before_last_part t ++ name, set_extend [] (map as_suffix (split suffix_separator behind)))
unfolding cut_suffixes
cut_suffixes-cut t name behind c = rw (c, cut_suffixes)

-- Reading the printed form of a path and its suffixes gives both back: the path starts with no
-- slash and has no dot in its last part, and the suffixes are at least one, ascending in their
-- order, and free of slashes and bars.
pub parse_path-print_path :
    (p : Str) (ss : List Suffix)
    → StartsNot path_part_separator p
    → FreeOf suffix_boundary (last_part p)
    → ss ≢ []
    → All IsPlain ss
    → IsAscending ss
    → parse_path (print_path p ss) ≡ (p, ss)
unfolding parse_path print_path
parse_path-print_path p ss h free n plain asc =
    let t = join suffix_separator (map suffix_text ss) in
    let slashless : FreeOf path_part_separator t =
      FreeOf-join path_part_separator suffix_separator (map suffix_text ss) (omega arith)
        (All-map_text path_part_separator ss (All-snd ss plain)) in
    let tail : FreeOf path_part_separator (suffix_boundary ∷ t) = (omega arith, slashless) in
    let cut : split_once suffix_boundary (last_part (p ++ suffix_boundary ∷ t))
        ≡ some (last_part p, t) =
      rw (last_part-extend p (suffix_boundary ∷ t) tail)
        (split_once-append suffix_boundary (last_part p) t free) in
    rw
      (
        trim_matches-print p t h slashless,
        cut_suffixes-cut (p ++ suffix_boundary ∷ t) (last_part p) t cut,
      )
      (rw (
        before_last_part-extend p (suffix_boundary ∷ t) tail,
        before-append-last_part p,
        split-print ss n plain asc,
      ))

Memᴰ-as_suffix : (t : Str) (ts : List Str) → Memᴰ t ts → Memᴰ (as_suffix t) (map as_suffix ts)
Memᴰ-as_suffix t [] m = elim m [ ]
Memᴰ-as_suffix t (u ∷ ts) (Memᴰ.head e) = Memᴰ.head (ap as_suffix e)
Memᴰ-as_suffix t (u ∷ ts) (Memᴰ.tail m) = Memᴰ.tail (Memᴰ-as_suffix t ts m)

Memᴰ_of_Memᴰ-as_suffix : (s : Suffix) (ts : List Str) → Memᴰ s (map as_suffix ts) → Memᴰ s.text ts
Memᴰ_of_Memᴰ-as_suffix s [] m = elim m [ ]
Memᴰ_of_Memᴰ-as_suffix s (u ∷ ts) (Memᴰ.head e) = Memᴰ.head (ap suffix_text e)
Memᴰ_of_Memᴰ-as_suffix s (u ∷ ts) (Memᴰ.tail m) = Memᴰ.tail (Memᴰ_of_Memᴰ-as_suffix s ts m)

-- The texts between bars behind the dot are the suffixes that are read, each once and in their
-- order, however they were written: for a path without a dot in its last part, and one text at
-- least, each free of bars and slashes.
pub cut_suffixes-IsAscending :
    (p : Str) (ts : List Str)
    → FreeOf suffix_boundary (last_part p)
    → ts ≢ []
    → All (FreeOf suffix_separator) ts
    → All (FreeOf path_part_separator) ts
    → (ss : List Suffix) × (cut_suffixes (p ++ suffix_boundary ∷ join suffix_separator ts)
        ≡ (p, ss))
      × IsAscending ss
      × ((s : Suffix) → Memᴰ s ss ↔ Memᴰ s.text ts)
cut_suffixes-IsAscending p ts free n bars slashes =
    let t = join suffix_separator ts in
    let slashless : FreeOf path_part_separator t =
      FreeOf-join path_part_separator suffix_separator ts (omega arith) slashes in
    let tail : FreeOf path_part_separator (suffix_boundary ∷ t) = (omega arith, slashless) in
    let cut : split_once suffix_boundary (last_part (p ++ suffix_boundary ∷ t))
        ≡ some (last_part p, t) =
      rw (last_part-extend p (suffix_boundary ∷ t) tail)
        (split_once-append suffix_boundary (last_part p) t free) in
    let ss = set_extend [] (map as_suffix ts) in
    (
      ss,
      cut_suffixes-cut (p ++ suffix_boundary ∷ t) (last_part p) t cut
          ∙ rw
              (
                before_last_part-extend p (suffix_boundary ∷ t) tail,
                before-append-last_part p,
                split-join suffix_separator ts n bars,
              )
              refl,
      set_extend-IsAscending [] (map as_suffix ts) tt,
      λ s. (
        (λ m. elim (Memᴰ-set_extend-cases [] (map as_suffix ts) m) [
          | inl none_there ↦ elim none_there [ ]
          | inr there ↦ Memᴰ_of_Memᴰ-as_suffix s ts there
        ]),
        λ m. Memᴰ-set_extend_new [] (map as_suffix ts) (Memᴰ-as_suffix s.text ts m),
      ),
    )
