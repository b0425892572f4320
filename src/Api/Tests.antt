-- ===== src/Api/Tests.antt =====
-- Reading paths with suffixes.
use dce_rust.Base.{
  ℕ, false, any, ◌==◌, ◌≡◌, ◌≢◌, refl, List, [], ◌∷◌, arith, All, ◌++◌, ◌↔◌, Memᴰ, list_ord,
  nat_ord,
}
use dce_rust.Text.{Str, text, rsplit_once, join}
use dce_rust.Maps.{IsAscending}
use dce_rust.Text.Split.{FreeOf}
use dce_rust.Api.{cut_suffixes, parse_path, last_part}
use dce_rust.Api.Suffixes.{Suffix, suffix_cmp, suffix_ord}
use dce_rust.Api.Parse.{print_path, IsPlain, parse_path-print_path, cut_suffixes-IsAscending}

free : (sep : ℕ) (s : Str) → any (λ c. c == sep) s ≡ false → FreeOf sep s
unfolding any
free sep [] e = tt
free sep (c ∷ s) e = (ground arith, free sep s (ground arith))

abbrev two : List Suffix
two = record { text = text "gz.tar" } ∷ record { text = text "html" } ∷ []

two-IsAscending : IsAscending two
unfolding suffix_cmp
two-IsAscending = ((refl, tt), (tt, tt))

two-IsPlain : All IsPlain two
unfolding any
two-IsPlain = (
  (free 124 (text "gz.tar") refl, free 47 (text "gz.tar") refl),
  ((free 124 (text "html") refl, free 47 (text "html") refl), tt),
)

b_free : FreeOf 46 (last_part (text "a/b"))
unfolding rsplit_once last_part any
b_free = free 46 (text "b") refl

two-ne-nil : two ≢ []
two-ne-nil e = cc

parse_path-print_path_example : parse_path (print_path (text "a/b") two) ≡ (text "a/b", two)
parse_path-print_path_example =
    parse_path-print_path (text "a/b") two (omega arith) b_free two-ne-nil two-IsPlain
      two-IsAscending

-- Suffixes out of their order, one of them twice.
abbrev mixed : List Str
mixed = text "xml" ∷ text "tar.gz" ∷ text "xml" ∷ []

mixed-ne-nil : mixed ≢ []
mixed-ne-nil e = cc

mixed_free : (sep : ℕ) → any (λ c. c == sep) (text "xmltar.gz") ≡ false → All (FreeOf sep) mixed
unfolding any
mixed_free sep e =
    let xml = free sep (text "xml") (ground arith) in
    (xml, (free sep (text "tar.gz") (ground arith), (xml, tt)))

cut_suffixes-IsAscending_example :
    (ss : List Suffix) × (cut_suffixes (text "a/b" ++ 46 ∷ join 124 mixed) ≡ (text "a/b", ss))
    × IsAscending ss
    × ((s : Suffix) → Memᴰ s ss ↔ Memᴰ s.text mixed)
unfolding any
cut_suffixes-IsAscending_example =
    cut_suffixes-IsAscending (text "a/b") mixed b_free mixed-ne-nil (mixed_free 124 refl)
      (mixed_free 47 refl)
