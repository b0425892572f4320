-- ===== src/Api/Suffixes.antt =====
-- The order of suffixes in crates/router/src/api.rs: more dots first, then as texts.
use dce_rust.Base.{
  ℕ, suc, ◌≤◌, ◌≡◌, ◌↔◌, ap, List, [], ◌∷◌, arith, compare, Ordering, ◌==◌, if◌then◌else◌, Ord,
  list_cmp, list_ord, nat_ord, list_cmp_eq_iff,
}
use dce_rust.Text.{Str}

-- `SUFFIX_BOUNDARY` of router.rs.
abbrev pub suffix_boundary : ℕ
suffix_boundary = b'.'

pub record Suffix : Type 0 where
  pub text : Str

-- The number of characters that are the boundary; a dot has no other case.
unfoldable pub count : Str → ℕ
count [] = 0
count (c ∷ s) = let n = count s in if suffix_boundary == c then suc n else n

-- `compound_diff > 0` says that the first has more dots, which puts it in front.
unfoldable pub suffix_cmp : Suffix → Suffix → Ordering
unfolding count list_cmp
suffix_cmp a b = elim (compare (count a.text) (count b.text)) [
  | Ordering.gt ↦ Ordering.lt
  | Ordering.lt ↦ Ordering.gt
  | Ordering.eq ↦ list_cmp a.text b.text
]

pub suffix_eq : (a b : Suffix) → a.text ≡ b.text → a ≡ b
suffix_eq a b e = λ i. record { text = e i }

abbrev texts : Ord (List ℕ)
texts = list_ord

pub suffix_cmp_eq_iff : (a b : Suffix) → (suffix_cmp a b ≡ Ordering.eq) ↔ (a ≡ b)
unfolding suffix_cmp
suffix_cmp_eq_iff a b = (
  (λ h. suffix_eq a b (ground (arith, list_cmp_eq_iff a.text b.text))),
  λ e.
      let same : a.text ≡ b.text = ap (λ (s : Suffix). s.text) e in
      let number : count a.text ≡ count b.text = ap count same in
      ground (arith, list_cmp_eq_iff a.text b.text),
)

pub suffix_cmp_gt_of_lt :
    (a b : Suffix) → suffix_cmp a b ≡ Ordering.lt → suffix_cmp b a ≡ Ordering.gt
unfolding suffix_cmp
suffix_cmp_gt_of_lt a b h = ground (arith, texts.gt_of_lt a.text b.text)

pub suffix_cmp_lt_of_gt :
    (a b : Suffix) → suffix_cmp a b ≡ Ordering.gt → suffix_cmp b a ≡ Ordering.lt
unfolding suffix_cmp
suffix_cmp_lt_of_gt a b h = ground (arith, texts.lt_of_gt a.text b.text)

pub suffix_cmp_lt_trans :
    (a b c : Suffix)
    → suffix_cmp a b ≡ Ordering.lt
    → suffix_cmp b c ≡ Ordering.lt
    → suffix_cmp a c ≡ Ordering.lt
unfolding suffix_cmp
suffix_cmp_lt_trans a b c h k = ground (arith, texts.lt_trans a.text b.text c.text)

instance abbrev pub suffix_ord : Ord Suffix
suffix_ord = record {
  cmp = suffix_cmp;
  cmp_eq_iff = suffix_cmp_eq_iff;
  gt_of_lt = suffix_cmp_gt_of_lt;
  lt_of_gt = suffix_cmp_lt_of_gt;
  lt_trans = suffix_cmp_lt_trans;
}

-- A suffix with more dots stands before one with fewer.
pub count-le_of_suffix_cmp :
    (a b : Suffix) → suffix_cmp a b ≡ Ordering.lt → count b.text ≤ count a.text
unfolding suffix_cmp
count-le_of_suffix_cmp a b h = ground arith
