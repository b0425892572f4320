-- ===== src/Maps/Laws.antt =====
-- Maps: `HashMap`, whose order shows nowhere in the sources, and `BTreeMap`, kept in key order.
use mathlib.Core.Option.{some_inj}
use dce_rust.Base.{
  ap, sym, ◌∙◌, ◌⊎◌, inl, inr, ◌≡◌, refl, Option, none, some, List, [], ◌∷◌, arith, if◌then◌else◌,
  Eq, Ord, Ordering, All, Bool-cases,
}

module _ {ℓ κ} {K : Type ℓ} {V : Type κ} ⦃e : Eq K⦄ where
  unfoldable pub map_get : K → List (K × V) → Option V
  map_get k [] = none
  map_get k ((j, v) ∷ m) = if e.beq j k then some v else map_get k m

  unfoldable pub map_insert : K → V → List (K × V) → List (K × V)
  map_insert k v [] = (k, v) ∷ []
  map_insert k v ((j, w) ∷ m) = if e.beq j k then (k, v) ∷ m else (j, w) ∷ map_insert k v m

  unfoldable pub map_remove : K → List (K × V) → List (K × V)
  map_remove k [] = []
  map_remove k ((j, w) ∷ m) = let rest = map_remove k m in if e.beq j k then rest else (j, w) ∷ rest

  pub map_get-insert :
      (k j : K) (v : V) (m : List (K × V))
      → map_get j (map_insert k v m) ≡ (if e.beq k j then some v else map_get j m)
  unfolding map_get map_insert
  map_get-insert k j v [] = refl
  map_get-insert k j v ((i, w) ∷ m) =
      ground (arith, e.beq_iff k j, e.beq_iff i k, e.beq_iff i j, map_get-insert k j v m)

  pub All-map_insert {μ} :
      (P : K × V → Type μ) (k : K) (v : V) (m : List (K × V))
      → All P m
      → P (k, v)
      → All P (map_insert k v m)
  unfolding map_insert
  All-map_insert P k v [] h p = (p, tt)
  All-map_insert P k v ((j, w) ∷ m) (q, h) p = elim (Bool-cases (e.beq j k)) [
    | inl t ↦ rw (map_insert, t) (p, h)
    | inr f ↦ rw (map_insert, f) (q, All-map_insert P k v m h p)
  ]

  pub map_get-remove :
      (k j : K) (m : List (K × V))
      → map_get j (map_remove k m) ≡ (if e.beq k j then none else map_get j m)
  unfolding map_get map_remove
  map_get-remove k j [] = ground arith
  map_get-remove k j ((i, w) ∷ m) =
      ground (arith, e.beq_iff k j, e.beq_iff i k, e.beq_iff i j, map_get-remove k j m)

module _ {ℓ} {K : Type ℓ} ⦃o : Ord K⦄ where
  pub same_key : (j k : K) → (j ≡ k) ⊎ ¬ (j ≡ k)
  same_key j k = decide_key (o.cmp j k) refl
    where
      decide_key : (c : Ordering) → o.cmp j k ≡ c → (j ≡ k) ⊎ ¬ (j ≡ k)
      decide_key Ordering.eq e = inl ((o.cmp_eq_iff j k).0 e)
      decide_key Ordering.lt e = inr (λ h. ground (arith, (o.cmp_eq_iff j k).1 h))
      decide_key Ordering.gt e = inr (λ h. ground (arith, (o.cmp_eq_iff j k).1 h))

module _ {ℓ κ} {K : Type ℓ} {V : Type κ} ⦃o : Ord K⦄ where
  unfoldable pub btree_get : K → List (K × V) → Option V
  btree_get k [] = none
  btree_get k ((j, v) ∷ m) = elim (o.cmp k j) [ Ordering.eq ↦ some v | _ ↦ btree_get k m ]

  unfoldable pub btree_insert : K → V → List (K × V) → List (K × V)
  btree_insert k v [] = (k, v) ∷ []
  btree_insert k v ((j, w) ∷ m) = elim (o.cmp k j) [
    | Ordering.lt ↦ (k, v) ∷ (j, w) ∷ m
    | Ordering.eq ↦ (k, v) ∷ m
    | Ordering.gt ↦ (j, w) ∷ btree_insert k v m
  ]

  -- A lookup finds what was inserted last under its key.
  pub btree_get-insert_self :
      (k : K) (v : V) (m : List (K × V)) → btree_get k (btree_insert k v m) ≡ some v
  unfolding btree_get btree_insert
  btree_get-insert_self k v [] = ground (arith, o.cmp_eq_iff k k)
  btree_get-insert_self k v ((i, w) ∷ m) =
      ground (arith, o.cmp_eq_iff k k, o.cmp_eq_iff k i, btree_get-insert_self k v m)

  pub btree_get-insert_ne :
      (k j : K) (v : V) (m : List (K × V))
      → ¬ (j ≡ k)
      → btree_get j (btree_insert k v m) ≡ btree_get j m
  unfolding btree_get btree_insert
  btree_get-insert_ne k j v [] n = ground (arith, o.cmp_eq_iff j k)
  btree_get-insert_ne k j v ((i, w) ∷ m) n =
      ground
        (arith, o.cmp_eq_iff j k, o.cmp_eq_iff k i, o.cmp_eq_iff j i, btree_get-insert_ne k j v m n)

  -- What a lookup finds after an insertion is new, or was there.
  pub btree_get-insert-cases :
      (k j : K) (v w : V) (m : List (K × V))
      → btree_get j (btree_insert k v m) ≡ some w
      → (v ≡ w) ⊎ (¬ (j ≡ k) × (btree_get j m ≡ some w))
  btree_get-insert-cases k j v w m e = elim (same_key j k) [
    | inl same ↦ inl (
        some_inj.0 (
          sym (btree_get-insert_self k v m)
          ∙ ap (λ (x : K). btree_get x (btree_insert k v m)) (sym same)
          ∙ e))
    | inr other ↦ inr (other, sym (btree_get-insert_ne k j v m other) ∙ e)
  ]
