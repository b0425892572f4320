-- ===== src/Maps/Sets.antt =====
-- `BTreeSet` as a strictly ascending list.
use dce_rust.Base.{
  ◌++◌, ap, sym, ◌∙◌, append-nil, append_assoc, ◌≡◌, refl, ◌⊎◌, inl, inr, List, [], ◌∷◌, arith, Ord,
  Ordering, Memᴰ, All, subst,
}

module _ {ℓ} {K : Type ℓ} ⦃o : Ord K⦄ where
  unfoldable pub set_insert : K → List K → List K
  set_insert k [] = k ∷ []
  set_insert k (j ∷ s) = elim (o.cmp k j) [
    | Ordering.lt ↦ k ∷ j ∷ s
    | Ordering.eq ↦ k ∷ s
    | Ordering.gt ↦ j ∷ set_insert k s
  ]

  -- `iter.collect::<BTreeSet<_>>()` and `extend`: one insertion after the other.
  unfoldable pub set_extend : List K → List K → List K
  set_extend s [] = s
  set_extend s (k ∷ ks) = set_extend (set_insert k s) ks

  abbrev pub IsAscending : List K → Type ℓ
  IsAscending [] = Unit
  IsAscending (k ∷ ks) = All (λ j. o.cmp k j ≡ Ordering.lt) ks × IsAscending ks

  All-lt_trans :
      (k j : K) (s : List K)
      → o.cmp k j ≡ Ordering.lt
      → All (λ i. o.cmp j i ≡ Ordering.lt) s
      → All (λ i. o.cmp k i ≡ Ordering.lt) s
  All-lt_trans k j [] h a = tt
  All-lt_trans k j (i ∷ s) h (p, a) = (o.lt_trans k j i h p, All-lt_trans k j s h a)

  All-lt-insert :
      (k j : K) (s : List K)
      → o.cmp j k ≡ Ordering.lt
      → All (λ i. o.cmp j i ≡ Ordering.lt) s
      → All (λ i. o.cmp j i ≡ Ordering.lt) (set_insert k s)
  unfolding set_insert
  All-lt-insert k j [] h a = (h, tt)
  All-lt-insert k j (i ∷ s) h (p, a) = ground (arith, All-lt-insert k j s h a)

  pub set_insert-IsAscending : (k : K) (s : List K) → IsAscending s → IsAscending (set_insert k s)
  unfolding set_insert
  set_insert-IsAscending k [] h = (tt, tt)
  set_insert-IsAscending k (j ∷ s) (a, h) =
      insert-cons k j s a h (set_insert-IsAscending k s h) (o.cmp k j) refl
    where
      insert-cons :
          (k j : K) (s : List K)
          → All (λ i. o.cmp j i ≡ Ordering.lt) s
          → IsAscending s
          → IsAscending (set_insert k s)
          → (c : Ordering) → o.cmp k j ≡ c
          → IsAscending (set_insert k (j ∷ s))
      insert-cons k j s a h ih Ordering.lt e =
          rw (e, set_insert) ((e, All-lt_trans k j s e a), (a, h))
      insert-cons k j s a h ih Ordering.eq e =
          let same : k ≡ j = (o.cmp_eq_iff k j).0 e in rw (e, set_insert, same) (a, h)
      insert-cons k j s a h ih Ordering.gt e =
          rw (e, set_insert) (All-lt-insert k j s (o.lt_of_gt k j e) a, ih)

  pub set_extend-IsAscending : (s ks : List K) → IsAscending s → IsAscending (set_extend s ks)
  unfolding set_extend
  set_extend-IsAscending s [] h = h
  set_extend-IsAscending s (k ∷ ks) h =
      set_extend-IsAscending (set_insert k s) ks (set_insert-IsAscending k s h)

  -- Membership after an insertion, both ways.
  pub Memᴰ-set_insert_self : (k : K) (s : List K) → Memᴰ k (set_insert k s)
  unfolding set_insert
  Memᴰ-set_insert_self k [] = Memᴰ.head refl
  Memᴰ-set_insert_self k (j ∷ s) = self-cons (Memᴰ-set_insert_self k s) (o.cmp k j) refl
    where
      self-cons :
          Memᴰ k (set_insert k s) → (c : Ordering) → o.cmp k j ≡ c → Memᴰ k (set_insert k (j ∷ s))
      self-cons ih Ordering.lt e = rw (e, set_insert) (Memᴰ.head refl)
      self-cons ih Ordering.eq e = rw (e, set_insert) (Memᴰ.head refl)
      self-cons ih Ordering.gt e = rw (e, set_insert) (Memᴰ.tail ih)

  pub Memᴰ-set_insert_of_Memᴰ : (k : K) {a : K} (s : List K) → Memᴰ a s → Memᴰ a (set_insert k s)
  unfolding set_insert
  Memᴰ-set_insert_of_Memᴰ k [] m = elim m [ ]
  Memᴰ-set_insert_of_Memᴰ k {a} (j ∷ s) m =
      kept m (λ n. Memᴰ-set_insert_of_Memᴰ k s n) (o.cmp k j) refl
    where
      kept :
          Memᴰ a (j ∷ s)
          → (Memᴰ a s → Memᴰ a (set_insert k s))
          → (c : Ordering) → o.cmp k j ≡ c
          → Memᴰ a (set_insert k (j ∷ s))
      kept n ih Ordering.lt e = rw (e, set_insert) (Memᴰ.tail n)
      kept (Memᴰ.head q) ih Ordering.eq e =
          rw (e, set_insert) (Memᴰ.head (ground (arith, o.cmp_eq_iff k j)))
      kept (Memᴰ.tail n) ih Ordering.eq e = rw (e, set_insert) (Memᴰ.tail n)
      kept (Memᴰ.head q) ih Ordering.gt e = rw (e, set_insert) (Memᴰ.head q)
      kept (Memᴰ.tail n) ih Ordering.gt e = rw (e, set_insert) (Memᴰ.tail (ih n))

  pub Memᴰ-set_insert-cases :
      (k : K) {a : K} (s : List K) → Memᴰ a (set_insert k s) → (a ≡ k) ⊎ Memᴰ a s
  unfolding set_insert
  Memᴰ-set_insert-cases k [] (Memᴰ.head e) = inl e
  Memᴰ-set_insert-cases k [] (Memᴰ.tail m) = inr m
  Memᴰ-set_insert-cases k {a} (j ∷ s) m =
      split_cases (λ n. Memᴰ-set_insert-cases k s n) (o.cmp k j) refl m
    where
      step :
          (Memᴰ a (set_insert k s) → (a ≡ k) ⊎ Memᴰ a s)
          → Memᴰ a (j ∷ set_insert k s)
          → (a ≡ k) ⊎ Memᴰ a (j ∷ s)
      step ih (Memᴰ.head e) = inr (Memᴰ.head e)
      step ih (Memᴰ.tail n) = elim (ih n) [ inl e ↦ inl e | inr q ↦ inr (Memᴰ.tail q) ]

      first : (l : List K) → Memᴰ a (k ∷ l) → (a ≡ k) ⊎ Memᴰ a l
      first l (Memᴰ.head e) = inl e
      first l (Memᴰ.tail n) = inr n

      second : Memᴰ a (k ∷ s) → (a ≡ k) ⊎ Memᴰ a (j ∷ s)
      second (Memᴰ.head e) = inl e
      second (Memᴰ.tail n) = inr (Memᴰ.tail n)

      split_cases :
          (Memᴰ a (set_insert k s) → (a ≡ k) ⊎ Memᴰ a s)
          → (c : Ordering) → o.cmp k j ≡ c
          → Memᴰ a (set_insert k (j ∷ s))
          → (a ≡ k) ⊎ Memᴰ a (j ∷ s)
      split_cases ih Ordering.lt e n = first (j ∷ s) (rw (e, set_insert) at n)
      split_cases ih Ordering.eq e n = second (rw (e, set_insert) at n)
      split_cases ih Ordering.gt e n = step ih (rw (e, set_insert) at n)

  -- What is in a collection, both ways.
  pub Memᴰ-set_extend_of_Memᴰ : {a : K} (s ks : List K) → Memᴰ a s → Memᴰ a (set_extend s ks)
  unfolding set_extend
  Memᴰ-set_extend_of_Memᴰ s [] m = m
  Memᴰ-set_extend_of_Memᴰ s (k ∷ ks) m =
      Memᴰ-set_extend_of_Memᴰ (set_insert k s) ks (Memᴰ-set_insert_of_Memᴰ k s m)

  pub Memᴰ-set_extend_new : {a : K} (s ks : List K) → Memᴰ a ks → Memᴰ a (set_extend s ks)
  unfolding set_extend
  Memᴰ-set_extend_new s [] m = elim m [ ]
  Memᴰ-set_extend_new {a} s (k ∷ ks) (Memᴰ.head e) =
      Memᴰ-set_extend_of_Memᴰ (set_insert k s) ks
        (subst (λ x. Memᴰ x (set_insert k s)) (sym e) (Memᴰ-set_insert_self k s))
  Memᴰ-set_extend_new s (k ∷ ks) (Memᴰ.tail m) = Memᴰ-set_extend_new (set_insert k s) ks m

  pub Memᴰ-set_extend-cases :
      {a : K} (s ks : List K) → Memᴰ a (set_extend s ks) → Memᴰ a s ⊎ Memᴰ a ks
  unfolding set_extend
  Memᴰ-set_extend-cases s [] m = inl m
  Memᴰ-set_extend-cases s (k ∷ ks) m = elim (Memᴰ-set_extend-cases (set_insert k s) ks m) [
    | inr later ↦ inr (Memᴰ.tail later)
    | inl sooner ↦ elim (Memᴰ-set_insert-cases k s sooner) [
      | inl e ↦ inr (Memᴰ.head e)
      | inr old ↦ inl old
    ]
  ]

  -- Collecting an ascending list gives that list.
  set_insert-last :
      (k : K) (s : List K) → All (λ j. o.cmp j k ≡ Ordering.lt) s → set_insert k s ≡ s ++ k ∷ []
  unfolding set_insert
  set_insert-last k [] h = refl
  set_insert-last k (j ∷ s) (p, h) =
      rw (o.gt_of_lt j k p, set_insert) (ap (λ (t : List K). j ∷ t) (set_insert-last k s h))

  All-lt-of-append :
      (s : List K) (k : K) (ks : List K)
      → IsAscending (s ++ k ∷ ks)
      → All (λ j. o.cmp j k ≡ Ordering.lt) s
  All-lt-of-append [] k ks h = tt
  All-lt-of-append (j ∷ s) k ks (a, h) = (member-lt j k s ks a, All-lt-of-append s k ks h)
    where
      member-lt :
          (j k : K) (s ks : List K)
          → All (λ i. o.cmp j i ≡ Ordering.lt) (s ++ k ∷ ks)
          → o.cmp j k ≡ Ordering.lt
      member-lt j k [] ks (p, _) = p
      member-lt j k (i ∷ s) ks (_, a) = member-lt j k s ks a

  pub set_extend-ascending : (s ks : List K) → IsAscending (s ++ ks) → set_extend s ks ≡ s ++ ks
  unfolding set_extend
  set_extend-ascending s [] h = sym (append-nil s)
  set_extend-ascending s (k ∷ ks) h =
      rw (set_insert-last k s (All-lt-of-append s k ks h))
        (set_extend-ascending (s ++ k ∷ []) ks (rw append_assoc h) ∙ append_assoc s (k ∷ []) ks)
