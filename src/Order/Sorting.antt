-- ===== src/Order/Sorting.antt =====
-- `sort_unstable` followed by `dedup`, over an order in which equal elements are the same.
use topgent.Base.{
  ◌≡◌, refl, ap, ◌∙◌, ◌⊎◌, inl, inr, List, [], ◌∷◌, arith, Ordering, length, suc, ◌≤◌, is_empty,
  false,
}
use topgent.Order.{Order}

pub Ordering-cases : (o : Ordering) → (o ≡ Ordering.lt) ⊎ ((o ≡ Ordering.eq) ⊎ (o ≡ Ordering.gt))
Ordering-cases Ordering.lt = inl refl
Ordering-cases Ordering.eq = inr (inl refl)
Ordering-cases Ordering.gt = inr (inr refl)

module _ {A : Type 0} (o : Order A) where
  unfoldable pub insert : A → List A → List A
  insert x [] = x ∷ []
  insert x (y ∷ ys) = elim (o.cmp x y) [
    | Ordering.lt ↦ x ∷ y ∷ ys
    | Ordering.eq ↦ x ∷ y ∷ ys
    | Ordering.gt ↦ y ∷ insert x ys
  ]

  unfoldable pub sort : List A → List A
  unfolding insert
  sort [] = []
  sort (x ∷ xs) = insert x (sort xs)

  -- Drops each element that equals the one before it.
  unfoldable pub dedup : List A → List A
  dedup [] = []
  dedup (x ∷ []) = x ∷ []
  dedup (x ∷ y ∷ ys) = elim (o.cmp x y) [ Ordering.eq ↦ dedup (y ∷ ys) | _ ↦ x ∷ dedup (y ∷ ys) ]

  unfoldable pub sort_dedup : List A → List A
  unfolding sort dedup
  sort_dedup xs = dedup (sort xs)

  -- Strictly ascending.
  abbrev pub IsAscending : List A → Type 0
  IsAscending [] = Unit
  IsAscending (x ∷ []) = Unit
  IsAscending (x ∷ y ∷ ys) = (o.cmp x y ≡ Ordering.lt) × IsAscending (y ∷ ys)

  -- Ascending, with repetitions.
  abbrev pub IsSorted : List A → Type 0
  IsSorted [] = Unit
  IsSorted (x ∷ []) = Unit
  IsSorted (x ∷ y ∷ ys) =
      ((o.cmp x y ≡ Ordering.lt) ⊎ (o.cmp x y ≡ Ordering.eq)) × IsSorted (y ∷ ys)

  pub sort-IsAscending : (xs : List A) → IsAscending xs → sort xs ≡ xs
  unfolding sort insert
  sort-IsAscending [] h = refl
  sort-IsAscending (x ∷ []) h = refl
  sort-IsAscending (x ∷ y ∷ ys) h = rw (sort-IsAscending (y ∷ ys) h.1) (ground arith)

  pub dedup-IsAscending : (xs : List A) → IsAscending xs → dedup xs ≡ xs
  unfolding dedup
  dedup-IsAscending [] h = refl
  dedup-IsAscending (x ∷ []) h = refl
  dedup-IsAscending (x ∷ y ∷ ys) h = ground (arith, dedup-IsAscending (y ∷ ys) h.1)

  pub sort_dedup_fixed : (xs : List A) → IsAscending xs → sort_dedup xs ≡ xs
  unfolding sort_dedup
  sort_dedup_fixed xs h = ap dedup (sort-IsAscending xs h) ∙ dedup-IsAscending xs h

  insert-IsSorted : (x : A) (ys : List A) → IsSorted ys → IsSorted (insert x ys)
  unfolding insert
  insert-IsSorted x [] h = tt
  insert-IsSorted x (y ∷ []) h = ground (arith, o.cmp_gt x y)
  insert-IsSorted x (y ∷ z ∷ zs) h = ground (arith, o.cmp_gt x y, insert-IsSorted x (z ∷ zs))

  pub sort-IsSorted : (xs : List A) → IsSorted (sort xs)
  unfolding sort
  sort-IsSorted [] = tt
  sort-IsSorted (x ∷ xs) = insert-IsSorted x (sort xs) (sort-IsSorted xs)

  -- Of equal neighbours `dedup` keeps one, so the first element stays first.
  dedup-head : (y : A) (ys : List A) → (zs : List A) × (dedup (y ∷ ys) ≡ y ∷ zs)
  unfolding dedup
  dedup-head y [] = ([], refl)
  dedup-head y (z ∷ zs) =
      let (ws, e) = dedup-head z zs in
      elim (Ordering-cases (o.cmp y z)) [
        | inl lt ↦ (dedup (z ∷ zs), ground arith)
        | inr (inl eq) ↦ (ws, ground (arith, o.cmp_eq y z eq))
        | inr (inr gt) ↦ (dedup (z ∷ zs), ground arith)
      ]

  pub dedup-IsSorted : (xs : List A) → IsSorted xs → IsAscending (dedup xs)
  unfolding dedup
  dedup-IsSorted [] h = tt
  dedup-IsSorted (x ∷ []) h = tt
  dedup-IsSorted (x ∷ y ∷ ys) h =
      let (zs, e) = dedup-head y ys in ground (arith, e, dedup-IsSorted (y ∷ ys))

  -- Whatever the order and the repetitions it is given, the result is strictly ascending.
  pub sort_dedup-IsAscending : (xs : List A) → IsAscending (sort_dedup xs)
  unfolding sort_dedup
  sort_dedup-IsAscending xs = dedup-IsSorted (sort xs) (sort-IsSorted xs)

  length-insert : (x : A) (ys : List A) → length (insert x ys) ≡ suc (length ys)
  unfolding insert
  length-insert x [] = refl
  length-insert x (y ∷ ys) = ground (arith, length-insert x ys)

  length-sort : (xs : List A) → length (sort xs) ≡ length xs
  unfolding sort
  length-sort [] = refl
  length-sort (x ∷ xs) = omega (arith, length-insert x (sort xs), length-sort xs)

  length-dedup : (xs : List A) → length (dedup xs) ≤ length xs
  unfolding dedup
  length-dedup [] = omega arith
  length-dedup (x ∷ []) = omega arith
  length-dedup (x ∷ y ∷ ys) = ground (arith, length-dedup (y ∷ ys))

  pub length-sort_dedup : (xs : List A) → length (sort_dedup xs) ≤ length xs
  unfolding sort_dedup
  length-sort_dedup xs = omega (arith, length-dedup (sort xs), length-sort xs)

  is_empty-insert : (x : A) (ys : List A) → is_empty (insert x ys) ≡ false
  unfolding insert
  is_empty-insert x [] = refl
  is_empty-insert x (y ∷ ys) = ground arith

  is_empty-dedup : (xs : List A) → is_empty (dedup xs) ≡ is_empty xs
  unfolding dedup
  is_empty-dedup [] = refl
  is_empty-dedup (x ∷ []) = refl
  is_empty-dedup (x ∷ y ∷ ys) = ground (arith, is_empty-dedup (y ∷ ys))

  pub is_empty-sort_dedup : (xs : List A) → is_empty (sort_dedup xs) ≡ is_empty xs
  unfolding sort_dedup sort
  is_empty-sort_dedup [] = is_empty-dedup []
  is_empty-sort_dedup (x ∷ xs) = is_empty-dedup (insert x (sort xs)) ∙ is_empty-insert x (sort xs)
