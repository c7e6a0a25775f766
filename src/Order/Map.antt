-- ===== src/Order/Map.antt =====
-- A `BTreeMap` as the list of its entries in key order, which is the order it is iterated in.
use topgent.Base.{◌≡◌, ◌≢◌, List, [], ◌∷◌, Option, none, some, arith, Ordering}
use topgent.Order.{Order}
use topgent.Order.Sorting.{IsAscending}

module _ {K V : Type 0} (o : Order K) where
  unfoldable pub get : K → List (K × V) → Option V
  get k [] = none
  get k ((j, v) ∷ m) = elim (o.cmp k j) [ Ordering.eq ↦ some v | _ ↦ get k m ]

  unfoldable pub insert : K → V → List (K × V) → List (K × V)
  insert k v [] = (k, v) ∷ []
  insert k v ((j, w) ∷ m) = elim (o.cmp k j) [
    | Ordering.lt ↦ (k, v) ∷ (j, w) ∷ m
    | Ordering.eq ↦ (k, v) ∷ m
    | Ordering.gt ↦ (j, w) ∷ insert k v m
  ]

  pub get-insert_self : (k : K) (v : V) (m : List (K × V)) → get k (insert k v m) ≡ some v
  unfolding get insert
  get-insert_self k v [] = ground (arith, o.cmp_refl k)
  get-insert_self k v ((j, w) ∷ m) = ground (arith, o.cmp_refl k, get-insert_self k v m)

  pub get-insert_ne : (k j : K) (v : V) (m : List (K × V)) → j ≢ k → get j (insert k v m) ≡ get j m
  unfolding get insert
  get-insert_ne k j v [] h = ground (arith, o.cmp_eq j k)
  get-insert_ne k j v ((i, w) ∷ m) h =
      ground (arith, o.cmp_eq j k, o.cmp_eq k i, get-insert_ne k j v m h)

  -- Two insertions at different keys give the same map in either order.
  pub insert_comm :
      (k j : K) (v w : V) (m : List (K × V))
      → k ≢ j
      → insert k v (insert j w m) ≡ insert j w (insert k v m)
  unfolding insert
  insert_comm k j v w [] h = ground (arith, o.cmp_eq k j, o.cmp_lt k j, o.cmp_gt k j)
  insert_comm k j v w ((i, u) ∷ m) h = ground (
    arith,
    o.cmp_eq k j,
    o.cmp_lt k j,
    o.cmp_gt k j,
    o.cmp_eq k i,
    o.cmp_eq j i,
    o.cmp_lt k i,
    o.cmp_lt j i,
    o.cmp_gt k i,
    o.cmp_gt j i,
    o.cmp_trans k j i,
    o.cmp_trans j k i,
    o.cmp_trans k i j,
    o.cmp_trans j i k,
    insert_comm k j v w m h,
  )

  -- The keys in order.
  abbrev pub keys : List (K × V) → List K
  keys [] = []
  keys ((k, v) ∷ m) = k ∷ keys m

  pub insert-IsAscending :
      (k : K) (v : V) (m : List (K × V))
      → IsAscending o (keys m)
      → IsAscending o (keys (insert k v m))
  unfolding insert
  insert-IsAscending k v [] h = tt
  insert-IsAscending k v ((j, w) ∷ []) h = ground (arith, o.cmp_gt k j)
  insert-IsAscending k v ((j, w) ∷ (i, u) ∷ m) h =
      ground (arith, o.cmp_gt k j, o.cmp_eq k j, insert-IsAscending k v ((i, u) ∷ m))
