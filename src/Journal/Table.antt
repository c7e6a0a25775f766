-- ===== src/Journal/Table.antt =====
-- What the operations of crates/topgent-journal/src/journal.rs do to a list of records: find one,
-- change it in place or push another, sort, and drop from the front what is beyond the limit.
use topgent.Base.{
  ℕ, suc, zero, ◌-◌, ◌≤◌, ◌≡◌, refl, subst, inl, inr, Bool, true, List, [], ◌∷◌, ◌++◌, length, drop,
  Option, none, some, arith, All, Bool-cases, if◌then◌else◌, length-drop,
}
use mathlib.Core.Option.{some-injective}

module _ {R : Type 0} where
  -- `iter().filter_map(…).collect()`, where the reader keeps a member as it is or drops it.
  unfoldable pub read_back : (R → Bool) → List R → List R
  read_back test [] = []
  read_back test (r ∷ rs) = let rest = read_back test rs in if test r then r ∷ rest else rest

  -- `iter().find(…)`
  unfoldable pub find : (R → Bool) → List R → Option R
  find test [] = none
  find test (r ∷ rs) = if test r then some r else find test rs

  -- `iter_mut().find(…)`, and what is done to the record found.
  unfoldable pub update : (R → Bool) → (R → R) → List R → List R
  update test change [] = []
  update test change (r ∷ rs) =
      let rest = update test change rs in if test r then change r ∷ rs else r ∷ rest

  -- A stable sort, where `before` says that one record may stand before another.
  unfoldable pub insert_record : (R → R → Bool) → R → List R → List R
  insert_record before r [] = r ∷ []
  insert_record before r (s ∷ ss) =
      let rest = insert_record before r ss in if before r s then r ∷ s ∷ ss else s ∷ rest

  unfoldable pub sort_records : (R → R → Bool) → List R → List R
  sort_records before [] = []
  sort_records before (r ∷ rs) = insert_record before r (sort_records before rs)

  -- `if records.len() > MAX { records.drain(..records.len() - MAX); }`
  unfoldable pub keep_last : ℕ → List R → List R
  keep_last max rs = drop (length rs - max) rs

  unfoldable pub store : (R → R → Bool) → ℕ → List R → List R
  unfolding sort_records keep_last
  store before max rs = keep_last max (sort_records before rs)

  pub All-read_back :
      (P : R → Type 0) (test : R → Bool) (rs : List R) → All P rs → All P (read_back test rs)
  unfolding read_back
  All-read_back P test [] h = tt
  All-read_back P test (r ∷ rs) h = elim (Bool-cases (test r)) [
    | inl y ↦ rw y (h.0, All-read_back P test rs h.1)
    | inr n ↦ rw n (All-read_back P test rs h.1)
  ]

  -- Where every member passes the test, a read gives what was written.
  pub read_back_all :
      (test : R → Bool) (rs : List R) → All (λ r. test r ≡ true) rs → read_back test rs ≡ rs
  unfolding read_back
  read_back_all test [] h = refl
  read_back_all test (r ∷ rs) h = rw (h.0, read_back_all test rs h.1) refl

  pub read_back-snoc :
      (test : R → Bool) (rs : List R) (r : R)
      → test r ≡ true
      → read_back test (rs ++ r ∷ []) ≡ read_back test rs ++ r ∷ []
  unfolding read_back
  read_back-snoc test [] r h = rw h refl
  read_back-snoc test (s ∷ ss) r h = ground (arith, read_back-snoc test ss r h)

  pub length-read_back : (test : R → Bool) (rs : List R) → length (read_back test rs) ≤ length rs
  unfolding read_back
  length-read_back test [] = omega arith
  length-read_back test (r ∷ rs) = ground (arith, length-read_back test rs)

  pub length-keep_last : (max : ℕ) (rs : List R) → length (keep_last max rs) ≤ max
  unfolding keep_last
  length-keep_last max rs = ground (arith, length-drop (length rs - max) rs)

  length-insert_record :
      (before : R → R → Bool) (r : R) (rs : List R)
      → length (insert_record before r rs) ≡ suc (length rs)
  unfolding insert_record
  length-insert_record before r [] = refl
  length-insert_record before r (s ∷ ss) = ground (arith, length-insert_record before r ss)

  pub length-sort_records :
      (before : R → R → Bool) (rs : List R) → length (sort_records before rs) ≡ length rs
  unfolding sort_records
  length-sort_records before [] = refl
  length-sort_records before (r ∷ rs) =
      ground (
        arith,
        length-insert_record before r (sort_records before rs),
        length-sort_records before rs,
      )

  pub length-store :
      (before : R → R → Bool) (max : ℕ) (rs : List R) → length (store before max rs) ≤ max
  unfolding store
  length-store before max rs = length-keep_last max (sort_records before rs)

  pub All-insert_record :
      (P : R → Type 0) (before : R → R → Bool) (r : R) (rs : List R)
      → P r
      → All P rs
      → All P (insert_record before r rs)
  unfolding insert_record
  All-insert_record P before r [] h k = (h, tt)
  All-insert_record P before r (s ∷ ss) h k = elim (Bool-cases (before r s)) [
    | inl y ↦ rw y (h, k)
    | inr n ↦ rw n (k.0, All-insert_record P before r ss h k.1)
  ]

  pub All-sort_records :
      (P : R → Type 0) (before : R → R → Bool) (rs : List R)
      → All P rs
      → All P (sort_records before rs)
  unfolding sort_records
  All-sort_records P before [] h = tt
  All-sort_records P before (r ∷ rs) h =
      All-insert_record P before r (sort_records before rs) h.0 (All-sort_records P before rs h.1)

  All-drop : (P : R → Type 0) (n : ℕ) (rs : List R) → All P rs → All P (drop n rs)
  All-drop P zero rs h = h
  All-drop P (suc n) [] h = tt
  All-drop P (suc n) (r ∷ rs) h = All-drop P n rs h.1

  -- What holds of every record before is kept by a sort and a drop from the front.
  pub All-store :
      (P : R → Type 0) (before : R → R → Bool) (max : ℕ) (rs : List R)
      → All P rs
      → All P (store before max rs)
  unfolding store keep_last
  All-store P before max rs h =
      let sorted : List R = sort_records before rs in
      All-drop P (length sorted - max) sorted (All-sort_records P before rs h)

  pub All-snoc : (P : R → Type 0) (rs : List R) (r : R) → All P rs → P r → All P (rs ++ r ∷ [])
  All-snoc P [] r h k = (k, tt)
  All-snoc P (s ∷ ss) r h k = (h.0, All-snoc P ss r h.1 k)

  pub All-map : (P Q : R → Type 0) (rs : List R) → ((r : R) → P r → Q r) → All P rs → All Q rs
  All-map P Q [] f h = tt
  All-map P Q (r ∷ rs) f h = (f r h.0, All-map P Q rs f h.1)

  pub All-both : (P Q : R → Type 0) (rs : List R) → All P rs → All Q rs → All (λ r. P r × Q r) rs
  All-both P Q [] h k = tt
  All-both P Q (r ∷ rs) h k = ((h.0, k.0), All-both P Q rs h.1 k.1)

  pub All-update :
      (P Q : R → Type 0) (test : R → Bool) (change : R → R) (rs : List R)
      → ((r : R) → P r → Q r)
      → ((r : R) → test r ≡ true → P r → Q (change r))
      → All P rs
      → All Q (update test change rs)
  unfolding update
  All-update P Q test change [] f g h = tt
  All-update P Q test change (r ∷ rs) f g h = elim (Bool-cases (test r)) [
    | inl y ↦ rw y (g r y h.0, All-map P Q rs f h.1)
    | inr n ↦ rw n (f r h.0, All-update P Q test change rs f g h.1)
  ]

  -- A record that is found satisfies the test, and what every record satisfies.
  pub find-All :
      (P : R → Type 0) (test : R → Bool) (rs : List R) (r : R)
      → All P rs
      → find test rs ≡ some r
      → P r × (test r ≡ true)
  unfolding find
  find-All P test [] r h e = ground arith
  find-All P test (s ∷ ss) r h e = elim (Bool-cases (test s)) [
    | inl y ↦
        let same : s ≡ r = some-injective s r (rw y at e) in
        (subst P same h.0, subst (λ a. test a ≡ true) same y)
    | inr n ↦ find-All P test ss r h.1 (ground arith)
  ]
