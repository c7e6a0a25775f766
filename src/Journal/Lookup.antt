-- ===== src/Journal/Lookup.antt =====
-- crates/topgent-journal/src/journal.rs, `record_response_transition`: the record of a key after the
-- records are changed, sorted and cut.
use topgent.Base.{
  ℕ, ◌≤◌, ◌-◌, subst, ◌≡◌, ◌≢◌, refl, ap, sym, ◌∙◌, inl, inr, Bool, true, List, [], ◌∷◌, ◌++◌,
  length, drop, none, some, arith, All, Bool-cases, if◌then◌else◌,
}
use mathlib.Core.Option
use topgent.Journal.{Chars, same_text, same_text-eq, same_text_self}
use topgent.Journal.Table.{
  find, update, insert_record, sort_records, keep_last, store, length-sort_records,
  All-insert_record, All-sort_records, All-update,
}
use topgent.Journal.Transitions.{ResponseTransition, transit, has_key}

abbrev pub Other : Chars → ResponseTransition → Type 0
Other key r = r.key ≢ key

-- No two records have one key.
abbrev pub Distinct : List ResponseTransition → Type 0
Distinct [] = Unit
Distinct (r ∷ rs) = All (Other r.key) rs × Distinct rs

has_key-eq : (key : Chars) (r : ResponseTransition) → has_key key r ≡ true → r.key ≡ key
unfolding has_key
has_key-eq key r h = same_text-eq r.key key h

module _ (before : ResponseTransition → ResponseTransition → Bool) where
  insert_record-Distinct :
      (r : ResponseTransition) (rs : List ResponseTransition)
      → Distinct (r ∷ rs)
      → Distinct (insert_record before r rs)
  unfolding insert_record
  insert_record-Distinct r [] d = d
  insert_record-Distinct r (s ∷ ss) (o, d) = elim (Bool-cases (before r s)) [
    | inl y ↦ rw y (o, d)
    | inr n ↦ rw n (
      All-insert_record (Other s.key) before r ss (λ e. o.0 (sym e)) d.0,
      insert_record-Distinct r ss (o.1, d.1),
    )
  ]

  find-insert_record :
      (key : Chars) (r : ResponseTransition) (rs : List ResponseTransition)
      → All (Other r.key) rs
      → find (has_key key) (insert_record before r rs) ≡ find (has_key key) (r ∷ rs)
  unfolding insert_record find
  find-insert_record key r [] o = refl
  find-insert_record key r (s ∷ ss) o =
      ground (arith, find-insert_record key r ss o.1, has_key-eq key r, has_key-eq key s, o.0)

  pub sort_records-Distinct :
      (rs : List ResponseTransition) → Distinct rs → Distinct (sort_records before rs)
  unfolding sort_records
  sort_records-Distinct [] d = tt
  sort_records-Distinct (r ∷ rs) (o, d) =
      insert_record-Distinct r (sort_records before rs)
        (All-sort_records (Other r.key) before rs o, sort_records-Distinct rs d)

  pub find-sort_records :
      (key : Chars) (rs : List ResponseTransition)
      → Distinct rs
      → find (has_key key) (sort_records before rs) ≡ find (has_key key) rs
  unfolding sort_records find
  find-sort_records key [] d = refl
  find-sort_records key (r ∷ rs) (o, d) =
      find-insert_record key r (sort_records before rs) (All-sort_records (Other r.key) before rs o)
      ∙ ap (λ t. if has_key key r then some r else t) (find-sort_records key rs d)

  pub store_all :
      (max : ℕ) (rs : List ResponseTransition)
      → length rs ≤ max
      → store before max rs ≡ sort_records before rs
  unfolding store keep_last
  store_all max rs h =
      let none_left : length (sort_records before rs) - max ≡ 0 =
        omega (arith, length-sort_records before rs) in
      ap (λ n. drop n (sort_records before rs)) none_left

-- The change of one record keeps its key.
transit_key :
    (active : Bool) (now : ℕ) (r : ResponseTransition) → (transit active now r).key ≡ r.key
unfolding transit
transit_key active now r = refl

update-Other :
    (key j : Chars) (active : Bool) (now : ℕ) (rs : List ResponseTransition)
    → All (Other j) rs
    → All (Other j) (update (has_key key) (transit active now) rs)
update-Other key j active now rs o =
    All-update (Other j) (Other j) (has_key key) (transit active now) rs (λ r h. h)
      (λ r t h e. h (sym (transit_key active now r) ∙ e)) o

pub update-Distinct :
    (key : Chars) (active : Bool) (now : ℕ) (rs : List ResponseTransition)
    → Distinct rs
    → Distinct (update (has_key key) (transit active now) rs)
unfolding update transit
update-Distinct key active now [] d = tt
update-Distinct key active now (r ∷ rs) (o, d) = elim (Bool-cases (has_key key r)) [
  | inl y ↦ rw y (o, d)
  | inr n ↦ rw n (update-Other key r.key active now rs o, update-Distinct key active now rs d)
]

pub find-update_self :
    (key : Chars) (active : Bool) (now : ℕ) (rs : List ResponseTransition)
    → find (has_key key) (update (has_key key) (transit active now) rs)
      ≡ Option.map (transit active now) (find (has_key key) rs)
unfolding update find has_key transit
find-update_self key active now [] = refl
find-update_self key active now (r ∷ rs) = ground (arith, find-update_self key active now rs)

pub find-update_ne :
    (key j : Chars) (active : Bool) (now : ℕ) (rs : List ResponseTransition)
    → j ≢ key
    → find (has_key j) (update (has_key key) (transit active now) rs) ≡ find (has_key j) rs
unfolding update find has_key transit
find-update_ne key j active now [] h = refl
find-update_ne key j active now (r ∷ rs) h =
    ground
      (arith, same_text-eq r.key key, same_text-eq r.key j, find-update_ne key j active now rs h)

pub find-snoc :
    (j : Chars) (rs : List ResponseTransition) (r : ResponseTransition)
    → find (has_key j) (rs ++ r ∷ [])
      ≡ elim (find (has_key j) rs) [ some s ↦ some s | none ↦ if has_key j r then some r else none ]
unfolding find
find-snoc j [] r = refl
find-snoc j (s ∷ ss) r = ground (arith, find-snoc j ss r)

-- A key that is not found is no record's.
pub find-Other :
    (key : Chars) (rs : List ResponseTransition)
    → find (has_key key) rs ≡ none
    → All (λ r. key ≢ r.key) rs
unfolding find has_key
find-Other key [] h = tt
find-Other key (r ∷ rs) h = elim (Bool-cases (same_text r.key key)) [
  | inl y ↦ ground arith
  | inr n ↦ (
    λ e. ground (arith, subst (λ k. same_text k key ≡ true) e (same_text_self key)),
    find-Other key rs (ground arith),
  )
]
