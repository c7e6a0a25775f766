-- ===== src/Ledger/Order.antt =====
-- ledger.rs: `add_record`, and records added in turn.
use topgent.Base.{
  ◌≡◌, ◌≢◌, refl, sym, ap, ◌∙◌, ◌⊎◌, inl, inr, List, [], ◌∷◌, Option, none, some, Result, ok,
  Result-cases, if_pos, if_neg, ℕ_discrete,
}
use mathlib.Core.List.{Perm, Permᴰ}
use mathlib.Core.Logic.{∥∥₁_elim}
use topgent.Text.{Bytes-discrete}
use topgent.Outcome.{◌>>=◌}
use topgent.Order.{bytes_order}
use topgent.Order.Map
use topgent.Vocabulary.{LedgerError}
use topgent.Record.{EvidenceId, EvidenceRecord}
use topgent.Ledger.{Ledger, find_record, admit, add_record, EvidenceRecord-discrete}

-- The ledger with a record added under an id that was free.
abbrev pub with_record : Ledger → EvidenceRecord → Ledger
with_record l r = record l { records = Map.insert bytes_order r.id r l.records }

admit-ok :
    (l : Ledger) (r : EvidenceRecord) (o : Option EvidenceRecord) {l' : Ledger}
    → admit l r o ≡ ok l'
    → ((o ≡ some r) × (l' ≡ l)) ⊎ ((o ≡ none) × (l' ≡ with_record l r))
admit-ok l r none h = inr (refl, cc)
admit-ok l r (some existing) h = elim (EvidenceRecord-discrete existing r) [
  | yes e ↦ inl (ap some e, cc (rw (if_pos _ e) at h))
  | no ne ↦ absurd (cc (rw (if_neg _ ne) at h))
]

-- A record is added when its id is free, and accepted when the same record is held already.
pub add_record-ok :
    (l : Ledger) (r : EvidenceRecord) {l' : Ledger}
    → add_record l r ≡ ok l'
    → ((find_record l r.id ≡ some r) × (l' ≡ l))
      ⊎ ((find_record l r.id ≡ none) × (l' ≡ with_record l r))
unfolding add_record
add_record-ok l r h = admit-ok l r (find_record l r.id) h

pub add_record-held :
    (l : Ledger) (r : EvidenceRecord) → find_record l r.id ≡ some r → add_record l r ≡ ok l
unfolding add_record
add_record-held l r h = rw h (if_pos (EvidenceRecord-discrete r r) refl _ _)

pub add_record-fresh :
    (l : Ledger) (r : EvidenceRecord)
    → find_record l r.id ≡ none
    → add_record l r ≡ ok (with_record l r)
unfolding add_record
add_record-fresh l r h = rw h

pub find-with_self : (l : Ledger) (r : EvidenceRecord) → find_record (with_record l r) r.id ≡ some r
unfolding find_record
find-with_self l r = Map.get-insert_self bytes_order r.id r l.records

pub find-with_ne :
    (l : Ledger) (r : EvidenceRecord) (id : EvidenceId)
    → id ≢ r.id
    → find_record (with_record l r) id ≡ find_record l id
unfolding find_record
find-with_ne l r id h = Map.get-insert_ne bytes_order r.id id r l.records h

-- Records added in turn, up to the first that is refused.
unfoldable pub add_records : Ledger → List EvidenceRecord → Result LedgerError Ledger
add_records l [] = ok l
add_records l (r ∷ rs) = add_record l r >>= λ l'. add_records l' rs

pub add_records-next :
    (l l' : Ledger) (r : EvidenceRecord) (rs : List EvidenceRecord)
    → add_record l r ≡ ok l'
    → add_records l (r ∷ rs) ≡ add_records l' rs
unfolding add_records
add_records-next l l' r rs h = rw h

-- The first of several additions succeeded if all did.
pub add_records-first :
    (l : Ledger) (r : EvidenceRecord) (rs : List EvidenceRecord) {m : Ledger}
    → add_records l (r ∷ rs) ≡ ok m
    → (l' : Ledger) × (add_record l r ≡ ok l') × (add_records l' rs ≡ ok m)
unfolding add_records
add_records-first l r rs h = elim (Result-cases (add_record l r)) [
  | inl (l', e) ↦ (l', e, rw e at h)
  | inr (x, e) ↦ absurd (cc (rw e at h))
]

-- Two additions that succeed, succeed in the other order too, with the same ledger.
module _ (l : Ledger) (a b : EvidenceRecord) where
  abbrev Swapped : Ledger → Type 0
  Swapped m = (l' : Ledger) × (add_record l b ≡ ok l') × (add_record l' a ≡ ok m)

  swap_held : {m : Ledger} → find_record l a.id ≡ some a → add_record l b ≡ ok m → Swapped m
  swap_held {m} held p = elim (add_record-ok l b p) [
    | inl (_, e) ↦ (m, p, rw e (add_record-held l a held))
    | inr (free, e) ↦ (
      m,
      p,
      rw e (add_record-held (with_record l b) a (find-with_ne l b a.id (apart free) ∙ held)),
    )
  ]
    where
      apart : find_record l b.id ≡ none → a.id ≢ b.id
      apart free e = cc (ap (find_record l) e)

  swap_fresh_ne :
      {m : Ledger}
      → a.id ≢ b.id
      → find_record l a.id ≡ none
      → add_record (with_record l a) b ≡ ok m
      → Swapped m
  swap_fresh_ne {m} ne free p = elim (add_record-ok (with_record l a) b p) [
    | inl (held, e) ↦ (
      l,
      add_record-held l b (sym (find-with_ne l a b.id (λ q. ne (sym q))) ∙ held),
      rw e (add_record-fresh l a free),
    )
    | inr (none_b, e) ↦ (
      with_record l b,
      add_record-fresh l b (sym (find-with_ne l a b.id (λ q. ne (sym q))) ∙ none_b),
      rw e (
          add_record-fresh (with_record l b) a (find-with_ne l b a.id ne ∙ free)
          ∙ ap (λ (rs : List (EvidenceId × EvidenceRecord)). ok (record l { records = rs }))
              (Map.insert_comm bytes_order a.id b.id a b l.records ne)),
    )
  ]

  swap_fresh :
      {m : Ledger} → find_record l a.id ≡ none → add_record (with_record l a) b ≡ ok m → Swapped m
  swap_fresh {m} free p = elim (Bytes-discrete a.id b.id) [
    | no ne ↦ swap_fresh_ne ne free p
    | yes same ↦ elim (add_record-ok (with_record l a) b p) [
      | inl (held, e) ↦
          let ab : a ≡ b = cc (find-with_self l a, ap (find_record (with_record l a)) same, held) in
          (
            with_record l a,
            rw (← ab) (add_record-fresh l a free),
            rw e (add_record-held (with_record l a) a (find-with_self l a)),
          )
      | inr (none_b, e) ↦
          absurd (cc (find-with_self l a, ap (find_record (with_record l a)) same, none_b))
    ]
  ]

  pub add_record_swap :
      {l' m : Ledger} → add_record l a ≡ ok l' → add_record l' b ≡ ok m → Swapped m
  add_record_swap p q = elim (add_record-ok l a p) [
    | inl (held, e) ↦ swap_held held (rw e at q)
    | inr (free, e) ↦ swap_fresh free (rw e at q)
  ]

add_records_permᴰ :
    {xs bs : List EvidenceRecord}
    → Permᴰ xs bs
    → (l m : Ledger) → add_records l xs ≡ ok m
    → add_records l bs ≡ ok m
add_records_permᴰ Permᴰ.nil l m h = h
add_records_permᴰ (Permᴰ.cons {a} {b} {l₁ = xs} {l₂ = bs} e p) l m h =
    let (l', first, rest) = add_records-first l a xs h in
    add_records-next l l' b bs (rw (← e) first) ∙ add_records_permᴰ p l' m rest
add_records_permᴰ (Permᴰ.swap {a} {b} {a'} {b'} {l = rs} e e') l m h =
    let (l1, first, rest) = add_records-first l a (b ∷ rs) h in
    let (l2, second, others) = add_records-first l1 b rs rest in
    let (l3, first', second') = add_record_swap l a b first second in
    add_records-next l l3 a' (b' ∷ rs) (rw (← e') first')
    ∙ add_records-next l3 l2 b' rs (rw (← e) second')
    ∙ others
add_records_permᴰ (Permᴰ.trans p q) l m h = add_records_permᴰ q l m (add_records_permᴰ p l m h)

Result-set : IsSet (Result LedgerError Ledger)
Result-set = hlevel ℕ_discrete

-- Records that can all be added in one order can be added in every order, and give the same ledger.
pub add_records_perm :
    (xs bs : List EvidenceRecord) (l m : Ledger)
    → Perm xs bs
    → add_records l xs ≡ ok m
    → add_records l bs ≡ ok m
add_records_perm xs bs l m p h = ∥∥₁_elim p (Result-set _ _) (λ q. add_records_permᴰ q l m h)
