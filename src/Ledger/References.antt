-- ===== src/Ledger/References.antt =====
-- ledger.rs: the references of claims through `add_record`, `add_claim` and `explain`.
use topgent.Base.{
  ◌≡◌, refl, sym, ap, ◌∙◌, subst, ◌⊎◌, inl, inr, List, [], ◌∷◌, ◌++◌, Option, none, some, ok,
  Option-cases, if_pos, if_neg, All, Ordering, map,
}
use topgent.Text.{Bytes, Bytes-discrete}
use topgent.Order.{bytes_order}
use topgent.Order.Map
use topgent.Record.{EvidenceId, EvidenceRecord}
use topgent.Derived.{ClaimId, DerivedClaim, referenced}
use topgent.Ledger.{
  Ledger, find_record, find_claim, add_record, add_claim, first_missing, admit_claim, records_of,
  explain, DerivedClaim-discrete, Derivation,
}
use topgent.Ledger.Order.{with_record, add_record-ok, find-with_self, find-with_ne}

abbrev pub IsHeld : Ledger → EvidenceId → Type 0
IsHeld l id = (r : EvidenceRecord) × (find_record l id ≡ some r)

abbrev pub Resolves : Ledger → ClaimId × DerivedClaim → Type 0
Resolves l entry = All (IsHeld l) (referenced entry.1)

-- The references of every claim are held.
abbrev pub IsClosed : Ledger → Type 0
IsClosed l = All (Resolves l) l.claims

All-mono :
    {A : Type 0} (P Q : A → Type 0) (xs : List A) → ((x : A) → P x → Q x) → All P xs → All Q xs
All-mono P Q [] f h = tt
All-mono P Q (x ∷ xs) f h = (f x h.0, All-mono P Q xs f h.1)

insert-All :
    {V : Type 0} (P : Bytes × V → Type 0) (k : Bytes) (v : V) (m : List (Bytes × V))
    → P (k, v)
    → All P m
    → All P (Map.insert bytes_order k v m)
unfolding Map.insert
insert-All P k v [] p h = (p, tt)
insert-All P k v ((j, w) ∷ m) p (q, rest) =
    by_order (insert-All P k v m p rest) (bytes_order.cmp k j)
  where
    by_order :
        All P (Map.insert bytes_order k v m)
        → (o : Ordering)
        → All P (elim o [
          | Ordering.lt ↦ (k, v) ∷ (j, w) ∷ m
          | Ordering.eq ↦ (k, v) ∷ m
          | Ordering.gt ↦ (j, w) ∷ Map.insert bytes_order k v m
        ])
    by_order later Ordering.lt = (p, (q, rest))
    by_order later Ordering.eq = (p, rest)
    by_order later Ordering.gt = (q, later)

with_record-IsHeld :
    (l : Ledger) (r : EvidenceRecord) (id : EvidenceId) → IsHeld l id → IsHeld (with_record l r) id
with_record-IsHeld l r id (held, found) = elim (Bytes-discrete id r.id) [
  | yes same ↦ (r, ap (find_record (with_record l r)) same ∙ find-with_self l r)
  | no ne ↦ (held, find-with_ne l r id ne ∙ found)
]

pub add_record-IsClosed :
    (l l' : Ledger) (r : EvidenceRecord) → add_record l r ≡ ok l' → IsClosed l → IsClosed l'
add_record-IsClosed l l' r h closed = elim (add_record-ok l r h) [
  | inl (_, same) ↦ subst IsClosed (sym same) closed
  | inr (_, grown) ↦ subst IsClosed (sym grown) (
      All-mono (Resolves l) (Resolves (with_record l r)) l.claims
        (λ (entry : ClaimId × DerivedClaim) h.
          All-mono (IsHeld l) (IsHeld (with_record l r)) (referenced entry.1)
            (with_record-IsHeld l r) h)
        closed)
]

first_missing-none :
    (l : Ledger) (ids : List EvidenceId) → first_missing l ids ≡ none → All (IsHeld l) ids
unfolding first_missing
first_missing-none l [] h = tt
first_missing-none l (id ∷ ids) h = elim (Option-cases (find_record l id)) [
  | inl absent ↦ absurd (cc (rw (absent, first_missing) at h))
  | inr (r, found) ↦ ((r, found), first_missing-none l ids (rw (found, first_missing) at h))
]

-- The ledger with a claim added under an id that was free.
abbrev with_claim : Ledger → DerivedClaim → Ledger
with_claim l d = record l { claims = Map.insert bytes_order d.id d l.claims }

admit_claim-ok :
    (l l' : Ledger) (d : DerivedClaim) (o : Option DerivedClaim)
    → admit_claim l d o ≡ ok l'
    → (l' ≡ l) ⊎ (l' ≡ with_claim l d)
admit_claim-ok l l' d none h = inr (cc)
admit_claim-ok l l' d (some existing) h = elim (DerivedClaim-discrete existing d) [
  | yes e ↦ inl (cc (rw (if_pos _ e) at h))
  | no ne ↦ absurd (cc (rw (if_neg _ ne) at h))
]

-- A claim is accepted only where every record that it names is held.
add_claim-ok :
    (l l' : Ledger) (d : DerivedClaim)
    → add_claim l d ≡ ok l'
    → All (IsHeld l) (referenced d) × ((l' ≡ l) ⊎ (l' ≡ with_claim l d))
unfolding add_claim
add_claim-ok l l' d h = elim (Option-cases (first_missing l (referenced d))) [
  | inr (id, missing) ↦ absurd (cc (rw (missing, add_claim) at h))
  | inl complete ↦ (
    first_missing-none l (referenced d) complete,
    admit_claim-ok l l' d _ (rw (complete, add_claim) at h),
  )
]

-- Adding a claim that is accepted keeps every claim's references held.
pub add_claim-IsClosed :
    (l l' : Ledger) (d : DerivedClaim) → add_claim l d ≡ ok l' → IsClosed l → IsClosed l'
unfolding find_record
add_claim-IsClosed l l' d h closed =
    let (held, outcome) = add_claim-ok l l' d h in
    elim outcome [
      | inl same ↦ subst IsClosed (sym same) closed
      | inr grown ↦ subst IsClosed (sym grown) (insert-All (Resolves l) d.id d l.claims held closed)
    ]

records_of-IsHeld :
    (l : Ledger) (ids : List EvidenceId)
    → All (IsHeld l) ids
    → map some (records_of l ids) ≡ map (find_record l) ids
unfolding records_of
records_of-IsHeld l [] h = refl
records_of-IsHeld l (id ∷ ids) ((r, found), rest) =
    rw (found, records_of) (ap (◌∷◌ (some r)) (records_of-IsHeld l ids rest))

All-append : {A : Type 0} (P : A → Type 0) (xs ys : List A) → All P (xs ++ ys) → All P xs × All P ys
All-append P [] ys h = (tt, h)
All-append P (x ∷ xs) ys (p, rest) =
    let (left, right) = All-append P xs ys rest in ((p, left), right)

get-All :
    {V : Type 0} (P : Bytes × V → Type 0) (k : Bytes) (v : V) (m : List (Bytes × V))
    → All P m
    → Map.get bytes_order k m ≡ some v
    → P (k, v)
unfolding Map.get
get-All P k v [] h found = absurd (cc)
get-All P k v ((j, w) ∷ m) (p, rest) found =
    at (bytes_order.cmp k j) (bytes_order.cmp_eq k j) (get-All P k v m rest) found
  where
    at :
        (o : Ordering)
        → (o ≡ Ordering.eq → k ≡ j)
        → (Map.get bytes_order k m ≡ some v → P (k, v))
        → elim o [ Ordering.eq ↦ some w | _ ↦ Map.get bytes_order k m ] ≡ some v
        → P (k, v)
    at Ordering.lt same later found = later found
    at Ordering.gt same later found = later found
    at Ordering.eq same later found = let keys = same refl in let values = found in subst P (cc) p

-- In a ledger that is closed, a claim is explained by the claim itself with a record for each of its
-- references, in their order: none is left out.
pub explain_complete :
    (l : Ledger) (id : ClaimId) (d : DerivedClaim)
    → IsClosed l
    → find_claim l id ≡ some d
    → (x : Derivation) × (explain l id ≡ some x)
      × (x.claim ≡ d)
      × (map some x.supporting ≡ map (find_record l) d.supporting)
      × (map some x.contradicting ≡ map (find_record l) d.contradicting)
unfolding explain referenced find_claim
explain_complete l id d closed found =
    let (supporting, contradicting) =
      All-append (IsHeld l) d.supporting d.contradicting
        (get-All (Resolves l) id d l.claims closed found) in
    (
      record {
        claim = d;
        supporting = records_of l d.supporting;
        contradicting = records_of l d.contradicting;
      },
      rw (found, explain) refl,
      refl,
      records_of-IsHeld l d.supporting supporting,
      records_of-IsHeld l d.contradicting contradicting,
    )
