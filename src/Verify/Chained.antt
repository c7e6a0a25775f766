-- ===== src/Verify/Chained.antt =====
-- verify.rs: `check_records` and `check_chain` where they find nothing.
use topgent.Base.{
  ℕ, ◌≡◌, refl, sym, ap, ◌∙◌, ◌⊎◌, inl, inr, List, [], ◌∷◌, Option, none, some, Bool, true, false,
  arith, All, Any, append-eq-nil, Option-cases, if_neg, ite, if◌then◌else◌,
}
use mathlib.Core.Option
use topgent.Text.{Bytes, Bytes-discrete}
use topgent.Crypto.{Crypto, digest}
use topgent.Record.{EvidenceId, EvidenceRecord, encode_record}
use topgent.Derived.{DerivedClaim, referenced}
use topgent.Ledger.{Ledger, find_record}
use topgent.Ledger.References.{IsHeld, Resolves}
use topgent.Chain.{Chain, ChainEntry}
use topgent.Chain.Append.{Linked, Joins, After, hash_of}
use topgent.Bundle.{Breach}
use topgent.Verify.Records.{record_breaches, records_breaches, reference_breaches, claims_breaches}
use topgent.Verify.Walk.{
  Walk, start, entry_breaches, advance, walk_breaches, walk_end, order_breaches, orphan_breaches,
  is_chained, seen_before, chain_breaches,
}

cons_ne_nil : {A : Type 0} {x : A} {xs : List A} → x ∷ xs ≡ [] → ⊥
cons_ne_nil h = cc

-- A breach reported unless a decision holds.
ite-nil : {P : Type 0} (d : Dec P) (x : Breach) → ite d [] (x ∷ []) ≡ [] → P
ite-nil d x h = elim d [ yes p ↦ p | no np ↦ absurd (cons_ne_nil (rw (if_neg _ np _ _) at h)) ]

unless-nil : (b : Bool) (x : Breach) → (if b then [] else x ∷ []) ≡ [] → b ≡ true
unless-nil true x h = refl
unless-nil false x h = absurd (cons_ne_nil h)

-- The record is filed under its own digest, and belongs to the chain's origin.
abbrev pub Matches : Crypto → Chain → EvidenceId × EvidenceRecord → Type 0
Matches c chain entry =
    (digest c (encode_record entry.1) ≡ entry.1.id) × (entry.1.origin ≡ chain.origin)

pub records_breaches-nil :
    (c : Crypto) (chain : Chain) (rs : List (EvidenceId × EvidenceRecord))
    → records_breaches c chain rs ≡ []
    → All (Matches c chain) rs
unfolding records_breaches record_breaches
records_breaches-nil c chain [] h = tt
records_breaches-nil c chain ((k, r) ∷ rs) h =
    let (here, there) = append-eq-nil _ (records_breaches c chain rs) h in
    let (altered, foreign) = append-eq-nil _ _ here in
    ((ite-nil _ _ altered, ite-nil _ _ foreign), records_breaches-nil c chain rs there)

-- A breach reported where nothing is held.
abbrev held_or : Ledger → EvidenceId → Breach → List Breach
held_or l id x = elim (find_record l id) [ none ↦ x ∷ [] | some _ ↦ [] ]

held_or-nil : (l : Ledger) (id : EvidenceId) (x : Breach) → held_or l id x ≡ [] → IsHeld l id
held_or-nil l id x h = elim (Option-cases (find_record l id)) [
  | inl e ↦ absurd (
      cons_ne_nil (
        sym (
          ap
            (λ (o : Option EvidenceRecord).
              let out : List Breach = elim o [ none ↦ x ∷ [] | some _ ↦ [] ] in out)
            e)
        ∙ h))
  | inr found ↦ found
]

references-nil :
    (l : Ledger) (d : DerivedClaim) (ids : List EvidenceId)
    → reference_breaches l d ids ≡ []
    → All (IsHeld l) ids
unfolding reference_breaches
references-nil l d [] h = tt
references-nil l d (id ∷ ids) h =
    let (here, there) = append-eq-nil _ (reference_breaches l d ids) h in
    (held_or-nil l id (Breach.claim_reference_missing d.id id) here, references-nil l d ids there)

pub claims_breaches-nil :
    (l : Ledger) (ds : List (Bytes × DerivedClaim))
    → claims_breaches l ds ≡ []
    → All (Resolves l) ds
unfolding claims_breaches
claims_breaches-nil l [] h = tt
claims_breaches-nil l ((k, d) ∷ ds) h =
    let (here, there) = append-eq-nil _ (claims_breaches l ds) h in
    (references-nil l d (referenced d) here, claims_breaches-nil l ds there)

-- The walk has just passed the entry `last`.
pub record Passed (last : Option ChainEntry) (w : Walk) : Type 0 where
  pub hash : w.previous ≡ hash_of last
  pub sequence : w.last ≡ Option.map (λ e. e.sequence) last

order_breaches-nil :
    (last : Option ChainEntry) (n : ℕ)
    → order_breaches (Option.map (λ e. e.sequence) last) n ≡ []
    → After last n
unfolding order_breaches
order_breaches-nil none n h = tt
order_breaches-nil (some e) n h = ground arith

entry_breaches-nil :
    (c : Crypto) (l : Ledger) (last : Option ChainEntry) (w : Walk) (e : ChainEntry)
    → Passed last w
    → entry_breaches c l w e ≡ []
    → Joins c last e × IsHeld l e.record_id
unfolding entry_breaches
entry_breaches-nil c l last w e passed h =
    let (altered, rest) = append-eq-nil _ _ h in
    let (broken, rest') = append-eq-nil _ _ rest in
    let (_, rest'') = append-eq-nil (if seen_before e.sequence w.seen then _ else _) _ rest' in
    let (order, held) = append-eq-nil (order_breaches w.last e.sequence) _ rest'' in
    (
      record {
        link = ite-nil _ _ broken ∙ passed.hash;
        intact = sym (ite-nil _ _ altered);
        order = order_breaches-nil last e.sequence (rw passed.sequence at order);
      },
      held_or-nil l e.record_id (Breach.unchained_reference e.sequence e.record_id) held,
    )

walk_breaches-nil :
    (c : Crypto) (l : Ledger) (last : Option ChainEntry) (w : Walk) (es : List ChainEntry)
    → Passed last w
    → walk_breaches c l w es ≡ []
    → Linked c last es × All (λ e. IsHeld l e.record_id) es
unfolding walk_breaches
walk_breaches-nil c l last w [] passed h = (tt, tt)
walk_breaches-nil c l last w (e ∷ es) passed h =
    let (here, there) = append-eq-nil _ (walk_breaches c l (advance l w e) es) h in
    let (joins, held) = entry_breaches-nil c l last w e passed here in
    let (linked, all) =
      walk_breaches-nil c l (some e) (advance l w e) es
        (unfold advance in record { hash = refl; sequence = refl }) there in
    ((joins, linked), (held, all))

-- An entry whose record the ledger holds under this id.
abbrev pub Names : Ledger → EvidenceId → ChainEntry → Type 0
Names l id e = (r : EvidenceRecord) × (find_record l e.record_id ≡ some r) × (r.id ≡ id)

named_here :
    (o : Option EvidenceRecord) (ids : List EvidenceId) (id : EvidenceId)
    → is_chained id (elim o [ none ↦ ids | some r ↦ r.id ∷ ids ]) ≡ true
    → (is_chained id ids ≡ true) ⊎ ((r : EvidenceRecord) × (o ≡ some r) × (r.id ≡ id))
unfolding is_chained
named_here none ids id h = inl h
named_here (some r) ids id h = elim (Bytes-discrete id r.id) [
  | yes p ↦ inr (r, refl, sym p)
  | no np ↦ inl (sym (if_neg (Bytes-discrete id r.id) np _ _) ∙ h)
]

chained_named :
    (l : Ledger) (w : Walk) (es : List ChainEntry) (id : EvidenceId)
    → is_chained id (walk_end l w es).chained ≡ true
    → (is_chained id w.chained ≡ true) ⊎ Any (Names l id) es
unfolding walk_end advance
chained_named l w [] id h = inl h
chained_named l w (e ∷ es) id h = elim (chained_named l (advance l w e) es id h) [
  | inr later ↦ inr (inr later)
  | inl now ↦ elim (named_here (find_record l e.record_id) w.chained id now) [
    | inl before ↦ inl before
    | inr named ↦ inr (inl named)
  ]
]

orphan_breaches-nil :
    (ids : List EvidenceId) (rs : List (EvidenceId × EvidenceRecord))
    → orphan_breaches ids rs ≡ []
    → All (λ (entry : EvidenceId × EvidenceRecord). is_chained entry.1.id ids ≡ true) rs
unfolding orphan_breaches
orphan_breaches-nil ids [] h = tt
orphan_breaches-nil ids ((k, r) ∷ rs) h =
    let (here, there) = append-eq-nil _ (orphan_breaches ids rs) h in
    (unless-nil (is_chained r.id ids) _ here, orphan_breaches-nil ids rs there)

all_named :
    (l : Ledger) (es : List ChainEntry) (rs : List (EvidenceId × EvidenceRecord))
    → All
        (λ (entry : EvidenceId × EvidenceRecord).
          is_chained entry.1.id (walk_end l start es).chained ≡ true)
        rs
    → All (λ (entry : EvidenceId × EvidenceRecord). Any (Names l entry.1.id) es) rs
unfolding is_chained
all_named l es [] h = tt
all_named l es ((k, r) ∷ rs) h = (
  elim (chained_named l start es r.id h.0) [ inl before ↦ absurd (cc) | inr named ↦ named ],
  all_named l es rs h.1,
)

-- What the check of the chain establishes when it finds nothing.
pub record ChainHolds (c : Crypto) (l : Ledger) (chain : Chain) : Type 0 where
  pub linked : Linked c none chain.entries
  pub held : All (λ (e : ChainEntry). IsHeld l e.record_id) chain.entries
  pub named :
      All
        (λ (entry : EvidenceId × EvidenceRecord). Any (Names l entry.1.id) chain.entries)
        l.records

-- Where `check_chain` finds no breach, the entries are linked and rising, each names a record that is
-- held, and each record held is named by an entry.
pub chain_breaches-nil :
    (c : Crypto) (l : Ledger) (chain : Chain) → chain_breaches c l chain ≡ [] → ChainHolds c l chain
unfolding chain_breaches
chain_breaches-nil c l chain h =
    let (walked, orphans) = append-eq-nil (walk_breaches c l start chain.entries) _ h in
    let (linked, held) =
      walk_breaches-nil c l none start chain.entries (record { hash = refl; sequence = refl })
        walked in
    record {
      linked = linked;
      held = held;
      named = all_named l chain.entries l.records (orphan_breaches-nil _ l.records orphans);
    }
