-- ===== src/Bundle/Reachable.antt =====
-- bundle.rs: the bundles that `new`, `append`, `add_claim`, `seal` and `rotate` lead to.
use topgent.Base.{◌≡◌, refl, sym, ap, ◌∙◌, subst, none, Result, ok, err, Result-cases, inl, inr}
use topgent.Crypto.{Crypto}
use topgent.Vocabulary.{LedgerError}
use topgent.Record.{Origin, EvidenceRecord}
use topgent.Derived.{DerivedClaim}
use topgent.Ledger
use topgent.Ledger.{Ledger, add_record}
use topgent.Ledger.References.{IsClosed, add_record-IsClosed, add_claim-IsClosed}
use topgent.Keys.{SensorKey}
use topgent.Chain.{Chain, ChainEntry, ChainError, Rotation, append}
use topgent.Chain.Append.{Linked, append-Linked, append-ok}
use topgent.Bundle.{Bundle, new, append_record, chain_record, store_record, add_claim, seal, rotate}

-- One call of an operation that changes the bundle. An append changes it also where it fails.
pub data Step (c : Crypto) : Bundle → Bundle → Type 0 where
  appended : (b : Bundle) (r : EvidenceRecord) → Step c b (append_record c b r).0
  claimed : (b b' : Bundle) (d : DerivedClaim) → add_claim b d ≡ ok b' → Step c b b'
  sealed_by : (b : Bundle) (k : SensorKey) → Step c b (seal c b k)
  rotated_by : (b : Bundle) (r : Rotation) → Step c b (rotate b r)

pub data Reachable (c : Crypto) (o : Origin) : Bundle → Type 0 where
  start : Reachable c o (new o)
  next : {b b' : Bundle} → Reachable c o b → Step c b b' → Reachable c o b'

-- The chain is of one origin and linked, and every claim's references are held.
pub record IsSound (c : Crypto) (o : Origin) (b : Bundle) : Type 0 where
  pub origin : b.chain.origin ≡ o
  pub linked : Linked c none b.chain.entries
  pub closed : IsClosed b.ledger

module _ (c : Crypto) (o : Origin) where
  store_record-IsSound :
      (b : Bundle) (r : EvidenceRecord) (stored : Result LedgerError Ledger)
      → add_record b.ledger r ≡ stored
      → IsSound c o b
      → IsSound c o (store_record b r stored).0
  store_record-IsSound b r (err e) h sound = sound
  store_record-IsSound b r (ok l) h sound = record {
    origin = sound.origin;
    linked = sound.linked;
    closed = add_record-IsClosed b.ledger l r h sound.closed;
  }

  chain_record-IsSound :
      (b : Bundle) (r : EvidenceRecord) (chained : Result ChainError (Chain × ChainEntry))
      → append c b.chain r ≡ chained
      → IsSound c o b
      → IsSound c o (chain_record c b r chained).0
  chain_record-IsSound b r (err e) h sound = sound
  chain_record-IsSound b r (ok (grown, e)) h sound =
      let (_, _, same, _) = append-ok c b.chain r h in
      store_record-IsSound (record b { chain = grown }) r (add_record b.ledger r) refl
        (record {
          origin = ap (λ (k : Chain). k.origin) same ∙ sound.origin;
          linked = append-Linked c b.chain r h sound.linked;
          closed = sound.closed;
        })

  add_claim-IsSound :
      (b b' : Bundle) (d : DerivedClaim) → add_claim b d ≡ ok b' → IsSound c o b → IsSound c o b'
  unfolding add_claim
  add_claim-IsSound b b' d h sound = elim (Result-cases (Ledger.add_claim b.ledger d)) [
    | inr (e, refused) ↦ absurd (cc (rw refused at h))
    | inl (l, accepted) ↦
        let same : b' ≡ record b { ledger = l } = cc (rw accepted at h) in
        subst (IsSound c o) (sym same) (record {
          origin = sound.origin;
          linked = sound.linked;
          closed = add_claim-IsClosed b.ledger l d accepted sound.closed;
        })
  ]

  Step-IsSound : {b b' : Bundle} → Step c b b' → IsSound c o b → IsSound c o b'
  unfolding append_record seal rotate
  Step-IsSound (Step.appended b r) sound = chain_record-IsSound b r (append c b.chain r) refl sound
  Step-IsSound (Step.claimed b b' d h) sound = add_claim-IsSound b b' d h sound
  Step-IsSound (Step.sealed_by b k) sound = record {
    origin = sound.origin;
    linked = sound.linked;
    closed = sound.closed;
  }
  Step-IsSound (Step.rotated_by b r) sound = record {
    origin = sound.origin;
    linked = sound.linked;
    closed = sound.closed;
  }

  -- Whatever operations are called on a new bundle, and also where they fail, its chain stays of the
  -- bundle's origin and linked, and the references of every claim stay held.
  pub Reachable-IsSound : (b : Bundle) → Reachable c o b → IsSound c o b
  unfolding new
  Reachable-IsSound b Reachable.start = record { origin = refl; linked = tt; closed = tt }
  Reachable-IsSound b (Reachable.next before step) = Step-IsSound step (Reachable-IsSound _ before)
