-- ===== src/Ledger.antt =====
-- crates/topgent-evidence/src/ledger.rs: the records and claims by content address.
pub mod Decode
pub mod Order
pub mod References
mod Tests
use topgent.Base.{
  ℕ, zero, suc, ◌≡◌, List, [], ◌∷◌, ◌++◌, Option, none, some, Result, ok, err, length, ite,
  ℕ_discrete,
}
use topgent.Text.{Bytes}
use topgent.Canonical
use topgent.Canonical.{count_u32}
use topgent.Crypto.{Crypto}
use topgent.Outcome
use topgent.Reader
use topgent.Reader.{Decoder, rejected}
use topgent.Order.{bytes_order}
use topgent.Order.Map
use topgent.Vocabulary.{LedgerError, Reason}
use topgent.Record.{EvidenceId, EvidenceRecord, encode_record, decode_record}
use topgent.Derived.{ClaimId, DerivedClaim, encode_derived, decode_derived, referenced}

-- Derived `PartialEq`: equality of all fields.
pub EvidenceRecord-discrete : Discrete EvidenceRecord
unfolding ℕ_discrete
EvidenceRecord-discrete = hlevel ℕ_discrete

pub DerivedClaim-discrete : Discrete DerivedClaim
unfolding ℕ_discrete
DerivedClaim-discrete = hlevel ℕ_discrete

-- Two `BTreeMap`s, each as its entries in the order of their keys.
pub record Ledger : Type 0 where
  pub records : List (EvidenceId × EvidenceRecord)
  pub claims : List (ClaimId × DerivedClaim)

abbrev pub new : Ledger
new = record { records = []; claims = [] }

-- `records.get(id)`, `claims.get(id)`
unfoldable pub find_record : Ledger → EvidenceId → Option EvidenceRecord
find_record l id = Map.get bytes_order id l.records

unfoldable pub find_claim : Ledger → ClaimId → Option DerivedClaim
find_claim l id = Map.get bytes_order id l.claims

-- The `match` of `add_record` on what is held under the id.
abbrev pub admit : Ledger → EvidenceRecord → Option EvidenceRecord → Result LedgerError Ledger
admit l r (some existing) =
    ite (EvidenceRecord-discrete existing r) (ok l) (err (LedgerError.duplicate_evidence r.id))
admit l r none = ok (record l { records = Map.insert bytes_order r.id r l.records })

unfoldable pub add_record : Ledger → EvidenceRecord → Result LedgerError Ledger
add_record l r = admit l r (find_record l r.id)

-- The loop over the referenced ids: the first one that is absent.
unfoldable pub first_missing : Ledger → List EvidenceId → Option EvidenceId
first_missing l [] = none
first_missing l (id ∷ ids) = elim (find_record l id) [
  | none ↦ some id
  | some _ ↦ first_missing l ids
]

abbrev pub admit_claim : Ledger → DerivedClaim → Option DerivedClaim → Result LedgerError Ledger
admit_claim l d (some existing) =
    ite (DerivedClaim-discrete existing d) (ok l) (err (LedgerError.duplicate_claim d.id))
admit_claim l d none = ok (record l { claims = Map.insert bytes_order d.id d l.claims })

unfoldable pub add_claim : Ledger → DerivedClaim → Result LedgerError Ledger
add_claim l d = elim (first_missing l (referenced d)) [
  | some missing ↦ err (LedgerError.missing_evidence d.id missing)
  | none ↦ admit_claim l d (find_claim l d.id)
]

-- A claim with the records it was derived from.
pub record Derivation : Type 0 where
  pub claim : DerivedClaim
  pub supporting : List EvidenceRecord
  pub contradicting : List EvidenceRecord

-- `filter_map(|each| self.records.get(each))`
unfoldable pub records_of : Ledger → List EvidenceId → List EvidenceRecord
records_of l [] = []
records_of l (id ∷ ids) = elim (find_record l id) [
  | none ↦ records_of l ids
  | some r ↦ r ∷ records_of l ids
]

unfoldable pub explain : Ledger → ClaimId → Option Derivation
explain l id = elim (find_claim l id) [
  | none ↦ none
  | some d ↦ some (record {
    claim = d;
    supporting = records_of l d.supporting;
    contradicting = records_of l d.contradicting;
  })
]

-- The values in the order of their keys.
unfoldable pub encode_values : {V : Type 0} → (V → Bytes) → List (Bytes × V) → Bytes
encode_values encode [] = []
encode_values encode ((k, v) ∷ m) = encode v ++ encode_values encode m

unfoldable pub encode_ledger : Ledger → Bytes
unfolding encode_values
encode_ledger l =
    (Canonical.u32 (count_u32 (length l.records)) ++ encode_values encode_record l.records)
    ++ (Canonical.u32 (count_u32 (length l.claims)) ++ encode_values encode_derived l.claims)
