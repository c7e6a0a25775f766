-- ===== src/Vocabulary.antt =====
-- The types of crates/topgent-evidence/src/quality.rs and claim.rs that errors and records name,
-- and the errors of the constructors that decoding runs through.
use topgent.Base.{ℕ}
use topgent.Text.{Bytes}
use topgent.Facts.{FactError}

-- Weakest first, as `Ord` has them.
pub data AttributionQuality : Type 0 where
  unknown contradicted weak strong exact : AttributionQuality

pub data CollectionCoverage : Type 0 where
  unsupported loss_observed collector_degraded snapshot_only complete_for_window :
      CollectionCoverage

pub data Limitation : Type 0 where
  confinement_unknown foreign_credentials no_access_check owner_unresolved snapshot_ancestry
        partial_tuple events_dropped sensor_gap provenance_unreported :
      Limitation

pub record RuleId : Type 0 where
  pub name : Bytes
  -- u32
  pub version : ℕ

-- record.rs
pub data EvidenceError : Type 0 where
  -- found, expected
  unknown_schema : ℕ → ℕ → EvidenceError
  blank_field : Bytes → EvidenceError
  -- field, bytes
  field_too_large : Bytes → ℕ → EvidenceError
  time_out_of_range : ℕ → EvidenceError
  too_many_limitations : ℕ → EvidenceError

-- claim.rs
pub data ClaimError : Type 0 where
  no_supporting_evidence : RuleId → ClaimError
  blank_rule : ClaimError
  -- reported, contradicting
  contradiction_ignored : AttributionQuality → ℕ → ClaimError
  blank_statement : ClaimError

-- ledger.rs
pub data LedgerError : Type 0 where
  duplicate_evidence : Bytes → LedgerError
  duplicate_claim : Bytes → LedgerError
  -- claim, missing
  missing_evidence : Bytes → Bytes → LedgerError

-- chain.rs
pub data KeyError : Type 0 where
  malformed no_randomness : KeyError

-- What `DecodeError::Rejected` prints as its reason.
pub data Reason : Type 0 where
  fact : FactError → Reason
  evidence : EvidenceError → Reason
  claim : ClaimError → Reason
  ledger : LedgerError → Reason
  key : KeyError → Reason
  public_key_size signature_size : Reason
