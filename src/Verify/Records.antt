-- ===== src/Verify/Records.antt =====
-- crates/topgent-evidence/src/verify.rs, `check_records`: the records and the claims over them.
use topgent.Base.{List, [], ◌∷◌, ◌++◌, none, some, ite}
use topgent.Text.{Bytes, Bytes-discrete}
use topgent.Crypto.{Crypto, digest}
use topgent.Record.{EvidenceId, EvidenceRecord, encode_record}
use topgent.Derived.{DerivedClaim, referenced}
use topgent.Ledger.{Ledger, find_record}
use topgent.Chain.{Chain, Origin-discrete}
use topgent.Bundle.{Breach}

module _ (c : Crypto) where
  -- `check_records`: one record.
  unfoldable pub record_breaches : Chain → EvidenceRecord → List Breach
  record_breaches chain r =
      let actual : Bytes = digest c (encode_record r) in
      ite (Bytes-discrete actual r.id) [] (Breach.record_altered r.id actual ∷ [])
      ++ ite (Origin-discrete r.origin chain.origin) []
          (Breach.foreign_origin r.id chain.origin r.origin ∷ [])

  unfoldable pub records_breaches : Chain → List (EvidenceId × EvidenceRecord) → List Breach
  records_breaches chain [] = []
  records_breaches chain ((_, r) ∷ rs) = record_breaches chain r ++ records_breaches chain rs

-- The references of one claim.
unfoldable pub reference_breaches : Ledger → DerivedClaim → List EvidenceId → List Breach
reference_breaches l d [] = []
reference_breaches l d (id ∷ ids) =
    elim (find_record l id) [ none ↦ Breach.claim_reference_missing d.id id ∷ [] | some _ ↦ [] ]
    ++ reference_breaches l d ids

unfoldable pub claims_breaches : Ledger → List (Bytes × DerivedClaim) → List Breach
claims_breaches l [] = []
claims_breaches l ((_, d) ∷ ds) = reference_breaches l d (referenced d) ++ claims_breaches l ds
