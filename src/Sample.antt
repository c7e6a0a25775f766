-- ===== src/Sample.antt =====
-- A small bundle, made by the program's own operations, for the tests.
use topgent.Base.{ℕ, [], ◌∷◌, true, Result, ok, err}
use topgent.Text.{Bytes, ascii}
use topgent.Crypto.Toy.{toy}
use topgent.Vocabulary.{
  AttributionQuality, CollectionCoverage, Limitation, RuleId, EvidenceError, ClaimError,
  LedgerError, KeyError,
}
use topgent.Facts.{Fact, Subject, Claim, Confidence, Protocol, Direction}
use topgent.Quality.{Assessment}
use topgent.Derived.{DerivedClaim, new_claim}
use topgent.Ledger
use topgent.Ledger.{Ledger}
use topgent.Record.{Origin, EvidenceRecord, new_record}
use topgent.Keys.{SensorKey, from_seed}
use topgent.Chain.{sign_rotation}
use topgent.Bundle.{Bundle, append_record, seal, rotate, new}

abbrev pub origin : Origin
origin = record { host_id = ascii "host"; boot_id = ascii "boot"; sensor_instance = ascii "sensor" }

abbrev pub killed : ℕ → Fact
killed pid = record {
  schema = 4;
  subject = Subject.process pid 7;
  claim = Claim.action_taken (ascii "kill") true;
  provenance = record {
    collector = ascii "guard";
    probe = ascii "signal";
    confidence = Confidence.certain;
    observed_at = 1_600_000_000_000;
  };
}

abbrev pub record_or : Result EvidenceError EvidenceRecord → EvidenceRecord
record_or (ok r) = r
record_or (err e) = record {
  schema = 0;
  id = [];
  origin = origin;
  sequence = 0;
  collector_version = 0;
  coverage = CollectionCoverage.snapshot_only;
  limitations = [];
  fact = killed 0;
}

abbrev pub observed : ℕ → EvidenceRecord
observed n = record_or (new_record toy 1 origin n 3 CollectionCoverage.snapshot_only [] (killed n))

abbrev pub key_or : Result KeyError SensorKey → SensorKey
key_or (ok k) = k
key_or (err e) = record { seed = []; public = record { bytes = []; id = [] } }

abbrev pub sensor_key : SensorKey
sensor_key = key_or (from_seed toy (1 ∷ 2 ∷ 3 ∷ []))

abbrev pub next_key : SensorKey
next_key = key_or (from_seed toy (4 ∷ []))

abbrev pub unsealed : Bundle
unsealed = (append_record toy (append_record toy (new origin) (observed 1)).0 (observed 2)).0

-- Two records, sealed, with the key handed over behind them.
abbrev pub sealed : Bundle
sealed = seal toy unsealed sensor_key

abbrev pub rotated : Bundle
rotated = rotate sealed (sign_rotation toy sensor_key next_key.public 3)

abbrev pub traffic : Fact
traffic = record (killed 1) {
  claim = Claim.traffic_observed Protocol.tcp (ascii "10.0.0.1") 443 Direction.outbound 12 1 2;
}

abbrev pub rule : RuleId
rule = record { name = ascii "kill-switch"; version = 1 }

abbrev pub subject : Subject
subject = Subject.process 1 7

abbrev pub statement : Bytes
statement = ascii "was stopped"

abbrev pub assessment : Assessment
assessment = record {
  quality = AttributionQuality.strong;
  coverage = CollectionCoverage.snapshot_only;
  limitations = Limitation.sensor_gap ∷ [];
}

abbrev claim_or : Result ClaimError DerivedClaim → DerivedClaim
claim_or (ok d) = d
claim_or (err e) = record {
  id = [];
  rule = rule;
  subject = subject;
  statement = [];
  quality = AttributionQuality.unknown;
  coverage = CollectionCoverage.unsupported;
  supporting = [];
  contradicting = [];
  limitations = [];
}

abbrev pub concluded : DerivedClaim
concluded = claim_or (new_claim toy rule subject statement assessment ((observed 1).id ∷ []) [])

abbrev pub ledger_or : Result LedgerError Ledger → Ledger
ledger_or (ok l) = l
ledger_or (err e) = Ledger.new
