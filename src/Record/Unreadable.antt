-- ===== src/Record/Unreadable.antt =====
-- record.rs: `Decode for EvidenceRecord` on a record of a `traffic_observed` claim.
use topgent.Base.{◌≡◌, ◌≤◌, ◌<◌, ◌^◌, length, err}
use topgent.Text.{ascii}
use topgent.Canonical.{u32_max}
use topgent.Crypto.{Crypto}
use topgent.Reader.{read, usize_max}
use topgent.Reader.Reads.{Refuses, Refuses-only, Refuses-next, read-Refuses}
use topgent.Reader.Primitives.{u16-Reads, u32-Reads, u64-Reads, list-Reads}
use topgent.Facts.{kind}
use topgent.Quality.{encode_limitation, decode_limitation}
use topgent.Quality.Laws.{coverage-Reads, limitations-All}
use topgent.Wire.RoundTrip.{IsSubject}
use topgent.Wire.Refusals.{unknown_claim, fact-Refuses}
use topgent.Record.{EvidenceRecord, encode_record, decode_record}
use topgent.Record.RoundTrip.{IsOrigin, origin-Reads}

refuses :
    (c : Crypto) (r : EvidenceRecord)
    → r.schema < 2 ^ 16
    → IsOrigin r.origin
    → r.sequence < 2 ^ 64
    → r.collector_version ≤ u32_max
    → length r.limitations ≤ u32_max
    → r.fact.schema < 2 ^ 16
    → IsSubject r.fact.subject
    → kind r.fact.claim ≡ ascii "traffic_observed"
    → Refuses (decode_record c) (encode_record r) unknown_claim
unfolding decode_record encode_record
refuses c r schema origin sequence version few fact subject h =
    Refuses-next _ _ (u16-Reads r.schema schema) (
      Refuses-next _ _ (origin-Reads r.origin origin) (
        Refuses-next _ _ (u64-Reads r.sequence sequence) (
          Refuses-next _ _ (u32-Reads r.collector_version version) (
            Refuses-next _ _ (coverage-Reads r.coverage) (
              Refuses-next _ _
                (list-Reads encode_limitation decode_limitation r.limitations few
                  (limitations-All r.limitations))
                (Refuses-only _ _ (fact-Refuses r.fact fact subject h)))))))

-- Reading the bytes of a record whose claim is a `traffic_observed`, with fields in the ranges of
-- their types, fails with an unknown claim.
pub record-Refuses :
    (c : Crypto) (r : EvidenceRecord)
    → r.schema < 2 ^ 16
    → IsOrigin r.origin
    → r.sequence < 2 ^ 64
    → r.collector_version ≤ u32_max
    → length r.limitations ≤ u32_max
    → r.fact.schema < 2 ^ 16
    → IsSubject r.fact.subject
    → kind r.fact.claim ≡ ascii "traffic_observed"
    → length (encode_record r) ≤ usize_max
    → read (decode_record c) (encode_record r) ≡ err unknown_claim
record-Refuses c r schema origin sequence version few fact subject h fits =
    read-Refuses (decode_record c) (refuses c r schema origin sequence version few fact subject h)
      fits
