-- ===== src/Record.antt =====
-- crates/topgent-evidence/src/record.rs: one observation, made addressable.
pub mod RoundTrip
pub mod Unreadable
mod Tests
use topgent.Base.{
  ℕ, ◌≡◌, List, [], ◌∷◌, ◌++◌, Bool, not, ◌&&◌, Result, ok, err, length, ltb, leb, ◌==◌,
}
use topgent.Text.{Bytes, ascii, is_blank}
use topgent.Canonical
use topgent.Canonical.{text}
use topgent.Crypto.{Crypto, digest}
use topgent.Outcome.{refuse_if, ◌>>◌}
use topgent.Reader
use topgent.Reader.{Decoder, ◌>>=◌, rejected}
use topgent.Order.Sorting.{sort_dedup}
use topgent.Facts.{Fact}
use topgent.Vocabulary.{CollectionCoverage, Limitation, EvidenceError, Reason}
use topgent.Wire.{encode_fact}
use topgent.Wire.DecodeFact.{decode_fact}
use topgent.Quality.{encode_coverage, encode_limitation, decode_coverage, decode_limitation}
use topgent.Quality.Laws.{limitation_order}

abbrev pub evidence_schema : ℕ
evidence_schema = 1

abbrev pub max_field_bytes : ℕ
max_field_bytes = 4096

abbrev pub max_limitations : ℕ
max_limitations = 16

abbrev pub min_observed_at : ℕ
min_observed_at = 1_577_836_800_000

abbrev pub max_observed_at : ℕ
max_observed_at = 4_102_444_800_000

pub record Origin : Type 0 where
  pub host_id : Bytes
  pub boot_id : Bytes
  pub sensor_instance : Bytes

abbrev pub EvidenceId : Type 0
EvidenceId = Bytes

pub record EvidenceRecord : Type 0 where
  -- u16
  pub schema : ℕ
  pub id : EvidenceId
  pub origin : Origin
  -- u64
  pub sequence : ℕ
  -- u32
  pub collector_version : ℕ
  pub coverage : CollectionCoverage
  pub limitations : List Limitation
  pub fact : Fact

unfoldable pub encode_origin : Origin → Bytes
encode_origin o = text o.host_id ++ (text o.boot_id ++ text o.sensor_instance)

-- The id is not part of what it is taken over.
unfoldable pub encode_record : EvidenceRecord → Bytes
unfolding encode_origin
encode_record r =
    Canonical.u16 r.schema
    ++ (encode_origin r.origin
        ++ (Canonical.u64 r.sequence
            ++ (Canonical.u32 r.collector_version
                ++ (encode_coverage r.coverage
                    ++ (Canonical.list encode_limitation r.limitations ++ encode_fact r.fact)))))

-- One round of the loop over the origin's fields.
unfoldable pub check_field : Bytes → Bytes → Result EvidenceError (Unit {0})
unfolding is_blank
check_field field value =
    refuse_if (is_blank value) (EvidenceError.blank_field field)
    >> refuse_if (ltb max_field_bytes (length value))
        (EvidenceError.field_too_large field (length value))

-- The checks of `EvidenceRecord::new`, in its order.
unfoldable pub check_parts : ℕ → Origin → ℕ → List Limitation → Result EvidenceError (Unit {0})
unfolding check_field
check_parts schema origin observed limitations =
    refuse_if (not (schema == evidence_schema))
      (EvidenceError.unknown_schema schema evidence_schema)
    >> check_field (ascii "host_id") origin.host_id
    >> check_field (ascii "boot_id") origin.boot_id
    >> check_field (ascii "sensor_instance") origin.sensor_instance
    >> refuse_if (not (leb min_observed_at observed && leb observed max_observed_at))
        (EvidenceError.time_out_of_range observed)
    >> refuse_if (ltb max_limitations (length limitations))
        (EvidenceError.too_many_limitations (length limitations))

module _ (c : Crypto) where
  -- The record with its own digest for an id.
  unfoldable pub address : EvidenceRecord → EvidenceRecord
  unfolding digest encode_record
  address r = record r { id = digest c (encode_record r) }

  -- `EvidenceRecord::new`.
  unfoldable pub new_record :
      ℕ
      → Origin
      → ℕ
      → ℕ
      → CollectionCoverage
      → List Limitation
      → Fact
      → Result EvidenceError EvidenceRecord
  new_record schema origin sequence collector_version coverage limitations fact =
      check_parts schema origin fact.provenance.observed_at limitations
      >> ok (
          address (record {
            schema = schema;
            id = [];
            origin = origin;
            sequence = sequence;
            collector_version = collector_version;
            coverage = coverage;
            limitations = sort_dedup limitation_order limitations;
            fact = fact;
          }))

unfoldable pub decode_origin : Decoder Origin
unfolding Reader.text ◌>>=◌ Reader.pure
decode_origin = do
  host_id ← Reader.text
  boot_id ← Reader.text
  sensor_instance ← Reader.text
  Reader.pure (record { host_id = host_id; boot_id = boot_id; sensor_instance = sensor_instance })

-- `.map_err(|error| DecodeError::Rejected { .. })`
unfoldable pub admit_record : Result EvidenceError EvidenceRecord → Decoder EvidenceRecord
unfolding Reader.pure Reader.fail
admit_record (ok r) = Reader.pure r
admit_record (err e) = Reader.fail (rejected (Reason.evidence e))

module _ (c : Crypto) where
  unfoldable pub decode_record : Decoder EvidenceRecord
  unfolding Reader.u16 Reader.u32 Reader.u64 Reader.list decode_origin decode_coverage
      decode_limitation decode_fact new_record admit_record ◌>>=◌
  decode_record = do
    schema ← Reader.u16
    origin ← decode_origin
    sequence ← Reader.u64
    collector_version ← Reader.u32
    coverage ← decode_coverage
    limitations ← Reader.list decode_limitation
    fact ← decode_fact
    admit_record (new_record c schema origin sequence collector_version coverage limitations fact)
