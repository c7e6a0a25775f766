-- ===== src/Record/Tests.antt =====
-- The theorems on facts and records at the records of the sample.
use topgent.Base.{
  ◌≡◌, ◌≢◌, ◌≤◌, ◌<◌, ◌^◌, refl, [], ok, err, ℕ_discrete, leb→le, ltb→lt, length, arith,
}
use topgent.Crypto.Toy.{toy}
use topgent.Sample.{origin, killed, observed, traffic}
use topgent.Bundle
use topgent.Canonical
use topgent.Derived
use topgent.Keys
use topgent.Order.Map
use topgent.Order.Sorting
use topgent.Quality
use topgent.Record
use topgent.Text.{Bytes-discrete, is_utf8, is_blank}
use topgent.Crypto.{digest}
use topgent.Wire.{encode_subject, encode_provenance, encode_fields, encode_claim, encode_fact}
use topgent.Facts.{kind}
use topgent.Record.{encode_origin, encode_record, check_field, check_parts, new_record}
use topgent.Ledger.{
  find_record, find_claim, add_record, first_missing, add_claim, records_of, explain,
}
use topgent.Chain.{
  encode_body, body_hash, recomputed, Origin-discrete, check_sequence, next_entry, append,
  encode_checkpoint_body, encode_checkpoint, count_u64, encode_rotation_body, encode_rotation,
  checkpoint, checkpoint_signed_by, sign_rotation, rotation_signed_by,
}
use topgent.Bundle.{is_intact, new, append_record, knows, rotate}
use topgent.Verify.{summary, judge, breaches, covering, verify}
use topgent.Verify.Authority.{
  trust, insert_rotation, sort_rotations, apply_rotations, resolve_authority,
}
use topgent.Verify.Records.{record_breaches, records_breaches, reference_breaches, claims_breaches}
use topgent.Verify.Walk.{
  seen_before, is_chained, order_breaches, gap_at, option_bytes-discrete, entry_breaches, advance,
  walk_breaches, walk_end, walk_gaps, orphan_breaches, chain_breaches,
}
use topgent.Verify.Checkpoints.{
  find_entry, highest, check_count, check_head, check_position, check_signature, check_retired,
  check_holder, check_checkpoint, further, checkpoint_loop, check_checkpoints,
}
use topgent.Order.{lex}
use topgent.Derived.{encode_rule, encode_derived, check_claim, new_claim, referenced, admit_claim}
use topgent.Text.{ascii}
use topgent.Canonical.{u32_max}
use topgent.Reader.{read, usize_max}
use topgent.Reader.Reads.{Reads}
use topgent.Facts.{kind}
use topgent.Vocabulary.{CollectionCoverage}
use topgent.Wire.DecodeFact.{decode_fact}
use topgent.Wire.RoundTrip.{IsFact, IsSubject, fact-Reads}
use topgent.Wire.Refusals.{unknown_claim}
use topgent.Record.{EvidenceRecord, decode_record}
use topgent.Record.RoundTrip.{IsOrigin, new_record_idem, record_round_trip}
use topgent.Record.Unreadable.{record-Refuses}

abbrev unread : EvidenceRecord
unread = record (observed 1) { fact = traffic }

record Runs : Type 0 where
  made :
      new_record toy 1 origin 1 3 CollectionCoverage.snapshot_only [] (killed 1) ≡ ok (observed 1)
  origin_fits : IsOrigin (observed 1).origin
  sequence : (observed 1).sequence < 2 ^ 64
  version : (observed 1).collector_version ≤ u32_max
  fact : IsFact (observed 1).fact
  known : kind (observed 1).fact.claim ≢ ascii "traffic_observed"
  fits : length (encode_record (observed 1)) ≤ usize_max
  schema : unread.schema < 2 ^ 16
  origin_unread : IsOrigin unread.origin
  sequence_unread : unread.sequence < 2 ^ 64
  version_unread : unread.collector_version ≤ u32_max
  few : length unread.limitations ≤ u32_max
  fact_schema : traffic.schema < 2 ^ 16
  subject : IsSubject traffic.subject
  kind_unread : kind traffic.claim ≡ ascii "traffic_observed"
  fits_unread : length (encode_record unread) ≤ usize_max
  killed_fact : IsFact (killed 1)
  killed_known : kind (killed 1).claim ≢ ascii "traffic_observed"

killed-IsFact : IsFact (killed 1)
unfolding Bytes-discrete is_utf8 is_blank Canonical.tag Canonical.u16 Canonical.u32 Canonical.u64
    Canonical.count_u32 Canonical.bytes Canonical.text Canonical.boolean Canonical.option
    Canonical.items Canonical.list Canonical.hex_digit Canonical.hex digest Sorting.insert
    Sorting.sort Sorting.dedup Sorting.sort_dedup Map.get Map.insert Quality.encode_quality
    Quality.encode_coverage Quality.encode_limitation Quality.decimal Quality.tagged encode_subject
    encode_provenance encode_fields encode_claim encode_fact kind encode_origin encode_record
    check_field check_parts Record.address new_record find_record find_claim add_record
    first_missing add_claim records_of explain Keys.encode_raw_key Keys.digit_value
    Keys.from_str_radix Keys.from_pairs Keys.from_bytes Keys.from_hex Keys.to_hex Keys.verifies
    Keys.from_seed Keys.seal encode_body body_hash recomputed Origin-discrete check_sequence
    next_entry append encode_checkpoint_body encode_checkpoint count_u64 encode_rotation_body
    encode_rotation checkpoint checkpoint_signed_by sign_rotation rotation_signed_by is_intact new
    append_record knows Bundle.seal rotate summary judge breaches covering verify trust
    insert_rotation sort_rotations apply_rotations resolve_authority record_breaches
    records_breaches reference_breaches claims_breaches seen_before is_chained order_breaches gap_at
    option_bytes-discrete entry_breaches advance walk_breaches walk_end walk_gaps orphan_breaches
    chain_breaches find_entry highest check_count check_head check_position check_signature
    check_retired check_holder check_checkpoint further checkpoint_loop check_checkpoints lex
    encode_rule encode_derived check_claim Derived.address new_claim referenced admit_claim
    ℕ_discrete
killed-IsFact = record {
  schema = refl;
  subject = (leb→le _ _ refl, ltb→lt _ _ refl);
  claim = record { utf8 = refl; fits = leb→le _ _ refl };
  provenance = (
    record { utf8 = refl; fits = leb→le _ _ refl },
    record { utf8 = refl; fits = leb→le _ _ refl },
    ltb→lt _ _ refl,
  );
  collector = refl;
  probe = refl;
}

kill_known : ascii "action_taken" ≡ ascii "traffic_observed" → ⊥
kill_known h = absurd (ground arith)

runs : Runs
unfolding Bytes-discrete is_utf8 is_blank Canonical.tag Canonical.u16 Canonical.u32 Canonical.u64
    Canonical.count_u32 Canonical.bytes Canonical.text Canonical.boolean Canonical.option
    Canonical.items Canonical.list Canonical.hex_digit Canonical.hex digest Sorting.insert
    Sorting.sort Sorting.dedup Sorting.sort_dedup Map.get Map.insert Quality.encode_quality
    Quality.encode_coverage Quality.encode_limitation Quality.decimal Quality.tagged encode_subject
    encode_provenance encode_fields encode_claim encode_fact kind encode_origin encode_record
    check_field check_parts Record.address new_record find_record find_claim add_record
    first_missing add_claim records_of explain Keys.encode_raw_key Keys.digit_value
    Keys.from_str_radix Keys.from_pairs Keys.from_bytes Keys.from_hex Keys.to_hex Keys.verifies
    Keys.from_seed Keys.seal encode_body body_hash recomputed Origin-discrete check_sequence
    next_entry append encode_checkpoint_body encode_checkpoint count_u64 encode_rotation_body
    encode_rotation checkpoint checkpoint_signed_by sign_rotation rotation_signed_by is_intact new
    append_record knows Bundle.seal rotate summary judge breaches covering verify trust
    insert_rotation sort_rotations apply_rotations resolve_authority record_breaches
    records_breaches reference_breaches claims_breaches seen_before is_chained order_breaches gap_at
    option_bytes-discrete entry_breaches advance walk_breaches walk_end walk_gaps orphan_breaches
    chain_breaches find_entry highest check_count check_head check_position check_signature
    check_retired check_holder check_checkpoint further checkpoint_loop check_checkpoints lex
    encode_rule encode_derived check_claim Derived.address new_claim referenced admit_claim
    ℕ_discrete
runs = record {
  made = refl;
  origin_fits = record {
    host_id = record { utf8 = refl; fits = leb→le _ _ refl };
    boot_id = record { utf8 = refl; fits = leb→le _ _ refl };
    sensor_instance = record { utf8 = refl; fits = leb→le _ _ refl };
  };
  sequence = ltb→lt _ _ refl;
  version = leb→le _ _ refl;
  fact = killed-IsFact;
  known = kill_known;
  fits = leb→le _ _ refl;
  schema = ltb→lt _ _ refl;
  origin_unread = record {
    host_id = record { utf8 = refl; fits = leb→le _ _ refl };
    boot_id = record { utf8 = refl; fits = leb→le _ _ refl };
    sensor_instance = record { utf8 = refl; fits = leb→le _ _ refl };
  };
  sequence_unread = ltb→lt _ _ refl;
  version_unread = leb→le _ _ refl;
  few = leb→le _ _ refl;
  fact_schema = ltb→lt _ _ refl;
  subject = (leb→le _ _ refl, ltb→lt _ _ refl);
  kind_unread = refl;
  fits_unread = leb→le _ _ refl;
  killed_fact = killed-IsFact;
  killed_known = kill_known;
}

new_record_idem_example :
    new_record toy
      (observed 1).schema
      (observed 1).origin
      (observed 1).sequence
      (observed 1).collector_version
      (observed 1).coverage
      (observed 1).limitations
      (observed 1).fact
    ≡ ok (observed 1)
new_record_idem_example =
    new_record_idem toy 1 origin 1 3 CollectionCoverage.snapshot_only [] (killed 1) runs.made

record_round_trip_example : read (decode_record toy) (encode_record (observed 1)) ≡ ok (observed 1)
record_round_trip_example =
    record_round_trip toy 1 origin 1 3 CollectionCoverage.snapshot_only [] (killed 1) (observed 1)
      runs.made runs.origin_fits runs.sequence runs.version runs.fact runs.known runs.fits

fact-Reads_example : Reads decode_fact (encode_fact (killed 1)) (killed 1)
fact-Reads_example = fact-Reads (killed 1) runs.killed_fact runs.killed_known

record-Refuses_example : read (decode_record toy) (encode_record unread) ≡ err unknown_claim
record-Refuses_example =
    record-Refuses toy unread runs.schema runs.origin_unread runs.sequence_unread
      runs.version_unread runs.few runs.fact_schema runs.subject runs.kind_unread runs.fits_unread
