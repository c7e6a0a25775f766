-- ===== src/Ledger/Tests.antt =====
-- The theorems on claims and the ledger at the sample.
use topgent.Reader.{read, usize_max}
use topgent.Base.{
  length, leb, true, ◌≡◌, refl, [], ◌∷◌, some, ok, err, ℕ_discrete, leb→le, ltb→lt, map,
}
use topgent.Crypto.Toy.{toy}
use topgent.Sample.{observed, concluded}
use topgent.Bundle
use topgent.Canonical
use topgent.Derived
use topgent.Keys
use topgent.Order.Map
use topgent.Order.Sorting
use topgent.Quality
use topgent.Record
use topgent.Text.{Bytes-discrete, is_utf8, is_blank}
use topgent.Crypto.{digest}
use topgent.Wire.{encode_subject, encode_provenance, encode_fields, encode_claim, encode_fact}
use topgent.Facts.{kind}
use topgent.Record.{encode_origin, encode_record, check_field, check_parts, new_record}
use topgent.Ledger.{
  find_record, find_claim, add_record, first_missing, add_claim, records_of, explain,
}
use topgent.Chain.{
  encode_body, body_hash, recomputed, Origin-discrete, check_sequence, next_entry, append,
  encode_checkpoint_body, encode_checkpoint, count_u64, encode_rotation_body, encode_rotation,
  checkpoint, checkpoint_signed_by, sign_rotation, rotation_signed_by,
}
use topgent.Bundle.{is_intact, new, append_record, knows, rotate}
use topgent.Verify.{summary, judge, breaches, covering, verify}
use topgent.Verify.Authority.{
  trust, insert_rotation, sort_rotations, apply_rotations, resolve_authority,
}
use topgent.Verify.Records.{record_breaches, records_breaches, reference_breaches, claims_breaches}
use topgent.Verify.Walk.{
  seen_before, is_chained, order_breaches, gap_at, option_bytes-discrete, entry_breaches, advance,
  walk_breaches, walk_end, walk_gaps, orphan_breaches, chain_breaches,
}
use topgent.Verify.Checkpoints.{
  find_entry, highest, check_count, check_head, check_position, check_signature, check_retired,
  check_holder, check_checkpoint, further, checkpoint_loop, check_checkpoints,
}
use topgent.Order.{lex}
use topgent.Derived.{encode_rule, encode_derived, check_claim, new_claim, referenced, admit_claim}
use mathlib.Core.List.Perm
use topgent.Vocabulary.{LedgerError}
use topgent.Record.{EvidenceRecord}
use topgent.Derived.{DerivedClaim, decode_derived}
use topgent.Derived.RoundTrip.{derived_round_trip, IsDerived}
use topgent.Ledger
use topgent.Ledger.{Ledger, Derivation}
use topgent.Ledger.Order.{add_records, add_records_perm}
use topgent.Ledger.References.{IsClosed, add_claim-IsClosed, explain_complete}
use topgent.Sample.{ledger_or, rule, subject, statement, assessment}

abbrev held : Ledger
held = ledger_or (add_record Ledger.new (observed 1))

abbrev both : Ledger
both = ledger_or (add_record held (observed 2))

abbrev claimed : Ledger
claimed = ledger_or (add_claim both concluded)

record Runs : Type 0 where
  in_turn : add_records Ledger.new (observed 1 ∷ observed 2 ∷ []) ≡ ok both
  grown : add_record held (observed 2) ≡ ok both
  concludes : add_claim both concluded ≡ ok claimed
  found : find_claim claimed concluded.id ≡ some concluded
  -- A claim is refused where its record is absent.
  unsupported :
      add_claim Ledger.new concluded
      ≡ err (LedgerError.missing_evidence concluded.id (observed 1).id)
  made : new_claim toy rule subject statement assessment ((observed 1).id ∷ []) [] ≡ ok concluded
  derived : IsDerived toy concluded
  held_closed : IsClosed held
  first_held : find_record held (observed 1).id ≡ some (observed 1)
  fits : leb (length (encode_derived concluded)) usize_max ≡ true
  both_closed : IsClosed both
  claimed_closed : IsClosed claimed

runs : Runs
unfolding Bytes-discrete is_utf8 is_blank Canonical.tag Canonical.u16 Canonical.u32 Canonical.u64
    Canonical.count_u32 Canonical.bytes Canonical.text Canonical.boolean Canonical.option
    Canonical.items Canonical.list Canonical.hex_digit Canonical.hex digest Sorting.insert
    Sorting.sort Sorting.dedup Sorting.sort_dedup Map.get Map.insert Quality.encode_quality
    Quality.encode_coverage Quality.encode_limitation Quality.decimal Quality.tagged encode_subject
    encode_provenance encode_fields encode_claim encode_fact kind encode_origin encode_record
    check_field check_parts Record.address new_record add_records find_record find_claim add_record
    first_missing add_claim records_of explain Keys.encode_raw_key Keys.digit_value
    Keys.from_str_radix Keys.from_pairs Keys.from_bytes Keys.from_hex Keys.to_hex Keys.verifies
    Keys.from_seed Keys.seal encode_body body_hash recomputed Origin-discrete check_sequence
    next_entry append encode_checkpoint_body encode_checkpoint count_u64 encode_rotation_body
    encode_rotation checkpoint checkpoint_signed_by sign_rotation rotation_signed_by is_intact new
    append_record knows Bundle.seal rotate summary judge breaches covering verify trust
    insert_rotation sort_rotations apply_rotations resolve_authority record_breaches
    records_breaches reference_breaches claims_breaches seen_before is_chained order_breaches gap_at
    option_bytes-discrete entry_breaches advance walk_breaches walk_end walk_gaps orphan_breaches
    chain_breaches find_entry highest check_count check_head check_position check_signature
    check_retired check_holder check_checkpoint further checkpoint_loop check_checkpoints lex
    encode_rule encode_derived check_claim Derived.address new_claim referenced admit_claim
    ℕ_discrete
runs = record {
  in_turn = refl;
  grown = refl;
  concludes = refl;
  found = refl;
  unsupported = refl;
  made = refl;
  held_closed = tt;
  first_held = refl;
  fits = refl;
  both_closed = tt;
  claimed_closed = (((observed 1, refl), tt), tt);
  derived = record {
    built = refl;
    rule = (record { utf8 = refl; fits = leb→le _ _ refl }, leb→le _ _ refl);
    subject = (leb→le _ _ refl, ltb→lt _ _ refl);
    statement = record { utf8 = refl; fits = leb→le _ _ refl };
    supporting = (leb→le _ _ refl, (record { utf8 = refl; fits = leb→le _ _ refl }, tt));
    contradicting = (leb→le _ _ refl, tt);
    limitations = leb→le _ _ refl;
  };
}

add_records_perm_example : add_records Ledger.new (observed 2 ∷ observed 1 ∷ []) ≡ ok both
add_records_perm_example =
    add_records_perm (observed 1 ∷ observed 2 ∷ []) (observed 2 ∷ observed 1 ∷ []) Ledger.new both
      (Perm.swap (observed 2) (observed 1) []) runs.in_turn

add_claim-IsClosed_example : IsClosed claimed
add_claim-IsClosed_example =
    add_claim-IsClosed both claimed concluded runs.concludes runs.both_closed

explain_complete_example :
    (x : Derivation) × (explain claimed concluded.id ≡ some x)
    × (x.claim ≡ concluded)
    × (map some x.supporting ≡ map (find_record claimed) concluded.supporting)
    × (map some x.contradicting ≡ map (find_record claimed) concluded.contradicting)
explain_complete_example =
    explain_complete claimed concluded.id concluded runs.claimed_closed runs.found

derived_round_trip_example : read (decode_derived toy) (encode_derived concluded) ≡ ok concluded
derived_round_trip_example =
    derived_round_trip toy rule subject statement assessment ((observed 1).id ∷ []) [] concluded
      runs.made runs.derived.rule runs.derived.subject runs.derived.statement
      runs.derived.supporting runs.derived.contradicting runs.derived.limitations
      (leb→le _ _ runs.fits)
