-- ===== src/Chain/Tests.antt =====
-- The chain's theorems at the chain of the sample.
use topgent.Base.{
  ◌≡◌, ◌≢◌, ◌≤◌, ◌⊎◌, refl, [], ◌∷◌, ◌++◌, none, some, ok, err, true, ℕ_discrete, All, leb→le,
  ltb→lt, last?,
}
use topgent.Crypto.Toy.{toy, toy-CryptoLaws}
use topgent.Sample.{origin, observed, sensor_key, next_key}
use topgent.Bundle
use topgent.Canonical
use topgent.Derived
use topgent.Keys
use topgent.Order.Map
use topgent.Order.Sorting
use topgent.Quality
use topgent.Record
use topgent.Text.{Bytes-discrete, is_utf8, is_blank}
use topgent.Crypto.{digest}
use topgent.Wire.{encode_subject, encode_provenance, encode_fields, encode_claim, encode_fact}
use topgent.Facts.{kind}
use topgent.Record.{encode_origin, encode_record, check_field, check_parts, new_record}
use topgent.Ledger.{
  find_record, find_claim, add_record, first_missing, add_claim, records_of, explain,
}
use topgent.Chain.{
  encode_body, body_hash, recomputed, Origin-discrete, check_sequence, next_entry, append,
  encode_checkpoint_body, encode_checkpoint, count_u64, encode_rotation_body, encode_rotation,
  checkpoint, checkpoint_signed_by, sign_rotation, rotation_signed_by,
}
use topgent.Bundle.{is_intact, new, append_record, knows, rotate}
use topgent.Verify.{summary, judge, breaches, covering, verify}
use topgent.Verify.Authority.{
  trust, insert_rotation, sort_rotations, apply_rotations, resolve_authority,
}
use topgent.Verify.Records.{record_breaches, records_breaches, reference_breaches, claims_breaches}
use topgent.Verify.Walk.{
  seen_before, is_chained, order_breaches, gap_at, option_bytes-discrete, entry_breaches, advance,
  walk_breaches, walk_end, walk_gaps, orphan_breaches, chain_breaches,
}
use topgent.Verify.Checkpoints.{
  find_entry, highest, check_count, check_head, check_position, check_signature, check_retired,
  check_holder, check_checkpoint, further, checkpoint_loop, check_checkpoints,
}
use topgent.Order.{lex}
use topgent.Derived.{encode_rule, encode_derived, check_claim, new_claim, referenced, admit_claim}
use topgent.Crypto.{Collision}
use topgent.Chain.{Chain, ChainEntry, ChainError, Checkpoint}
use topgent.Chain.Append.{Linked, append_cases, append-Linked, After, Records}
use topgent.Chain.Tamper.{IsEntry, chain_pinned}
use topgent.Chain.Signing.{checkpoint-signed_by, sign_rotation-signed_by}

abbrev one_entry : Chain
one_entry = record {
  origin = origin;
  entries = next_entry toy (record { origin = origin; entries = [] }) (observed 1) ∷ [];
}

abbrev two_entries : Chain
two_entries = record {
  origin = origin;
  entries = one_entry.entries ++ next_entry toy one_entry (observed 2) ∷ [];
}

abbrev made : Checkpoint
made = elim (checkpoint toy two_entries sensor_key) [
  | some p ↦ p
  | none ↦ record {
    body = record {
      key_id = [];
      origin = origin;
      through_sequence = 0;
      entry_count = 0;
      head = [];
    };
    signature = [];
  }
]

record Runs : Type 0 where
  appended :
      append toy one_entry (observed 2) ≡ ok (two_entries, next_entry toy one_entry (observed 2))
  -- A record is refused behind itself.
  late : append toy one_entry (observed 1) ≡ err (ChainError.out_of_order 1 1)
  linked : Linked toy none one_entry.entries
  entries : All IsEntry one_entry.entries
  key : Keys.from_seed toy (1 ∷ 2 ∷ 3 ∷ []) ≡ ok sensor_key
  checkpointed : checkpoint toy two_entries sensor_key ≡ some made

runs : Runs
unfolding Bytes-discrete is_utf8 is_blank Canonical.tag Canonical.u16 Canonical.u32 Canonical.u64
    Canonical.count_u32 Canonical.bytes Canonical.text Canonical.boolean Canonical.option
    Canonical.items Canonical.list Canonical.hex_digit Canonical.hex digest Sorting.insert
    Sorting.sort Sorting.dedup Sorting.sort_dedup Map.get Map.insert Quality.encode_quality
    Quality.encode_coverage Quality.encode_limitation Quality.decimal Quality.tagged encode_subject
    encode_provenance encode_fields encode_claim encode_fact kind encode_origin encode_record
    check_field check_parts Record.address new_record find_record find_claim add_record
    first_missing add_claim records_of explain Keys.encode_raw_key Keys.digit_value
    Keys.from_str_radix Keys.from_pairs Keys.from_bytes Keys.from_hex Keys.to_hex Keys.verifies
    Keys.from_seed Keys.seal encode_body body_hash recomputed Origin-discrete check_sequence
    next_entry append encode_checkpoint_body encode_checkpoint count_u64 encode_rotation_body
    encode_rotation checkpoint checkpoint_signed_by sign_rotation rotation_signed_by is_intact new
    append_record knows Bundle.seal rotate summary judge breaches covering verify trust
    insert_rotation sort_rotations apply_rotations resolve_authority record_breaches
    records_breaches reference_breaches claims_breaches seen_before is_chained order_breaches gap_at
    option_bytes-discrete entry_breaches advance walk_breaches walk_end walk_gaps orphan_breaches
    chain_breaches find_entry highest check_count check_head check_position check_signature
    check_retired check_holder check_checkpoint further checkpoint_loop check_checkpoints lex
    encode_rule encode_derived check_claim Derived.address new_claim referenced admit_claim
    ℕ_discrete
runs = record {
  appended = refl;
  late = refl;
  linked = (record { link = refl; intact = refl; order = tt }, tt);
  entries = (
    record {
      previous = tt;
      sequence = ltb→lt _ _ refl;
      record_id = record { utf8 = refl; fits = leb→le _ _ refl };
    },
    tt,
  );
  key = refl;
  checkpointed = refl;
}

append_cases_example :
    (((observed 2).origin ≢ one_entry.origin)
      × (append toy one_entry (observed 2)
          ≡ err (ChainError.foreign_origin one_entry.origin (observed 2).origin)))
    ⊎ ((l : ChainEntry) × ((observed 2).origin ≡ one_entry.origin)
        × (last? one_entry.entries ≡ some l)
        × ((observed 2).sequence ≤ l.sequence)
        × (append toy one_entry (observed 2)
            ≡ err (ChainError.out_of_order l.sequence (observed 2).sequence)))
    ⊎ ((e : ChainEntry) × ((observed 2).origin ≡ one_entry.origin)
        × After (last? one_entry.entries) (observed 2).sequence
        × Records toy (last? one_entry.entries) (observed 2) e
        × (append toy one_entry (observed 2)
            ≡ ok (record { origin = one_entry.origin; entries = one_entry.entries ++ e ∷ [] }, e)))
append_cases_example = append_cases toy one_entry (observed 2)

append-Linked_example : Linked toy none two_entries.entries
append-Linked_example = append-Linked toy one_entry (observed 2) runs.appended runs.linked

chain_pinned_example : (one_entry.entries ≡ one_entry.entries) ⊎ Collision toy
chain_pinned_example =
    chain_pinned toy one_entry.entries one_entry.entries runs.linked runs.linked runs.entries
      runs.entries refl refl

checkpoint-signed_by_example : checkpoint_signed_by toy made sensor_key.public ≡ true
checkpoint-signed_by_example =
    checkpoint-signed_by toy two_entries (1 ∷ 2 ∷ 3 ∷ []) sensor_key made toy-CryptoLaws runs.key
      runs.checkpointed

sign_rotation-signed_by_example :
    rotation_signed_by toy (sign_rotation toy sensor_key next_key.public 3) sensor_key.public ≡ true
sign_rotation-signed_by_example =
    sign_rotation-signed_by toy (1 ∷ 2 ∷ 3 ∷ []) sensor_key next_key.public 3 toy-CryptoLaws
      runs.key
