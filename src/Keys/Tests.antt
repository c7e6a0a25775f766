-- ===== src/Keys/Tests.antt =====
-- The theorems on keys in hexadecimal at the key of the sample.
use topgent.Base.{
  ℕ, ◌≡◌, ◌<◌, refl, [], ◌∷◌, Bool, true, ltb, ◌&&◌, arith, ok, ℕ_discrete, All, length,
}
use topgent.Crypto.Toy.{toy}
use topgent.Sample.{sensor_key}
use topgent.Bundle
use topgent.Canonical
use topgent.Derived
use topgent.Keys
use topgent.Order.Map
use topgent.Order.Sorting
use topgent.Quality
use topgent.Record
use topgent.Text.{Bytes-discrete, is_utf8, is_blank}
use topgent.Crypto.{digest}
use topgent.Wire.{encode_subject, encode_provenance, encode_fields, encode_claim, encode_fact}
use topgent.Facts.{kind}
use topgent.Record.{encode_origin, encode_record, check_field, check_parts, new_record}
use topgent.Ledger.{
  find_record, find_claim, add_record, first_missing, add_claim, records_of, explain,
}
use topgent.Chain.{
  encode_body, body_hash, recomputed, Origin-discrete, check_sequence, next_entry, append,
  encode_checkpoint_body, encode_checkpoint, count_u64, encode_rotation_body, encode_rotation,
  checkpoint, checkpoint_signed_by, sign_rotation, rotation_signed_by,
}
use topgent.Bundle.{is_intact, new, append_record, knows, rotate}
use topgent.Verify.{summary, judge, breaches, covering, verify}
use topgent.Verify.Authority.{
  trust, insert_rotation, sort_rotations, apply_rotations, resolve_authority,
}
use topgent.Verify.Records.{record_breaches, records_breaches, reference_breaches, claims_breaches}
use topgent.Verify.Walk.{
  seen_before, is_chained, order_breaches, gap_at, option_bytes-discrete, entry_breaches, advance,
  walk_breaches, walk_end, walk_gaps, orphan_breaches, chain_breaches,
}
use topgent.Verify.Checkpoints.{
  find_entry, highest, check_count, check_head, check_position, check_signature, check_retired,
  check_holder, check_checkpoint, further, checkpoint_loop, check_checkpoints,
}
use topgent.Order.{lex}
use topgent.Derived.{encode_rule, encode_derived, check_claim, new_claim, referenced, admit_claim}
use topgent.Text.{Bytes}
use topgent.Keys.{PublicKey}
use topgent.Canonical.{hex}
use topgent.Keys.Hex.{IsByte, IsNibble, signed_digits, from_hex-to_hex, from_hex-signed}

abbrev raw : Bytes
raw = sensor_key.public.bytes

all_below : ℕ → Bytes → Bool
all_below n [] = true
all_below n (b ∷ bs) = ltb b n && all_below n bs

all_below-All : (n : ℕ) (bs : Bytes) → all_below n bs ≡ true → All (λ b. b < n) bs
unfolding all_below
all_below-All n [] h = tt
all_below-All n (b ∷ bs) h = (ground arith, all_below-All n bs (ground arith))

record Runs : Type 0 where
  size : length raw ≡ 32
  range : All IsByte raw
  small : All IsNibble raw
  made : Keys.from_bytes toy raw ≡ ok sensor_key.public

runs : Runs
unfolding all_below Bytes-discrete is_utf8 is_blank Canonical.tag Canonical.u16 Canonical.u32
    Canonical.u64 Canonical.count_u32 Canonical.bytes Canonical.text Canonical.boolean
    Canonical.option Canonical.items Canonical.list Canonical.hex_digit Canonical.hex digest
    Sorting.insert Sorting.sort Sorting.dedup Sorting.sort_dedup Map.get Map.insert
    Quality.encode_quality Quality.encode_coverage Quality.encode_limitation Quality.decimal
    Quality.tagged encode_subject encode_provenance encode_fields encode_claim encode_fact kind
    encode_origin encode_record check_field check_parts Record.address new_record find_record
    find_claim add_record first_missing add_claim records_of explain Keys.encode_raw_key
    Keys.digit_value Keys.from_str_radix Keys.from_pairs Keys.from_bytes Keys.from_hex Keys.to_hex
    Keys.verifies Keys.from_seed Keys.seal encode_body body_hash recomputed Origin-discrete
    check_sequence next_entry append encode_checkpoint_body encode_checkpoint count_u64
    encode_rotation_body encode_rotation checkpoint checkpoint_signed_by sign_rotation
    rotation_signed_by is_intact new append_record knows Bundle.seal rotate summary judge breaches
    covering verify trust insert_rotation sort_rotations apply_rotations resolve_authority
    record_breaches records_breaches reference_breaches claims_breaches seen_before is_chained
    order_breaches gap_at option_bytes-discrete entry_breaches advance walk_breaches walk_end
    walk_gaps orphan_breaches chain_breaches find_entry highest check_count check_head
    check_position check_signature check_retired check_holder check_checkpoint further
    checkpoint_loop check_checkpoints lex encode_rule encode_derived check_claim Derived.address
    new_claim referenced admit_claim ℕ_discrete
runs = record {
  size = refl;
  range = all_below-All 256 raw refl;
  small = all_below-All 16 raw refl;
  made = refl;
}

from_hex-to_hex_example : Keys.from_hex toy (Keys.to_hex sensor_key.public) ≡ ok sensor_key.public
from_hex-to_hex_example = from_hex-to_hex toy raw sensor_key.public runs.size runs.range runs.made

from_hex-signed_example : Keys.from_hex toy (signed_digits raw) ≡ Keys.from_hex toy (hex raw)
from_hex-signed_example = from_hex-signed toy raw runs.size runs.small
