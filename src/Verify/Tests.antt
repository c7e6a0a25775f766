-- ===== src/Verify/Tests.antt =====
-- A small bundle verifies, and the theorems at it.
use topgent.Base.{
  ◌≡◌, ◌⊎◌, inl, refl, List, [], ◌∷◌, none, some, true, false, ℕ_discrete, All, Any, take, leb→le,
  ltb→lt, get_elem?, length, ◌^◌, ◌<◌, ◌≢◌, arith,
}
use topgent.Crypto.{Collision}
use topgent.Crypto.Toy.{toy}
use topgent.Sample.{sealed, rotated, sensor_key, next_key}
use topgent.Keys.{PublicKey}
use topgent.Bundle.{Verdict}
use topgent.Chain.{Rotation}
use topgent.Verify.Gaps.{IsU64, Consecutive, verify-Consecutive}
use topgent.Chain.Tamper.{IsEntry}
use topgent.Verify.Authority.{Authorities, active}
use topgent.Verify.Chained.{ChainHolds, chain_breaches-nil}
use topgent.Verify.Rooted.{Authorised, resolve_authority-Authorised, apply_rotations-retired}
use topgent.Verify.Sound.{Verified, verify-Verified, shared_checkpoint}
use topgent.Bundle
use topgent.Canonical
use topgent.Keys
use topgent.Order.Map
use topgent.Order.{bytes_order}
use topgent.Order.Sorting
use topgent.Quality
use topgent.Record
use topgent.Text.{Bytes, Bytes-discrete, is_blank}
use topgent.Crypto.{digest}
use topgent.Wire.{encode_subject, encode_provenance, encode_fields, encode_claim, encode_fact}
use topgent.Facts.{kind}
use topgent.Record.{encode_origin, encode_record, check_field, check_parts, new_record}
use topgent.Ledger.{find_record, add_record}
use topgent.Chain.{
  same_bytes, Checkpoint, encode_body, body_hash, recomputed, Origin-discrete, check_sequence,
  next_entry, append, encode_checkpoint_body, encode_checkpoint, count_u64, encode_rotation_body,
  encode_rotation, checkpoint, checkpoint_signed_by, sign_rotation, rotation_signed_by,
}
use topgent.Bundle.{is_intact, new, append_record, knows, rotate}
use topgent.Verify.{summary, judge, breaches, covering, verify}
use topgent.Verify.Authority.{
  trust, insert_rotation, sort_rotations, apply_rotations, resolve_authority,
}
use topgent.Verify.Records.{record_breaches, records_breaches, reference_breaches, claims_breaches}
use topgent.Verify.Walk.{
  seen_before, is_chained, order_breaches, gap_at, option_bytes-discrete, entry_breaches, advance,
  walk_breaches, walk_end, walk_gaps, orphan_breaches, chain_breaches,
}
use topgent.Verify.Checkpoints.{
  find_entry, highest, check_count, check_head, check_position, check_signature, check_retired,
  check_holder, check_checkpoint, further, checkpoint_loop, check_checkpoints,
}
use topgent.Order.{lex}

abbrev trusted : List PublicKey
trusted = sensor_key.public ∷ []

abbrev signed : Checkpoint
signed = elim (get_elem? sealed.checkpoints 0) [
  | some p ↦ p
  | none ↦ record {
    body = record {
      key_id = [];
      origin = sealed.chain.origin;
      through_sequence = 0;
      entry_count = 0;
      head = [];
    };
    signature = [];
  }
]

abbrev authorities : Authorities
authorities = trust [] trusted

-- The first key hands over to the next one, and later to itself.
abbrev handed : Rotation
handed = sign_rotation toy sensor_key next_key.public 3

abbrev again : Rotation
again = sign_rotation toy sensor_key sensor_key.public 5

-- What running the model on the sample gives.
record Runs : Type 0 where
  sealed_intact : is_intact (verify toy sealed trusted) ≡ true
  rotated_intact : is_intact (verify toy rotated trusted) ≡ true
  -- The verifier holds another key.
  untrusted_broken : is_intact (verify toy rotated (next_key.public ∷ [])) ≡ false
  entries : All IsEntry sealed.chain.entries
  signed_held : Any (λ q. q ≡ signed) sealed.checkpoints
  few : length sealed.chain.entries < 2 ^ 64
  next_known :
      Map.get bytes_order next_key.public.id (resolve_authority toy rotated trusted).1
      ≡ some (active next_key.public)
  intact : verify toy rotated trusted ≡ Verdict.intact (summary rotated sensor_key.public.id 2)
  small : All IsU64 rotated.chain.entries
  known : Map.get bytes_order handed.body.retiring authorities ≡ some (active sensor_key.public)
  signed_once : rotation_signed_by toy handed sensor_key.public ≡ true
  signed_again : rotation_signed_by toy again sensor_key.public ≡ true
  other : same_bytes handed.body.retiring handed.body.replacing.id ≡ false
  same : again.body.retiring ≡ handed.body.retiring
  chain_clean : chain_breaches toy rotated.ledger rotated.chain ≡ []

runs : Runs
unfolding topgent.Text.is_utf8 Bytes-discrete is_blank Canonical.tag Canonical.u16 Canonical.u32
    Canonical.u64 Canonical.count_u32 Canonical.bytes Canonical.text Canonical.boolean
    Canonical.option Canonical.items Canonical.list Canonical.hex digest Sorting.insert Sorting.sort
    Sorting.dedup Sorting.sort_dedup Map.get Map.insert Quality.encode_coverage
    Quality.encode_limitation Quality.decimal Quality.tagged encode_subject encode_provenance
    encode_fields encode_claim encode_fact kind encode_origin encode_record check_field check_parts
    Record.address new_record find_record add_record Keys.encode_raw_key Keys.from_bytes
    Keys.verifies Keys.from_seed Keys.seal encode_body body_hash recomputed Origin-discrete
    check_sequence next_entry append encode_checkpoint_body encode_checkpoint count_u64
    encode_rotation_body encode_rotation checkpoint checkpoint_signed_by sign_rotation
    rotation_signed_by is_intact new append_record knows Bundle.seal rotate summary judge breaches
    covering verify trust insert_rotation sort_rotations apply_rotations resolve_authority
    record_breaches records_breaches reference_breaches claims_breaches seen_before is_chained
    order_breaches gap_at option_bytes-discrete entry_breaches advance walk_breaches walk_end
    walk_gaps orphan_breaches chain_breaches find_entry highest check_count check_head
    check_position check_signature check_retired check_holder check_checkpoint further
    checkpoint_loop check_checkpoints lex ℕ_discrete
runs = record {
  sealed_intact = refl;
  rotated_intact = refl;
  untrusted_broken = refl;
  entries = (
    record {
      previous = tt;
      sequence = ltb→lt _ _ refl;
      record_id = record { utf8 = refl; fits = leb→le _ _ refl };
    },
    (
      record {
        previous = record { utf8 = refl; fits = leb→le _ _ refl };
        sequence = ltb→lt _ _ refl;
        record_id = record { utf8 = refl; fits = leb→le _ _ refl };
      },
      tt,
    ),
  );
  signed_held = inl refl;
  few = ltb→lt _ _ refl;
  next_known = refl;
  intact = refl;
  small = (ltb→lt _ _ refl, (ltb→lt _ _ refl, tt));
  known = refl;
  signed_once = refl;
  signed_again = refl;
  other = refl;
  same = refl;
  chain_clean = refl;
}

verify-Verified_example : Verified toy rotated trusted
verify-Verified_example = verify-Verified toy rotated trusted runs.rotated_intact

shared_checkpoint_example :
    (take signed.body.entry_count sealed.chain.entries
      ≡ take signed.body.entry_count sealed.chain.entries)
    ⊎ Collision toy
shared_checkpoint_example =
    shared_checkpoint toy sealed sealed trusted trusted signed runs.sealed_intact runs.sealed_intact
      runs.signed_held runs.signed_held runs.entries runs.entries runs.few runs.few

resolve_authority-Authorised_example : Authorised toy trusted rotated.rotations next_key.public
resolve_authority-Authorised_example =
    resolve_authority-Authorised toy rotated trusted next_key.public.id (active next_key.public)
      runs.next_known

chain_breaches-nil_example : ChainHolds toy rotated.ledger rotated.chain
chain_breaches-nil_example = chain_breaches-nil toy rotated.ledger rotated.chain runs.chain_clean

verify-Consecutive_example : Consecutive none rotated.chain.entries
verify-Consecutive_example =
    verify-Consecutive toy rotated trusted (summary rotated sensor_key.public.id 2) runs.intact
      runs.small

apart : {a b : Bytes} → same_bytes a b ≡ false → a ≢ b
unfolding Bytes-discrete
apart h e = ground arith

apply_rotations-retired_example :
    (Map.get bytes_order handed.body.retiring (apply_rotations toy authorities (handed ∷ [])).1
      ≡ some (record { key = sensor_key.public; retired_from = some 3 }))
    × ((apply_rotations toy authorities (handed ∷ again ∷ [])).0 ≡ [])
    × (Map.get bytes_order again.body.replacing.id
          (apply_rotations toy authorities (handed ∷ again ∷ [])).1
        ≡ some (active again.body.replacing))
unfolding sign_rotation
apply_rotations-retired_example =
    apply_rotations-retired toy authorities handed again (active sensor_key.public) runs.known
      runs.same (apart runs.other) runs.signed_once runs.signed_again
