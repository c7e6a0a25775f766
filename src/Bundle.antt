-- ===== src/Bundle.antt =====
-- crates/topgent-evidence/src/bundle.rs: what leaves the machine, and how it is assembled.
pub mod Reachable
mod Tests
use topgent.Base.{
  ℕ, List, [], ◌∷◌, ◌++◌, Option, none, some, Bool, true, false, ◌||◌, Result, ok, err,
  if◌then◌else◌,
}
use topgent.Text.{Bytes, ascii}
use topgent.Canonical
use topgent.Canonical.{text}
use topgent.Crypto.{Crypto}
use topgent.Outcome.{◌>>=◌}
use topgent.Vocabulary.{LedgerError}
use topgent.Record.{Origin, EvidenceId, EvidenceRecord}
use topgent.Derived.{ClaimId, DerivedClaim}
use topgent.Ledger
use topgent.Ledger.{Ledger, add_record, encode_ledger}
use topgent.Keys.{KeyId, PublicKey, SensorKey}
use topgent.Chain
use topgent.Chain.{
  Chain, ChainEntry, ChainError, EntryHash, Checkpoint, Rotation, append, checkpoint, same_bytes,
  encode_entry, encode_checkpoint, encode_rotation,
}
use topgent.Record.{encode_origin}

pub record Gap : Type 0 where
  -- the last sequence present before the hole, and the first after it
  pub after : ℕ
  pub before : ℕ

pub data Breach : Type 0 where
  -- claimed, recomputed
  record_altered : EvidenceId → Bytes → Breach
  -- sequence, missing
  unchained_reference : ℕ → EvidenceId → Breach
  -- id
  record_not_in_chain : EvidenceId → Breach
  -- sequence, claimed, recomputed
  entry_altered : ℕ → EntryHash → EntryHash → Breach
  -- sequence, expected, found
  chain_broken : ℕ → Option EntryHash → Option EntryHash → Breach
  -- sequence
  duplicate_sequence : ℕ → Breach
  -- sequence, after
  out_of_order : ℕ → ℕ → Breach
  -- id, expected, found
  foreign_origin : EvidenceId → Origin → Origin → Breach
  -- key_id
  unknown_key : KeyId → Breach
  -- key_id, through_sequence
  bad_signature : KeyId → ℕ → Breach
  -- retiring
  bad_rotation : KeyId → Breach
  -- key_id, retired_from
  retired_key : KeyId → ℕ → Breach
  -- through_sequence, highest
  checkpoint_beyond_chain : ℕ → ℕ → Breach
  -- through_sequence, signed, found
  head_mismatch : ℕ → EntryHash → EntryHash → Breach
  -- signed, found
  count_mismatch : ℕ → ℕ → Breach
  -- expected, found
  checkpoint_origin : Origin → Origin → Breach
  no_checkpoint : Breach
  -- claim, missing
  claim_reference_missing : ClaimId → EvidenceId → Breach

pub record Summary : Type 0 where
  pub origin : Origin
  pub records : ℕ
  pub claims : ℕ
  pub through_sequence : ℕ
  pub key_id : KeyId

pub data Verdict : Type 0 where
  intact : Summary → Verdict
  intact_with_gaps : Summary → List Gap → Verdict
  broken : List Breach → Verdict

-- `Verdict::is_intact`
unfoldable pub is_intact : Verdict → Bool
is_intact (intact _) = true
is_intact (intact_with_gaps _ _) = true
is_intact (broken _) = false

pub record Bundle : Type 0 where
  pub ledger : Ledger
  pub chain : Chain
  pub keys : List PublicKey
  pub rotations : List Rotation
  pub checkpoints : List Checkpoint

unfoldable pub new : Origin → Bundle
new origin = record {
  ledger = Ledger.new;
  chain = Chain.new origin;
  keys = [];
  rotations = [];
  checkpoints = [];
}

-- The reasons that `append` prints.
pub data AppendError : Type 0 where
  chain : ChainError → AppendError
  ledger : LedgerError → AppendError

-- The bundle is changed in place: an append that the ledger refuses leaves the chain grown.
abbrev pub store_record :
    Bundle → EvidenceRecord → Result LedgerError Ledger → Bundle × Result AppendError (Unit {0})
store_record b r (ok l) = (record b { ledger = l }, ok tt)
store_record b r (err e) = (b, err (AppendError.ledger e))

module _ (c : Crypto) where
  abbrev pub chain_record :
      Bundle
      → EvidenceRecord
      → Result ChainError (Chain × ChainEntry)
      → Bundle × Result AppendError (Unit {0})
  chain_record b r (ok (grown, _)) =
      store_record (record b { chain = grown }) r (add_record b.ledger r)
  chain_record b r (err e) = (b, err (AppendError.chain e))

  -- `Bundle::append`
  unfoldable pub append_record : Bundle → EvidenceRecord → Bundle × Result AppendError (Unit {0})
  append_record b r = chain_record b r (append c b.chain r)

-- `Bundle::add_claim`, which leaves the bundle as it was where the ledger refuses the claim.
unfoldable pub add_claim : Bundle → DerivedClaim → Result LedgerError Bundle
add_claim b d = Ledger.add_claim b.ledger d >>= λ l. ok (record b { ledger = l })

-- `keys.iter().any(|known| known.id() == id)`
unfoldable pub knows : KeyId → List PublicKey → Bool
knows id [] = false
knows id (k ∷ ks) = same_bytes k.id id || knows id ks

add_key : PublicKey → List PublicKey → List PublicKey
add_key k ks = if knows k.id ks then ks else ks ++ k ∷ []

module _ (c : Crypto) where
  push_checkpoint : Option Checkpoint → List Checkpoint → List Checkpoint
  push_checkpoint none ps = ps
  push_checkpoint (some p) ps = ps ++ p ∷ []

  -- `Bundle::seal`
  unfoldable pub seal : Bundle → SensorKey → Bundle
  unfolding push_checkpoint add_key
  seal b k = record b {
    checkpoints = push_checkpoint (checkpoint c b.chain k) b.checkpoints;
    keys = add_key k.public b.keys;
  }

-- `Bundle::rotate`
unfoldable pub rotate : Bundle → Rotation → Bundle
unfolding add_key
rotate b r = record b { keys = add_key r.body.replacing b.keys; rotations = b.rotations ++ r ∷ [] }

-- `Chain::encode`
unfoldable pub encode_chain : Chain → Bytes
unfolding encode_origin
encode_chain k = encode_origin k.origin ++ Canonical.list encode_entry k.entries

-- `PublicKey::encode`
abbrev pub encode_key : PublicKey → Bytes
encode_key k = Canonical.bytes k.bytes

unfoldable pub encode_bundle : Bundle → Bytes
unfolding encode_chain
encode_bundle b =
    text (ascii "topgent-bundle-v1")
    ++ (encode_ledger b.ledger
        ++ (encode_chain b.chain
            ++ (Canonical.list encode_key b.keys
                ++ (Canonical.list encode_rotation b.rotations
                    ++ Canonical.list encode_checkpoint b.checkpoints))))
