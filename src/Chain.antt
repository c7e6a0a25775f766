-- ===== src/Chain.antt =====
-- crates/topgent-evidence/src/chain.rs: the hash chain and the signed checkpoints and rotations.
pub mod Append
pub mod Tamper
pub mod Signing
mod Tests
use topgent.Base.{
  ℕ, suc, ◌≡◌, List, [], ◌∷◌, ◌++◌, Option, none, some, Bool, not, ◌&&◌, Result, ok, err, length,
  leb, if◌then◌else◌, last?, ite, true, false, ◌^◌, ◌-◌,
}
use mathlib.Core.Option
use mathlib.Core.Bool.{decide}
use topgent.Text.{Bytes, ascii, Bytes-discrete}
use topgent.Canonical
use topgent.Canonical.{text}
use topgent.Crypto.{Crypto, digest}
use topgent.Outcome.{◌>>◌, refuse_if}
use topgent.Record.{Origin, EvidenceId, EvidenceRecord, encode_origin}
use topgent.Keys.{KeyId, Sealed, PublicKey, SensorKey, seal, verifies}

abbrev pub EntryHash : Type 0
EntryHash = Bytes

pub record ChainEntry : Type 0 where
  pub previous : Option EntryHash
  -- u64
  pub sequence : ℕ
  pub record_id : EvidenceId
  pub hash : EntryHash

-- `EntryBody::encode`
unfoldable pub encode_body : Option EntryHash → ℕ → EvidenceId → Bytes
encode_body previous sequence record_id =
    text (ascii "topgent-chain-entry-v1")
    ++ (Canonical.option text previous ++ (Canonical.u64 sequence ++ text record_id))

unfoldable pub encode_entry : ChainEntry → Bytes
encode_entry e =
    Canonical.option text e.previous
    ++ (Canonical.u64 e.sequence ++ (text e.record_id ++ text e.hash))

module _ (c : Crypto) where
  unfoldable pub body_hash : Option EntryHash → ℕ → EvidenceId → EntryHash
  unfolding digest encode_body
  body_hash previous sequence record_id = digest c (encode_body previous sequence record_id)

  -- `ChainEntry::recomputed`
  unfoldable pub recomputed : ChainEntry → EntryHash
  unfolding body_hash
  recomputed e = body_hash e.previous e.sequence e.record_id

pub data ChainError : Type 0 where
  -- expected, found
  foreign_origin : Origin → Origin → ChainError
  -- last, offered
  out_of_order : ℕ → ℕ → ChainError

pub record Chain : Type 0 where
  pub origin : Origin
  pub entries : List ChainEntry

abbrev pub new : Origin → Chain
new origin = record { origin = origin; entries = [] }

unfoldable pub Origin-discrete : Discrete Origin
unfolding Bytes-discrete
Origin-discrete = hlevel Bytes-discrete

-- `Chain::head`
abbrev pub head : Chain → Option EntryHash
head chain = Option.map (λ e. e.hash) (last? chain.entries)

-- The second guard of `append`.
unfoldable pub check_sequence : Option ChainEntry → ℕ → Result ChainError (Unit {0})
check_sequence none offered = ok tt
check_sequence (some last) offered =
    refuse_if (leb offered last.sequence) (ChainError.out_of_order last.sequence offered)

-- The final `self.entries.last().ok_or(..)`.
abbrev last_of : Chain → Option ChainEntry → Result ChainError (Chain × ChainEntry)
last_of chain none = err (ChainError.out_of_order 0 0)
last_of chain (some e) = ok (chain, e)

module _ (c : Crypto) where
  -- The entry that `append` pushes.
  unfoldable pub next_entry : Chain → EvidenceRecord → ChainEntry
  unfolding body_hash
  next_entry chain r = record {
    previous = head chain;
    sequence = r.sequence;
    record_id = r.id;
    hash = body_hash c (head chain) r.sequence r.id;
  }

  -- `Chain::append`: the chain it leaves, and the entry it returns.
  unfoldable pub append : Chain → EvidenceRecord → Result ChainError (Chain × ChainEntry)
  unfolding Origin-discrete check_sequence
  append chain r =
      ite (Origin-discrete r.origin chain.origin) (ok tt)
        (err (ChainError.foreign_origin chain.origin r.origin))
      >> check_sequence (last? chain.entries) r.sequence
      >> (let grown : Chain = record {
        origin = chain.origin;
        entries = chain.entries ++ next_entry chain r ∷ [];
      } in
          last_of grown (last? grown.entries))

pub record CheckpointBody : Type 0 where
  pub key_id : KeyId
  pub origin : Origin
  -- u64
  pub through_sequence : ℕ
  -- u64
  pub entry_count : ℕ
  pub head : EntryHash

unfoldable pub encode_checkpoint_body : CheckpointBody → Bytes
unfolding encode_origin
encode_checkpoint_body b =
    text (ascii "topgent-checkpoint-v1")
    ++ (text b.key_id
        ++ (encode_origin b.origin
            ++ (Canonical.u64 b.through_sequence ++ (Canonical.u64 b.entry_count ++ text b.head))))

pub record Checkpoint : Type 0 where
  pub body : CheckpointBody
  pub signature : Sealed

unfoldable pub encode_checkpoint : Checkpoint → Bytes
unfolding encode_checkpoint_body
encode_checkpoint p = encode_checkpoint_body p.body ++ Canonical.bytes p.signature

-- `u64::try_from(len).unwrap_or(u64::MAX)`
unfoldable pub count_u64 : ℕ → ℕ
count_u64 n = if leb n (2 ^ 64 - 1) then n else 2 ^ 64 - 1

pub record RotationBody : Type 0 where
  pub retiring : KeyId
  pub replacing : PublicKey
  -- u64
  pub from_sequence : ℕ

-- `PublicKey::encode` writes the bytes alone.
unfoldable pub encode_rotation_body : RotationBody → Bytes
encode_rotation_body b =
    text (ascii "topgent-rotation-v1")
    ++ (text b.retiring ++ (Canonical.bytes b.replacing.bytes ++ Canonical.u64 b.from_sequence))

pub record Rotation : Type 0 where
  pub body : RotationBody
  pub signature : Sealed

unfoldable pub encode_rotation : Rotation → Bytes
unfolding encode_rotation_body
encode_rotation r = encode_rotation_body r.body ++ Canonical.bytes r.signature

-- Derived `PartialEq` of key ids.
abbrev pub same_bytes : Bytes → Bytes → Bool
same_bytes a b = ite (Bytes-discrete a b) true false

module _ (c : Crypto) where
  sign_head : Chain → SensorKey → ChainEntry → Checkpoint
  unfolding count_u64 encode_checkpoint_body seal
  sign_head chain k last =
      let body : CheckpointBody = record {
        key_id = k.public.id;
        origin = chain.origin;
        through_sequence = last.sequence;
        entry_count = count_u64 (length chain.entries);
        head = last.hash;
      } in
      record { body = body; signature = seal c k (encode_checkpoint_body body) }

  -- `Chain::checkpoint`: nothing for an empty chain.
  unfoldable pub checkpoint : Chain → SensorKey → Option Checkpoint
  unfolding sign_head
  checkpoint chain k = Option.map (sign_head chain k) (last? chain.entries)

  -- `Checkpoint::signed_by`
  unfoldable pub checkpoint_signed_by : Checkpoint → PublicKey → Bool
  unfolding verifies encode_checkpoint_body
  checkpoint_signed_by p k =
      same_bytes k.id p.body.key_id && verifies c k (encode_checkpoint_body p.body) p.signature

  -- `Rotation::sign`
  unfoldable pub sign_rotation : SensorKey → PublicKey → ℕ → Rotation
  unfolding seal encode_rotation_body
  sign_rotation retiring replacing from_sequence =
      let body : RotationBody = record {
        retiring = retiring.public.id;
        replacing = replacing;
        from_sequence = from_sequence;
      } in
      record { body = body; signature = seal c retiring (encode_rotation_body body) }

  -- `Rotation::signed_by`
  unfoldable pub rotation_signed_by : Rotation → PublicKey → Bool
  unfolding verifies encode_rotation_body
  rotation_signed_by r k =
      same_bytes k.id r.body.retiring && verifies c k (encode_rotation_body r.body) r.signature
