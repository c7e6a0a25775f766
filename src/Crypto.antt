-- ===== src/Crypto.antt =====
-- What the evidence layer takes from the crates sha2 and ed25519_dalek, as a parameter of the model,
-- and `digest_of` of crates/topgent-evidence/src/canonical.rs over it.
pub mod Toy
use topgent.Base.{ℕ, ◌≡◌, Bool, true, length, List, ◌≢◌}
use topgent.Text.{Bytes}
use topgent.Canonical.{hex}

pub record Crypto : Type 0 where
  -- `Sha256::digest`
  pub sha256 : Bytes → Bytes
  -- Whether `VerifyingKey::from_bytes` accepts the bytes.
  pub valid_key : Bytes → Bool
  -- `SigningKey::from_bytes(seed).verifying_key().to_bytes()`
  pub verifying_key : Bytes → Bytes
  -- `SigningKey::from_bytes(seed).sign(message).to_bytes()`
  pub sign : Bytes → Bytes → Bytes
  -- `VerifyingKey::from_bytes(key)` and then `verify(message, signature).is_ok()`
  pub verify : Bytes → Bytes → Bytes → Bool

-- The documented behaviour on which the theorems that name this record rest.
pub record CryptoLaws (c : Crypto) : Type 0 where
  pub sha256_size : (m : Bytes) → length (c.sha256 m) ≡ 32
  pub key_size : (seed : Bytes) → length (c.verifying_key seed) ≡ 32
  pub signature_size : (seed m : Bytes) → length (c.sign seed m) ≡ 64
  pub key_valid : (seed : Bytes) → c.valid_key (c.verifying_key seed) ≡ true
  pub sign_verifies : (seed m : Bytes) → c.verify (c.verifying_key seed) m (c.sign seed m) ≡ true

-- `digest_of`, given the canonical bytes of the value.
unfoldable pub digest : Crypto → Bytes → Bytes
unfolding hex
digest c m = hex (c.sha256 m)

-- Two byte strings with one digest.
pub record Collision (c : Crypto) : Type 0 where
  pub one : Bytes
  pub other : Bytes
  pub differ : one ≢ other
  pub agree : digest c one ≡ digest c other
