-- ===== src/Chain/Signing.antt =====
-- chain.rs: `SensorKey::from_seed` and `seal` against `signed_by`.
use topgent.Base.{◌≡◌, refl, true, some, ok, if_pos, inl, inr, Option-cases, ℕ, arith, last?}
use topgent.Text.{Bytes, Bytes-discrete}
use topgent.Crypto.{Crypto, CryptoLaws}
use topgent.Keys.{PublicKey, SensorKey, from_bytes, from_seed, seal, verifies}
use topgent.Chain.{
  Chain, Checkpoint, checkpoint, checkpoint_signed_by, sign_rotation, rotation_signed_by,
  same_bytes, sign_head,
}

same_bytes_self : (a : Bytes) → same_bytes a a ≡ true
same_bytes_self a = if_pos (Bytes-discrete a a) refl _ _

-- The public half of a key that a seed gives.
from_seed-ok :
    (c : Crypto)
    → CryptoLaws c
    → (seed : Bytes) {k : SensorKey} → from_seed c seed ≡ ok k
    → (k.public.bytes ≡ c.verifying_key seed) × (k.seed ≡ seed)
unfolding from_seed from_bytes
from_seed-ok c laws seed h = ground (arith, laws.key_valid seed)

seal_lem :
    (c : Crypto) (seed : Bytes) (k : SensorKey) (m : Bytes)
    → CryptoLaws c
    → from_seed c seed ≡ ok k
    → verifies c k.public m (seal c k m) ≡ true
unfolding verifies seal
seal_lem c seed k m laws h =
    let (public, private) = from_seed-ok c laws seed h in
    rw (public, private, laws.key_valid seed, laws.sign_verifies seed m)

-- A checkpoint that a key from a seed makes is signed by that key's public half.
pub checkpoint-signed_by :
    (c : Crypto) (chain : Chain) (seed : Bytes) (k : SensorKey) (p : Checkpoint)
    → CryptoLaws c
    → from_seed c seed ≡ ok k
    → checkpoint c chain k ≡ some p
    → checkpoint_signed_by c p k.public ≡ true
unfolding checkpoint checkpoint_signed_by sign_head
checkpoint-signed_by c chain seed k p laws h made = elim (Option-cases (last? chain.entries)) [
  | inl empty ↦ absurd (cc (rw empty at made))
  | inr (last, ends) ↦
      let same : p ≡ sign_head c chain k last = cc (rw ends at made) in
      rw (same, same_bytes_self k.public.id) (seal_lem c seed k _ laws h)
]

-- A rotation that a key from a seed signs is signed by that key's public half.
pub sign_rotation-signed_by :
    (c : Crypto) (seed : Bytes) (k : SensorKey) (next : PublicKey) (from_sequence : ℕ)
    → CryptoLaws c
    → from_seed c seed ≡ ok k
    → rotation_signed_by c (sign_rotation c k next from_sequence) k.public ≡ true
unfolding sign_rotation rotation_signed_by
sign_rotation-signed_by c seed k next from_sequence laws h =
    rw (same_bytes_self k.public.id) (seal_lem c seed k _ laws h)
