-- ===== src/Keys.antt =====
-- crates/topgent-evidence/src/chain.rs: the keys and the signatures made with them.
pub mod Hex
mod Tests
use topgent.Base.{
  ℕ, ◌+◌, ◌-◌, ◌*◌, ◌≡◌, List, [], ◌∷◌, ◌++◌, Option, none, some, Bool, true, false, not, ◌&&◌,
  Result, ok, err, length, ◌==◌, leb, ltb, if◌then◌else◌, ite,
}
use topgent.Text.{Bytes, ascii, is_utf8, Bytes-discrete}
use topgent.Canonical
use topgent.Canonical.{text, hex}
use topgent.Crypto.{Crypto, digest}
use topgent.Outcome.{◌>>=◌, ◌>>◌, refuse_if}
use topgent.Vocabulary.{KeyError}

abbrev pub KeyId : Type 0
KeyId = Bytes

-- Ed25519 signature bytes.
abbrev pub Sealed : Type 0
Sealed = Bytes

abbrev pub signature_bytes : ℕ
signature_bytes = 64

abbrev pub public_key_bytes : ℕ
public_key_bytes = 32

pub record PublicKey : Type 0 where
  pub bytes : Bytes
  pub id : KeyId

-- `RawKey::encode`
unfoldable pub encode_raw_key : Bytes → Bytes
encode_raw_key bs = text (ascii "topgent-ed25519-key-v1") ++ Canonical.bytes bs

-- The value of a hexadecimal digit.
unfoldable pub digit_value : ℕ → Option ℕ
digit_value d =
    if leb b'0' d && leb d b'9'
    then some (d - b'0')
    else if leb b'a' d && leb d b'f'
    then some (d - b'a' + 10)
    else if leb b'A' d && leb d b'F'
    then some (d - b'A' + 10)
    else none

-- `u8::from_str_radix(text, 16)` of a text of two bytes. The standard library takes a leading `+`.
unfoldable pub from_str_radix : ℕ → ℕ → Option ℕ
unfolding digit_value
from_str_radix a b = if a == b'+' then digit_value b else elim (digit_value a) [
  | none ↦ none
  | some high ↦ elim (digit_value b) [ none ↦ none | some low ↦ some (high * 16 + low) ]
]

-- The loop of `from_hex` over the pairs. The source also refuses an odd byte left over.
unfoldable pub from_pairs : Bytes → Result KeyError Bytes
unfolding from_str_radix is_utf8
from_pairs [] = ok []
from_pairs (a ∷ []) = err KeyError.malformed
from_pairs (a ∷ b ∷ rest) =
    refuse_if (not (is_utf8 (a ∷ b ∷ []))) KeyError.malformed >> elim (from_str_radix a b) [
      | none ↦ err KeyError.malformed
      | some byte ↦ from_pairs rest >>= λ bs. ok (byte ∷ bs)
    ]

module _ (c : Crypto) where
  -- `PublicKey::from_bytes`
  unfoldable pub from_bytes : Bytes → Result KeyError PublicKey
  unfolding digest encode_raw_key
  from_bytes bs =
      if c.valid_key bs
      then ok (record { bytes = bs; id = digest c (encode_raw_key bs) })
      else err KeyError.malformed

  -- `PublicKey::from_hex`
  unfoldable pub from_hex : Bytes → Result KeyError PublicKey
  unfolding from_pairs from_bytes
  from_hex t =
      refuse_if (not (length t == public_key_bytes * 2)) KeyError.malformed
      >> (from_pairs t >>= λ bs. from_bytes bs)

-- `PublicKey::to_hex`
unfoldable pub to_hex : PublicKey → Bytes
unfolding hex
to_hex k = hex k.bytes

-- The private half, by its seed.
pub record SensorKey : Type 0 where
  pub seed : Bytes
  pub public : PublicKey

module _ (c : Crypto) where
  -- `PublicKey::verifies`
  unfoldable pub verifies : PublicKey → Bytes → Sealed → Bool
  verifies k message signature =
      if c.valid_key k.bytes then c.verify k.bytes message signature else false

  -- `SensorKey::from_seed`
  unfoldable pub from_seed : Bytes → Result KeyError SensorKey
  unfolding from_bytes
  from_seed seed =
      from_bytes c (c.verifying_key seed) >>= λ public. ok (record { seed = seed; public = public })

  -- `SensorKey::seal`
  unfoldable pub seal : SensorKey → Bytes → Sealed
  seal k message = c.sign k.seed message
