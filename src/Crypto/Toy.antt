-- ===== src/Crypto/Toy.antt =====
-- A concrete digest and signature scheme, of the sizes of the real ones, to run the model with.
use topgent.Base.{
  ℕ, ◌+◌, ◌%◌, [], ◌∷◌, ◌++◌, true, false, take, length, ◌==◌, ite, ◌≡◌, refl, arith, length-take,
  length-append, if_pos,
}
use topgent.Text.{Bytes, Bytes-discrete}
use topgent.Crypto.{Crypto, CryptoLaws}

abbrev total : Bytes → ℕ
total [] = 0
total (b ∷ bs) = b + total bs

abbrev zeros : Bytes
zeros =
    0 ∷ 0 ∷ 0 ∷ 0 ∷ 0 ∷ 0 ∷ 0 ∷ 0 ∷ 0 ∷ 0 ∷ 0 ∷ 0 ∷ 0 ∷ 0 ∷ 0 ∷ 0 ∷ 0 ∷ 0 ∷ 0 ∷ 0 ∷ 0 ∷ 0 ∷ 0 ∷ 0
    ∷ 0 ∷ 0 ∷ 0 ∷ 0 ∷ 0 ∷ 0 ∷ 0 ∷ 0 ∷ []

abbrev checksum : Bytes → Bytes
checksum m = take 32 (total m % 256 ∷ length m % 256 ∷ zeros)

abbrev key_of : Bytes → Bytes
key_of seed = take 32 (seed ++ zeros)

abbrev seal_with : Bytes → Bytes → Bytes
seal_with key m = checksum (key ++ m) ++ zeros

abbrev pub toy : Crypto
toy = record {
  sha256 = checksum;
  valid_key = λ k. length k == 32;
  verifying_key = key_of;
  sign = λ seed m. seal_with (key_of seed) m;
  verify = λ key m signature. ite (Bytes-discrete (seal_with key m) signature) true false;
}

key_size : (seed : Bytes) → length (key_of seed) ≡ 32
key_size seed = length-take 32 (seed ++ zeros) (omega (arith, length-append seed zeros))

==-true : (n m : ℕ) → n ≡ m → (n == m) ≡ true
==-true n m h = ground arith

pub toy-CryptoLaws : CryptoLaws toy
toy-CryptoLaws = record {
  sha256_size = λ m. refl;
  key_size = key_size;
  signature_size = λ seed m. refl;
  key_valid = λ seed. ==-true (length (key_of seed)) 32 (key_size seed);
  sign_verifies = λ seed m.
      if_pos (Bytes-discrete (seal_with (key_of seed) m) (seal_with (key_of seed) m)) refl true
        false;
}
