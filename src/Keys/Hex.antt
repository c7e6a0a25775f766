-- ===== src/Keys/Hex.antt =====
-- chain.rs: `PublicKey::to_hex` and `PublicKey::from_hex`.
use topgent.Base.{
  ℕ, zero, suc, ◌*◌, ◌/◌, ◌%◌, ◌≡◌, ◌<◌, refl, sym, subst, ap, ◌∙◌, [], ◌∷◌, some, true, false, ok,
  arith, length, All, ◌==◌, leb, ℕ_discrete,
}
use topgent.Text.{Bytes, is_utf8}
use topgent.Canonical.{hex, hex_digit}
use topgent.Crypto.{Crypto}
use topgent.Keys.{PublicKey, digit_value, from_str_radix, from_pairs, from_bytes, from_hex, to_hex}

-- A predicate at every number below a bound.
abbrev AllBelow : ℕ → (ℕ → Type 0) → Type 0
AllBelow zero P = Unit
AllBelow (suc n) P = AllBelow n P × P n

AllBelow-at : (P : ℕ → Type 0) (n i : ℕ) → AllBelow n P → i < n → P i
AllBelow-at P zero i h lt = absurd (omega arith)
AllBelow-at P (suc n) i h lt = elim (ℕ_discrete i n) [
  | yes e ↦ subst P (sym e) h.1
  | no ne ↦ AllBelow-at P n i h.0 (omega arith)
]

-- What the printed digit of a number below sixteen is to the reader.
record IsPrinted (n : ℕ) : Type 0 where
  value : digit_value (hex_digit n) ≡ some n
  unsigned : (hex_digit n == b'+') ≡ false
  ascii : leb (hex_digit n) 0x7f ≡ true

digits : AllBelow 16 IsPrinted
unfolding digit_value hex_digit
digits = (
  (
    (
      (
        (
          (
            (
              (
                (
                  (
                    (
                      (
                        (
                          (
                            (
                              (tt, record { value = refl; unsigned = refl; ascii = refl }),
                              record { value = refl; unsigned = refl; ascii = refl },
                            ),
                            record { value = refl; unsigned = refl; ascii = refl },
                          ),
                          record { value = refl; unsigned = refl; ascii = refl },
                        ),
                        record { value = refl; unsigned = refl; ascii = refl },
                      ),
                      record { value = refl; unsigned = refl; ascii = refl },
                    ),
                    record { value = refl; unsigned = refl; ascii = refl },
                  ),
                  record { value = refl; unsigned = refl; ascii = refl },
                ),
                record { value = refl; unsigned = refl; ascii = refl },
              ),
              record { value = refl; unsigned = refl; ascii = refl },
            ),
            record { value = refl; unsigned = refl; ascii = refl },
          ),
          record { value = refl; unsigned = refl; ascii = refl },
        ),
        record { value = refl; unsigned = refl; ascii = refl },
      ),
      record { value = refl; unsigned = refl; ascii = refl },
    ),
    record { value = refl; unsigned = refl; ascii = refl },
  ),
  record { value = refl; unsigned = refl; ascii = refl },
)

hex_digit-IsPrinted : (n : ℕ) → n < 16 → IsPrinted n
hex_digit-IsPrinted n h = AllBelow-at IsPrinted 16 n digits h

from_str_radix-hex :
    (b : ℕ) → b < 256 → from_str_radix (hex_digit (b / 16)) (hex_digit (b % 16)) ≡ some b
unfolding from_str_radix
from_str_radix-hex b h =
    let high = hex_digit-IsPrinted (b / 16) (omega arith) in
    let low = hex_digit-IsPrinted (b % 16) (omega arith) in
    rw (high.unsigned, high.value, low.value) (ap some (omega arith))

is_utf8-pair : (a b : ℕ) → leb a 0x7f ≡ true → leb b 0x7f ≡ true → is_utf8 (a ∷ b ∷ []) ≡ true
unfolding is_utf8
is_utf8-pair a b p q = ground arith

abbrev pub IsByte : ℕ → Type 0
IsByte b = b < 256

from_pairs-hex : (bs : Bytes) → All IsByte bs → from_pairs (hex bs) ≡ ok bs
unfolding from_pairs hex
from_pairs-hex [] h = refl
from_pairs-hex (b ∷ bs) h =
    let high = hex_digit-IsPrinted (b / 16) (omega (arith, h.0)) in
    let low = hex_digit-IsPrinted (b % 16) (omega arith) in
    rw
      (
        is_utf8-pair (hex_digit (b / 16)) (hex_digit (b % 16)) high.ascii low.ascii,
        from_str_radix-hex b h.0,
        from_pairs-hex bs h.1,
      )
      refl

length-hex : (bs : Bytes) → length (hex bs) ≡ 2 * length bs
unfolding hex
length-hex [] = refl
length-hex (b ∷ bs) = omega (arith, length-hex bs)

from_bytes-bytes : (c : Crypto) (bs : Bytes) (k : PublicKey) → from_bytes c bs ≡ ok k → k.bytes ≡ bs
unfolding from_bytes
from_bytes-bytes c bs k h = ground arith

from_hex-hex :
    (c : Crypto) (bs : Bytes)
    → length bs ≡ 32
    → All IsByte bs
    → from_hex c (hex bs) ≡ from_bytes c bs
unfolding from_hex
from_hex-hex c bs size range = rw (length-hex bs, size, from_pairs-hex bs range) refl

-- A key that was made from 32 bytes, printed with `to_hex`, is the key that `from_hex` reads.
pub from_hex-to_hex :
    (c : Crypto) (bs : Bytes) (k : PublicKey)
    → length bs ≡ 32
    → All IsByte bs
    → from_bytes c bs ≡ ok k
    → from_hex c (to_hex k) ≡ ok k
unfolding to_hex
from_hex-to_hex c bs k size range made =
    ap (λ x. from_hex c (hex x)) (from_bytes-bytes c bs k made)
    ∙ from_hex-hex c bs size range
    ∙ made

-- Bytes below sixteen, each as a plus sign and a digit.
abbrev pub signed_digits : Bytes → Bytes
signed_digits [] = []
signed_digits (b ∷ bs) = b'+' ∷ hex_digit b ∷ signed_digits bs

abbrev pub IsNibble : ℕ → Type 0
IsNibble b = b < 16

from_pairs-signed : (bs : Bytes) → All IsNibble bs → from_pairs (signed_digits bs) ≡ ok bs
unfolding from_pairs from_str_radix
from_pairs-signed [] h = refl
from_pairs-signed (b ∷ bs) h =
    let d = hex_digit-IsPrinted b h.0 in
    rw (is_utf8-pair b'+' (hex_digit b) refl d.ascii, d.value, from_pairs-signed bs h.1) refl

length-signed_digits : (bs : Bytes) → length (signed_digits bs) ≡ 2 * length bs
length-signed_digits [] = refl
length-signed_digits (b ∷ bs) = omega (arith, length-signed_digits bs)

from_hex-signed_digits :
    (c : Crypto) (bs : Bytes)
    → length bs ≡ 32
    → All IsNibble bs
    → from_hex c (signed_digits bs) ≡ from_bytes c bs
unfolding from_hex
from_hex-signed_digits c bs size small =
    rw (length-signed_digits bs, size, from_pairs-signed bs small) refl

-- `from_hex` reads 32 bytes below sixteen from plus signs and digits as it does from two digits each,
-- so a text with characters that are no hexadecimal digits is accepted.
pub from_hex-signed :
    (c : Crypto) (bs : Bytes)
    → length bs ≡ 32
    → All IsNibble bs
    → from_hex c (signed_digits bs) ≡ from_hex c (hex bs)
from_hex-signed c bs size small =
    from_hex-signed_digits c bs size small ∙ sym (from_hex-hex c bs size (bytes bs small))
  where
    bytes : (xs : Bytes) → All IsNibble xs → All IsByte xs
    bytes [] h = tt
    bytes (x ∷ xs) h = (omega (arith, h.0), bytes xs h.1)
