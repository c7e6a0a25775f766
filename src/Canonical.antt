-- ===== src/Canonical.antt =====
-- crates/topgent-evidence/src/canonical.rs: the canonical encoding. A writer is given by the bytes
-- that it appends to the accumulated ones, so writing two values in turn is `◌++◌`.
use topgent.Base.{
  ℕ, ◌/◌, ◌%◌, ◌^◌, ◌-◌, List, [], ◌∷◌, ◌++◌, Option, none, some, Bool, length, leb, if◌then◌else◌,
  get_elem?,
}
use topgent.Text.{Bytes}

abbrev pub u32_max : ℕ
u32_max = 2 ^ 32 - 1

-- `tag`: one byte.
unfoldable pub tag : ℕ → Bytes
tag t = t ∷ []

-- `to_be_bytes` of the three widths.
unfoldable pub u16 : ℕ → Bytes
u16 v = v / 2 ^ 8 % 256 ∷ v % 256 ∷ []

unfoldable pub u32 : ℕ → Bytes
u32 v = v / 2 ^ 24 % 256 ∷ v / 2 ^ 16 % 256 ∷ v / 2 ^ 8 % 256 ∷ v % 256 ∷ []

unfoldable pub u64 : ℕ → Bytes
u64 v =
    v / 2 ^ 56 % 256
    ∷ v / 2 ^ 48 % 256
    ∷ v / 2 ^ 40 % 256
    ∷ v / 2 ^ 32 % 256
    ∷ v / 2 ^ 24 % 256
    ∷ v / 2 ^ 16 % 256
    ∷ v / 2 ^ 8 % 256
    ∷ v % 256
    ∷ []

-- `u32::try_from(len).unwrap_or(u32::MAX)`
unfoldable pub count_u32 : ℕ → ℕ
count_u32 n = if leb n u32_max then n else u32_max

unfoldable pub bytes : Bytes → Bytes
bytes value = u32 (count_u32 (length value)) ++ value

unfoldable pub text : Bytes → Bytes
text value = bytes value

-- `u8::from(value)`, written by wire.rs.
unfoldable pub boolean : Bool → Bytes
boolean value = tag (if value then 1 else 0)

module _ {A : Type 0} (encode : A → Bytes) where
  unfoldable pub option : Option A → Bytes
  option none = tag 0
  option (some inner) = tag 1 ++ encode inner

  unfoldable pub items : List A → Bytes
  items [] = []
  items (x ∷ xs) = encode x ++ items xs

  unfoldable pub list : List A → Bytes
  unfolding items
  list xs = u32 (count_u32 (length xs)) ++ items xs

-- Lowercase hex, two digits to a byte: the fold of `digest_of` and of `PublicKey::to_hex`.
abbrev hex_alphabet : Bytes
hex_alphabet =
    b'0' ∷ b'1' ∷ b'2' ∷ b'3' ∷ b'4' ∷ b'5' ∷ b'6' ∷ b'7' ∷ b'8' ∷ b'9' ∷ b'a' ∷ b'b' ∷ b'c' ∷ b'd'
    ∷ b'e' ∷ b'f' ∷ []

unfoldable pub hex_digit : ℕ → ℕ
hex_digit n = elim (get_elem? hex_alphabet n) [ some d ↦ d | none ↦ b'0' ]

unfoldable pub hex : Bytes → Bytes
unfolding hex_digit
hex [] = []
hex (b ∷ bs) = hex_digit (b / 16) ∷ hex_digit (b % 16) ∷ hex bs
