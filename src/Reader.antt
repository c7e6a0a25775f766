-- ===== src/Reader.antt =====
-- crates/topgent-evidence/src/reader.rs: reading canonical bytes back. A decoder takes the reader
-- by `&mut`; here it returns the value with the reader it leaves. Once a decoder fails its caller
-- returns, so the reader behind an error is not kept.
pub mod Reads
pub mod Primitives
use topgent.Base.{
  ℕ, zero, suc, ◌+◌, ◌-◌, ◌*◌, ◌^◌, List, [], ◌∷◌, Option, none, some, Bool, true, false, ◌&&◌,
  length, take, drop, leb, ltb, ◌==◌, if◌then◌else◌, Result, ok, err, ite,
}
use topgent.Text.{Bytes, Bytes-discrete, is_utf8}
use topgent.Vocabulary.{Reason}

pub data DecodeError : Type 0 where
  unexpected_end : ℕ → ℕ → DecodeError
  invalid_utf8 : DecodeError
  length_too_large : ℕ → ℕ → DecodeError
  unknown_variant : Bytes → Bytes → DecodeError
  invalid_tag : ℕ → DecodeError
  -- The source keeps the reason as the text that the error prints.
  rejected : Reason → DecodeError
  trailing_bytes : ℕ → DecodeError

pub record Reader : Type 0 where
  pub buffer : Bytes
  pub at : ℕ

abbrev pub Decoder : Type 0 → Type 0
Decoder A = Reader → Result DecodeError (A × Reader)

infixl 5 ◌>>=◌
unfoldable pub ◌>>=◌ : {A B : Type 0} → Decoder A → (A → Decoder B) → Decoder B
◌>>=◌ m f r = elim (m r) [ ok (a, r') ↦ f a r' | err e ↦ err e ]

unfoldable pub pure : {A : Type 0} → A → Decoder A
pure a r = ok (a, r)

unfoldable pub fail : {A : Type 0} → DecodeError → Decoder A
fail e r = err e

-- usize has 64 bits.
abbrev pub usize_max : ℕ
usize_max = 2 ^ 64 - 1

abbrev saturating_add : ℕ → ℕ → ℕ
saturating_add a b = if leb (a + b) usize_max then a + b else usize_max

unfoldable pub new : Bytes → Reader
new buffer = record { buffer = buffer; at = 0 }

unfoldable pub remaining : Reader → ℕ
remaining r = length r.buffer - r.at

unfoldable pub finish : Reader → Result DecodeError (Unit {0})
unfolding remaining
finish r = if remaining r == 0 then ok tt else err (trailing_bytes (remaining r))

-- `bytes.get(from..to)`
unfoldable pub get_range : Bytes → ℕ → ℕ → Option Bytes
get_range bs from to =
    if leb from to && leb to (length bs) then some (take (to - from) (drop from bs)) else none

unfoldable pub take_bytes : ℕ → Decoder Bytes
unfolding get_range remaining
take_bytes count r =
    let end = saturating_add r.at count in
    elim (get_range r.buffer r.at end) [
      | some slice ↦ ok (slice, record r { at = end })
      | none ↦ err (unexpected_end count (remaining r))
    ]

first_byte : Bytes → Decoder ℕ
first_byte [] r = err (unexpected_end 1 0)
first_byte (b ∷ _) r = ok (b, r)

unfoldable pub tag : Decoder ℕ
unfolding take_bytes first_byte ◌>>=◌
tag = take_bytes 1 >>= first_byte

unfoldable pub boolean : Decoder Bool
unfolding tag ◌>>=◌ pure fail
boolean = do
  found ← tag
  if found == 0 then pure false else if found == 1 then pure true else fail (invalid_tag found)

-- `from_be_bytes`, and the array conversion that the source's `try_into` makes.
abbrev from_be : ℕ → Bytes → ℕ
from_be acc [] = acc
from_be acc (b ∷ bs) = from_be (acc * 256 + b) bs

abbrev as_array : ℕ → Bytes → Decoder ℕ
as_array width bs = if length bs == width then pure (from_be 0 bs) else fail invalid_utf8

unfoldable pub u16 : Decoder ℕ
unfolding take_bytes ◌>>=◌ pure fail
u16 = take_bytes 2 >>= as_array 2

unfoldable pub u32 : Decoder ℕ
unfolding take_bytes ◌>>=◌ pure fail
u32 = take_bytes 4 >>= as_array 4

unfoldable pub u64 : Decoder ℕ
unfolding take_bytes ◌>>=◌ pure fail
u64 = take_bytes 8 >>= as_array 8

bounded_take : ℕ → Decoder Bytes
bounded_take claimed r =
    if ltb (remaining r) claimed
    then err (length_too_large claimed (remaining r))
    else take_bytes claimed r

unfoldable pub bytes : Decoder Bytes
unfolding u32 bounded_take ◌>>=◌
bytes = u32 >>= bounded_take

as_utf8 : Bytes → Decoder Bytes
as_utf8 bs = if is_utf8 bs then pure bs else fail invalid_utf8

-- `text` borrows and `string` owns; the bytes are the same.
unfoldable pub text : Decoder Bytes
unfolding bytes as_utf8 ◌>>=◌ pure fail is_utf8
text = bytes >>= as_utf8

module _ {A : Type 0} (decode : Decoder A) where
  option_of : ℕ → Decoder (Option A)
  option_of found =
      if found == 0
      then pure none
      else if found == 1
      then (do inner ← decode; pure (some inner))
      else fail (invalid_tag found)

  unfoldable pub option : Decoder (Option A)
  unfolding tag option_of ◌>>=◌ pure fail
  option = tag >>= option_of

  -- The loop of `list`, on the number of items left.
  unfoldable pub items : ℕ → Decoder (List A)
  unfolding ◌>>=◌ pure
  items zero = pure []
  items (suc n) = do x ← decode; xs ← items n; pure (x ∷ xs)

  unfoldable pub list : Decoder (List A)
  unfolding u32 items ◌>>=◌
  list = u32 >>= items

-- A table lookup by the name read; the first entry of that name wins.
unfoldable pub find_variant : {A : Type 0} → Bytes → List (Bytes × A) → Option A
unfolding Bytes-discrete
find_variant found [] = none
find_variant found ((name, value) ∷ table) =
    ite (Bytes-discrete name found) (some value) (find_variant found table)

-- `ok_or_else(|| UnknownVariant { .. })`
unfoldable pub or_unknown : {A : Type 0} → Bytes → Bytes → Option A → Decoder A
unfolding pure fail
or_unknown vocabulary found none = fail (unknown_variant vocabulary found)
or_unknown vocabulary found (some value) = pure value

unfoldable pub variant : {A : Type 0} → Bytes → List (Bytes × A) → Decoder A
unfolding text find_variant or_unknown ◌>>=◌
variant vocabulary table = do found ← text; or_unknown vocabulary found (find_variant found table)

-- `Reader::read`: one value from a whole buffer.
unfoldable pub read : {A : Type 0} → Decoder A → Bytes → Result DecodeError A
unfolding new finish
read decode buffer = elim (decode (new buffer)) [
  | ok (value, r) ↦ elim (finish r) [ ok _ ↦ ok value | err e ↦ err e ]
  | err e ↦ err e
]
