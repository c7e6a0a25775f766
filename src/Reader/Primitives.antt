-- ===== src/Reader/Primitives.antt =====
-- The readers of reader.rs against the writers of canonical.rs.
use topgent.Base.{
  ℕ, ◌≤◌, ◌<◌, ◌^◌, ◌≡◌, refl, List, [], ◌∷◌, ◌++◌, Option, none, some, Bool, true, false, arith,
  length, length-append, All, ◌∙◌, ==-self,
}
use topgent.Text.{Bytes, is_utf8}
use topgent.Canonical
use topgent.Canonical.{u32_max}
use topgent.Reader
use topgent.Reader.{
  Reader, Decoder, ◌>>=◌, pure, take_bytes, first_byte, bounded_take, as_utf8, option_of,
}
use topgent.Reader.{from_be, as_array, find_variant, or_unknown, variant, remaining}
use topgent.Reader.Reads.{
  At, Reads, Reads-pure, Reads-bind, Reads-map, take_bytes-Reads, left-length,
}

pub tag-Reads : (t : ℕ) → Reads Reader.tag (Canonical.tag t) t
unfolding Reader.tag Canonical.tag
tag-Reads t =
    Reads-map (take_bytes 1) first_byte (take_bytes-Reads (t ∷ [])) (unfold first_byte pure in refl)

pub boolean-Reads : (b : Bool) → Reads Reader.boolean (Canonical.boolean b) b
unfolding Reader.boolean Canonical.boolean
boolean-Reads false = Reads-map Reader.tag _ (tag-Reads 0) refl
boolean-Reads true = Reads-map Reader.tag _ (tag-Reads 1) refl

-- A whole word of `width` bytes.
word-Reads :
    (width : ℕ) (e : Bytes) (v : ℕ)
    → length e ≡ width
    → from_be 0 e ≡ v
    → Reads (take_bytes width >>= as_array width) e v
word-Reads width e v size value = rw (← size) (
    Reads-map (take_bytes (length e)) (as_array (length e)) (take_bytes-Reads e)
      (rw (==-self (length e), value)))

pub u16-Reads : (v : ℕ) → v < 2 ^ 16 → Reads Reader.u16 (Canonical.u16 v) v
unfolding Reader.u16 Canonical.u16
u16-Reads v h = word-Reads 2 _ v refl (omega arith)

pub u32-Reads : (v : ℕ) → v ≤ u32_max → Reads Reader.u32 (Canonical.u32 v) v
unfolding Reader.u32 Canonical.u32
u32-Reads v h = word-Reads 4 _ v refl (omega arith)

pub u64-Reads : (v : ℕ) → v < 2 ^ 64 → Reads Reader.u64 (Canonical.u64 v) v
unfolding Reader.u64 Canonical.u64
u64-Reads v h = word-Reads 8 _ v refl (omega arith)

count_u32_lem : (n : ℕ) → n ≤ u32_max → Canonical.count_u32 n ≡ n
unfolding Canonical.count_u32
count_u32_lem n h = ground arith

bounded_take_lem :
    (r : Reader) (e rest : Bytes)
    → At r (e ++ rest)
    → bounded_take (length e) r ≡ take_bytes (length e) r
unfolding bounded_take remaining
bounded_take_lem r e rest h = ground (arith, left-length (e ++ rest) h, length-append e rest)

bounded_take-Reads : (e : Bytes) → Reads (bounded_take (length e)) e e
bounded_take-Reads e = record {
  run = λ r rest h.
      let (r', p, h') = (take_bytes-Reads e).run r rest h in
      (r', bounded_take_lem r e rest h ∙ p, h');
}

-- A text that can be written: well-formed UTF-8 that a u32 counts.
pub record IsText (s : Bytes) : Type 0 where
  pub utf8 : is_utf8 s ≡ true
  pub fits : length s ≤ u32_max

pub bytes-Reads : (s : Bytes) → length s ≤ u32_max → Reads Reader.bytes (Canonical.bytes s) s
unfolding Reader.bytes Canonical.bytes
bytes-Reads s h =
    rw (count_u32_lem (length s) h)
      (Reads-bind Reader.u32 bounded_take (u32-Reads (length s) h) (bounded_take-Reads s))

pub text-Reads : {s : Bytes} → IsText s → Reads Reader.text (Canonical.text s) s
unfolding Reader.text Canonical.text
text-Reads {s} h = Reads-map Reader.bytes as_utf8 (bytes-Reads s h.fits) (rw (as_utf8, h.utf8))

module _ {A : Type 0} (encode : A → Bytes) (decode : Decoder A) where
  abbrev pub OptionReads : Option A → Type 0
  OptionReads none = Unit
  OptionReads (some a) = Reads decode (encode a) a

  pub option-Reads :
      (o : Option A) → OptionReads o → Reads (Reader.option decode) (Canonical.option encode o) o
  unfolding Reader.option Canonical.option
  option-Reads none h =
      Reads-map Reader.tag (option_of decode) (tag-Reads 0) (unfold option_of in refl)
  option-Reads (some a) h =
      Reads-bind Reader.tag (option_of decode) (tag-Reads 1)
        (unfold option_of in Reads-map decode _ h refl)

  pub items-Reads :
      (xs : List A)
      → All (λ a. Reads decode (encode a) a) xs
      → Reads (Reader.items decode (length xs)) (Canonical.items encode xs) xs
  unfolding Reader.items Canonical.items
  items-Reads [] h = Reads-pure []
  items-Reads (x ∷ xs) h =
      Reads-bind decode _ h.0
        (Reads-map (Reader.items decode (length xs)) _ (items-Reads xs h.1) refl)

  pub list-Reads :
      (xs : List A)
      → length xs ≤ u32_max
      → All (λ a. Reads decode (encode a) a) xs
      → Reads (Reader.list decode) (Canonical.list encode xs) xs
  unfolding Reader.list Canonical.list
  list-Reads xs fits h =
      rw (count_u32_lem (length xs) fits) (
        Reads-bind Reader.u32 (Reader.items decode) (u32-Reads (length xs) fits) (items-Reads xs h))

pub variant-Reads :
    {A : Type 0} (vocabulary : Bytes) (table : List (Bytes × A)) {name : Bytes} {a : A}
    → IsText name
    → find_variant name table ≡ some a
    → Reads (variant vocabulary table) (Canonical.text name) a
unfolding variant
variant-Reads vocabulary table h p = Reads-map Reader.text _ (text-Reads h) (rw (p, or_unknown))
