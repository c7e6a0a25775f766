-- ===== src/Text.antt =====
-- Text as its UTF-8 bytes: what crates/topgent-evidence and crates/topgent-facts use of Rust's
-- `str`: `from_utf8`, `trim().is_empty()`, `==`, `len`, and the lowercase hex of a digest.
use Prim.Native.Char.{code}
use Prim.Native.String.{String}
use topgent.Base.{
  ℕ, Bool, true, false, ◌&&◌, ◌||◌, List, [], ◌∷◌, leb, ◌==◌, if◌then◌else◌, ℕ_discrete, ◌+◌, map,
}

-- A byte string, and a text by its UTF-8 bytes.
abbrev pub Bytes : Type 0
Bytes = List ℕ

-- The bytes of an ASCII literal.
abbrev pub ascii : String → Bytes
ascii String.[] = []
ascii (String.◌∷◌ c s) = code c ∷ ascii s

unfoldable pub Bytes-discrete : Discrete Bytes
unfolding ℕ_discrete
Bytes-discrete = hlevel ℕ_discrete

-- Continuation bytes, and the lead bytes with the range that they leave to the second byte.
abbrev between : ℕ → ℕ → ℕ → Bool
between lo hi b = leb lo b && leb b hi

abbrev continuation : ℕ → Bool
continuation = between 0x80 0xbf

abbrev second_of_three : ℕ → ℕ → Bool
second_of_three lead b =
    if lead == 0xe0
    then between 0xa0 0xbf b
    else if lead == 0xed
    then between 0x80 0x9f b
    else continuation b

abbrev second_of_four : ℕ → ℕ → Bool
second_of_four lead b =
    if lead == 0xf0
    then between 0x90 0xbf b
    else if lead == 0xf4
    then between 0x80 0x8f b
    else continuation b

-- `core::str::from_utf8`: whether the bytes are well-formed UTF-8.
unfoldable pub is_utf8 : Bytes → Bool
is_utf8 [] = true
is_utf8 (a ∷ []) = leb a 0x7f
is_utf8 (a ∷ b ∷ []) = elim (leb a 0x7f) [
  | true ↦ is_utf8 (b ∷ [])
  | false ↦ between 0xc2 0xdf a && continuation b
]
is_utf8 (a ∷ b ∷ c ∷ []) = elim (leb a 0x7f) [
  | true ↦ is_utf8 (b ∷ c ∷ [])
  | false ↦ elim (between 0xc2 0xdf a && continuation b) [
    | true ↦ is_utf8 (c ∷ [])
    | false ↦ between 0xe0 0xef a && second_of_three a b && continuation c
  ]
]
is_utf8 (a ∷ b ∷ c ∷ d ∷ rest) = elim (leb a 0x7f) [
  | true ↦ is_utf8 (b ∷ c ∷ d ∷ rest)
  | false ↦ elim (between 0xc2 0xdf a && continuation b) [
    | true ↦ is_utf8 (c ∷ d ∷ rest)
    | false ↦ elim (between 0xe0 0xef a && second_of_three a b && continuation c) [
      | true ↦ is_utf8 (d ∷ rest)
      | false ↦
          elim (between 0xf0 0xf4 a && second_of_four a b && continuation c && continuation d) [
            | true ↦ is_utf8 rest
            | false ↦ false
          ]
    ]
  ]
]

-- The characters of Unicode's White_Space that take one, two and three bytes.
abbrev white1 : ℕ → Bool
white1 a = between 9 13 a || a == 0x20

abbrev white2 : ℕ → ℕ → Bool
white2 a b = a == 0xc2 && (b == 0x85 || b == 0xa0)

abbrev white3 : ℕ → ℕ → ℕ → Bool
white3 a b c =
    (a == 0xe1 && b == 0x9a && c == 0x80)
    || (a == 0xe2 && b == 0x80 && (between 0x80 0x8a c || between 0xa8 0xa9 c || c == 0xaf))
    || (a == 0xe2 && b == 0x81 && c == 0x9f)
    || (a == 0xe3 && b == 0x80 && c == 0x80)

-- `s.trim().is_empty()`.
unfoldable pub is_blank : Bytes → Bool
is_blank [] = true
is_blank (a ∷ []) = white1 a
is_blank (a ∷ b ∷ []) = elim (white1 a) [ true ↦ is_blank (b ∷ []) | false ↦ white2 a b ]
is_blank (a ∷ b ∷ c ∷ rest) = elim (white1 a) [
  | true ↦ is_blank (b ∷ c ∷ rest)
  | false ↦ elim (white2 a b) [
    | true ↦ is_blank (c ∷ rest)
    | false ↦ elim (white3 a b c) [ true ↦ is_blank rest | false ↦ false ]
  ]
]

-- `u8::to_ascii_lowercase`, and the same of a text.
abbrev lower : ℕ → ℕ
lower b = if between 65 90 b then b + 32 else b

abbrev pub to_ascii_lowercase : Bytes → Bytes
to_ascii_lowercase = map lower

unfoldable pub eq_ignore_ascii_case : Bytes → Bytes → Bool
eq_ignore_ascii_case [] [] = true
eq_ignore_ascii_case (x ∷ xs) (y ∷ ys) = lower x == lower y && eq_ignore_ascii_case xs ys
eq_ignore_ascii_case _ _ = false
