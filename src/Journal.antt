-- ===== src/Journal.antt =====
-- crates/topgent-journal/src: the records that the journal keeps between sweeps, and the operations
-- that change them. A text is its Unicode code points. A file is the list of its well-typed members;
-- the tests that the readers put to a member are part of each operation, so a record that was
-- written is not always read again. The lock, the JSON and the atomic replacement are left out.
pub mod Table
pub mod Transitions
pub mod Lookup
pub mod Upserts
pub mod Edges
pub mod Approvals
pub mod Evolution
pub mod Decisions
pub mod Deadlines
pub mod Cooldowns
pub mod Sensors
pub mod Limits
pub mod Bounds
mod Tests
use topgent.Base.{
  ℕ, ◌-◌, Bool, true, false, not, ite, ◌||◌, ◌&&◌, leb, ltb, ◌==◌, List, [], ◌∷◌, ◌++◌, map, length,
  take, if◌then◌else◌, ◌≡◌, arith,
}
use topgent.Text.{Bytes-discrete}

abbrev pub Chars : Type 0
Chars = List ℕ

-- `char::is_control`, and `char::is_whitespace`.
abbrev is_control : ℕ → Bool
is_control c = leb c 31 || (leb 127 c && leb c 159)

abbrev is_whitespace : ℕ → Bool
is_whitespace c =
    (leb 9 c && leb c 13)
    || c == 32
    || c == 0x85
    || c == 0xa0
    || c == 0x1680
    || (leb 0x2000 c && leb c 0x200a)
    || c == 0x2028
    || c == 0x2029
    || c == 0x202f
    || c == 0x205f
    || c == 0x3000

-- text.rs, `bounded_metadata`: `split_whitespace`, where `word` is the word that is being read.
unfoldable pub emit_word : Chars → List Chars → List Chars
emit_word [] words = words
emit_word (w ∷ word) words = (w ∷ word) ∷ words

unfoldable pub split_whitespace : Chars → Chars → List Chars
unfolding emit_word
split_whitespace [] word = emit_word word []
split_whitespace (c ∷ cs) word =
    let rest = split_whitespace cs (if is_whitespace c then [] else word ++ c ∷ []) in
    if is_whitespace c then emit_word word rest else rest

-- `join(" ")`
unfoldable pub join_words : List Chars → Chars
join_words [] = []
join_words (w ∷ []) = w
join_words (w ∷ v ∷ ws) = w ++ 32 ∷ join_words (v ∷ ws)

unfoldable pub blank_control : Chars → Chars
blank_control = map (λ c. if is_control c then 32 else c)

-- Cut to `max` characters, the last an ellipsis.
unfoldable pub cut_text : Chars → ℕ → Chars
cut_text value max = if ltb max (length value) then take (max - 1) value ++ 0x2026 ∷ [] else value

unfoldable pub bounded_metadata : Chars → ℕ → Chars
unfolding split_whitespace join_words blank_control cut_text
bounded_metadata input max = cut_text (join_words (split_whitespace (blank_control input) [])) max

unfoldable pub is_empty : Chars → Bool
is_empty [] = true
is_empty (c ∷ cs) = false

-- `==` on texts.
unfoldable pub same_text : Chars → Chars → Bool
unfolding Bytes-discrete
same_text a b = ite (Bytes-discrete a b) true false

-- The test that each reader puts to the text that names a record.
unfoldable pub is_kept : Chars → ℕ → Bool
is_kept text max =
    not (is_empty text) && leb (length text) max && same_text (bounded_metadata text max) text

pub same_text-eq : (a b : Chars) → same_text a b ≡ true → a ≡ b
unfolding same_text
same_text-eq a b h = ground arith

pub same_text_self : (a : Chars) → same_text a a ≡ true
unfolding same_text
same_text_self a = ground arith
