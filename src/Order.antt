-- ===== src/Order.antt =====
-- Total orders, `sort_unstable` followed by `dedup`, and a `BTreeMap`: the parts of Rust's standard
-- library on which the canonical order of records, claims and limitations rests.
pub mod Sorting
pub mod Map
use topgent.Base.{ℕ, ◌≡◌, refl, compare, Ordering, List, [], ◌∷◌, arith}
use topgent.Text.{Bytes}

-- `Ord`.
pub record Order (A : Type 0) : Type 0 where
  pub cmp : A → A → Ordering
  pub cmp_refl : (a : A) → cmp a a ≡ Ordering.eq
  pub cmp_eq : (a b : A) → cmp a b ≡ Ordering.eq → a ≡ b
  pub cmp_lt : (a b : A) → cmp a b ≡ Ordering.lt → cmp b a ≡ Ordering.gt
  pub cmp_gt : (a b : A) → cmp a b ≡ Ordering.gt → cmp b a ≡ Ordering.lt
  pub cmp_trans :
      (a b c : A) → cmp a b ≡ Ordering.lt → cmp b c ≡ Ordering.lt → cmp a c ≡ Ordering.lt

-- Byte strings in lexicographic order, as `str` and `String` compare.
unfoldable pub lex : Bytes → Bytes → Ordering
lex [] [] = Ordering.eq
lex [] (y ∷ ys) = Ordering.lt
lex (x ∷ xs) [] = Ordering.gt
lex (x ∷ xs) (y ∷ ys) = elim (compare x y) [
  | Ordering.lt ↦ Ordering.lt
  | Ordering.gt ↦ Ordering.gt
  | Ordering.eq ↦ lex xs ys
]

pub lex_refl : (a : Bytes) → lex a a ≡ Ordering.eq
unfolding lex
lex_refl [] = refl
lex_refl (x ∷ xs) = ground (arith, lex_refl xs)

pub lex_eq : (a b : Bytes) → lex a b ≡ Ordering.eq → a ≡ b
unfolding lex
lex_eq [] [] h = refl
lex_eq [] (y ∷ ys) h = ground arith
lex_eq (x ∷ xs) [] h = ground arith
lex_eq (x ∷ xs) (y ∷ ys) h = ground (arith, lex_eq xs ys)

pub lex_lt : (a b : Bytes) → lex a b ≡ Ordering.lt → lex b a ≡ Ordering.gt
unfolding lex
lex_lt [] [] h = ground arith
lex_lt [] (y ∷ ys) h = refl
lex_lt (x ∷ xs) [] h = ground arith
lex_lt (x ∷ xs) (y ∷ ys) h = ground (arith, lex_lt xs ys)

pub lex_gt : (a b : Bytes) → lex a b ≡ Ordering.gt → lex b a ≡ Ordering.lt
unfolding lex
lex_gt [] [] h = ground arith
lex_gt [] (y ∷ ys) h = ground arith
lex_gt (x ∷ xs) [] h = refl
lex_gt (x ∷ xs) (y ∷ ys) h = ground (arith, lex_gt xs ys)

pub lex_trans :
    (a b c : Bytes) → lex a b ≡ Ordering.lt → lex b c ≡ Ordering.lt → lex a c ≡ Ordering.lt
unfolding lex
lex_trans [] [] c h k = ground arith
lex_trans [] (y ∷ ys) [] h k = ground arith
lex_trans [] (y ∷ ys) (z ∷ zs) h k = refl
lex_trans (x ∷ xs) [] c h k = ground arith
lex_trans (x ∷ xs) (y ∷ ys) [] h k = ground arith
lex_trans (x ∷ xs) (y ∷ ys) (z ∷ zs) h k = ground (arith, lex_trans xs ys zs)

abbrev pub bytes_order : Order Bytes
bytes_order = record {
  cmp = lex;
  cmp_refl = lex_refl;
  cmp_eq = lex_eq;
  cmp_lt = lex_lt;
  cmp_gt = lex_gt;
  cmp_trans = lex_trans;
}
