-- ===== src/Quality/Laws.antt =====
-- quality.rs: the decoders of the tags against the encoders, and the derived order of limitations.
use topgent.Base.{
  sym, ap, ◌∙◌, ℕ, ◌≡◌, refl, compare, Ordering, some, get_elem?, arith, List, All, [], ◌∷◌,
}
use topgent.Text.{Bytes}
use topgent.Canonical
use topgent.Reader
use topgent.Reader.{or_unknown}
use topgent.Reader.Reads.{Reads, Reads-map}
use topgent.Reader.Primitives.{tag-Reads}
use topgent.Order.{Order}
use topgent.Vocabulary.{AttributionQuality, CollectionCoverage, Limitation}
use topgent.Quality.{
  quality_tag, coverage_tag, limitation_tag, encode_quality, encode_coverage, encode_limitation,
  tagged, quality_table, coverage_table, limitation_table, decode_quality, decode_coverage,
  decode_limitation, compare_limitations,
}

tagged-Reads :
    {A : Type 0} (vocabulary : Bytes) (table : List A) (n : ℕ) {a : A}
    → get_elem? table n ≡ some a
    → Reads (tagged vocabulary table) (Canonical.tag n) a
unfolding tagged
tagged-Reads vocabulary table n p = Reads-map Reader.tag _ (tag-Reads n) (rw (p, or_unknown))

quality_table_lem : (q : AttributionQuality) → get_elem? quality_table (quality_tag q) ≡ some q
quality_table_lem AttributionQuality.unknown = refl
quality_table_lem _ = refl

coverage_table_lem : (q : CollectionCoverage) → get_elem? coverage_table (coverage_tag q) ≡ some q
coverage_table_lem CollectionCoverage.unsupported = refl
coverage_table_lem _ = refl

limitation_table_lem : (q : Limitation) → get_elem? limitation_table (limitation_tag q) ≡ some q
limitation_table_lem Limitation.confinement_unknown = refl
limitation_table_lem _ = refl

some_injective : {A : Type 0} {a b : A} → some a ≡ some b → a ≡ b
some_injective h = cc

pub quality_tag_injective : (a b : AttributionQuality) → quality_tag a ≡ quality_tag b → a ≡ b
quality_tag_injective a b h =
    some_injective
      (sym (quality_table_lem a) ∙ ap (get_elem? quality_table) h ∙ quality_table_lem b)

pub coverage_tag_injective : (a b : CollectionCoverage) → coverage_tag a ≡ coverage_tag b → a ≡ b
coverage_tag_injective a b h =
    some_injective
      (sym (coverage_table_lem a) ∙ ap (get_elem? coverage_table) h ∙ coverage_table_lem b)

pub quality-Reads : (q : AttributionQuality) → Reads decode_quality (encode_quality q) q
unfolding decode_quality encode_quality
quality-Reads q = tagged-Reads _ quality_table (quality_tag q) (quality_table_lem q)

pub coverage-Reads : (q : CollectionCoverage) → Reads decode_coverage (encode_coverage q) q
unfolding decode_coverage encode_coverage
coverage-Reads q = tagged-Reads _ coverage_table (coverage_tag q) (coverage_table_lem q)

pub limitation-Reads : (q : Limitation) → Reads decode_limitation (encode_limitation q) q
unfolding decode_limitation encode_limitation
limitation-Reads q = tagged-Reads _ limitation_table (limitation_tag q) (limitation_table_lem q)

limitation_tag-injective : (a b : Limitation) → limitation_tag a ≡ limitation_tag b → a ≡ b
limitation_tag-injective a b h =
    cc (limitation_table_lem a, limitation_table_lem b, ap (get_elem? limitation_table) h)

pub limitations_refl : (a : Limitation) → compare_limitations a a ≡ Ordering.eq
unfolding compare_limitations
limitations_refl a = ground arith

pub limitations_eq : (a b : Limitation) → compare_limitations a b ≡ Ordering.eq → a ≡ b
unfolding compare_limitations
limitations_eq a b h =
    limitation_tag-injective a b (compare_eq (limitation_tag a) (limitation_tag b) h)
  where
    compare_eq : (m n : ℕ) → compare m n ≡ Ordering.eq → m ≡ n
    compare_eq m n e = ground arith

compare_lt : (m n : ℕ) → compare m n ≡ Ordering.lt → compare n m ≡ Ordering.gt
compare_lt m n h = ground arith

compare_gt : (m n : ℕ) → compare m n ≡ Ordering.gt → compare n m ≡ Ordering.lt
compare_gt m n h = ground arith

compare_trans :
    (k m n : ℕ) → compare k m ≡ Ordering.lt → compare m n ≡ Ordering.lt → compare k n ≡ Ordering.lt
compare_trans k m n h i = ground arith

pub limitations_lt :
    (a b : Limitation)
    → compare_limitations a b ≡ Ordering.lt
    → compare_limitations b a ≡ Ordering.gt
unfolding compare_limitations
limitations_lt a b h = compare_lt (limitation_tag a) (limitation_tag b) h

pub limitations_gt :
    (a b : Limitation)
    → compare_limitations a b ≡ Ordering.gt
    → compare_limitations b a ≡ Ordering.lt
unfolding compare_limitations
limitations_gt a b h = compare_gt (limitation_tag a) (limitation_tag b) h

pub limitations_trans :
    (a b c : Limitation)
    → compare_limitations a b ≡ Ordering.lt
    → compare_limitations b c ≡ Ordering.lt
    → compare_limitations a c ≡ Ordering.lt
unfolding compare_limitations
limitations_trans a b c h i =
    compare_trans (limitation_tag a) (limitation_tag b) (limitation_tag c) h i

abbrev pub limitation_order : Order Limitation
limitation_order = record {
  cmp = compare_limitations;
  cmp_refl = limitations_refl;
  cmp_eq = limitations_eq;
  cmp_lt = limitations_lt;
  cmp_gt = limitations_gt;
  cmp_trans = limitations_trans;
}

pub limitations-All :
    (ls : List Limitation) → All (λ l. Reads decode_limitation (encode_limitation l) l) ls
limitations-All [] = tt
limitations-All (l ∷ ls) = (limitation-Reads l, limitations-All ls)
