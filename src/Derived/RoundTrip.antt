-- ===== src/Derived/RoundTrip.antt =====
-- claim.rs: `DerivedClaim::new` and its checks, and `Decode for DerivedClaim` against `Encode`.
use topgent.Base.{◌≡◌, ◌≤◌, refl, sym, ap, ◌∙◌, List, [], ◌∷◌, length, ok, arith, subst, All}
use topgent.Text.{Bytes}
use topgent.Canonical.{u32_max}
use topgent.Crypto.{Crypto}
use topgent.Reader
use topgent.Reader.{usize_max, read}
use topgent.Reader.Reads.{Reads, Reads-bind, Reads-map, read-Reads}
use topgent.Reader.Primitives.{IsText, text-Reads, u32-Reads, list-Reads}
use topgent.Order.{bytes_order}
use topgent.Order.Sorting.{
  sort_dedup, sort_dedup-IsAscending, sort_dedup_fixed, is_empty-sort_dedup,
}
use topgent.Facts.{Subject}
use topgent.Vocabulary.{AttributionQuality, RuleId}
use topgent.Wire.RoundTrip.{IsSubject, subject-Reads}
use topgent.Quality.{Assessment, encode_limitation, decode_limitation}
use topgent.Quality.Laws.{quality-Reads, coverage-Reads, limitation_order, limitations-All}
use topgent.Record.{EvidenceId}
use topgent.Derived.{
  DerivedClaim, encode_rule, encode_id, encode_derived, check_claim, new_claim, address,
  decode_rule, decode_derived, admit_claim,
}

abbrev pub IsRule : RuleId → Type 0
IsRule r = IsText r.name × (r.version ≤ u32_max)

rule-Reads : (r : RuleId) → IsRule r → Reads decode_rule (encode_rule r) r
unfolding decode_rule encode_rule
rule-Reads r h = Reads-bind _ _ (text-Reads h.0) (Reads-map _ _ (u32-Reads r.version h.1) refl)

ids-All :
    (ids : List EvidenceId) → All IsText ids → All (λ i. Reads Reader.text (encode_id i) i) ids
ids-All [] h = tt
ids-All (i ∷ ids) h = (text-Reads h.0, ids-All ids h.1)

-- The checks look at the lists of ids only for being empty.
check_claim-sort_dedup :
    (r : RuleId) (s : Bytes) (q : AttributionQuality) (xs ys : List EvidenceId)
    → check_claim r s q xs ys ≡ ok tt
    → check_claim r s q (sort_dedup bytes_order xs) (sort_dedup bytes_order ys) ≡ ok tt
unfolding check_claim
check_claim-sort_dedup r s q xs ys h =
    ground (arith, is_empty-sort_dedup bytes_order xs, is_empty-sort_dedup bytes_order ys)

module _ (c : Crypto) where
  abbrev pub unchecked :
      RuleId → Subject → Bytes → Assessment → List EvidenceId → List EvidenceId → DerivedClaim
  unchecked r j s a xs ys = record {
    id = [];
    rule = r;
    subject = j;
    statement = s;
    quality = a.quality;
    coverage = a.coverage;
    supporting = sort_dedup bytes_order xs;
    contradicting = sort_dedup bytes_order ys;
    limitations = sort_dedup limitation_order a.limitations;
  }

  pub new_claim-ok :
      (r : RuleId) (j : Subject) (s : Bytes) (a : Assessment) (xs ys : List EvidenceId)
      {d : DerivedClaim}
      → new_claim c r j s a xs ys ≡ ok d
      → (check_claim r s a.quality xs ys ≡ ok tt) × (d ≡ address c (unchecked r j s a xs ys))
  unfolding new_claim
  new_claim-ok r j s a xs ys h = ground arith

  new_claim-checked :
      (r : RuleId) (j : Subject) (s : Bytes) (a : Assessment) (xs ys : List EvidenceId)
      → check_claim r s a.quality xs ys ≡ ok tt
      → new_claim c r j s a xs ys ≡ ok (address c (unchecked r j s a xs ys))
  unfolding new_claim
  new_claim-checked r j s a xs ys h = rw h

  abbrev assessment_of : DerivedClaim → Assessment
  assessment_of d = record {
    quality = d.quality;
    coverage = d.coverage;
    limitations = d.limitations;
  }

  abbrev IsFixed : DerivedClaim → Type 0
  IsFixed d =
      new_claim c d.rule d.subject d.statement (assessment_of d) d.supporting d.contradicting ≡ ok d

  unchecked-unchecked :
      (r : RuleId) (j : Subject) (s : Bytes) (a : Assessment) (xs ys : List EvidenceId)
      → unchecked r j s
          (assessment_of (unchecked r j s a xs ys))
          (sort_dedup bytes_order xs)
          (sort_dedup bytes_order ys)
        ≡ unchecked r j s a xs ys
  unchecked-unchecked r j s a xs ys = cc (
    sort_dedup_fixed bytes_order (sort_dedup bytes_order xs)
        (sort_dedup-IsAscending bytes_order xs),
    sort_dedup_fixed bytes_order (sort_dedup bytes_order ys)
        (sort_dedup-IsAscending bytes_order ys),
    sort_dedup_fixed limitation_order (sort_dedup limitation_order a.limitations)
        (sort_dedup-IsAscending limitation_order a.limitations),
  )

  -- `new` is idempotent: a claim that it made is what it makes of the claim's own parts.
  pub new_claim_idem :
      (r : RuleId) (j : Subject) (s : Bytes) (a : Assessment) (xs ys : List EvidenceId)
      {d : DerivedClaim}
      → new_claim c r j s a xs ys ≡ ok d
      → IsFixed d
  unfolding address
  new_claim_idem r j s a xs ys h =
      let (checked, e) = new_claim-ok r j s a xs ys h in
      let u = unchecked r j s a xs ys in
      subst IsFixed (sym e) (
        new_claim-checked r j s (assessment_of u) u.supporting u.contradicting
          (check_claim-sort_dedup r s a.quality xs ys checked)
        ∙ ap (λ (d : DerivedClaim). ok (address c d)) (unchecked-unchecked r j s a xs ys))

  -- A claim of `new`'s making whose fields can be written.
  pub record IsDerived (d : DerivedClaim) : Type 0 where
    pub built : IsFixed d
    pub rule : IsRule d.rule
    pub subject : IsSubject d.subject
    pub statement : IsText d.statement
    pub supporting : (length d.supporting ≤ u32_max) × All IsText d.supporting
    pub contradicting : (length d.contradicting ≤ u32_max) × All IsText d.contradicting
    pub limitations : length d.limitations ≤ u32_max

  pub derived-Reads :
      (d : DerivedClaim) → IsDerived d → Reads (decode_derived c) (encode_derived d) d
  unfolding decode_derived encode_derived
  derived-Reads d h = Reads-bind _ _ (rule-Reads d.rule h.rule) (
      Reads-bind _ _ (subject-Reads d.subject h.subject) (
        Reads-bind _ _ (text-Reads h.statement) (
          Reads-bind _ _ (quality-Reads d.quality) (
            Reads-bind _ _ (coverage-Reads d.coverage) (
              Reads-bind _ _
                (list-Reads encode_id Reader.text d.supporting h.supporting.0
                  (ids-All d.supporting h.supporting.1))
                (Reads-bind _ _
                  (list-Reads encode_id Reader.text d.contradicting h.contradicting.0
                    (ids-All d.contradicting h.contradicting.1))
                  (Reads-map _ _
                    (list-Reads encode_limitation decode_limitation d.limitations h.limitations
                      (limitations-All d.limitations))
                    (rw (h.built, admit_claim)))))))))

  -- Reading the canonical bytes of a claim that `new` made gives that claim, id and all, where its
  -- fields are in the ranges of their types and the bytes are no more than a buffer holds.
  pub derived_round_trip :
      (r : RuleId) (j : Subject) (s : Bytes) (a : Assessment) (xs ys : List EvidenceId)
      (d : DerivedClaim)
      → new_claim c r j s a xs ys ≡ ok d
      → IsRule d.rule
      → IsSubject d.subject
      → IsText d.statement
      → (length d.supporting ≤ u32_max) × All IsText d.supporting
      → (length d.contradicting ≤ u32_max) × All IsText d.contradicting
      → length d.limitations ≤ u32_max
      → length (encode_derived d) ≤ usize_max
      → read (decode_derived c) (encode_derived d) ≡ ok d
  derived_round_trip r j s a xs ys d h rule subject statement supporting contradicting limitations
        fits =
      read-Reads (decode_derived c)
        (derived-Reads d (record {
          built = new_claim_idem r j s a xs ys h;
          rule = rule;
          subject = subject;
          statement = statement;
          supporting = supporting;
          contradicting = contradicting;
          limitations = limitations;
        }))
        fits
