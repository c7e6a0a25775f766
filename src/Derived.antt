-- ===== src/Derived.antt =====
-- crates/topgent-evidence/src/claim.rs: a conclusion, and the path back to what it was concluded
-- from.
pub mod RoundTrip
use topgent.Base.{
  ℕ, ◌≡◌, List, [], ◌++◌, Bool, not, ◌&&◌, Result, ok, err, length, is_empty, ◌==◌, ◌∷◌,
}
use topgent.Text.{Bytes, is_blank}
use topgent.Canonical
use topgent.Canonical.{text}
use topgent.Crypto.{Crypto, digest}
use topgent.Outcome.{refuse_if, ◌>>◌}
use topgent.Reader
use topgent.Reader.{Decoder, ◌>>=◌, rejected}
use topgent.Order.{bytes_order}
use topgent.Order.Sorting.{sort_dedup}
use topgent.Facts.{Subject}
use topgent.Vocabulary.{
  AttributionQuality, CollectionCoverage, Limitation, RuleId, ClaimError, Reason,
}
use topgent.Wire.{encode_subject}
use topgent.Wire.Decode.{decode_subject}
use topgent.Quality.{
  Assessment, quality_tag, encode_quality, encode_coverage, encode_limitation, decode_quality,
  decode_coverage, decode_limitation,
}
use topgent.Quality.Laws.{limitation_order}
use topgent.Record.{EvidenceId}

abbrev pub ClaimId : Type 0
ClaimId = Bytes

pub record DerivedClaim : Type 0 where
  pub id : ClaimId
  pub rule : RuleId
  pub subject : Subject
  pub statement : Bytes
  pub quality : AttributionQuality
  pub coverage : CollectionCoverage
  pub supporting : List EvidenceId
  pub contradicting : List EvidenceId
  pub limitations : List Limitation

unfoldable pub encode_rule : RuleId → Bytes
encode_rule r = text r.name ++ Canonical.u32 r.version

-- `EvidenceId::encode`
abbrev pub encode_id : EvidenceId → Bytes
encode_id id = text id

unfoldable pub encode_derived : DerivedClaim → Bytes
unfolding encode_rule
encode_derived d =
    encode_rule d.rule
    ++ (encode_subject d.subject
        ++ (text d.statement
            ++ (encode_quality d.quality
                ++ (encode_coverage d.coverage
                    ++ (Canonical.list encode_id d.supporting
                        ++ (Canonical.list encode_id d.contradicting
                            ++ Canonical.list encode_limitation d.limitations))))))

is_contradicted : AttributionQuality → Bool
is_contradicted q = quality_tag q == quality_tag AttributionQuality.contradicted

-- The checks of `DerivedClaim::new`, in its order.
unfoldable pub check_claim :
    RuleId
    → Bytes
    → AttributionQuality
    → List EvidenceId
    → List EvidenceId
    → Result ClaimError (Unit {0})
unfolding is_contradicted is_blank
check_claim rule statement quality supporting contradicting =
    refuse_if (is_blank rule.name) ClaimError.blank_rule
    >> refuse_if (is_blank statement) ClaimError.blank_statement
    >> refuse_if (is_empty supporting) (ClaimError.no_supporting_evidence rule)
    >> refuse_if (not (is_empty contradicting) && not (is_contradicted quality))
        (ClaimError.contradiction_ignored quality (length contradicting))

module _ (c : Crypto) where
  unfoldable pub address : DerivedClaim → DerivedClaim
  unfolding digest encode_derived
  address d = record d { id = digest c (encode_derived d) }

  -- `DerivedClaim::new`.
  unfoldable pub new_claim :
      RuleId
      → Subject
      → Bytes
      → Assessment
      → List EvidenceId
      → List EvidenceId
      → Result ClaimError DerivedClaim
  new_claim rule subject statement assessment supporting contradicting =
      check_claim rule statement assessment.quality supporting contradicting
      >> ok (
          address (record {
            id = [];
            rule = rule;
            subject = subject;
            statement = statement;
            quality = assessment.quality;
            coverage = assessment.coverage;
            supporting = sort_dedup bytes_order supporting;
            contradicting = sort_dedup bytes_order contradicting;
            limitations = sort_dedup limitation_order assessment.limitations;
          }))

-- `DerivedClaim::referenced`.
unfoldable pub referenced : DerivedClaim → List EvidenceId
referenced d = d.supporting ++ d.contradicting

unfoldable pub decode_rule : Decoder RuleId
unfolding Reader.text Reader.u32 ◌>>=◌ Reader.pure
decode_rule = do
  name ← Reader.text
  version ← Reader.u32
  Reader.pure (record { name = name; version = version })

-- `.map_err(|error| DecodeError::Rejected { .. })`
unfoldable pub admit_claim : Result ClaimError DerivedClaim → Decoder DerivedClaim
unfolding Reader.pure Reader.fail
admit_claim (ok d) = Reader.pure d
admit_claim (err e) = Reader.fail (rejected (Reason.claim e))

module _ (c : Crypto) where
  unfoldable pub decode_derived : Decoder DerivedClaim
  unfolding Reader.text Reader.list decode_rule decode_subject decode_quality decode_coverage
      decode_limitation new_claim admit_claim ◌>>=◌
  decode_derived = do
    rule ← decode_rule
    subject ← decode_subject
    statement ← Reader.text
    quality ← decode_quality
    coverage ← decode_coverage
    supporting ← Reader.list Reader.text
    contradicting ← Reader.list Reader.text
    limitations ← Reader.list decode_limitation
    admit_claim (
        new_claim c rule subject statement
          (record { quality = quality; coverage = coverage; limitations = limitations }) supporting
          contradicting)
