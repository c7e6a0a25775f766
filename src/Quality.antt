-- ===== src/Quality.antt =====
-- crates/topgent-evidence/src/quality.rs: the two dimensions of a claim and the limitations.
pub mod Laws
pub mod Weakest
mod Tests
use topgent.Base.{
  ℕ, ◌≡◌, refl, compare, Ordering, List, [], ◌∷◌, ◌++◌, Option, none, some, Bool, true, false, leb,
  if◌then◌else◌, get_elem?, ltb, ◌+◌, ◌/◌, ◌%◌,
}
use topgent.Text.{Bytes, ascii}
use topgent.Canonical
use topgent.Reader
use topgent.Reader.{Decoder, ◌>>=◌, pure, or_unknown}
use topgent.Order.{Order}
use topgent.Vocabulary.{AttributionQuality, CollectionCoverage, Limitation}
use topgent.Facts.{MatchBasis}

-- The discriminant of a variant: its tag on the wire, and `self as u8`.
abbrev pub quality_tag : AttributionQuality → ℕ
quality_tag AttributionQuality.unknown = 0
quality_tag AttributionQuality.contradicted = 1
quality_tag AttributionQuality.weak = 2
quality_tag AttributionQuality.strong = 3
quality_tag AttributionQuality.exact = 4

abbrev pub coverage_tag : CollectionCoverage → ℕ
coverage_tag CollectionCoverage.unsupported = 0
coverage_tag CollectionCoverage.loss_observed = 1
coverage_tag CollectionCoverage.collector_degraded = 2
coverage_tag CollectionCoverage.snapshot_only = 3
coverage_tag CollectionCoverage.complete_for_window = 4

abbrev pub limitation_tag : Limitation → ℕ
limitation_tag Limitation.confinement_unknown = 0
limitation_tag Limitation.foreign_credentials = 1
limitation_tag Limitation.no_access_check = 2
limitation_tag Limitation.owner_unresolved = 3
limitation_tag Limitation.snapshot_ancestry = 4
limitation_tag Limitation.partial_tuple = 5
limitation_tag Limitation.events_dropped = 6
limitation_tag Limitation.sensor_gap = 7
limitation_tag Limitation.provenance_unreported = 8

-- `AttributionQuality::weakest` and `CollectionCoverage::weakest`.
unfoldable pub weakest_quality : AttributionQuality → AttributionQuality → AttributionQuality
weakest_quality a b = if leb (quality_tag a) (quality_tag b) then a else b

unfoldable pub weakest_coverage : CollectionCoverage → CollectionCoverage → CollectionCoverage
weakest_coverage a b = if leb (coverage_tag a) (coverage_tag b) then a else b

unfoldable pub permits_completeness : CollectionCoverage → Bool
permits_completeness CollectionCoverage.complete_for_window = true
permits_completeness _ = false

pub record Assessment : Type 0 where
  pub quality : AttributionQuality
  pub coverage : CollectionCoverage
  pub limitations : List Limitation

unfoldable pub limited_by : Assessment → Limitation → Assessment
limited_by a limitation = record a { limitations = a.limitations ++ limitation ∷ [] }

-- `MatchBasis::is_exact` of topgent-facts.
unfoldable pub is_exact : MatchBasis → Bool
is_exact MatchBasis.exact_tuple = true
is_exact MatchBasis.kernel_event = true
is_exact _ = false

assessment_of : MatchBasis → Assessment
unfolding is_exact
assessment_of basis = record {
  quality = if is_exact basis then AttributionQuality.exact else AttributionQuality.weak;
  coverage = CollectionCoverage.snapshot_only;
  limitations = [];
}

unfoldable pub from_match_basis : MatchBasis → Assessment
unfolding assessment_of limited_by
from_match_basis MatchBasis.exact_tuple = assessment_of MatchBasis.exact_tuple
from_match_basis MatchBasis.kernel_event = assessment_of MatchBasis.kernel_event
from_match_basis MatchBasis.wildcard_local =
    limited_by (assessment_of MatchBasis.wildcard_local) Limitation.partial_tuple
from_match_basis MatchBasis.listener =
    limited_by (assessment_of MatchBasis.listener) Limitation.partial_tuple
from_match_basis MatchBasis.unreported =
    limited_by (assessment_of MatchBasis.unreported) Limitation.provenance_unreported

unfoldable pub encode_quality : AttributionQuality → Bytes
encode_quality q = Canonical.tag (quality_tag q)

unfoldable pub encode_coverage : CollectionCoverage → Bytes
encode_coverage c = Canonical.tag (coverage_tag c)

unfoldable pub encode_limitation : Limitation → Bytes
encode_limitation l = Canonical.tag (limitation_tag l)

-- `found.to_string()` of a byte.
unfoldable pub decimal : ℕ → Bytes
decimal n =
    if ltb n 10
    then (48 + n) ∷ []
    else if ltb n 100
    then (48 + n / 10) ∷ (48 + n % 10) ∷ []
    else (48 + n / 100) ∷ (48 + n / 10 % 10) ∷ (48 + n % 10) ∷ []

-- `tagged`: a table lookup by the byte read.
unfoldable pub tagged : {A : Type 0} → Bytes → List A → Decoder A
unfolding Reader.tag or_unknown decimal ◌>>=◌
tagged vocabulary table = do
  found ← Reader.tag
  or_unknown vocabulary (decimal found) (get_elem? table found)

abbrev pub quality_table : List AttributionQuality
quality_table =
    AttributionQuality.unknown ∷ AttributionQuality.contradicted ∷ AttributionQuality.weak
    ∷ AttributionQuality.strong ∷ AttributionQuality.exact ∷ []

unfoldable pub decode_quality : Decoder AttributionQuality
unfolding tagged
decode_quality = tagged (ascii "attribution_quality") quality_table

abbrev pub coverage_table : List CollectionCoverage
coverage_table =
    CollectionCoverage.unsupported ∷ CollectionCoverage.loss_observed
    ∷ CollectionCoverage.collector_degraded ∷ CollectionCoverage.snapshot_only
    ∷ CollectionCoverage.complete_for_window ∷ []

unfoldable pub decode_coverage : Decoder CollectionCoverage
unfolding tagged
decode_coverage = tagged (ascii "collection_coverage") coverage_table

abbrev pub limitation_table : List Limitation
limitation_table =
    Limitation.confinement_unknown ∷ Limitation.foreign_credentials ∷ Limitation.no_access_check
    ∷ Limitation.owner_unresolved ∷ Limitation.snapshot_ancestry ∷ Limitation.partial_tuple
    ∷ Limitation.events_dropped ∷ Limitation.sensor_gap ∷ Limitation.provenance_unreported ∷ []

unfoldable pub decode_limitation : Decoder Limitation
unfolding tagged
decode_limitation = tagged (ascii "limitation") limitation_table

-- `Ord` of limitations: declaration order.
pub compare_limitations : Limitation → Limitation → Ordering
compare_limitations a b = compare (limitation_tag a) (limitation_tag b)
