-- ===== src/Quality/Weakest.antt =====
-- quality.rs: `AttributionQuality::weakest` and `CollectionCoverage::weakest` against the order of the
-- declarations.
use topgent.Base.{◌≡◌, ◌≤◌, ◌⊎◌, arith}
use topgent.Vocabulary.{AttributionQuality, CollectionCoverage}
use topgent.Quality.{quality_tag, coverage_tag, weakest_quality, weakest_coverage}
use topgent.Quality.Laws.{quality_tag_injective, coverage_tag_injective}

-- The weakest of two qualities is one of them, is no stronger than either, and does not depend on
-- their order.
pub weakest_quality_lem :
    (a b : AttributionQuality)
    → ((weakest_quality a b ≡ a) ⊎ (weakest_quality a b ≡ b))
      × (quality_tag (weakest_quality a b) ≤ quality_tag a)
      × (quality_tag (weakest_quality a b) ≤ quality_tag b)
      × (weakest_quality a b ≡ weakest_quality b a)
unfolding weakest_quality
weakest_quality_lem a b = ground (arith, quality_tag_injective a b)

-- The weakest of two coverages is one of them, is no stronger than either, and does not depend on
-- their order.
pub weakest_coverage_lem :
    (a b : CollectionCoverage)
    → ((weakest_coverage a b ≡ a) ⊎ (weakest_coverage a b ≡ b))
      × (coverage_tag (weakest_coverage a b) ≤ coverage_tag a)
      × (coverage_tag (weakest_coverage a b) ≤ coverage_tag b)
      × (weakest_coverage a b ≡ weakest_coverage b a)
unfolding weakest_coverage
weakest_coverage_lem a b = ground (arith, coverage_tag_injective a b)
