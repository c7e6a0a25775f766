-- ===== src/Quality/Tests.antt =====
-- The weakest of two qualities and of two coverages.
use topgent.Base.{◌≡◌, ◌≤◌, ◌⊎◌}
use topgent.Vocabulary.{AttributionQuality, CollectionCoverage}
use topgent.Quality.{quality_tag, weakest_quality}
use topgent.Quality.Weakest.{weakest_quality_lem}

abbrev strong : AttributionQuality
strong = AttributionQuality.strong

abbrev contradicted : AttributionQuality
contradicted = AttributionQuality.contradicted

abbrev snapshot : CollectionCoverage
snapshot = CollectionCoverage.snapshot_only

abbrev lossy : CollectionCoverage
lossy = CollectionCoverage.loss_observed

weakest_quality_lem_example :
    ((weakest_quality strong contradicted ≡ strong)
      ⊎ (weakest_quality strong contradicted ≡ contradicted))
    × (quality_tag (weakest_quality strong contradicted) ≤ quality_tag strong)
    × (quality_tag (weakest_quality strong contradicted) ≤ quality_tag contradicted)
    × (weakest_quality strong contradicted ≡ weakest_quality contradicted strong)
weakest_quality_lem_example = weakest_quality_lem strong contradicted
