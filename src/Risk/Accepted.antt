-- ===== src/Risk/Accepted.antt =====
-- crates/topgent-core/src/risk/assess.rs, `apply_exceptions`: what an accepted finding changes.
use topgent.Base.{ℕ, ◌≤◌, ◌≡◌, Bool, List, [], ◌∷◌, Option, arith, All, Any}
use topgent.Text.{Bytes}
use topgent.Machine.{u32_max, saturating_add}
use topgent.Policy.Exceptions.{Exception, Suppression}
use topgent.Risk.{Factor, code_name, Risk}
use topgent.Risk.Covered.{IsCovered}
use topgent.Risk.Assess.{sum_points, total_score, grade_of}

saturating_add_mono :
    (bound a b n : ℕ) → a ≤ b → saturating_add bound a n ≤ saturating_add bound b n
unfolding saturating_add
saturating_add_mono bound a b n h = ground arith

sum_points_mono : (fs : List Factor) (a b : ℕ) → a ≤ b → sum_points a fs ≤ sum_points b fs
unfolding sum_points
sum_points_mono [] a b h = h
sum_points_mono (f ∷ fs) a b h =
    sum_points_mono fs (saturating_add u32_max a f.points) (saturating_add u32_max b f.points)
      (saturating_add_mono u32_max a b f.points h)

-- A factor set aside in the name of an exception.
pub record IsSuppression (f : Factor) (e : Exception) (s : Suppression) : Type 0 where
  pub exception : s.exception ≡ e.name
  pub factor : s.factor ≡ code_name f.code
  pub title : s.title ≡ f.title
  pub points : s.points ≡ f.points
  pub expires_at : s.expires_at ≡ e.expires_at

module _ (es : List Exception) (family : Option Bytes) (as_of : ℕ) where
  -- No exception covers what is kept, and one that covers a factor sets it aside in its own name.
  abbrev pub Unaccepted : Factor → Type 0
  Unaccepted f = All (λ e. ¬ IsCovered family as_of f e) es

  abbrev pub Grounded : List Factor → Suppression → Type 0
  Grounded fs s = Any (λ f. Any (λ e. IsCovered family as_of f e × IsSuppression f e s) es) fs

-- The score and the band are those of the factors.
pub record IsScored (examined : Bool) (risk : Risk) : Type 0 where
  pub summed : risk.score ≡ total_score risk.factors
  pub graded : risk.grade ≡ grade_of examined risk.score
