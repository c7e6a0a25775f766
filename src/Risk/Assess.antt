-- ===== src/Risk/Assess.antt =====
-- crates/topgent-core/src/risk/assess.rs: from the factors of an agent to its risk, and what the
-- accepted findings take out of it. The ceilings of the built-in catalogue are a parameter.
use topgent.Base.{
  ℕ, ◌-◌, Bool, ◌&&◌, ◌||◌, leb, ltb, ◌==◌, if◌then◌else◌, List, [], ◌∷◌, ◌++◌, Option, none, some,
}
use topgent.Text.{Bytes, ascii}
use topgent.Machine.{u32_max, saturating_add}
use topgent.Order.{bytes_order}
use topgent.Order.Map.{get, insert}
use topgent.Journal.Table.{find, sort_records}
use topgent.Policy.Exceptions.{Exception, Suppression, active_at, covers}
use topgent.Risk.{Factor, code_name, rank, Grade, not_evaluated, from_score, max_score, Risk}

unfoldable pub min : ℕ → ℕ → ℕ
min a b = if leb a b then a else b

-- Highest first, then by code.
unfoldable pub comes_first : Factor → Factor → Bool
comes_first a b = ltb b.points a.points || (a.points == b.points && leb (rank a.code) (rank b.code))

-- What the factors of each code have added so far.
abbrev pub Spent : Type 0
Spent = List (Bytes × ℕ)

-- `*spent.entry(code).or_insert(0)`
unfoldable pub or_zero : Option ℕ → ℕ
or_zero none = 0
or_zero (some n) = n

unfoldable pub used : Bytes → Spent → ℕ
used code spent = or_zero (get bytes_order code spent)

module _ (ceiling : Bytes → Option ℕ) where
  -- `factor.points.min(ceiling.saturating_sub(*used))`
  unfoldable pub allowed : Factor → Spent → ℕ
  allowed f spent = elim (ceiling (code_name f.code)) [
    | none ↦ f.points
    | some most ↦ min f.points (most - used (code_name f.code) spent)
  ]

  unfoldable pub spend : Factor → Spent → Spent
  spend f spent = elim (ceiling (code_name f.code)) [
    | none ↦ spent
    | some most ↦
        insert bytes_order (code_name f.code)
          (saturating_add u32_max (used (code_name f.code) spent) (allowed f spent)) spent
  ]

  -- The loop of `apply_ceilings`.
  unfoldable pub trim : Spent → List Factor → List Factor
  trim spent [] = []
  trim spent (f ∷ fs) = record f { points = allowed f spent } ∷ trim (spend f spent) fs

  unfoldable pub apply_ceilings : List Factor → List Factor
  apply_ceilings fs = trim [] fs

-- The sum of the points, saturating.
unfoldable pub sum_points : ℕ → List Factor → ℕ
sum_points total [] = total
sum_points total (f ∷ fs) = sum_points (saturating_add u32_max total f.points) fs

unfoldable pub total_score : List Factor → ℕ
unfolding sum_points min
total_score fs = min (sum_points 0 fs) max_score

-- The band, of an agent of which everything was examined or not.
unfoldable pub grade_of : Bool → ℕ → Grade
grade_of examined score = if examined then from_score score else not_evaluated

-- The end of `assess_with`, from the factors that it gathered.
unfoldable pub conclude : (Bytes → Option ℕ) → Bool → ℕ → List Factor → Risk
conclude ceiling examined multiplier gathered =
    let factors = apply_ceilings ceiling (sort_records comes_first gathered) in
    record {
      score = total_score factors;
      grade = grade_of examined (total_score factors);
      factors = factors;
      identity_multiplier = multiplier;
    }

-- The exception that accepts a finding at a time.
unfoldable pub accepts : Option Bytes → ℕ → Factor → Exception → Bool
accepts family as_of f e =
    active_at as_of e && covers (code_name f.code) family (f.title ++ (ascii " " ++ f.source)) e

unfoldable pub suppression : Exception → Factor → Suppression
suppression e f = record {
  exception = e.name;
  factor = code_name f.code;
  title = f.title;
  points = f.points;
  expires_at = e.expires_at;
}

unfoldable pub keep : List Exception → Option Bytes → ℕ → List Factor → List Factor
keep exceptions family as_of [] = []
keep exceptions family as_of (f ∷ fs) =
    let rest = keep exceptions family as_of fs in
    elim (find (accepts family as_of f) exceptions) [ none ↦ f ∷ rest | some e ↦ rest ]

unfoldable pub suppress : List Exception → Option Bytes → ℕ → List Factor → List Suppression
suppress exceptions family as_of [] = []
suppress exceptions family as_of (f ∷ fs) =
    let rest = suppress exceptions family as_of fs in
    elim (find (accepts family as_of f) exceptions) [
      | none ↦ rest
      | some e ↦ suppression e f ∷ rest
    ]

unfoldable pub apply_exceptions :
    List Exception → Option Bytes → Bool → ℕ → Risk → Risk × List Suppression
apply_exceptions [] family examined as_of risk = (risk, [])
apply_exceptions (e ∷ es) family examined as_of risk =
    let kept = keep (e ∷ es) family as_of risk.factors in
    (
      record {
        score = total_score kept;
        grade = grade_of examined (total_score kept);
        factors = kept;
        identity_multiplier = risk.identity_multiplier;
      },
      suppress (e ∷ es) family as_of risk.factors,
    )
