-- ===== src/Risk/Tests.antt =====
-- Scoring and accepted findings at concrete factors.
use topgent.Base.{ℕ, ◌≤◌, ◌≡◌, refl, true, Option, none, some, arith, List, [], ◌∷◌, if◌then◌else◌}
use topgent.Text.{Bytes, ascii, Bytes-discrete}
use topgent.Machine.{saturating_add}
use topgent.Facts.{certain}
use topgent.Order.{lex}
use topgent.Order.Map.{get, insert}
use topgent.Journal.{same_text}
use topgent.Journal.Table.{find, insert_record, sort_records}
use topgent.Policy.Exceptions.{
  Exception, active_at, starts_with, contains_text, same_bytes, family_fits, target_fits, covers,
}
use topgent.Risk.{
  Factor, FactorCode, secret_reachable, broad_write, code_name, rank, Grade, medium, from_score,
  Risk,
}
use topgent.Risk.Assess.{
  min, comes_first, or_zero, used, allowed, spend, trim, apply_ceilings, sum_points, total_score,
  grade_of, conclude, accepts, suppression, keep, suppress, apply_exceptions,
}
use topgent.Risk.Ceilings.{points_of, Trimmed, apply_ceilings_le}

abbrev factor : FactorCode → ℕ → Bytes → Factor
factor code points title = record {
  code = code;
  points = points;
  title = title;
  source = ascii "seen";
  confidence = certain;
}

abbrev gathered : List Factor
gathered =
    factor secret_reachable 20 (ascii "/a")
    ∷ factor broad_write 25 (ascii "writes")
    ∷ factor secret_reachable 30 (ascii "/b")
    ∷ []

-- Secrets add 40 at most.
ceiling : Bytes → Option ℕ
unfolding same_text
ceiling code = if same_text code (ascii "SECRET_REACHABLE") then some 40 else none

abbrev risk : Risk
risk = record {
  score = 65;
  grade = Grade.high;
  factors =
      factor secret_reachable 30 (ascii "/b")
      ∷ factor broad_write 25 (ascii "writes")
      ∷ factor secret_reachable 10 (ascii "/a")
      ∷ [];
  identity_multiplier = 100;
}

abbrev exceptions : List Exception
exceptions =
    record {
      name = ascii "b is fine";
      factor = ascii "SECRET_REACHABLE";
      family = none;
      target = some (ascii "/b");
      reason = ascii "a test key";
      created_by = ascii "ana";
      created_at = 1;
      expires_at = 10;
    }
    ∷ []

record Runs : Type 0 where
  capped : ceiling (ascii "SECRET_REACHABLE") ≡ some 40
  concluded : conclude ceiling true 100 gathered ≡ risk
  summed : risk.score ≡ total_score risk.factors
  graded : risk.grade ≡ grade_of true risk.score
  accepted :
      (apply_exceptions exceptions none true 5 risk).0.factors
      ≡ factor broad_write 25 (ascii "writes") ∷ factor secret_reachable 10 (ascii "/a") ∷ []
  regraded : (apply_exceptions exceptions none true 5 risk).0.grade ≡ medium
  expired : (apply_exceptions exceptions none true 10 risk).0.score ≡ 65

runs : Runs
unfolding ceiling same_text Bytes-discrete saturating_add lex get insert find insert_record
    sort_records active_at starts_with contains_text same_bytes family_fits target_fits covers
    code_name rank from_score min comes_first or_zero used allowed spend trim apply_ceilings
    sum_points total_score grade_of conclude accepts suppression keep suppress apply_exceptions
runs = record {
  capped = refl;
  concluded = refl;
  summed = refl;
  graded = refl;
  accepted = refl;
  regraded = refl;
  expired = refl;
}

apply_ceilings_le_example :
    Trimmed gathered (apply_ceilings ceiling gathered)
    × (points_of (ascii "SECRET_REACHABLE") (apply_ceilings ceiling gathered) ≤ 40)
apply_ceilings_le_example =
    apply_ceilings_le ceiling gathered (ascii "SECRET_REACHABLE") 40 runs.capped (omega arith)
