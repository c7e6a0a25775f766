-- ===== src/Verify/Gaps.antt =====
-- verify.rs: the gaps that `Bundle::verify` reports.
use topgent.Base.{
  ℕ, suc, ◌^◌, ◌≡◌, ◌<◌, refl, ap, List, [], ◌∷◌, Option, none, some, arith, All, append-eq-nil,
}
use mathlib.Core.Option
use topgent.Crypto.{Crypto}
use topgent.Keys.{PublicKey}
use topgent.Chain.{ChainEntry}
use topgent.Chain.Append.{Linked}
use topgent.Bundle.{Bundle, Breach, Gap, Summary, Verdict, is_intact}
use topgent.Verify.{judge, verify}
use topgent.Verify.Checkpoints.{Reach}
use topgent.Verify.Walk.{walk_gaps, gap_at}
use topgent.Verify.Sound.{verify-Verified}

abbrev pub IsU64 : ChainEntry → Type 0
IsU64 e = e.sequence < 2 ^ 64

-- Each sequence is the next one after that before it.
abbrev pub Consecutive : Option ℕ → List ChainEntry → Type 0
Consecutive last [] = Unit
Consecutive none (e ∷ es) = Consecutive (some e.sequence) es
Consecutive (some before) (e ∷ es) = (e.sequence ≡ suc before) × Consecutive (some e.sequence) es

gap_at-nil : (before n : ℕ) → before < n → n < 2 ^ 64 → gap_at (some before) n ≡ [] → n ≡ suc before
unfolding gap_at
gap_at-nil before n rising small h = ground arith

abbrev sequence_of : Option ChainEntry → Option ℕ
sequence_of = Option.map λ e. e.sequence

walk_gaps-nil :
    (c : Crypto) (last : Option ChainEntry) (es : List ChainEntry)
    → Linked c last es
    → All IsU64 es
    → walk_gaps (sequence_of last) es ≡ []
    → Consecutive (sequence_of last) es
unfolding walk_gaps
walk_gaps-nil c last [] linked small h = tt
walk_gaps-nil c none (e ∷ es) (joins, rest) (s, small) h =
    let (_, later) = append-eq-nil (gap_at none e.sequence) _ h in
    walk_gaps-nil c (some e) es rest small later
walk_gaps-nil c (some p) (e ∷ es) (joins, rest) (s, small) h =
    let (here, later) = append-eq-nil (gap_at (some p.sequence) e.sequence) _ h in
    (
      gap_at-nil p.sequence e.sequence joins.order s here,
      walk_gaps-nil c (some e) es rest small later,
    )

judge-intact :
    (b : Bundle) (xs : List Breach) (reach : Reach) (gaps : List Gap) (s : Summary)
    → judge b xs reach gaps ≡ Verdict.intact s
    → gaps ≡ []
unfolding judge
judge-intact b [] none gaps s h = absurd (cc)
judge-intact b [] (some (key, through)) [] s h = refl
judge-intact b [] (some (key, through)) (g ∷ gs) s h = absurd (cc)
judge-intact b (x ∷ xs) reach gaps s h = absurd (cc)

-- A verdict of intact without gaps means that no sequence is missing between the first and the last
-- entry, where the sequences are in the range of their type.
pub verify-Consecutive :
    (c : Crypto) (b : Bundle) (trusted : List PublicKey) (s : Summary)
    → verify c b trusted ≡ Verdict.intact s
    → All IsU64 b.chain.entries
    → Consecutive none b.chain.entries
unfolding verify is_intact
verify-Consecutive c b trusted s h small =
    let verified = verify-Verified c b trusted (ap is_intact h) in
    walk_gaps-nil c none b.chain.entries verified.chain.linked small (judge-intact b _ _ _ s h)
