-- ===== src/Verify.antt =====
-- crates/topgent-evidence/src/verify.rs, `Bundle::verify`: a bundle against keys that the verifier
-- already holds. The source pushes every breach onto one vector; each part returns those that it
-- pushes, and they are joined here in the source's order.
pub mod Authority
pub mod Records
pub mod Walk
pub mod Checkpoints
pub mod Chained
pub mod Rooted
pub mod Covered
pub mod Sound
pub mod Gaps
mod Tests
use topgent.Base.{ℕ, List, [], ◌∷◌, ◌++◌, Option, none, some, length}
use topgent.Crypto.{Crypto}
use topgent.Keys.{KeyId, PublicKey}
use topgent.Bundle.{Bundle, Breach, Gap, Summary, Verdict}
use Authority.{Authorities, resolve_authority}
use Records.{records_breaches, claims_breaches}
use Walk.{walk_gaps, chain_breaches}
use Checkpoints.{Reach, check_checkpoints}

unfoldable pub summary : Bundle → KeyId → ℕ → Summary
summary b key_id through_sequence = record {
  origin = b.chain.origin;
  records = length b.ledger.records;
  claims = length b.ledger.claims;
  through_sequence = through_sequence;
  key_id = key_id;
}

-- The verdict on what the checks found.
unfoldable pub judge : Bundle → List Breach → Reach → List Gap → Verdict
judge b (x ∷ xs) covering gaps = Verdict.broken (x ∷ xs)
judge b [] none gaps = Verdict.broken (Breach.no_checkpoint ∷ [])
judge b [] (some (key_id, through)) [] = Verdict.intact (summary b key_id through)
judge b [] (some (key_id, through)) (g ∷ gs) =
    Verdict.intact_with_gaps (summary b key_id through) (g ∷ gs)

module _ (c : Crypto) where
  -- Every breach, in the order of the checks.
  unfoldable pub breaches : Bundle → List PublicKey → List Breach
  breaches b trusted =
      let (authority_found, authority) = resolve_authority c b trusted in
      authority_found
      ++ ((records_breaches c b.chain b.ledger.records ++ claims_breaches b.ledger b.ledger.claims)
          ++ (chain_breaches c b.ledger b.chain
              ++ (check_checkpoints c b.chain authority b.checkpoints).0))

  -- What `check_checkpoints` returns: the furthest reach of a checkpoint that counts.
  unfoldable pub covering : Bundle → List PublicKey → Reach
  covering b trusted =
      (check_checkpoints c b.chain (resolve_authority c b trusted).1 b.checkpoints).1

  -- `Bundle::verify`
  unfoldable pub verify : Bundle → List PublicKey → Verdict
  verify b trusted =
      judge b (breaches b trusted) (covering b trusted) (walk_gaps none b.chain.entries)
