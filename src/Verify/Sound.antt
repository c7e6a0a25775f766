-- ===== src/Verify/Sound.antt =====
-- verify.rs: `Bundle::verify`, and what it is to establish.
use topgent.Base.{
  ℕ, zero, suc, ◌^◌, ◌≡◌, ◌≢◌, ◌<◌, refl, sym, ap, ◌∙◌, subst, ◌⊎◌, List, [], ◌∷◌, ◌++◌, Option,
  none, some, true, arith, All, Any, Any-All, append-eq-nil, last?, take, length, length-take,
}
use topgent.Crypto.{Crypto, Collision}
use topgent.Keys.{PublicKey}
use topgent.Chain.{ChainEntry, Checkpoint, count_u64}
use topgent.Chain.Append.{Linked, hash_of}
use topgent.Chain.Tamper.{IsEntry, chain_pinned}
use topgent.Bundle.{Bundle, Breach, Gap, is_intact}
use topgent.Verify.{breaches, judge, verify}
use topgent.Verify.Authority.{resolve_authority}
use topgent.Verify.Records.{records_breaches, claims_breaches}
use topgent.Verify.Walk.{chain_breaches}
use topgent.Verify.Checkpoints.{Reach}
use topgent.Ledger.References.{Resolves}
use topgent.Verify.Chained.{
  Matches, ChainHolds, records_breaches-nil, claims_breaches-nil, chain_breaches-nil,
}
use topgent.Verify.Rooted.{Authorised, resolve_authority-Authorised}
use topgent.Verify.Covered.{Covers, check_checkpoints-nil, find_entry-found}

-- A checkpoint that covers the chain, by a key that the trusted keys authorise.
pub record Vouches (c : Crypto) (b : Bundle) (trusted : List PublicKey) (p : Checkpoint)
    : Type 0 where
  pub covers : Covers c b.chain (resolve_authority c b trusted).1 p
  pub authorised : Authorised c trusted b.rotations covers.holder.key

-- What verifying a bundle is to establish.
pub record Verified (c : Crypto) (b : Bundle) (trusted : List PublicKey) : Type 0 where
  pub records : All (Matches c b.chain) b.ledger.records
  pub claims : All (Resolves b.ledger) b.ledger.claims
  pub chain : ChainHolds c b.ledger b.chain
  pub checkpoints : All (Vouches c b trusted) b.checkpoints
  pub present : b.checkpoints ≢ []

judge-nil :
    (b : Bundle) (xs : List Breach) (reach : Reach) (gaps : List Gap)
    → is_intact (judge b xs reach gaps) ≡ true
    → xs ≡ []
unfolding judge is_intact
judge-nil b [] reach gaps h = refl
judge-nil b (x ∷ xs) reach gaps h = cc

Vouches-all :
    (c : Crypto) (b : Bundle) (trusted : List PublicKey) (ps : List Checkpoint)
    → All (Covers c b.chain (resolve_authority c b trusted).1) ps
    → All (Vouches c b trusted) ps
Vouches-all c b trusted [] h = tt
Vouches-all c b trusted (p ∷ ps) (covers, rest) = (
  record {
    covers = covers;
    authorised = resolve_authority-Authorised c b trusted p.body.key_id covers.holder covers.known;
  },
  Vouches-all c b trusted ps rest,
)

breaches-nil :
    (c : Crypto) (b : Bundle) (trusted : List PublicKey)
    → breaches c b trusted ≡ []
    → Verified c b trusted
unfolding breaches
breaches-nil c b trusted h =
    let (_, rest) = append-eq-nil (resolve_authority c b trusted).0 _ h in
    let (stored, rest') =
      append-eq-nil
        (records_breaches c b.chain b.ledger.records ++ claims_breaches b.ledger b.ledger.claims) _
        rest in
    let (records, claims) = append-eq-nil (records_breaches c b.chain b.ledger.records) _ stored in
    let (chain, signatures) = append-eq-nil (chain_breaches c b.ledger b.chain) _ rest' in
    let (covers, present) = check_checkpoints-nil c b.chain _ b.checkpoints signatures in
    record {
      records = records_breaches-nil c b.chain b.ledger.records records;
      claims = claims_breaches-nil b.ledger b.ledger.claims claims;
      chain = chain_breaches-nil c b.ledger b.chain chain;
      checkpoints = Vouches-all c b trusted b.checkpoints covers;
      present = present;
    }

-- A verdict of intact, with gaps or without, means that every record carries its own digest and the
-- chain's origin, that every claim's references are held, that the entries are linked and rising and
-- name exactly the records held, that there is a checkpoint, and that every checkpoint covers the
-- chain under a key that the trusted keys authorise.
pub verify-Verified :
    (c : Crypto) (b : Bundle) (trusted : List PublicKey)
    → is_intact (verify c b trusted) ≡ true
    → Verified c b trusted
unfolding verify
verify-Verified c b trusted h = breaches-nil c b trusted (judge-nil b _ _ _ h)

Linked-take :
    (c : Crypto) (n : ℕ) (last : Option ChainEntry) (es : List ChainEntry)
    → Linked c last es
    → Linked c last (take n es)
Linked-take c zero last es h = tt
Linked-take c (suc n) last [] h = tt
Linked-take c (suc n) last (e ∷ es) (joins, rest) = (joins, Linked-take c n (some e) es rest)

All-take : {A : Type 0} (P : A → Type 0) (n : ℕ) (xs : List A) → All P xs → All P (take n xs)
All-take P zero xs h = tt
All-take P (suc n) [] h = tt
All-take P (suc n) (x ∷ xs) (p, rest) = (p, All-take P n xs rest)

-- The entries that a checkpoint covers are as many as it says, and end in the hash that it signs.
covered_prefix :
    (c : Crypto) (b : Bundle) (trusted : List PublicKey) (p : Checkpoint)
    → Vouches c b trusted p
    → length b.chain.entries < 2 ^ 64
    → (length (take p.body.entry_count b.chain.entries) ≡ p.body.entry_count)
      × (hash_of (last? (take p.body.entry_count b.chain.entries)) ≡ some p.body.head)
unfolding count_u64
covered_prefix c b trusted p v size =
    let k = v.covers in
    let (n, at, within, _, ends) =
      find_entry-found p.body.through_sequence 0 b.chain.entries k.position k.entry k.found in
    let counted = k.count in
    let count : suc n ≡ p.body.entry_count = ground arith in
    let ends' : last? (take p.body.entry_count b.chain.entries) ≡ some k.entry =
      subst (λ m. last? (take m b.chain.entries) ≡ some k.entry) count ends in
    (
      length-take p.body.entry_count b.chain.entries (omega arith),
      ap hash_of ends' ∙ ap some k.head,
    )

-- Two bundles that both verify and both hold a checkpoint agree on every entry that it covers, or two
-- byte strings with one digest are at hand, where the entries have fields in the ranges of their
-- types and are fewer than 2^64.
pub shared_checkpoint :
    (c : Crypto) (a b : Bundle) (trust_a trust_b : List PublicKey) (p : Checkpoint)
    → is_intact (verify c a trust_a) ≡ true
    → is_intact (verify c b trust_b) ≡ true
    → Any (λ q. q ≡ p) a.checkpoints
    → Any (λ q. q ≡ p) b.checkpoints
    → All IsEntry a.chain.entries
    → All IsEntry b.chain.entries
    → length a.chain.entries < 2 ^ 64
    → length b.chain.entries < 2 ^ 64
    → (take p.body.entry_count a.chain.entries ≡ take p.body.entry_count b.chain.entries)
      ⊎ Collision c
shared_checkpoint c a b trust_a trust_b p ha hb in_a in_b wa wb size_a size_b =
    let va = verify-Verified c a trust_a ha in
    let vb = verify-Verified c b trust_b hb in
    let (qa, same_a, vouch_a) = Any-All a.checkpoints in_a va.checkpoints in
    let (qb, same_b, vouch_b) = Any-All b.checkpoints in_b vb.checkpoints in
    let (length_a, end_a) =
      covered_prefix c a trust_a p (subst (Vouches c a trust_a) same_a vouch_a) size_a in
    let (length_b, end_b) =
      covered_prefix c b trust_b p (subst (Vouches c b trust_b) same_b vouch_b) size_b in
    chain_pinned c _ _ (Linked-take c _ none _ va.chain.linked)
      (Linked-take c _ none _ vb.chain.linked) (All-take IsEntry p.body.entry_count _ wa)
      (All-take IsEntry p.body.entry_count _ wb) (length_a ∙ sym length_b) (end_a ∙ sym end_b)
