-- ===== src/Wire/Refusals.antt =====
-- wire.rs: `traffic_observed` in the encoder and in the decoder.
use topgent.Base.{◌≡◌, ◌<◌, ◌^◌, subst, sym, ℕ_discrete}
use topgent.Text.{ascii, Bytes-discrete}
use topgent.Reader.{DecodeError, unknown_variant, text}
use topgent.Reader.Reads.{Refuses, Refuses-fail, Refuses-first, Refuses-next}
use topgent.Reader.Primitives.{text-Reads, u16-Reads}
use topgent.Facts.{Claim, Fact, kind}
use topgent.Wire.{encode_claim, encode_fact, encode_fields}
use topgent.Wire.DecodeFact.{claim_of, decode_claim, decode_fact}
use topgent.Wire.RoundTrip.{IsSubject, subject-Reads, kind-IsText}

abbrev pub unknown_claim : DecodeError
unknown_claim = unknown_variant (ascii "claim") (ascii "traffic_observed")

claim_of-Refuses :
    (c : Claim) → Refuses (claim_of (ascii "traffic_observed")) (encode_fields c) unknown_claim
unfolding claim_of Bytes-discrete ℕ_discrete
claim_of-Refuses c = Refuses-fail (encode_fields c) unknown_claim

claim-Refuses :
    (c : Claim)
    → kind c ≡ ascii "traffic_observed"
    → Refuses decode_claim (encode_claim c) unknown_claim
unfolding decode_claim encode_claim
claim-Refuses c h =
    Refuses-next text claim_of (text-Reads (kind-IsText c)) (
      subst (λ k. Refuses (claim_of k) (encode_fields c) unknown_claim) (sym h)
        (claim_of-Refuses c))

-- A fact whose claim is a `traffic_observed` is written, and then refused by the reader as an
-- unknown claim, whatever follows it.
pub fact-Refuses :
    (f : Fact)
    → f.schema < 2 ^ 16
    → IsSubject f.subject
    → kind f.claim ≡ ascii "traffic_observed"
    → Refuses decode_fact (encode_fact f) unknown_claim
unfolding decode_fact encode_fact
fact-Refuses f schema subject h = Refuses-next _ _ (u16-Reads f.schema schema) (
    Refuses-next _ _ (subject-Reads f.subject subject)
      (Refuses-first _ _ _ (claim-Refuses f.claim h)))
