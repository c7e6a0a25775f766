-- ===== src/Ledger/Decode.antt =====
-- crates/topgent-evidence/src/ledger.rs, `Decode for Ledger`.
use topgent.Base.{ℕ, zero, suc, Result, ok, err}
use topgent.Crypto.{Crypto}
use topgent.Reader
use topgent.Reader.{Decoder, ◌>>=◌, rejected}
use topgent.Vocabulary.{LedgerError, Reason}
use topgent.Record.{decode_record}
use topgent.Derived.{decode_derived}
use topgent.Ledger.{Ledger, new, add_record, add_claim}

-- `.map_err(|error| DecodeError::Rejected { .. })`
unfoldable pub accept : Result LedgerError Ledger → Decoder Ledger
unfolding Reader.pure Reader.fail
accept (ok l) = Reader.pure l
accept (err e) = Reader.fail (rejected (Reason.ledger e))

module _ (c : Crypto) where
  -- The two loops, on the number of rounds left.
  unfoldable pub read_records : ℕ → Ledger → Decoder Ledger
  unfolding decode_record add_record accept ◌>>=◌ Reader.pure
  read_records zero l = Reader.pure l
  read_records (suc n) l = do r ← decode_record c; l' ← accept (add_record l r); read_records n l'

  unfoldable pub read_claims : ℕ → Ledger → Decoder Ledger
  unfolding decode_derived add_claim accept ◌>>=◌ Reader.pure
  read_claims zero l = Reader.pure l
  read_claims (suc n) l = do d ← decode_derived c; l' ← accept (add_claim l d); read_claims n l'

  unfoldable pub decode_ledger : Decoder Ledger
  unfolding Reader.u32 read_records read_claims ◌>>=◌
  decode_ledger = (Reader.u32 >>= λ record_count. read_records record_count new) >>= λ l.
      Reader.u32 >>= λ claim_count. read_claims claim_count l
