-- ===== src/Wire/Decode.antt =====
-- crates/topgent-evidence/src/wire.rs, the `Decode` half.
use topgent.Base.{List, [], ◌∷◌, ite}
use topgent.Text.{Bytes, Bytes-discrete, ascii}
use topgent.Reader.{Decoder, ◌>>=◌, pure, fail, text, u16, u32, u64, variant, unknown_variant}
use topgent.Facts.{
  Confidence, Access, Direction, Protocol, Reachability, MatchBasis, ConnectionOutcome, DnsOutcome,
  ByteCounters, Subject, Provenance,
}

abbrev pub access_table : List (Bytes × Access)
access_table =
    (ascii "read", Access.read)
    ∷ (ascii "write", Access.write)
    ∷ (ascii "read_write", Access.read_write)
    ∷ (ascii "execute", Access.execute)
    ∷ []

unfoldable pub decode_access : Decoder Access
unfolding variant
decode_access = variant (ascii "access") access_table

abbrev pub direction_table : List (Bytes × Direction)
direction_table =
    (ascii "outbound", Direction.outbound) ∷ (ascii "listening", Direction.listening) ∷ []

unfoldable pub decode_direction : Decoder Direction
unfolding variant
decode_direction = variant (ascii "direction") direction_table

abbrev pub protocol_table : List (Bytes × Protocol)
protocol_table =
    (ascii "tcp", Protocol.tcp)
    ∷ (ascii "udp", Protocol.udp)
    ∷ (ascii "icmp", Protocol.icmp)
    ∷ (ascii "other", Protocol.other)
    ∷ (ascii "unstated", Protocol.unstated)
    ∷ []

unfoldable pub decode_protocol : Decoder Protocol
unfolding variant
decode_protocol = variant (ascii "protocol") protocol_table

abbrev pub basis_table : List (Bytes × MatchBasis)
basis_table =
    (ascii "unreported", MatchBasis.unreported)
    ∷ (ascii "listener", MatchBasis.listener)
    ∷ (ascii "wildcard_local", MatchBasis.wildcard_local)
    ∷ (ascii "exact_tuple", MatchBasis.exact_tuple)
    ∷ (ascii "kernel_event", MatchBasis.kernel_event)
    ∷ []

unfoldable pub decode_basis : Decoder MatchBasis
unfolding variant
decode_basis = variant (ascii "match_basis") basis_table

abbrev pub reachability_table : List (Bytes × Reachability)
reachability_table =
    (ascii "account_readable", Reachability.account_readable)
    ∷ (ascii "path_resolves", Reachability.path_resolves)
    ∷ []

unfoldable pub decode_reachability : Decoder Reachability
unfolding variant
decode_reachability = variant (ascii "reachability") reachability_table

abbrev pub confidence_table : List (Bytes × Confidence)
confidence_table =
    (ascii "possible", Confidence.possible)
    ∷ (ascii "likely", Confidence.likely)
    ∷ (ascii "certain", Confidence.certain)
    ∷ []

unfoldable pub decode_confidence : Decoder Confidence
unfolding variant
decode_confidence = variant (ascii "confidence") confidence_table

abbrev pub outcome_table : List (Bytes × ConnectionOutcome)
outcome_table =
    (ascii "allowed", ConnectionOutcome.allowed) ∷ (ascii "blocked", ConnectionOutcome.blocked) ∷ []

unfoldable pub decode_outcome : Decoder ConnectionOutcome
unfolding variant
decode_outcome = variant (ascii "connection_outcome") outcome_table

abbrev pub dns_table : List (Bytes × DnsOutcome)
dns_table =
    (ascii "answered", DnsOutcome.answered)
    ∷ (ascii "not_found", DnsOutcome.not_found)
    ∷ (ascii "failed", DnsOutcome.failed)
    ∷ []

unfoldable pub decode_dns : Decoder DnsOutcome
unfolding variant
decode_dns = variant (ascii "dns_outcome") dns_table

unfoldable pub decode_counters : Decoder ByteCounters
unfolding u64 ◌>>=◌ pure
decode_counters = do sent ← u64; received ← u64; pure (record { sent = sent; received = received })

-- One arm of a `match` on a name that was read.
abbrev pub arm : {A : Type 0} → Bytes → Bytes → Decoder A → Decoder A → Decoder A
arm found name this next = ite (Bytes-discrete found name) this next

unfoldable pub subject_of : Bytes → Decoder Subject
unfolding text u16 u32 u64 ◌>>=◌ pure fail Bytes-discrete
subject_of found =
    arm found (ascii "process")
      (do pid ← u32; started_at ← u64; pure (Subject.process pid started_at))
      (arm found (ascii "resource") (do path ← text; pure (Subject.resource path))
        (arm found (ascii "endpoint")
          (do host ← text; port ← u16; pure (Subject.endpoint host port))
          (fail (unknown_variant (ascii "subject") found))))

unfoldable pub decode_subject : Decoder Subject
unfolding subject_of
decode_subject = text >>= subject_of

unfoldable pub decode_provenance : Decoder Provenance
unfolding text decode_confidence u64 ◌>>=◌ pure
decode_provenance = do
  collector ← text
  probe ← text
  confidence ← decode_confidence
  observed_at ← u64
  pure (record {
    collector = collector;
    probe = probe;
    confidence = confidence;
    observed_at = observed_at;
  })
