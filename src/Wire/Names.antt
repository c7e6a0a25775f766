-- ===== src/Wire/Names.antt =====
-- wire.rs: the names of the enumerations, in the decoders against the encoders.
use topgent.Base.{◌≡◌, refl, some, arith}
use topgent.Text.{is_utf8}
use topgent.Canonical.{text}
use topgent.Reader.{find_variant}
use topgent.Reader.Reads.{Reads}
use topgent.Reader.Primitives.{IsText, variant-Reads}
use topgent.Facts.{
  Access, Direction, Protocol, MatchBasis, Reachability, Confidence, ConnectionOutcome, DnsOutcome,
}
use topgent.Wire.{
  access_name, direction_name, protocol_name, basis_name, reachability_name, confidence_name,
  outcome_name, dns_name,
}
use topgent.Wire.Decode.{
  access_table, decode_access, direction_table, decode_direction, protocol_table, decode_protocol,
  basis_table, decode_basis, reachability_table, decode_reachability, confidence_table,
  decode_confidence, outcome_table, decode_outcome, dns_table, decode_dns,
}

access_name-IsText : (x : Access) → IsText (access_name x)
unfolding is_utf8
access_name-IsText Access.read = record { utf8 = refl; fits = omega arith }
access_name-IsText _ = record { utf8 = refl; fits = omega arith }

access_table_lem : (x : Access) → find_variant (access_name x) access_table ≡ some x
unfolding find_variant
access_table_lem Access.read = refl
access_table_lem _ = refl

pub access-Reads : (x : Access) → Reads decode_access (text (access_name x)) x
unfolding decode_access
access-Reads x = variant-Reads _ access_table (access_name-IsText x) (access_table_lem x)

direction_name-IsText : (x : Direction) → IsText (direction_name x)
unfolding is_utf8
direction_name-IsText Direction.outbound = record { utf8 = refl; fits = omega arith }
direction_name-IsText _ = record { utf8 = refl; fits = omega arith }

direction_table_lem : (x : Direction) → find_variant (direction_name x) direction_table ≡ some x
unfolding find_variant
direction_table_lem Direction.outbound = refl
direction_table_lem _ = refl

pub direction-Reads : (x : Direction) → Reads decode_direction (text (direction_name x)) x
unfolding decode_direction
direction-Reads x =
    variant-Reads _ direction_table (direction_name-IsText x) (direction_table_lem x)

protocol_name-IsText : (x : Protocol) → IsText (protocol_name x)
unfolding is_utf8
protocol_name-IsText Protocol.tcp = record { utf8 = refl; fits = omega arith }
protocol_name-IsText _ = record { utf8 = refl; fits = omega arith }

protocol_table_lem : (x : Protocol) → find_variant (protocol_name x) protocol_table ≡ some x
unfolding find_variant
protocol_table_lem Protocol.tcp = refl
protocol_table_lem _ = refl

pub protocol-Reads : (x : Protocol) → Reads decode_protocol (text (protocol_name x)) x
unfolding decode_protocol
protocol-Reads x = variant-Reads _ protocol_table (protocol_name-IsText x) (protocol_table_lem x)

basis_name-IsText : (x : MatchBasis) → IsText (basis_name x)
unfolding is_utf8
basis_name-IsText MatchBasis.unreported = record { utf8 = refl; fits = omega arith }
basis_name-IsText _ = record { utf8 = refl; fits = omega arith }

basis_table_lem : (x : MatchBasis) → find_variant (basis_name x) basis_table ≡ some x
unfolding find_variant
basis_table_lem MatchBasis.unreported = refl
basis_table_lem _ = refl

pub basis-Reads : (x : MatchBasis) → Reads decode_basis (text (basis_name x)) x
unfolding decode_basis
basis-Reads x = variant-Reads _ basis_table (basis_name-IsText x) (basis_table_lem x)

reachability_name-IsText : (x : Reachability) → IsText (reachability_name x)
unfolding is_utf8
reachability_name-IsText Reachability.account_readable = record { utf8 = refl; fits = omega arith }
reachability_name-IsText _ = record { utf8 = refl; fits = omega arith }

reachability_table_lem :
    (x : Reachability) → find_variant (reachability_name x) reachability_table ≡ some x
unfolding find_variant
reachability_table_lem Reachability.account_readable = refl
reachability_table_lem _ = refl

pub reachability-Reads :
    (x : Reachability) → Reads decode_reachability (text (reachability_name x)) x
unfolding decode_reachability
reachability-Reads x =
    variant-Reads _ reachability_table (reachability_name-IsText x) (reachability_table_lem x)

confidence_name-IsText : (x : Confidence) → IsText (confidence_name x)
unfolding is_utf8
confidence_name-IsText Confidence.possible = record { utf8 = refl; fits = omega arith }
confidence_name-IsText _ = record { utf8 = refl; fits = omega arith }

confidence_table_lem : (x : Confidence) → find_variant (confidence_name x) confidence_table ≡ some x
unfolding find_variant
confidence_table_lem Confidence.possible = refl
confidence_table_lem _ = refl

pub confidence-Reads : (x : Confidence) → Reads decode_confidence (text (confidence_name x)) x
unfolding decode_confidence
confidence-Reads x =
    variant-Reads _ confidence_table (confidence_name-IsText x) (confidence_table_lem x)

outcome_name-IsText : (x : ConnectionOutcome) → IsText (outcome_name x)
unfolding is_utf8
outcome_name-IsText ConnectionOutcome.allowed = record { utf8 = refl; fits = omega arith }
outcome_name-IsText _ = record { utf8 = refl; fits = omega arith }

outcome_table_lem : (x : ConnectionOutcome) → find_variant (outcome_name x) outcome_table ≡ some x
unfolding find_variant
outcome_table_lem ConnectionOutcome.allowed = refl
outcome_table_lem _ = refl

pub outcome-Reads : (x : ConnectionOutcome) → Reads decode_outcome (text (outcome_name x)) x
unfolding decode_outcome
outcome-Reads x = variant-Reads _ outcome_table (outcome_name-IsText x) (outcome_table_lem x)

dns_name-IsText : (x : DnsOutcome) → IsText (dns_name x)
unfolding is_utf8
dns_name-IsText DnsOutcome.answered = record { utf8 = refl; fits = omega arith }
dns_name-IsText _ = record { utf8 = refl; fits = omega arith }

dns_table_lem : (x : DnsOutcome) → find_variant (dns_name x) dns_table ≡ some x
unfolding find_variant
dns_table_lem DnsOutcome.answered = refl
dns_table_lem _ = refl

pub dns-Reads : (x : DnsOutcome) → Reads decode_dns (text (dns_name x)) x
unfolding decode_dns
dns-Reads x = variant-Reads _ dns_table (dns_name-IsText x) (dns_table_lem x)
