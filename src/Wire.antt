-- ===== src/Wire.antt =====
-- crates/topgent-evidence/src/wire.rs, the `Encode` half: canonical bytes for the fact vocabulary.
pub mod Decode
pub mod DecodeFact
pub mod Names
pub mod RoundTrip
pub mod Refusals
use topgent.Base.{ℕ, ◌++◌}
use topgent.Text.{Bytes, ascii}
use topgent.Canonical.{text, u16, u32, u64, boolean, option}
use topgent.Facts
use topgent.Facts.{
  Confidence, Access, Direction, Protocol, Reachability, MatchBasis, ConnectionOutcome, DnsOutcome,
  ByteCounters, Subject, Claim, Provenance, Fact, kind,
}

abbrev pub access_name : Access → Bytes
access_name Access.read = ascii "read"
access_name Access.write = ascii "write"
access_name Access.read_write = ascii "read_write"
access_name Access.execute = ascii "execute"

abbrev pub direction_name : Direction → Bytes
direction_name Direction.outbound = ascii "outbound"
direction_name Direction.listening = ascii "listening"

abbrev pub protocol_name : Protocol → Bytes
protocol_name Protocol.tcp = ascii "tcp"
protocol_name Protocol.udp = ascii "udp"
protocol_name Protocol.icmp = ascii "icmp"
protocol_name Protocol.other = ascii "other"
protocol_name Protocol.unstated = ascii "unstated"

abbrev pub basis_name : MatchBasis → Bytes
basis_name MatchBasis.unreported = ascii "unreported"
basis_name MatchBasis.listener = ascii "listener"
basis_name MatchBasis.wildcard_local = ascii "wildcard_local"
basis_name MatchBasis.exact_tuple = ascii "exact_tuple"
basis_name MatchBasis.kernel_event = ascii "kernel_event"

abbrev pub reachability_name : Reachability → Bytes
reachability_name Reachability.account_readable = ascii "account_readable"
reachability_name Reachability.path_resolves = ascii "path_resolves"

abbrev pub confidence_name : Confidence → Bytes
confidence_name Confidence.possible = ascii "possible"
confidence_name Confidence.likely = ascii "likely"
confidence_name Confidence.certain = ascii "certain"

abbrev pub outcome_name : ConnectionOutcome → Bytes
outcome_name ConnectionOutcome.allowed = ascii "allowed"
outcome_name ConnectionOutcome.blocked = ascii "blocked"

abbrev pub dns_name : DnsOutcome → Bytes
dns_name DnsOutcome.answered = ascii "answered"
dns_name DnsOutcome.not_found = ascii "not_found"
dns_name DnsOutcome.failed = ascii "failed"

unfoldable pub encode_counters : ByteCounters → Bytes
encode_counters b = u64 b.sent ++ u64 b.received

unfoldable pub encode_subject : Subject → Bytes
encode_subject (Subject.process pid started_at) =
    text (ascii "process") ++ (u32 pid ++ u64 started_at)
encode_subject (Subject.resource path) = text (ascii "resource") ++ text path
encode_subject (Subject.endpoint host port) = text (ascii "endpoint") ++ (text host ++ u16 port)

unfoldable pub encode_provenance : Provenance → Bytes
encode_provenance p =
    text p.collector ++ (text p.probe ++ (text (confidence_name p.confidence) ++ u64 p.observed_at))

-- The fields of a claim in declaration order, behind its kind.
unfoldable pub encode_fields : Claim → Bytes
unfolding encode_counters
encode_fields (Claim.process_seen exe exe_path_known uid user) =
    text exe ++ (boolean exe_path_known ++ (u32 uid ++ text user))
encode_fields (Claim.process_parent parent_pid) = u32 parent_pid
encode_fields (Claim.child_process_seen pid name depth) = u32 pid ++ (text name ++ u16 depth)
encode_fields (Claim.socket_open protocol host port direction opened_at bytes basis) =
    text (protocol_name protocol)
    ++ (text host
        ++ (u16 port
            ++ (text (direction_name direction)
                ++ (option u64 opened_at
                    ++ (option encode_counters bytes ++ text (basis_name basis))))))
encode_fields (Claim.socket_closed host port direction duration_ms) =
    text host ++ (u16 port ++ (text (direction_name direction) ++ u64 duration_ms))
encode_fields (Claim.connection_attempt host port direction outcome) =
    text host ++ (u16 port ++ (text (direction_name direction) ++ text (outcome_name outcome)))
encode_fields (Claim.traffic_observed protocol host port direction packets first_seen last_seen) =
    text (protocol_name protocol)
    ++ (text host
        ++ (u16 port
            ++ (text (direction_name direction)
                ++ (u64 packets ++ (u64 first_seen ++ u64 last_seen)))))
encode_fields (Claim.dns_query_observed name query_type outcome) =
    text name ++ (u16 query_type ++ text (dns_name outcome))
encode_fields (Claim.file_touched path access) = text path ++ text (access_name access)
encode_fields (Claim.permission_declared path access granted) =
    text path ++ (text (access_name access) ++ boolean granted)
encode_fields (Claim.resource_reachable path access sensitive evidence) =
    text path
    ++ (text (access_name access) ++ (boolean sensitive ++ text (reachability_name evidence)))
encode_fields (Claim.agent_family family) = text family
encode_fields (Claim.editor_extension_active family extension_id) = text family ++ text extension_id
encode_fields (Claim.model_in_use provider model) = text provider ++ text model
encode_fields (Claim.connector_declared name access) = text name ++ text (access_name access)
encode_fields (Claim.invokes_agent target_pid via) = u32 target_pid ++ text via
encode_fields (Claim.subject_not_evaluated reason) = text reason
encode_fields (Claim.action_taken action succeeded) = text action ++ boolean succeeded

unfoldable pub encode_claim : Claim → Bytes
unfolding encode_fields kind
encode_claim c = text (kind c) ++ encode_fields c

unfoldable pub encode_fact : Fact → Bytes
unfolding encode_subject encode_claim encode_provenance
encode_fact f =
    u16 f.schema
    ++ (encode_subject f.subject ++ (encode_claim f.claim ++ encode_provenance f.provenance))
