-- ===== src/Facts.antt =====
-- crates/topgent-facts/src: the fact vocabulary (scalar.rs, network.rs, subject.rs, claim.rs) and
-- the one constructor of a fact (fact.rs, version.rs). Times and counters are unsigned integers of
-- the width that their comment gives; a text is its UTF-8 bytes.
use topgent.Base.{ℕ, Bool, Option, Result, ok, err, ◌==◌, if◌then◌else◌, not}
use topgent.Text.{Bytes, ascii, is_blank}

pub data Confidence : Type 0 where
  possible likely certain : Confidence

pub data Access : Type 0 where
  read write read_write execute : Access

pub data Direction : Type 0 where
  outbound listening : Direction

pub data Protocol : Type 0 where
  tcp udp icmp other unstated : Protocol

pub data Reachability : Type 0 where
  account_readable path_resolves : Reachability

pub data MatchBasis : Type 0 where
  unreported listener wildcard_local exact_tuple kernel_event : MatchBasis

pub data ConnectionOutcome : Type 0 where
  allowed blocked : ConnectionOutcome

pub data DnsOutcome : Type 0 where
  answered not_found failed : DnsOutcome

-- u64, u64
pub record ByteCounters : Type 0 where
  pub sent : ℕ
  pub received : ℕ

pub data Subject : Type 0 where
  -- pid (u32), started_at (u64)
  process : ℕ → ℕ → Subject
  -- path
  resource : Bytes → Subject
  -- host, port (u16)
  endpoint : Bytes → ℕ → Subject

pub data Claim : Type 0 where
  -- exe, exe_path_known, uid (u32), user
  process_seen : Bytes → Bool → ℕ → Bytes → Claim
  -- parent_pid (u32)
  process_parent : ℕ → Claim
  -- pid (u32), name, depth (u16)
  child_process_seen : ℕ → Bytes → ℕ → Claim
  -- protocol, host, port (u16), direction, opened_at (u64), bytes, basis
  socket_open :
      Protocol → Bytes → ℕ → Direction → Option ℕ → Option ByteCounters → MatchBasis → Claim
  -- host, port (u16), direction, duration_ms (u64)
  socket_closed : Bytes → ℕ → Direction → ℕ → Claim
  -- host, port (u16), direction, outcome
  connection_attempt : Bytes → ℕ → Direction → ConnectionOutcome → Claim
  -- protocol, host, port (u16), direction, packets (u64), first_seen (u64), last_seen (u64)
  traffic_observed : Protocol → Bytes → ℕ → Direction → ℕ → ℕ → ℕ → Claim
  -- name, query_type (u16), outcome
  dns_query_observed : Bytes → ℕ → DnsOutcome → Claim
  -- path, access
  file_touched : Bytes → Access → Claim
  -- path, access, granted
  permission_declared : Bytes → Access → Bool → Claim
  -- path, access, sensitive, evidence
  resource_reachable : Bytes → Access → Bool → Reachability → Claim
  -- family
  agent_family : Bytes → Claim
  -- family, extension_id
  editor_extension_active : Bytes → Bytes → Claim
  -- provider, model
  model_in_use : Bytes → Bytes → Claim
  -- name, access
  connector_declared : Bytes → Access → Claim
  -- target_pid (u32), via
  invokes_agent : ℕ → Bytes → Claim
  -- reason
  subject_not_evaluated : Bytes → Claim
  -- action, succeeded
  action_taken : Bytes → Bool → Claim

-- `Claim::kind`.
unfoldable pub kind : Claim → Bytes
kind (process_seen _ _ _ _) = ascii "process_seen"
kind (process_parent _) = ascii "process_parent"
kind (child_process_seen _ _ _) = ascii "child_process_seen"
kind (socket_open _ _ _ _ _ _ _) = ascii "socket_open"
kind (socket_closed _ _ _ _) = ascii "socket_closed"
kind (connection_attempt _ _ _ _) = ascii "connection_attempt"
kind (traffic_observed _ _ _ _ _ _ _) = ascii "traffic_observed"
kind (dns_query_observed _ _ _) = ascii "dns_query_observed"
kind (file_touched _ _) = ascii "file_touched"
kind (permission_declared _ _ _) = ascii "permission_declared"
kind (resource_reachable _ _ _ _) = ascii "resource_reachable"
kind (agent_family _) = ascii "agent_family"
kind (editor_extension_active _ _) = ascii "editor_extension_active"
kind (model_in_use _ _) = ascii "model_in_use"
kind (connector_declared _ _) = ascii "connector_declared"
kind (invokes_agent _ _) = ascii "invokes_agent"
kind (subject_not_evaluated _) = ascii "subject_not_evaluated"
kind (action_taken _ _) = ascii "action_taken"

pub record Provenance : Type 0 where
  pub collector : Bytes
  pub probe : Bytes
  pub confidence : Confidence
  -- u64
  pub observed_at : ℕ

pub record Fact : Type 0 where
  -- u16
  pub schema : ℕ
  pub subject : Subject
  pub claim : Claim
  pub provenance : Provenance

abbrev pub schema_version : ℕ
schema_version = 4

pub data FactError : Type 0 where
  -- found, expected
  unknown_schema : ℕ → ℕ → FactError
  missing_provenance : Bytes → FactError

-- `Fact::new`.
unfoldable pub new_fact : ℕ → Subject → Claim → Provenance → Result FactError Fact
unfolding is_blank
new_fact schema subject claim provenance =
    if not (schema == schema_version)
    then err (unknown_schema schema schema_version)
    else if is_blank provenance.collector
    then err (missing_provenance (ascii "collector"))
    else if is_blank provenance.probe
    then err (missing_provenance (ascii "probe"))
    else ok (record { schema = schema; subject = subject; claim = claim; provenance = provenance })
