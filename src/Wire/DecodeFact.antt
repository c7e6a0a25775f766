-- ===== src/Wire/DecodeFact.antt =====
-- crates/topgent-evidence/src/wire.rs: reading a claim and a fact back. The arms are the source's,
-- in its order; the source has none for `traffic_observed`.
use topgent.Base.{Result, ok, err}
use topgent.Text.{Bytes, Bytes-discrete, ascii}
use topgent.Vocabulary.{Reason}
use topgent.Reader.{
  Decoder, ◌>>=◌, pure, fail, text, u16, u32, u64, boolean, option, unknown_variant, rejected,
}
use topgent.Facts.{Claim, Fact, FactError, new_fact}
use topgent.Wire.Decode.{
  arm, decode_access, decode_direction, decode_protocol, decode_basis, decode_reachability,
  decode_outcome, decode_dns, decode_counters, decode_subject, decode_provenance,
}

pub read_process_seen : Decoder Claim
unfolding text u32 boolean ◌>>=◌ pure
read_process_seen = do
  exe ← text
  known ← boolean
  uid ← u32
  user ← text
  pure (Claim.process_seen exe known uid user)

pub read_process_parent : Decoder Claim
unfolding u32 ◌>>=◌ pure
read_process_parent = do parent_pid ← u32; pure (Claim.process_parent parent_pid)

pub read_child_process_seen : Decoder Claim
unfolding text u16 u32 ◌>>=◌ pure
read_child_process_seen = do
  pid ← u32
  name ← text
  depth ← u16
  pure (Claim.child_process_seen pid name depth)

pub read_socket_open : Decoder Claim
unfolding text u16 u64 option decode_direction decode_protocol decode_basis decode_counters ◌>>=◌
    pure
read_socket_open = do
  protocol ← decode_protocol
  host ← text
  port ← u16
  direction ← decode_direction
  opened_at ← option u64
  bytes ← option decode_counters
  basis ← decode_basis
  pure (Claim.socket_open protocol host port direction opened_at bytes basis)

pub read_socket_closed : Decoder Claim
unfolding text u16 u64 decode_direction ◌>>=◌ pure
read_socket_closed = do
  host ← text
  port ← u16
  direction ← decode_direction
  duration_ms ← u64
  pure (Claim.socket_closed host port direction duration_ms)

pub read_connection_attempt : Decoder Claim
unfolding text u16 decode_direction decode_outcome ◌>>=◌ pure
read_connection_attempt = do
  host ← text
  port ← u16
  direction ← decode_direction
  outcome ← decode_outcome
  pure (Claim.connection_attempt host port direction outcome)

pub read_dns_query_observed : Decoder Claim
unfolding text u16 decode_dns ◌>>=◌ pure
read_dns_query_observed = do
  name ← text
  query_type ← u16
  outcome ← decode_dns
  pure (Claim.dns_query_observed name query_type outcome)

pub read_file_touched : Decoder Claim
unfolding text decode_access ◌>>=◌ pure
read_file_touched = do path ← text; access ← decode_access; pure (Claim.file_touched path access)

pub read_permission_declared : Decoder Claim
unfolding text boolean decode_access ◌>>=◌ pure
read_permission_declared = do
  path ← text
  access ← decode_access
  granted ← boolean
  pure (Claim.permission_declared path access granted)

pub read_resource_reachable : Decoder Claim
unfolding text boolean decode_access decode_reachability ◌>>=◌ pure
read_resource_reachable = do
  path ← text
  access ← decode_access
  sensitive ← boolean
  evidence ← decode_reachability
  pure (Claim.resource_reachable path access sensitive evidence)

pub read_agent_family : Decoder Claim
unfolding text ◌>>=◌ pure
read_agent_family = do family ← text; pure (Claim.agent_family family)

pub read_editor_extension_active : Decoder Claim
unfolding text ◌>>=◌ pure
read_editor_extension_active = do
  family ← text
  extension_id ← text
  pure (Claim.editor_extension_active family extension_id)

pub read_model_in_use : Decoder Claim
unfolding text ◌>>=◌ pure
read_model_in_use = do provider ← text; model ← text; pure (Claim.model_in_use provider model)

pub read_connector_declared : Decoder Claim
unfolding text decode_access ◌>>=◌ pure
read_connector_declared = do
  name ← text
  access ← decode_access
  pure (Claim.connector_declared name access)

pub read_invokes_agent : Decoder Claim
unfolding text u32 ◌>>=◌ pure
read_invokes_agent = do target_pid ← u32; via ← text; pure (Claim.invokes_agent target_pid via)

pub read_subject_not_evaluated : Decoder Claim
unfolding text ◌>>=◌ pure
read_subject_not_evaluated = do reason ← text; pure (Claim.subject_not_evaluated reason)

pub read_action_taken : Decoder Claim
unfolding text boolean ◌>>=◌ pure
read_action_taken = do
  action ← text
  succeeded ← boolean
  pure (Claim.action_taken action succeeded)

unfoldable pub claim_of : Bytes → Decoder Claim
unfolding fail Bytes-discrete read_process_seen read_process_parent read_child_process_seen
    read_socket_open read_socket_closed read_connection_attempt read_dns_query_observed
    read_file_touched read_permission_declared read_resource_reachable read_agent_family
    read_editor_extension_active read_model_in_use read_connector_declared read_invokes_agent
    read_subject_not_evaluated read_action_taken
claim_of found = arm found (ascii "process_seen") read_process_seen (
    arm found (ascii "process_parent") read_process_parent (
      arm found (ascii "child_process_seen") read_child_process_seen (
        arm found (ascii "socket_open") read_socket_open (
          arm found (ascii "socket_closed") read_socket_closed (
            arm found (ascii "connection_attempt") read_connection_attempt (
              arm found (ascii "dns_query_observed") read_dns_query_observed (
                arm found (ascii "file_touched") read_file_touched (
                  arm found (ascii "permission_declared") read_permission_declared (
                    arm found (ascii "resource_reachable") read_resource_reachable (
                      arm found (ascii "agent_family") read_agent_family (
                        arm found (ascii "editor_extension_active") read_editor_extension_active (
                          arm found (ascii "model_in_use") read_model_in_use (
                            arm found (ascii "connector_declared") read_connector_declared (
                              arm found (ascii "invokes_agent") read_invokes_agent (
                                arm found (ascii "subject_not_evaluated") read_subject_not_evaluated
                                  (arm found (ascii "action_taken") read_action_taken
                                    (fail (unknown_variant (ascii "claim") found))))))))))))))))))

unfoldable pub decode_claim : Decoder Claim
unfolding text claim_of ◌>>=◌
decode_claim = text >>= claim_of

-- `.map_err(|error| DecodeError::Rejected { .. })`
pub admit_fact : Result FactError Fact → Decoder Fact
unfolding pure fail
admit_fact (ok f) = pure f
admit_fact (err e) = fail (rejected (Reason.fact e))

unfoldable pub decode_fact : Decoder Fact
unfolding u16 decode_subject decode_claim decode_provenance admit_fact new_fact ◌>>=◌
decode_fact = do
  schema ← u16
  subject ← decode_subject
  claim ← decode_claim
  provenance ← decode_provenance
  admit_fact (new_fact schema subject claim provenance)
