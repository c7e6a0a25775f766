-- ===== src/Journal/Bounds.antt =====
-- crates/topgent-journal/src/journal.rs: how many records each file holds.
use topgent.Base.{ℕ, ◌≤◌, Bool, List, length, Option, arith}
use topgent.Text.{Bytes}
use topgent.Journal.{Chars}
use topgent.Journal.Transitions.{
  ResponseTransition, record_response_transition, max_response_transitions,
}
use topgent.Journal.Approvals.{
  ApprovalRecord, ApprovalRecordState, approval_records, request_approval, resolve_approval,
  max_approval_records,
}
use topgent.Journal.Cooldowns.{ResponseCooldown, acquire_response_cooldown, max_response_cooldowns}
use topgent.Journal.Sensors.{
  SensorHealthRecord, record_sensor_health, max_sensor_health_records, ToolAttestationRecord,
  record_tool_attestation, max_tool_attestations,
}
use topgent.Journal.Limits.{
  transitions_bounded, sensors_bounded, tools_bounded, length-file, approvals_bounded,
  decisions_bounded, cooldowns_bounded,
}

-- The files of a journal.
pub record Files : Type 0 where
  pub transitions : List ResponseTransition
  pub cooldowns : List ResponseCooldown
  pub approvals : List ApprovalRecord
  pub sensors : List SensorHealthRecord
  pub tools : List ToolAttestationRecord

pub record IsBounded (files : Files) : Type 0 where
  pub few_transitions : length files.transitions ≤ max_response_transitions
  pub few_cooldowns : length files.cooldowns ≤ max_response_cooldowns
  pub few_approvals : length files.approvals ≤ max_approval_records
  pub few_sensors : length files.sensors ≤ max_sensor_health_records
  pub few_tools : length files.tools ≤ max_tool_attestations

-- A call of the journal, with its arguments.
pub data Call : Type 0 where
  transition : Chars → Bool → ℕ → Call
  cooldown : ℕ → ℕ → Chars → ℕ → ℕ → Call
  read : ℕ → Call
  request : ℕ → ℕ → Chars → ℕ → ℕ → Call
  resolve : Chars → ℕ → ℕ → ApprovalRecordState → ℕ → Call
  sensor : Chars → Chars → ℕ → ℕ → Option ℕ → Option Chars → Call
  tool : Chars → Chars → Option Chars → ℕ → Call

module _ (digits : ℕ → Chars) (as_bytes : Chars → Bytes) where
  unfoldable pub apply : Call → Files → Files
  apply (transition key active now) f = record f {
    transitions = (record_response_transition key active now f.transitions).records;
  }
  apply (cooldown pid started_at scope now cooldown_ms) f = record f {
    cooldowns = (acquire_response_cooldown pid started_at scope now cooldown_ms f.cooldowns).1;
  }
  apply (read now) f = record f { approvals = (approval_records digits as_bytes now f.approvals).1 }
  apply (request pid started_at scope now ttl_ms) f = record f {
    approvals = (request_approval digits as_bytes pid started_at scope now ttl_ms f.approvals).1;
  }
  apply (resolve id pid started_at decision now) f = record f {
    approvals = (resolve_approval digits as_bytes id pid started_at decision now f.approvals).1;
  }
  apply (sensor id state observed_at fact_count dropped detail) f = record f {
    sensors = (record_sensor_health id state observed_at fact_count dropped detail f.sensors).1;
  }
  apply (tool name state path observed_at) f = record f {
    tools = (record_tool_attestation name state path observed_at f.tools).1;
  }

  -- A call of the journal, to record a transition, acquire a cooldown, read, request or resolve an
  -- approval, or record a sensor's health or a tool, keeps each of the five files within its limit:
  -- 512 transitions, 256 cooldowns, 256 approvals, 64 sensors and 32 tools.
  pub apply-IsBounded : (call : Call) (f : Files) → IsBounded f → IsBounded (apply call f)
  unfolding apply
  apply-IsBounded (transition key active now) f b = record {
    few_transitions = transitions_bounded key active now f.transitions;
    few_cooldowns = b.few_cooldowns;
    few_approvals = b.few_approvals;
    few_sensors = b.few_sensors;
    few_tools = b.few_tools;
  }
  apply-IsBounded (cooldown pid started_at scope now cooldown_ms) f b = record {
    few_transitions = b.few_transitions;
    few_cooldowns =
        cooldowns_bounded pid started_at scope now cooldown_ms f.cooldowns b.few_cooldowns;
    few_approvals = b.few_approvals;
    few_sensors = b.few_sensors;
    few_tools = b.few_tools;
  }
  apply-IsBounded (read now) f b = record {
    few_transitions = b.few_transitions;
    few_cooldowns = b.few_cooldowns;
    few_approvals = omega (arith, length-file digits as_bytes now f.approvals, b.few_approvals);
    few_sensors = b.few_sensors;
    few_tools = b.few_tools;
  }
  apply-IsBounded (request pid started_at scope now ttl_ms) f b = record {
    few_transitions = b.few_transitions;
    few_cooldowns = b.few_cooldowns;
    few_approvals =
        approvals_bounded digits as_bytes pid started_at scope now ttl_ms f.approvals
          b.few_approvals;
    few_sensors = b.few_sensors;
    few_tools = b.few_tools;
  }
  apply-IsBounded (resolve id pid started_at decision now) f b = record {
    few_transitions = b.few_transitions;
    few_cooldowns = b.few_cooldowns;
    few_approvals =
        decisions_bounded digits as_bytes id pid started_at decision now f.approvals
          b.few_approvals;
    few_sensors = b.few_sensors;
    few_tools = b.few_tools;
  }
  apply-IsBounded (sensor id state observed_at fact_count dropped detail) f b = record {
    few_transitions = b.few_transitions;
    few_cooldowns = b.few_cooldowns;
    few_approvals = b.few_approvals;
    few_sensors = sensors_bounded id state observed_at fact_count dropped detail f.sensors;
    few_tools = b.few_tools;
  }
  apply-IsBounded (tool name state path observed_at) f b = record {
    few_transitions = b.few_transitions;
    few_cooldowns = b.few_cooldowns;
    few_approvals = b.few_approvals;
    few_sensors = b.few_sensors;
    few_tools = tools_bounded name state path observed_at f.tools;
  }
