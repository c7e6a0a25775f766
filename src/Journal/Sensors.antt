-- ===== src/Journal/Sensors.antt =====
-- crates/topgent-journal/src/sensor_health.rs and attestation.rs, and of journal.rs
-- `record_sensor_health` and `record_tool_attestation`.
use topgent.Base.{
  ℕ, Bool, true, false, not, ◌||◌, ◌&&◌, leb, List, [], ◌∷◌, ◌++◌, map, Option, none, some,
  if◌then◌else◌, Ordering,
}
use mathlib.Core.Option
use topgent.Text.{ascii}
use topgent.Machine.{u64_max, saturating_add}
use topgent.Order.{lex}
use topgent.Journal.{Chars, bounded_metadata, is_kept, same_text}
use topgent.Journal.Table.{find, update, store, read_back}

abbrev pub max_sensor_health_records : ℕ
max_sensor_health_records = 64

abbrev pub max_tool_attestations : ℕ
max_tool_attestations = 32

-- `left.cmp(right)` on texts, which orders UTF-8 bytes as it orders code points.
unfoldable pub text_before : Chars → Chars → Bool
text_before a b = elim (lex a b) [ Ordering.gt ↦ false | _ ↦ true ]

pub record SensorHealthRecord : Type 0 where
  pub id : Chars
  pub state : Chars
  -- u64, as all numbers of the record
  pub last_observed_at : ℕ
  pub last_success_at : Option ℕ
  pub last_error_at : Option ℕ
  pub consecutive_failures : ℕ
  pub total_runs : ℕ
  pub total_facts : ℕ
  pub dropped_events : Option ℕ
  pub detail : Option Chars

-- `sensor_health_from_json`: the members that it drops, and what it does to those that it keeps.
unfoldable pub is_state : Chars → Bool
is_state state =
    same_text state (ascii "available")
    || same_text state (ascii "unsupported")
    || same_text state (ascii "permission_required")
    || same_text state (ascii "error")

unfoldable pub is_by : ℕ → Option ℕ → Bool
is_by last none = true
is_by last (some at) = leb at last

unfoldable pub is_sensor : SensorHealthRecord → Bool
is_sensor r =
    is_kept r.id 96
    && is_state r.state
    && is_by r.last_observed_at r.last_success_at
    && is_by r.last_observed_at r.last_error_at

unfoldable pub read_sensor : SensorHealthRecord → SensorHealthRecord
read_sensor r = record r { detail = Option.map (λ text. bounded_metadata text 512) r.detail }

unfoldable pub is_available : Chars → Bool
is_available state = same_text state (ascii "available")

unfoldable pub or_else : Option ℕ → Option ℕ → Option ℕ
or_else (some n) old = some n
or_else none old = old

-- One more run of a sensor.
unfoldable pub observe_again :
    Chars → ℕ → ℕ → Option ℕ → Option Chars → SensorHealthRecord → SensorHealthRecord
observe_again state observed_at fact_count dropped detail r = record r {
  state = state;
  last_observed_at = observed_at;
  total_runs = saturating_add u64_max r.total_runs 1;
  total_facts = saturating_add u64_max r.total_facts fact_count;
  detail = detail;
  dropped_events = or_else dropped r.dropped_events;
  last_success_at = if is_available state then some observed_at else r.last_success_at;
  last_error_at = if is_available state then r.last_error_at else some observed_at;
  consecutive_failures =
      if is_available state then 0 else saturating_add u64_max r.consecutive_failures 1;
}

unfoldable pub first_observation :
    Chars → Chars → ℕ → ℕ → Option ℕ → Option Chars → SensorHealthRecord
first_observation id state observed_at fact_count dropped detail = record {
  id = id;
  state = state;
  last_observed_at = observed_at;
  last_success_at = if is_available state then some observed_at else none;
  last_error_at = if is_available state then none else some observed_at;
  consecutive_failures = if is_available state then 0 else 1;
  total_runs = 1;
  total_facts = fact_count;
  dropped_events = dropped;
  detail = detail;
}

unfoldable pub has_sensor : Chars → SensorHealthRecord → Bool
has_sensor id r = same_text r.id id

unfoldable pub sensor_before : SensorHealthRecord → SensorHealthRecord → Bool
sensor_before r s = text_before r.id s.id

unfoldable pub record_sensor_health :
    Chars
    → Chars
    → ℕ
    → ℕ
    → Option ℕ
    → Option Chars
    → List SensorHealthRecord
    → SensorHealthRecord × List SensorHealthRecord
record_sensor_health name status observed_at fact_count dropped remark file =
    let records = map read_sensor (read_back is_sensor file) in
    let id = bounded_metadata name 96 in
    let state = bounded_metadata status 32 in
    let detail = Option.map (λ text. bounded_metadata text 512) remark in
    elim (find (has_sensor id) records) [
      | some r ↦ (
        observe_again state observed_at fact_count dropped detail r,
        store sensor_before max_sensor_health_records (
            update (has_sensor id) (observe_again state observed_at fact_count dropped detail)
              records),
      )
      | none ↦ (
        first_observation id state observed_at fact_count dropped detail,
        store sensor_before max_sensor_health_records
            (records ++ first_observation id state observed_at fact_count dropped detail ∷ []),
      )
    ]

pub record ToolAttestationRecord : Type 0 where
  pub name : Chars
  pub state : Chars
  pub path : Option Chars
  -- u64
  pub first_seen_at : ℕ
  -- u64
  pub last_seen_at : ℕ
  pub previous_state : Option Chars
  pub changed_at : Option ℕ

unfoldable pub same_path : Option Chars → Option Chars → Bool
same_path none none = true
same_path (some a) (some b) = same_text a b
same_path _ _ = false

unfoldable pub attest_again :
    Chars → Option Chars → ℕ → ToolAttestationRecord → ToolAttestationRecord
attest_again state path observed_at r =
    let moved = not (same_text r.state state) || not (same_path r.path path) in
    record r {
      state = state;
      path = path;
      last_seen_at = observed_at;
      previous_state = if moved then some r.state else r.previous_state;
      changed_at = if moved then some observed_at else r.changed_at;
    }

unfoldable pub first_attestation : Chars → Chars → Option Chars → ℕ → ToolAttestationRecord
first_attestation name state path observed_at = record {
  name = name;
  state = state;
  path = path;
  first_seen_at = observed_at;
  last_seen_at = observed_at;
  previous_state = none;
  changed_at = none;
}

unfoldable pub has_name : Chars → ToolAttestationRecord → Bool
has_name name r = same_text r.name name

unfoldable pub name_before : ToolAttestationRecord → ToolAttestationRecord → Bool
name_before r s = text_before r.name s.name

unfoldable pub record_tool_attestation :
    Chars
    → Chars
    → Option Chars
    → ℕ
    → List ToolAttestationRecord
    → ToolAttestationRecord × List ToolAttestationRecord
record_tool_attestation label status where_found observed_at records =
    let name = bounded_metadata label 64 in
    let state = bounded_metadata status 32 in
    let path = Option.map (λ text. bounded_metadata text 512) where_found in
    elim (find (has_name name) records) [
      | some r ↦ (
        attest_again state path observed_at r,
        store name_before max_tool_attestations
            (update (has_name name) (attest_again state path observed_at) records),
      )
      | none ↦ (
        first_attestation name state path observed_at,
        store name_before max_tool_attestations
            (records ++ first_attestation name state path observed_at ∷ []),
      )
    ]
