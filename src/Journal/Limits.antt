-- ===== src/Journal/Limits.antt =====
-- crates/topgent-journal/src/journal.rs: what each operation keeps of the limit of its file.
use topgent.Base.{
  ℕ, map, ◌≤◌, ◌≡◌, refl, inl, inr, Bool, List, [], ◌∷◌, length, Option, arith, Option-cases,
  Bool-cases,
}
use topgent.Text.{Bytes}
use topgent.Journal.{Chars, bounded_metadata}
use topgent.Journal.Table.{find, update, read_back, length-store, length-read_back}
use topgent.Journal.Transitions.{
  ResponseTransition, is_transition, seen_before, upsert, record_response_transition,
  max_response_transitions,
}
use topgent.Journal.Upserts.{record_transition-store}
use topgent.Journal.Approvals.{
  ApprovalRecord, ApprovalRecordState, approval_records, is_approval, expire, any_lapsed,
  approval_id, has_id, is_open, decide, is_decision, created_before, request_approval,
  resolve_approval, max_approval_records,
}
use topgent.Journal.Cooldowns.{
  ResponseCooldown, is_cooldown, is_held, acquired_before, acquire_response_cooldown,
  max_response_cooldowns,
}
use topgent.Journal.Sensors.{
  SensorHealthRecord, is_sensor, read_sensor, has_sensor, record_sensor_health,
  max_sensor_health_records, ToolAttestationRecord, has_name, record_tool_attestation,
  max_tool_attestations, sensor_before, name_before,
}

pub transitions_bounded :
    (input : Chars) (active : Bool) (now : ℕ) (rs : List ResponseTransition)
    → length (record_response_transition input active now rs).records ≤ max_response_transitions
unfolding record_response_transition
transitions_bounded input active now rs =
    let kept : List ResponseTransition = read_back is_transition rs in
    rw (record_transition-store (bounded_metadata input 512) active now kept) (
      length-store seen_before max_response_transitions
        (upsert (bounded_metadata input 512) active now kept))

pub sensors_bounded :
    (name status : Chars) (observed_at fact_count : ℕ) (dropped : Option ℕ) (remark : Option Chars)
    (rs : List SensorHealthRecord)
    → length (record_sensor_health name status observed_at fact_count dropped remark rs).1
      ≤ max_sensor_health_records
unfolding record_sensor_health
sensors_bounded name status observed_at fact_count dropped remark rs =
    elim (Option-cases
      (find (has_sensor (bounded_metadata name 96)) (map read_sensor (read_back is_sensor rs)))) [
        | inr (r, e) ↦
            rw (e, record_sensor_health) (length-store sensor_before max_sensor_health_records _)
        | inl e ↦
            rw (e, record_sensor_health) (length-store sensor_before max_sensor_health_records _)
      ]

pub tools_bounded :
    (label status : Chars) (path : Option Chars) (observed_at : ℕ) (rs : List ToolAttestationRecord)
    → length (record_tool_attestation label status path observed_at rs).1 ≤ max_tool_attestations
unfolding record_tool_attestation
tools_bounded label status path observed_at rs =
    elim (Option-cases (find (has_name (bounded_metadata label 64)) rs)) [
      | inr (r, e) ↦
          rw (e, record_tool_attestation) (length-store name_before max_tool_attestations _)
      | inl e ↦ rw (e, record_tool_attestation) (length-store name_before max_tool_attestations _)
    ]

length-expire : (now : ℕ) (rs : List ApprovalRecord) → length (map (expire now) rs) ≡ length rs
length-expire now [] = refl
length-expire now (r ∷ rs) = ground (arith, length-expire now rs)

length-update :
    {R : Type 0} (test : R → Bool) (change : R → R) (rs : List R)
    → length (update test change rs) ≡ length rs
unfolding update
length-update test change [] = refl
length-update test change (r ∷ rs) = ground (arith, length-update test change rs)

module _ (digits : ℕ → Chars) (as_bytes : Chars → Bytes) where
  length-records :
      (now : ℕ) (rs : List ApprovalRecord)
      → length (approval_records digits as_bytes now rs).0 ≤ length rs
  unfolding approval_records
  length-records now rs =
      let kept : List ApprovalRecord = read_back (is_approval digits as_bytes) rs in
      omega (arith, length-expire now kept, length-read_back (is_approval digits as_bytes) rs)

  pub length-file :
      (now : ℕ) (rs : List ApprovalRecord)
      → length (approval_records digits as_bytes now rs).1 ≤ length rs
  unfolding approval_records
  length-file now rs =
      elim (Bool-cases (any_lapsed now (read_back (is_approval digits as_bytes) rs))) [
        | inl y ↦ rw y (length-records now rs)
        | inr n ↦ rw n (omega arith)
      ]

  pub approvals_bounded :
      (pid started_at : ℕ) (scope : Chars) (now ttl_ms : ℕ) (rs : List ApprovalRecord)
      → length rs ≤ max_approval_records
      → length (request_approval digits as_bytes pid started_at scope now ttl_ms rs).1
        ≤ max_approval_records
  unfolding request_approval
  approvals_bounded pid started_at scope now ttl_ms rs h =
      let id : Chars = approval_id digits as_bytes pid started_at (bounded_metadata scope 256) in
      elim (Option-cases (find (has_id id) (approval_records digits as_bytes now rs).0)) [
        | inr (r, e) ↦ rw (e, request_approval) (omega (arith, length-file now rs))
        | inl e ↦ rw (e, request_approval) (length-store created_before max_approval_records _)
      ]

  pub decisions_bounded :
      (id : Chars) (pid started_at : ℕ) (decision : ApprovalRecordState) (now : ℕ)
      (rs : List ApprovalRecord)
      → length rs ≤ max_approval_records
      → length (resolve_approval digits as_bytes id pid started_at decision now rs).1
        ≤ max_approval_records
  unfolding resolve_approval
  decisions_bounded id pid started_at decision now rs h =
      let records : List ApprovalRecord = (approval_records digits as_bytes now rs).0 in
      elim (Bool-cases (is_decision decision)) [
        | inr n ↦ rw (n, resolve_approval) h
        | inl y ↦ elim (Option-cases (find (is_open id pid started_at now) records)) [
          | inl e ↦ rw (y, e, resolve_approval) (omega (arith, length-file now rs))
          | inr (r, e) ↦
              rw (y, e, resolve_approval)
                (omega (
                  arith,
                  length-records now rs,
                  length-update (is_open id pid started_at now) (decide decision now) records,
                ))
        ]
      ]

pub cooldowns_bounded :
    (pid started_at : ℕ) (scope : Chars) (now cooldown_ms : ℕ) (rs : List ResponseCooldown)
    → length rs ≤ max_response_cooldowns
    → length (acquire_response_cooldown pid started_at scope now cooldown_ms rs).1
      ≤ max_response_cooldowns
unfolding acquire_response_cooldown
cooldowns_bounded pid started_at scope now cooldown_ms rs h =
    elim (Option-cases
      (find (is_held pid started_at (bounded_metadata scope 64) now) (read_back is_cooldown rs))) [
        | inr (r, e) ↦ rw (e, acquire_response_cooldown) h
        | inl e ↦
            rw (e, acquire_response_cooldown)
              (length-store acquired_before max_response_cooldowns _)
      ]
