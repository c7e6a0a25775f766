-- ===== src/Journal/Approvals.antt =====
-- crates/topgent-journal/src/approval.rs, and the approvals of journal.rs: `approval_records`,
-- `request_approval` and `resolve_approval`. The decimal digits of a number and the bytes of a text
-- are parameters, as both come from the standard library.
use topgent.Base.{
  ℕ, Bool, true, false, not, ◌&&◌, ◌||◌, leb, ltb, ◌==◌, List, [], ◌∷◌, ◌++◌, map, Option, none,
  some, if◌then◌else◌,
}
use topgent.Text.{Bytes, ascii}
use topgent.Machine.{u64_max, saturating_add}
use topgent.Canonical.{hex}
use topgent.Journal.{Chars, bounded_metadata, is_kept, same_text}
use topgent.Journal.Table.{find, update, store, read_back}

abbrev pub max_approval_records : ℕ
max_approval_records = 256

pub data ApprovalRecordState : Type 0 where
  pending approved denied expired : ApprovalRecordState

pub record ApprovalRecord : Type 0 where
  pub id : Chars
  -- u32
  pub pid : ℕ
  -- u64
  pub started_at : ℕ
  pub scope : Chars
  pub state : ApprovalRecordState
  -- u64
  pub created_at : ℕ
  -- u64
  pub expires_at : ℕ
  -- u64
  pub resolved_at : Option ℕ

unfoldable pub is_pending : ApprovalRecordState → Bool
is_pending pending = true
is_pending _ = false

-- `matches!(decision, Approved | Denied)`
unfoldable pub is_decision : ApprovalRecordState → Bool
is_decision approved = true
is_decision denied = true
is_decision _ = false

-- `record.state == Pending && now >= record.expires_at`
unfoldable pub has_lapsed : ℕ → ApprovalRecord → Bool
has_lapsed now r = is_pending r.state && leb r.expires_at now

unfoldable pub expire : ℕ → ApprovalRecord → ApprovalRecord
unfolding has_lapsed
expire now r =
    if has_lapsed now r then record r { state = expired; resolved_at = some r.expires_at } else r

unfoldable pub any_lapsed : ℕ → List ApprovalRecord → Bool
any_lapsed now [] = false
any_lapsed now (r ∷ rs) = has_lapsed now r || any_lapsed now rs

-- `valid_resolution`
unfoldable pub is_resolution : ApprovalRecord → Bool
is_resolution r = elim r.resolved_at [
  | none ↦ is_pending r.state
  | some at ↦
      if is_decision r.state
      then leb r.created_at at && leb at r.expires_at
      else not (is_pending r.state) && at == r.expires_at
]

unfoldable pub created_before : ApprovalRecord → ApprovalRecord → Bool
created_before r s = leb r.created_at s.created_at

unfoldable pub has_id : Chars → ApprovalRecord → Bool
has_id id r = same_text r.id id

-- The one open request of an exact process.
unfoldable pub is_open : Chars → ℕ → ℕ → ℕ → ApprovalRecord → Bool
is_open id pid started_at now r =
    has_id id r
    && r.pid == pid
    && r.started_at == started_at
    && is_pending r.state
    && ltb now r.expires_at

unfoldable pub decide : ApprovalRecordState → ℕ → ApprovalRecord → ApprovalRecord
decide decision now r = record r { state = decision; resolved_at = some now }

-- `ttl_ms.max(1)`
unfoldable pub at_least_one : ℕ → ℕ
at_least_one n = if leb 1 n then n else 1

module _ (digits : ℕ → Chars) (as_bytes : Chars → Bytes) where
  unfoldable pub approval_id : ℕ → ℕ → Chars → Chars
  approval_id pid started_at scope =
      ascii "approval-"
      ++ (digits pid ++ (ascii "-" ++ (digits started_at ++ (ascii "-" ++ hex (as_bytes scope)))))

  -- `approval_record_from_json`
  unfoldable pub is_approval : ApprovalRecord → Bool
  is_approval r =
      is_kept r.scope 256
      && same_text r.id (approval_id r.pid r.started_at r.scope)
      && ltb r.created_at r.expires_at
      && is_resolution r

  -- The records that the file reads as, those expired whose time is over, and the file, which is
  -- written again where one was.
  unfoldable pub approval_records :
      ℕ → List ApprovalRecord → List ApprovalRecord × List ApprovalRecord
  approval_records now file =
      let records = read_back is_approval file in
      (map (expire now) records, if any_lapsed now records then map (expire now) records else file)

  unfoldable pub new_request : ℕ → ℕ → Chars → ℕ → ℕ → ApprovalRecord
  new_request pid started_at scope now ttl_ms = record {
    id = approval_id pid started_at scope;
    pid = pid;
    started_at = started_at;
    scope = scope;
    state = pending;
    created_at = now;
    expires_at = saturating_add u64_max now (at_least_one ttl_ms);
    resolved_at = none;
  }

  unfoldable pub request_approval :
      ℕ → ℕ → Chars → ℕ → ℕ → List ApprovalRecord → ApprovalRecord × List ApprovalRecord
  request_approval pid started_at input now ttl_ms file =
      let scope = bounded_metadata input 256 in
      let read = approval_records now file in
      elim (find (has_id (approval_id pid started_at scope)) read.0) [
        | some r ↦ (r, read.1)
        | none ↦ (
          new_request pid started_at scope now ttl_ms,
          store created_before max_approval_records
              (read.0 ++ new_request pid started_at scope now ttl_ms ∷ []),
        )
      ]

  unfoldable pub resolve_approval :
      Chars
      → ℕ
      → ℕ
      → ApprovalRecordState
      → ℕ
      → List ApprovalRecord
      → Option ApprovalRecord × List ApprovalRecord
  resolve_approval id pid started_at decision now file =
      let read = approval_records now file in
      if is_decision decision
      then (elim (find (is_open id pid started_at now) read.0) [
        | none ↦ (none, read.1)
        | some r ↦ (
          some (decide decision now r),
          update (is_open id pid started_at now) (decide decision now) read.0,
        )
      ])
      else (none, file)
