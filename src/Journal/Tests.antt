-- ===== src/Journal/Tests.antt =====
-- The operations of the journal at concrete records.
use topgent.Base.{
  ℕ, ◌+◌, ◌<◌, ◌≡◌, refl, inl, ◌∷◌, ◌++◌, Bool, true, false, length, List, [], none, some, arith,
  All, Any,
}
use topgent.Text.{Bytes, ascii, Bytes-discrete}
use topgent.Machine.{saturating_add, u64_max}
use topgent.Canonical.{hex, hex_digit}
use topgent.Order.{lex}
use topgent.Journal.{
  Chars, emit_word, split_whitespace, join_words, blank_control, cut_text, bounded_metadata,
  same_text, is_empty, is_kept,
}
use topgent.Journal.Table.{read_back, find, update, insert_record, sort_records, keep_last, store}
use topgent.Journal.Transitions.{
  Label, label_of, differs, transit, first_transition, has_key, seen_before, upsert,
  record_transition, record_response_transition, is_transition,
}
use topgent.Journal.Edges.{Scan, Fits, scan, scan_all, tally, advance, read_meter, scan_all-tally}
use topgent.Journal.Approvals.{
  ApprovalRecord, approved, is_pending, is_decision, expire, approval_records, created_before,
  has_id, is_open, decide, at_least_one, resolve_approval, approval_id, new_request,
  request_approval, has_lapsed, any_lapsed, is_resolution, is_approval,
}
use topgent.Journal.Decisions.{request, resolve, Follows, Change-Follows}
use topgent.Journal.Deadlines.{IsTimely, empty, next, Reachable-IsTimely}
use topgent.Journal.Cooldowns.{
  is_cooldown, is_held, retain, acquired_before, new_cooldown, acquire_response_cooldown,
}
use topgent.Journal.Sensors.{
  is_state, is_by, is_sensor, read_sensor, text_before, is_available, or_else, observe_again,
  first_observation, has_sensor, sensor_before, record_sensor_health, same_path, attest_again,
  first_attestation, has_name, name_before, record_tool_attestation,
}
use topgent.Journal.Bounds.{Files, IsBounded, sensor, apply, apply-IsBounded}

abbrev sweep : Chars → Bool → ℕ → Scan
sweep input active now = record { input = input; active = active; now = now }

-- One rule that becomes active twice, and another between.
abbrev sweeps : List Scan
sweeps =
    sweep (ascii " a ") true 1
    ∷ sweep (ascii "b") true 2
    ∷ sweep (ascii "a") false 3
    ∷ sweep (ascii "a") true 4
    ∷ []

-- The digits of small numbers, and texts in ASCII.
abbrev digits : ℕ → Chars
digits n = (48 + n) ∷ []

abbrev as_bytes : Chars → Bytes
as_bytes text = text

abbrev asked : List ApprovalRecord
asked = (request_approval digits as_bytes 4 7 (ascii "kill") 1 100 []).1

abbrev granted : List ApprovalRecord
granted =
    (resolve_approval digits as_bytes (approval_id digits as_bytes 4 7 (ascii "kill")) 4 7 approved
      50 asked).1

-- A request of no scope, as the journal writes it.
abbrev blank_request : ApprovalRecord
blank_request = (request_approval digits as_bytes 4 7 [] 1 100 []).0

abbrev files : Files
files = record { transitions = []; cooldowns = []; approvals = []; sensors = []; tools = [] }

record Runs : Type 0 where
  clean : bounded_metadata (9 ∷ ascii "a" ++ (10 ∷ 32 ∷ ascii "bcd")) 4 ≡ ascii "a b" ++ 0x2026 ∷ []
  fits : Fits sweeps []
  twice : read_meter (find (has_key (ascii "a")) (scan_all sweeps [])) ≡ some (true, 2)
  again :
      (record_response_transition (ascii "a") true 5 (scan_all sweeps [])).label ≡ Label.suppressed
  decided : Any (λ r. (r.state ≡ approved) × (r.resolved_at ≡ some 50)) granted
  too_late :
      (resolve_approval digits as_bytes
        (approval_id digits as_bytes 4 7 (ascii "kill"))
        4
        7
        approved
        101
        asked).0
      ≡ none
  kept : is_kept (bounded_metadata (ascii "kill") 64) 64 ≡ true
  -- A record with no scope is written, and dropped by the next read.
  blank :
      (acquire_response_cooldown 4 7 [] 14 5 (acquire_response_cooldown 4 7 [] 10 5 []).1).0 ≡ none
  -- A file keeps a member that no read gives, until the records are written again.
  unread : (approval_records digits as_bytes 2 (blank_request ∷ asked)).1 ≡ blank_request ∷ asked
  dropped : length (approval_records digits as_bytes 101 (blank_request ∷ asked)).1 ≡ 1
  acquired : (acquire_response_cooldown 4 7 (ascii "kill") 10 5 []).0 ≡ none
  before : 14 < saturating_add u64_max 10 (at_least_one 5)
  health :
      (record_sensor_health
        (ascii "dns")
        (ascii "error")
        9
        0
        none
        none
        (record_sensor_health
          (ascii "dns")
          (ascii "available")
          8
          3
          (some 2)
          none
          []).1).0.last_success_at
      ≡ some 8
  moved :
      (record_tool_attestation
        (ascii "docker")
        (ascii "missing")
        none
        9
        (record_tool_attestation
          (ascii "docker")
          (ascii "trusted")
          (some (ascii "/bin/docker"))
          8
          []).1).0.previous_state
      ≡ some (ascii "trusted")

runs : Runs
unfolding is_state is_by is_sensor read_sensor is_cooldown has_lapsed any_lapsed is_resolution
    is_approval read_back is_empty is_kept record_transition is_transition Bytes-discrete
    saturating_add hex hex_digit lex emit_word split_whitespace join_words blank_control cut_text
    bounded_metadata same_text find update insert_record sort_records keep_last store label_of
    differs transit first_transition has_key seen_before upsert record_response_transition Fits scan
    scan_all tally advance read_meter is_pending is_decision expire approval_records created_before
    has_id is_open decide at_least_one resolve_approval approval_id new_request request_approval
    is_held retain acquired_before new_cooldown acquire_response_cooldown text_before is_available
    or_else observe_again first_observation has_sensor sensor_before record_sensor_health same_path
    attest_again first_attestation has_name name_before record_tool_attestation
runs = record {
  clean = refl;
  fits = (
    refl,
    tt,
    omega arith,
    (
      refl,
      (omega arith, tt),
      omega arith,
      (
        refl,
        (omega arith, (omega arith, tt)),
        omega arith,
        (refl, (omega arith, (omega arith, tt)), omega arith, tt),
      ),
    ),
  );
  kept = refl;
  blank = refl;
  unread = refl;
  dropped = refl;
  twice = refl;
  again = refl;
  decided = inl (refl, refl);
  too_late = refl;
  acquired = refl;
  before = omega arith;
  health = refl;
  moved = refl;
}

scan_all-tally_example :
    read_meter (find (has_key (ascii "a")) (scan_all sweeps []))
    ≡ tally (ascii "a") (read_meter (find (has_key (ascii "a")) [])) sweeps
scan_all-tally_example = scan_all-tally sweeps [] (ascii "a") tt tt runs.fits

Change-Follows_example : Follows digits as_bytes 50 asked granted
Change-Follows_example =
    Change-Follows digits as_bytes 50 asked granted
      (resolve (approval_id digits as_bytes 4 7 (ascii "kill")) 4 7 approved refl)

Reachable-IsTimely_example : All IsTimely granted
Reachable-IsTimely_example = Reachable-IsTimely digits as_bytes (
    next 50 (next 1 empty (request 4 7 (ascii "kill") 100 refl))
      (resolve (approval_id digits as_bytes 4 7 (ascii "kill")) 4 7 approved refl))

files-IsBounded : IsBounded files
files-IsBounded = record {
  few_transitions = omega arith;
  few_cooldowns = omega arith;
  few_approvals = omega arith;
  few_sensors = omega arith;
  few_tools = omega arith;
}

apply-IsBounded_example :
    IsBounded
      (apply digits as_bytes (sensor (ascii "dns") (ascii "available") 8 3 (some 2) none) files)
apply-IsBounded_example =
    apply-IsBounded digits as_bytes (sensor (ascii "dns") (ascii "available") 8 3 (some 2) none)
      files files-IsBounded
