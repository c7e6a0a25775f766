-- ===== src/Enforce/Attempt.antt =====
-- crates/topgent-enforce/src/execute.rs, `attempt_tree`: a process and its descendants, checked whole
-- before any is signalled; and `execute`, which records what came of an action.
use topgent.Base.{
  ℕ, suc, zero, ◌+◌, ltb, Bool, true, false, ◌==◌, List, [], ◌∷◌, ◌++◌, Option, none, some, Result,
  ok, err, if◌then◌else◌,
}
use topgent.Text.{Bytes, ascii}
use topgent.Machine.{usize_max, saturating_add}
use topgent.Facts.{Fact, certain, Subject, action_taken, new_fact, schema_version}
use topgent.Enforce.{
  ProcInfo, Signal, terminate, force, Refusal, not_running, identity_changed, denied, partial,
  survived, Outcome, tree_stopped_gracefully, tree_killed, Action, kill, kill_tree, Executed,
  action_name, action_pid, action_started_at,
}
use topgent.Enforce.Guard.{Guard, check}
use topgent.Enforce.Execute.{
  sent, slept, Log, System, grace, is_same, look, find_process, with_resolved_owner, attempt_kill,
  Waited, gone, elapsed, spent,
}
use topgent.Enforce.Tree.{Target, tree_targets, sort_targets}

-- `if let Some(found) = signaller.identity(pid) && found != started_at`
unfoldable pub changed : Option ℕ → ℕ → Option ℕ
changed none started_at = none
changed (some found) started_at = if found == started_at then none else some found

-- The refusal of a signal, after some signals were sent.
unfoldable pub refused : ℕ → Bytes → Refusal
refused count detail = if count == 0 then denied detail else partial count detail

module _ (system : System) where
  -- `.map(|(target, depth)| (process::with_resolved_owner(target.clone()), depth))`
  unfoldable pub resolve_targets : List Target → List ProcInfo
  resolve_targets [] = []
  resolve_targets ((p, d) ∷ ts) = with_resolved_owner system p ∷ resolve_targets ts

  unfoldable pub preflight_one :
      ProcInfo → Result (Refusal × Log) Log → Log → Result (Refusal × Log) Log
  preflight_one target rest log =
      elim (changed (system.identity log target.pid) target.started_at) [
        | some found ↦ err (identity_changed target.started_at found, look system target.pid log)
        | none ↦ rest
      ]

  unfoldable pub preflight : Guard → List ProcInfo → Log → Result (Refusal × Log) Log
  unfolding preflight_one
  preflight guard [] log = ok log
  preflight guard (t ∷ ts) log =
      let rest = preflight guard ts (look system t.pid log) in
      elim (check guard t) [ err refusal ↦ err (refusal, log) | ok _ ↦ preflight_one t rest log ]

  -- One round of signals. Whether any was sent and the count of all, or the refusal that ended it.
  unfoldable pub signal_all :
      Signal → List ProcInfo → Bool → ℕ → Log → Result (Refusal × Log) (Bool × ℕ × Log)
  signal_all signal [] any count log = ok (any, count, log)
  signal_all signal (t ∷ ts) any count log =
      let skipped = signal_all signal ts any count (look system t.pid log) in
      let signalled =
        signal_all signal ts true (saturating_add usize_max count 1)
          (sent t.pid signal none ∷ look system t.pid log) in
      if is_same (system.identity log t.pid) t.started_at
      then elim (system.send (look system t.pid log) t.pid signal) [
        | some detail ↦
            err (refused count detail, sent t.pid signal (some detail) ∷ look system t.pid log)
        | none ↦ signalled
      ]
      else skipped

  -- `targets.iter().all(…)`, which stops at the first member that still runs.
  unfoldable pub all_gone : List ProcInfo → Log → Bool × Log
  all_gone [] log = (true, log)
  all_gone (t ∷ ts) log =
      let rest = all_gone ts (look system t.pid log) in
      if is_same (system.identity log t.pid) t.started_at
      then (false, look system t.pid log)
      else rest

  unfoldable pub await_grace_all : ℕ → List ProcInfo → ℕ → Log → Waited × Log
  unfolding all_gone
  await_grace_all zero targets deadline log = (spent, log)
  await_grace_all (suc rounds) targets deadline log =
      let asked = all_gone targets log in
      let rest = await_grace_all rounds targets deadline (slept ∷ asked.1) in
      if ltb (system.now log) deadline
      then (if asked.0 then (gone, asked.1) else rest)
      else (elapsed, log)

  unfoldable pub await_force_all : ℕ → List ProcInfo → Log → Waited × Log
  unfolding all_gone
  await_force_all zero targets log = (elapsed, log)
  await_force_all (suc rounds) targets log =
      let asked = all_gone targets log in
      let rest = await_force_all rounds targets (slept ∷ asked.1) in
      if asked.0 then (gone, asked.1) else rest

  -- The wait for the last members.
  unfoldable pub after_force_all : Bool → Waited × Log → Option (Result Refusal Outcome) × Log
  after_force_all forced (gone, log) =
      (some (ok (if forced then tree_killed else tree_stopped_gracefully)), log)
  after_force_all forced (elapsed, log) = (some (err survived), log)
  after_force_all forced (spent, log) = (none, log)

  -- The round of `SIGKILL`.
  unfoldable pub force_tree : List ProcInfo → ℕ → Log → Option (Result Refusal Outcome) × Log
  unfolding signal_all await_force_all
  force_tree targets count log = elim (signal_all force targets false count log) [
    | err (refusal, log) ↦ (some (err refusal), log)
    | ok (forced, total, log) ↦ after_force_all forced (await_force_all 20 targets log)
  ]

  unfoldable pub after_grace_all :
      List ProcInfo → ℕ → Waited × Log → Option (Result Refusal Outcome) × Log
  after_grace_all targets count (gone, log) = (some (ok tree_stopped_gracefully), log)
  after_grace_all targets count (spent, log) = (none, log)
  after_grace_all targets count (elapsed, log) = force_tree targets count log

  unfoldable pub terminate_tree : ℕ → List ProcInfo → Log → Option (Result Refusal Outcome) × Log
  unfolding signal_all await_grace_all
  terminate_tree rounds targets log = elim (signal_all terminate targets false 0 log) [
    | err (refusal, log) ↦ (some (err refusal), log)
    | ok (any, count, log) ↦
        after_grace_all targets count (await_grace_all rounds targets (system.now log + grace) log)
  ]

  unfoldable pub attempt_members : ℕ → Guard → List ProcInfo → Option (Result Refusal Outcome) × Log
  unfolding preflight
  attempt_members rounds guard targets = elim (preflight guard targets []) [
    | err (refusal, log) ↦ (some (err refusal), log)
    | ok log ↦ terminate_tree rounds targets log
  ]

  -- The root and its descendants, in the order of the signals, their owners resolved.
  unfoldable pub members : ProcInfo → List Target → List ProcInfo
  unfolding resolve_targets sort_targets
  members root targets = resolve_targets (sort_targets (targets ++ (root, 0) ∷ []))

  unfoldable pub attempt_root : ℕ → Guard → ℕ → ℕ → ProcInfo → Option (Result Refusal Outcome) × Log
  attempt_root rounds guard pid started_at root =
      if root.started_at == started_at
      then (elim (tree_targets pid system.snapshot) [
        | none ↦ (none, [])
        | some walk ↦ attempt_members rounds guard (members root walk.targets)
      ])
      else (some (err (identity_changed started_at root.started_at)), [])

  -- `attempt_tree` of `Action::KillTree`, and what it asked and did.
  unfoldable pub attempt_tree : ℕ → Guard → ℕ → ℕ → Option (Result Refusal Outcome) × Log
  attempt_tree rounds guard pid started_at = elim (find_process pid system.snapshot) [
    | none ↦ (some (err not_running), [])
    | some root ↦ attempt_root rounds guard pid started_at root
  ]

  unfoldable pub attempt : ℕ → Guard → Action → Option (Result Refusal Outcome) × Log
  attempt rounds guard (kill pid started_at) = attempt_kill system rounds guard pid started_at
  attempt rounds guard (kill_tree pid started_at) = attempt_tree rounds guard pid started_at

-- `result.is_ok()`
unfoldable pub is_ok : {E A : Type 0} → Result E A → Bool
is_ok (ok _) = true
is_ok (err _) = false

-- `format!("{} pid {}", action.name(), action.pid())`, the number's digits given.
unfoldable pub probe : (ℕ → Bytes) → Action → Bytes
probe digits action = action_name action ++ (ascii " pid " ++ digits (action_pid action))

-- The fact of an action, which crates/topgent-collect/src/lib.rs, `emit`, makes.
unfoldable pub action_fact : (ℕ → Bytes) → ℕ → Action → Result Refusal Outcome → Option Fact
unfolding probe is_ok
action_fact digits observed_at action result =
    elim (new_fact schema_version (Subject.process (action_pid action) (action_started_at action))
      (action_taken (action_name action) (is_ok result))
      (record {
        collector = ascii "enforce";
        probe = probe digits action;
        confidence = certain;
        observed_at = observed_at;
      })) [ ok fact ↦ some fact | err _ ↦ none ]

-- `execute`: what came of the action, and the fact that records it.
unfoldable pub execute : System → ℕ → (ℕ → Bytes) → ℕ → Guard → Action → Option Executed
unfolding attempt
execute system rounds digits observed_at guard action =
    elim (attempt system rounds guard action).0 [
      | none ↦ none
      | some result ↦
          some (record { result = result; fact = action_fact digits observed_at action result })
    ]
