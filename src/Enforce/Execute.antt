-- ===== src/Enforce/Execute.antt =====
-- crates/topgent-enforce/src/execute.rs, `attempt` for one process: guard, identity, `SIGTERM`, a
-- grace period, `SIGKILL`. The operating system is a parameter that answers each question from what
-- was asked and done before, the latest first.
use topgent.Base.{
  ℕ, suc, zero, ◌+◌, ltb, Bool, false, ◌==◌, List, [], ◌∷◌, Option, none, some, Result, ok, err,
  if◌then◌else◌,
}
use topgent.Text.{Bytes}
use topgent.Enforce.{
  Owner, unknown, ProcInfo, Signal, terminate, force, Refusal, not_running, identity_changed,
  denied, survived, Outcome, stopped_gracefully, killed,
}
use topgent.Enforce.Guard.{Guard, check}

-- What is asked of the operating system, with its answer, and what is done.
pub data Event : Type 0 where
  -- `Signaller::identity`: the pid, and the start time of the process that it now names
  looked : ℕ → Option ℕ → Event
  -- `Signaller::send`: the pid, the signal, and the refusal
  sent : ℕ → Signal → Option Bytes → Event
  -- `thread::sleep(POLL)`
  slept : Event

abbrev pub Log : Type 0
Log = List Event

pub record System : Type 0 where
  pub snapshot : List ProcInfo
  pub owner_of : ℕ → Owner
  pub identity : Log → ℕ → Option ℕ
  pub send : Log → ℕ → Signal → Option Bytes
  -- `Instant::now()`, in milliseconds
  pub now : Log → ℕ

abbrev pub grace : ℕ
grace = 5000

abbrev pub poll : ℕ
poll = 100

-- process/owner.rs
unfoldable pub with_resolved_owner : System → ProcInfo → ProcInfo
with_resolved_owner system process = elim process.owner [
  | unknown ↦ record process { owner = system.owner_of process.pid }
  | _ ↦ process
]

unfoldable pub find_process : ℕ → List ProcInfo → Option ProcInfo
find_process pid [] = none
find_process pid (p ∷ ps) = if p.pid == pid then some p else find_process pid ps

-- `signaller.identity(pid) == Some(started_at)`
unfoldable pub is_same : Option ℕ → ℕ → Bool
is_same none started_at = false
is_same (some found) started_at = found == started_at

-- How a wait ended: the process is gone, the wait is over, or the rounds of the model are spent.
pub data Waited : Type 0 where
  gone elapsed spent : Waited

module _ (system : System) where
  abbrev pub look : ℕ → Log → Log
  look pid log = looked pid (system.identity log pid) ∷ log

  -- `while Instant::now() < deadline`, on the rounds that come first.
  unfoldable pub await_grace : ℕ → ℕ → ℕ → ℕ → Log → Waited × Log
  await_grace zero pid started_at deadline log = (spent, log)
  await_grace (suc rounds) pid started_at deadline log =
      let rest = await_grace rounds pid started_at deadline (slept ∷ look pid log) in
      if ltb (system.now log) deadline
      then (if is_same (system.identity log pid) started_at then rest else (gone, look pid log))
      else (elapsed, log)

  -- `for _ in 0..20`
  unfoldable pub await_force : ℕ → ℕ → ℕ → Log → Waited × Log
  await_force zero pid started_at log = (elapsed, log)
  await_force (suc rounds) pid started_at log =
      let rest = await_force rounds pid started_at (look pid (slept ∷ log)) in
      if is_same (system.identity (slept ∷ log) pid) started_at
      then rest
      else (gone, look pid (slept ∷ log))

  unfoldable pub after_force : Waited × Log → Option (Result Refusal Outcome) × Log
  after_force (gone, log) = (some (ok killed), log)
  after_force (elapsed, log) = (some (err survived), log)
  after_force (spent, log) = (none, log)

  unfoldable pub send_force : ℕ → ℕ → Log → Option (Result Refusal Outcome) × Log
  unfolding await_force
  send_force pid started_at log = elim (system.send log pid force) [
    | some detail ↦ (some (err (denied detail)), sent pid force (some detail) ∷ log)
    | none ↦ after_force (await_force 20 pid started_at (sent pid force none ∷ log))
  ]

  -- The second identity check, and `SIGKILL`.
  unfoldable pub after_grace : ℕ → ℕ → Waited × Log → Option (Result Refusal Outcome) × Log
  after_grace pid started_at (gone, log) = (some (ok stopped_gracefully), log)
  after_grace pid started_at (spent, log) = (none, log)
  after_grace pid started_at (elapsed, log) =
      if is_same (system.identity log pid) started_at
      then send_force pid started_at (look pid log)
      else (some (ok stopped_gracefully), look pid log)

  -- `SIGTERM`, and the grace period.
  unfoldable pub send_terminate : ℕ → ℕ → ℕ → Log → Option (Result Refusal Outcome) × Log
  send_terminate rounds pid started_at log = elim (system.send log pid terminate) [
    | some detail ↦ (some (err (denied detail)), sent pid terminate (some detail) ∷ log)
    | none ↦ after_grace pid started_at (
        await_grace rounds pid started_at (system.now (sent pid terminate none ∷ log) + grace)
          (sent pid terminate none ∷ log))
  ]

  unfoldable pub attempt_found :
      ℕ → Guard → ℕ → ℕ → ProcInfo → Option (Result Refusal Outcome) × Log
  attempt_found rounds guard pid started_at target = elim (check guard target) [
    | err refusal ↦ (some (err refusal), [])
    | ok _ ↦
        if target.started_at == started_at
        then send_terminate rounds pid started_at []
        else (some (err (identity_changed started_at target.started_at)), [])
  ]

  -- `attempt` of `Action::Kill`, and what it asked and did.
  unfoldable pub attempt_kill : ℕ → Guard → ℕ → ℕ → Option (Result Refusal Outcome) × Log
  attempt_kill rounds guard pid started_at = elim (find_process pid system.snapshot) [
    | none ↦ (some (err not_running), [])
    | some found ↦ attempt_found rounds guard pid started_at (with_resolved_owner system found)
  ]
