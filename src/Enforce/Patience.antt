-- ===== src/Enforce/Patience.antt =====
-- crates/topgent-enforce/src/execute.rs: that the waits of `attempt` end, on a clock that advances.
use topgent.Base.{
  ℕ, suc, zero, ◌+◌, ◌*◌, ◌≤◌, ◌≢◌, refl, inl, inr, [], ◌∷◌, none, ◌==◌, arith, Bool-cases,
  Option-cases, Result-cases,
}
use topgent.Enforce.{terminate, force}
use topgent.Enforce.Guard.{Guard, check}
use topgent.Enforce.Execute.{
  sent, slept, Log, System, grace, poll, look, find_process, with_resolved_owner, Waited, gone,
  elapsed, spent, await_grace, await_force, after_force, send_force, after_grace, send_terminate,
  attempt_found, attempt_kill,
}

-- The clock never goes back, and `thread::sleep(POLL)` takes at least as long as it says.
pub record Advances (system : System) : Type 0 where
  pub waits : (log : Log) → system.now log + poll ≤ system.now (slept ∷ log)
  pub keeps : (log : Log) (pid : ℕ) → system.now log ≤ system.now (look system pid log)

module _ (system : System) (clock : Advances system) where
  await_grace_ends :
      (rounds pid started_at deadline : ℕ) (log : Log)
      → deadline ≤ system.now log + rounds * poll
      → (await_grace system (suc rounds) pid started_at deadline log).0 ≢ spent
  unfolding await_grace
  await_grace_ends zero pid started_at deadline log h = ground arith
  await_grace_ends (suc rounds) pid started_at deadline log h = ground (
    arith,
    clock.waits (look system pid log),
    clock.keeps log pid,
    await_grace_ends rounds pid started_at deadline (slept ∷ look system pid log),
  )

  await_force_ends :
      (rounds pid started_at : ℕ) (log : Log)
      → (await_force system rounds pid started_at log).0 ≢ spent
  unfolding await_force
  await_force_ends zero pid started_at log = λ e. ground arith
  await_force_ends (suc rounds) pid started_at log =
      ground (arith, await_force_ends rounds pid started_at (look system pid (slept ∷ log)))

  after_force_ends : (w : Waited × Log) → w.0 ≢ spent → (after_force system w).0 ≢ none
  unfolding after_force
  after_force_ends (gone, log) h = λ e. ground arith
  after_force_ends (elapsed, log) h = λ e. ground arith
  after_force_ends (spent, log) h = absurd (h refl)

  send_force_ends :
      (pid started_at : ℕ) (log : Log) → (send_force system pid started_at log).0 ≢ none
  unfolding send_force
  send_force_ends pid started_at log = elim (Option-cases (system.send log pid force)) [
    | inr (detail, e) ↦ rw (e, send_force) (λ e. ground arith)
    | inl e ↦
        rw (e, send_force)
          (after_force_ends (await_force system 20 pid started_at (sent pid force none ∷ log))
            (await_force_ends 20 pid started_at (sent pid force none ∷ log)))
  ]

  after_grace_ends :
      (pid started_at : ℕ) (w : Waited × Log)
      → w.0 ≢ spent
      → (after_grace system pid started_at w).0 ≢ none
  unfolding after_grace
  after_grace_ends pid started_at (gone, log) h = λ e. ground arith
  after_grace_ends pid started_at (spent, log) h = absurd (h refl)
  after_grace_ends pid started_at (elapsed, log) h =
      ground (arith, send_force_ends pid started_at (look system pid log))

  send_terminate_ends :
      (rounds pid started_at : ℕ)
      → 50 ≤ rounds
      → (send_terminate system (suc rounds) pid started_at []).0 ≢ none
  unfolding send_terminate
  send_terminate_ends rounds pid started_at h = elim (Option-cases (system.send [] pid terminate)) [
    | inr (detail, e) ↦ rw (e, send_terminate) (λ e. ground arith)
    | inl e ↦
        let log : Log = sent pid terminate none ∷ [] in
        rw (e, send_terminate)
          (after_grace_ends pid started_at
            (await_grace system (suc rounds) pid started_at (system.now log + grace) log)
            (await_grace_ends rounds pid started_at (system.now log + grace) log (omega arith)))
  ]

  -- On a clock that never goes back and on which each sleep takes its time, stopping a process ends
  -- with an outcome or a refusal, where the model has at least 51 rounds for the grace period, and
  -- whatever the guard, the table and the process do.
  pub attempt_kill_ends :
      (rounds : ℕ) (guard : Guard) (pid started_at : ℕ)
      → 50 ≤ rounds
      → (attempt_kill system (suc rounds) guard pid started_at).0 ≢ none
  unfolding attempt_kill attempt_found
  attempt_kill_ends rounds guard pid started_at h =
      elim (Option-cases (find_process pid system.snapshot)) [
        | inl e ↦ rw (e, attempt_kill) (λ e. ground arith)
        | inr (found, e) ↦ elim (Result-cases (check guard (with_resolved_owner system found))) [
          | inr (refusal, r) ↦ rw (e, attempt_kill, r, attempt_found) (λ e. ground arith)
          | inl (u, r) ↦
              elim (Bool-cases ((with_resolved_owner system found).started_at == started_at)) [
                | inr n ↦ rw (e, attempt_kill, r, attempt_found, n) (λ e. ground arith)
                | inl y ↦
                    rw (e, attempt_kill, r, attempt_found, y)
                      (send_terminate_ends rounds pid started_at h)
              ]
        ]
      ]
