-- ===== src/Enforce/Authorised.antt =====
-- crates/topgent-enforce/src/execute.rs: which signals an action sends, on every branch and whatever
-- the operating system answers.
use topgent.Base.{
  ℕ, suc, zero, ◌+◌, ◌≡◌, refl, ◌⊎◌, inl, inr, true, [], ◌∷◌, Option, none, some, ◌==◌, arith,
  Bool-cases, Option-cases, Result-cases,
}
use topgent.Enforce.{ProcInfo, terminate, force}
use topgent.Enforce.Guard.{Guard, check, Permitted, check-Permitted}
use topgent.Enforce.Execute.{
  looked, sent, slept, Log, System, grace, is_same, look, find_process, with_resolved_owner, Waited,
  gone, elapsed, spent, await_grace, await_force, after_force, send_force, after_grace,
  send_terminate, attempt_found, attempt_kill,
}

-- The latest event is a look at the process `pid` that found the start time.
unfoldable pub SawLast : ℕ → ℕ → Log → Type 0
SawLast pid started_at (looked p (some found) ∷ log) = (p ≡ pid) × (found ≡ started_at)
SawLast pid started_at _ = ⊥

-- Every signal goes to the process: `SIGTERM` first, and `SIGKILL` directly after a look that found
-- the start time.
unfoldable pub Signals : ℕ → ℕ → Log → Type 0
unfolding SawLast
Signals pid started_at [] = Unit
Signals pid started_at (sent p terminate refusal ∷ log) = (p ≡ pid) × (log ≡ [])
Signals pid started_at (sent p force refusal ∷ log) =
    (p ≡ pid) × SawLast pid started_at log × Signals pid started_at log
Signals pid started_at (_ ∷ log) = Signals pid started_at log

SawLast-look :
    (answer : Option ℕ) (pid started_at : ℕ) (log : Log)
    → is_same answer started_at ≡ true
    → SawLast pid started_at (looked pid answer ∷ log)
unfolding SawLast is_same
SawLast-look none pid started_at log h = ground arith
SawLast-look (some found) pid started_at log h = ground arith

module _ (system : System) where
  await_grace-Signals :
      (rounds pid started_at deadline : ℕ) (log : Log)
      → Signals pid started_at log
      → Signals pid started_at (await_grace system rounds pid started_at deadline log).1
  unfolding await_grace Signals
  await_grace-Signals zero pid started_at deadline log h = h
  await_grace-Signals (suc rounds) pid started_at deadline log h =
      ground
        (arith, await_grace-Signals rounds pid started_at deadline (slept ∷ look system pid log) h)

  await_force-Signals :
      (rounds pid started_at : ℕ) (log : Log)
      → Signals pid started_at log
      → Signals pid started_at (await_force system rounds pid started_at log).1
  unfolding await_force Signals
  await_force-Signals zero pid started_at log h = h
  await_force-Signals (suc rounds) pid started_at log h =
      ground (arith, await_force-Signals rounds pid started_at (look system pid (slept ∷ log)) h)

  after_force-log : (w : Waited × Log) → (after_force system w).1 ≡ w.1
  unfolding after_force
  after_force-log (gone, log) = refl
  after_force-log (elapsed, log) = refl
  after_force-log (spent, log) = refl

  send_force-Signals :
      (pid started_at : ℕ) (log : Log)
      → Signals pid started_at log
      → SawLast pid started_at log
      → Signals pid started_at (send_force system pid started_at log).1
  unfolding send_force Signals
  send_force-Signals pid started_at log h k = elim (Option-cases (system.send log pid force)) [
    | inr (detail, e) ↦ rw (e, send_force) (refl, k, h)
    | inl e ↦
        rw
          (
            e,
            send_force,
            after_force-log (await_force system 20 pid started_at (sent pid force none ∷ log)),
          )
          (await_force-Signals 20 pid started_at (sent pid force none ∷ log) (refl, k, h))
  ]

  after_grace-Signals :
      (pid started_at : ℕ) (w : Waited × Log)
      → Signals pid started_at w.1
      → Signals pid started_at (after_grace system pid started_at w).1
  unfolding after_grace Signals
  after_grace-Signals pid started_at (gone, log) h = h
  after_grace-Signals pid started_at (spent, log) h = h
  after_grace-Signals pid started_at (elapsed, log) h =
      elim (Bool-cases (is_same (system.identity log pid) started_at)) [
        | inl e ↦ rw e (
            send_force-Signals pid started_at (look system pid log) h
              (SawLast-look (system.identity log pid) pid started_at log e))
        | inr e ↦ rw e h
      ]

  send_terminate-Signals :
      (rounds pid started_at : ℕ)
      → Signals pid started_at (send_terminate system rounds pid started_at []).1
  unfolding send_terminate Signals
  send_terminate-Signals rounds pid started_at =
      elim (Option-cases (system.send [] pid terminate)) [
        | inr (detail, e) ↦ rw (e, send_terminate) (refl, refl)
        | inl e ↦
            rw (e, send_terminate)
              (after_grace-Signals pid started_at
                (await_grace system rounds pid started_at
                  (system.now (sent pid terminate none ∷ []) + grace)
                  (sent pid terminate none ∷ []))
                (await_grace-Signals rounds pid started_at
                  (system.now (sent pid terminate none ∷ []) + grace) (sent pid terminate none ∷ [])
                  (refl, refl)))
      ]

  -- The process that the action names is in the table, is permitted, and is the one authorised.
  pub record Granted (guard : Guard) (pid started_at : ℕ) : Type 0 where
    pub found : ProcInfo
    pub listed : find_process pid system.snapshot ≡ some found
    pub permitted : Permitted guard (with_resolved_owner system found)
    pub identity : (with_resolved_owner system found).started_at ≡ started_at

  -- Stopping one process either sends nothing, or the process is in the table, permitted by the guard
  -- and the one that was authorised; then every signal goes to it, SIGTERM first, and SIGKILL only
  -- directly after a look that found the start time authorised.
  pub attempt_kill-Signals :
      (rounds : ℕ) (guard : Guard) (pid started_at : ℕ)
      → ((attempt_kill system rounds guard pid started_at).1 ≡ [])
        ⊎ (Granted guard pid started_at
            × Signals pid started_at (attempt_kill system rounds guard pid started_at).1)
  unfolding attempt_kill attempt_found
  attempt_kill-Signals rounds guard pid started_at =
      elim (Option-cases (find_process pid system.snapshot)) [
        | inl e ↦ inl (rw (e, attempt_kill) refl)
        | inr (found, e) ↦ elim (Result-cases (check guard (with_resolved_owner system found))) [
          | inr (refusal, r) ↦ inl (rw (e, attempt_kill, r, attempt_found) refl)
          | inl (u, r) ↦
              elim (Bool-cases ((with_resolved_owner system found).started_at == started_at)) [
                | inr n ↦ inl (rw (e, attempt_kill, r, attempt_found, n) refl)
                | inl y ↦ inr (
                  record {
                    found = found;
                    listed = e;
                    permitted = (check-Permitted guard (with_resolved_owner system found)).0 r;
                    identity = ground arith;
                  },
                  rw (e, attempt_kill, r, attempt_found, y)
                      (send_terminate-Signals rounds pid started_at),
                )
              ]
        ]
      ]
