-- ===== src/Enforce/MemberSignals.antt =====
-- crates/topgent-enforce/src/execute.rs, `attempt_tree`: which members of a tree are signalled, and
-- when, whatever the operating system answers.
use topgent.Base.{
  ℕ, suc, zero, ◌+◌, ◌≡◌, refl, inl, inr, Bool, true, false, List, [], ◌∷◌, Option, none, some,
  Result, ok, err, arith, Any, Any-mono, ap, ◌∙◌, sym, Bool-cases, Option-cases, Result-cases,
}
use topgent.Machine.{usize_max, saturating_add}
use topgent.Enforce.{ProcInfo, Signal, terminate, force, Refusal}
use topgent.Enforce.Execute.{
  looked, sent, slept, Log, System, grace, is_same, look, Waited, gone, elapsed, spent,
}
use topgent.Enforce.Attempt.{
  signal_all, all_gone, await_grace_all, await_force_all, after_force_all, force_tree,
  after_grace_all, terminate_tree,
}

-- The latest event is a look that found one of the members under its pid.
unfoldable pub SawMember : List ProcInfo → Log → ℕ → Type 0
SawMember ms (looked p (some found) ∷ log) pid =
    (p ≡ pid) × Any (λ m. (m.pid ≡ p) × (m.started_at ≡ found)) ms
SawMember ms _ pid = ⊥

-- Every signal follows such a look directly.
unfoldable pub Seen : List ProcInfo → Log → Type 0
Seen ms [] = Unit
Seen ms (sent p signal refusal ∷ log) = SawMember ms log p × Seen ms log
Seen ms (_ ∷ log) = Seen ms log

-- The members that are still to be signalled are among all of them.
unfoldable pub Among : List ProcInfo → List ProcInfo → Type 0
Among ms [] = Unit
Among ms (t ∷ ts) = Any (λ m. m ≡ t) ms × Among ms ts

Among-cons : (m : ProcInfo) (ms ts : List ProcInfo) → Among ms ts → Among (m ∷ ms) ts
unfolding Among
Among-cons m ms [] h = tt
Among-cons m ms (t ∷ ts) h = (inr h.0, Among-cons m ms ts h.1)

pub Among-self : (ms : List ProcInfo) → Among ms ms
unfolding Among
Among-self [] = tt
Among-self (m ∷ ms) = (inl refl, Among-cons m ms ms (Among-self ms))

same_found : {found started_at : ℕ} → is_same (some found) started_at ≡ true → found ≡ started_at
unfolding is_same
same_found h = ground arith

SawMember-look :
    (ms : List ProcInfo) (t : ProcInfo) (answer : Option ℕ) (log : Log)
    → Any (λ m. m ≡ t) ms
    → is_same answer t.started_at ≡ true
    → SawMember ms (looked t.pid answer ∷ log) t.pid
unfolding SawMember is_same
SawMember-look ms t none log a h = ground arith
SawMember-look ms t (some found) log a h = (
  refl,
  Any-mono ms (λ m e. (ap (λ p. p.pid) e, ap (λ p. p.started_at) e ∙ sym (same_found h))) a,
)

abbrev log_of : Result (Refusal × Log) (Bool × ℕ × Log) → Log
log_of (ok (any, count, log)) = log
log_of (err (refusal, log)) = log

module _ (system : System) (ms : List ProcInfo) where
  signal_all-Seen :
      (signal : Signal) (ts : List ProcInfo) (any : Bool) (count : ℕ) (log : Log)
      → Among ms ts
      → Seen ms log
      → Seen ms (log_of (signal_all system signal ts any count log))
  unfolding signal_all Seen Among
  signal_all-Seen signal [] any count log a h = h
  signal_all-Seen signal (t ∷ ts) any count log a h =
      elim (Bool-cases (is_same (system.identity log t.pid) t.started_at)) [
        | inr n ↦ rw n (signal_all-Seen signal ts any count (look system t.pid log) a.1 h)
        | inl y ↦ elim (Option-cases (system.send (look system t.pid log) t.pid signal)) [
          | inr (detail, e) ↦
              rw (y, e, signal_all) (SawMember-look ms t (system.identity log t.pid) log a.0 y, h)
          | inl e ↦
              rw (y, e, signal_all)
                (signal_all-Seen signal ts true (saturating_add usize_max count 1)
                  (sent t.pid signal none ∷ look system t.pid log) a.1
                  (SawMember-look ms t (system.identity log t.pid) log a.0 y, h))
        ]
      ]

  all_gone-Seen :
      (ts : List ProcInfo) (log : Log) → Seen ms log → Seen ms (all_gone system ts log).1
  unfolding all_gone Seen
  all_gone-Seen [] log h = h
  all_gone-Seen (t ∷ ts) log h = ground (arith, all_gone-Seen ts (look system t.pid log) h)

  await_grace_all-Seen :
      (rounds : ℕ) (ts : List ProcInfo) (deadline : ℕ) (log : Log)
      → Seen ms log
      → Seen ms (await_grace_all system rounds ts deadline log).1
  unfolding await_grace_all Seen
  await_grace_all-Seen zero ts deadline log h = h
  await_grace_all-Seen (suc rounds) ts deadline log h = ground (
    arith,
    all_gone-Seen ts log h,
    await_grace_all-Seen rounds ts deadline (slept ∷ (all_gone system ts log).1)
        (all_gone-Seen ts log h),
  )

  await_force_all-Seen :
      (rounds : ℕ) (ts : List ProcInfo) (log : Log)
      → Seen ms log
      → Seen ms (await_force_all system rounds ts log).1
  unfolding await_force_all Seen
  await_force_all-Seen zero ts log h = h
  await_force_all-Seen (suc rounds) ts log h = ground (
    arith,
    all_gone-Seen ts log h,
    await_force_all-Seen rounds ts (slept ∷ (all_gone system ts log).1) (all_gone-Seen ts log h),
  )

  after_force_all-log :
      (forced : Bool) (w : Waited × Log) → (after_force_all system forced w).1 ≡ w.1
  unfolding after_force_all
  after_force_all-log forced (gone, log) = refl
  after_force_all-log forced (elapsed, log) = refl
  after_force_all-log forced (spent, log) = refl

  force_tree-Seen :
      (ts : List ProcInfo) (count : ℕ) (log : Log)
      → Among ms ts
      → Seen ms log
      → Seen ms (force_tree system ts count log).1
  unfolding force_tree
  force_tree-Seen ts count log a h =
      let k : Seen ms (log_of (signal_all system force ts false count log)) =
        signal_all-Seen force ts false count log a h in
      elim (Result-cases (signal_all system force ts false count log)) [
        | inr ((refusal, end), e) ↦ rw (e, force_tree) (rw e at k)
        | inl ((forced, total, end), e) ↦
            rw (e, force_tree, after_force_all-log forced (await_force_all system 20 ts end))
              (await_force_all-Seen 20 ts end (rw e at k))
      ]

  after_grace_all-Seen :
      (ts : List ProcInfo) (count : ℕ) (w : Waited × Log)
      → Among ms ts
      → Seen ms w.1
      → Seen ms (after_grace_all system ts count w).1
  unfolding after_grace_all
  after_grace_all-Seen ts count (gone, log) a h = h
  after_grace_all-Seen ts count (spent, log) a h = h
  after_grace_all-Seen ts count (elapsed, log) a h = force_tree-Seen ts count log a h

  pub terminate_tree-Seen :
      (rounds : ℕ) (ts : List ProcInfo) (log : Log)
      → Among ms ts
      → Seen ms log
      → Seen ms (terminate_tree system rounds ts log).1
  unfolding terminate_tree
  terminate_tree-Seen rounds ts log a h =
      let k : Seen ms (log_of (signal_all system terminate ts false 0 log)) =
        signal_all-Seen terminate ts false 0 log a h in
      elim (Result-cases (signal_all system terminate ts false 0 log)) [
        | inr ((refusal, end), e) ↦ rw (e, terminate_tree) (rw e at k)
        | inl ((any, count, end), e) ↦
            rw (e, terminate_tree)
              (after_grace_all-Seen ts count
                (await_grace_all system rounds ts (system.now end + grace) end) a
                (await_grace_all-Seen rounds ts (system.now end + grace) end (rw e at k)))
      ]
