-- ===== src/Enforce/Preflight.antt =====
-- crates/topgent-enforce/src/execute.rs, `attempt_tree`: what is sent before every member of a tree is
-- checked, and what is sent at all.
use topgent.Base.{
  ℕ, ◌≡◌, ◌⊎◌, inl, inr, List, [], ◌∷◌, some, Result, ok, err, ◌==◌, arith, All, Bool-cases,
  Option-cases, Result-cases,
}
use topgent.Enforce.{ProcInfo, Refusal}
use topgent.Enforce.Guard.{Guard, check, Permitted, check-Permitted}
use topgent.Enforce.Execute.{looked, sent, slept, Log, System, look, find_process}
use topgent.Enforce.Tree.{Walk, tree_targets}
use topgent.Enforce.Attempt.{
  changed, preflight_one, preflight, attempt_members, members, attempt_root, attempt_tree,
}
use topgent.Enforce.MemberSignals.{Among-self, Seen, terminate_tree-Seen}

-- No signal was sent.
unfoldable pub Silent : Log → Type 0
Silent [] = Unit
Silent (sent _ _ _ ∷ log) = ⊥
Silent (_ ∷ log) = Silent log

Silent-Seen : (ms : List ProcInfo) (log : Log) → Silent log → Seen ms log
unfolding Silent Seen
Silent-Seen ms [] h = tt
Silent-Seen ms (sent _ _ _ ∷ log) h = absurd h
Silent-Seen ms (looked _ _ ∷ log) h = Silent-Seen ms log h
Silent-Seen ms (slept ∷ log) h = Silent-Seen ms log h

abbrev log_of_preflight : Result (Refusal × Log) Log → Log
log_of_preflight (ok log) = log
log_of_preflight (err (refusal, log)) = log

-- A preflight sends nothing, and passes only where the guard permits every member.
module _ (system : System) (guard : Guard) where
  preflight_one-Silent :
      (t : ProcInfo) (rest : Result (Refusal × Log) Log) (log : Log)
      → Silent log
      → Silent (log_of_preflight rest)
      → Silent (log_of_preflight (preflight_one system t rest log))
  unfolding preflight_one Silent
  preflight_one-Silent t rest log h k =
      elim (Option-cases (changed (system.identity log t.pid) t.started_at)) [
        | inl e ↦ rw (e, preflight_one) k
        | inr (found, e) ↦ rw (e, preflight_one) h
      ]

  preflight-Silent :
      (ts : List ProcInfo) (log : Log)
      → Silent log
      → Silent (log_of_preflight (preflight system guard ts log))
  unfolding preflight Silent
  preflight-Silent [] log h = h
  preflight-Silent (t ∷ ts) log h =
      let k : Silent (log_of_preflight (preflight system guard ts (look system t.pid log))) =
        preflight-Silent ts (look system t.pid log) h in
      elim (Result-cases (check guard t)) [
        | inr (refusal, e) ↦ rw (e, preflight) h
        | inl (u, e) ↦
            rw (e, preflight)
              (preflight_one-Silent t (preflight system guard ts (look system t.pid log)) log h k)
      ]

  preflight-Permitted :
      (ts : List ProcInfo) (log end : Log)
      → preflight system guard ts log ≡ ok end
      → All (Permitted guard) ts
  unfolding preflight preflight_one
  preflight-Permitted [] log end h = tt
  preflight-Permitted (t ∷ ts) log end h = elim (Result-cases (check guard t)) [
    | inr (refusal, e) ↦ ground arith
    | inl (u, e) ↦ (
      (check-Permitted guard t).0 e,
      preflight-Permitted ts (look system t.pid log) end (ground arith),
    )
  ]

Silent-nil : Silent []
unfolding Silent
Silent-nil = tt

module _ (system : System) where
  -- The root is in the table and is the one that was authorised, the guard permits it and all its
  -- descendants, and every signal in the log directly follows a look that found such a member.
  pub record TreeGranted (guard : Guard) (pid started_at : ℕ) (log : Log) : Type 0 where
    pub root : ProcInfo
    pub listed : find_process pid system.snapshot ≡ some root
    pub identity : root.started_at ≡ started_at
    pub walk : Walk
    pub descendants : tree_targets pid system.snapshot ≡ some walk
    pub permitted : All (Permitted guard) (members system root walk.targets)
    pub signals : Seen (members system root walk.targets) log

  attempt_members-Seen :
      (rounds : ℕ) (guard : Guard) (ms : List ProcInfo)
      → Silent (attempt_members system rounds guard ms).1
        ⊎ (All (Permitted guard) ms × Seen ms (attempt_members system rounds guard ms).1)
  unfolding attempt_members
  attempt_members-Seen rounds guard ms =
      let k : Silent (log_of_preflight (preflight system guard ms [])) =
        preflight-Silent system guard ms [] Silent-nil in
      elim (Result-cases (preflight system guard ms [])) [
        | inr ((refusal, end), e) ↦ inl (rw (e, attempt_members) (rw e at k))
        | inl (end, e) ↦ inr (
          preflight-Permitted system guard ms [] end e,
          rw (e, attempt_members)
              (terminate_tree-Seen system ms rounds ms end (Among-self ms)
                (Silent-Seen ms end (rw e at k))),
        )
      ]

  -- Stopping a tree either sends nothing at all, or the root is in the table and is the one that was
  -- authorised, the guard permits it and every descendant, and each signal goes to one of them,
  -- directly after a look that found that very process under its pid.
  pub attempt_tree-TreeGranted :
      (rounds : ℕ) (guard : Guard) (pid started_at : ℕ)
      → Silent (attempt_tree system rounds guard pid started_at).1
        ⊎ TreeGranted guard pid started_at (attempt_tree system rounds guard pid started_at).1
  unfolding attempt_tree attempt_root
  attempt_tree-TreeGranted rounds guard pid started_at =
      elim (Option-cases (find_process pid system.snapshot)) [
        | inl e ↦ inl (rw (e, attempt_tree) (Silent-nil))
        | inr (root, e) ↦ elim (Bool-cases (root.started_at == started_at)) [
          | inr n ↦ inl (rw (e, attempt_tree, n, attempt_root) Silent-nil)
          | inl y ↦ elim (Option-cases (tree_targets pid system.snapshot)) [
            | inl t ↦ inl (rw (e, attempt_tree, y, attempt_root, t) Silent-nil)
            | inr (walk, t) ↦
                elim (attempt_members-Seen rounds guard (members system root walk.targets)) [
                  | inl s ↦ inl (rw (e, attempt_tree, y, attempt_root, t) s)
                  | inr (p, s) ↦ inr (record {
                    root = root;
                    listed = e;
                    identity = ground arith;
                    walk = walk;
                    descendants = t;
                    permitted = p;
                    signals = rw (e, attempt_tree, y, attempt_root, t) s;
                  })
                ]
          ]
        ]
      ]
