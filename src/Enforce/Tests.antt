-- ===== src/Enforce/Tests.antt =====
-- The ladder, the guard and both actions at concrete processes.
use topgent.Base.{
  ℕ, ◌*◌, ◌≡◌, ◌≢◌, ◌↔◌, refl, ◌⊎◌, List, [], ◌∷◌, length, Option, none, some, Bool, true, false,
  ok, err, ◌==◌, arith, if◌then◌else◌, All, Any,
}
use topgent.Text.{ascii, Bytes-discrete, eq_ignore_ascii_case}
use topgent.Machine.{saturating_add}
use topgent.Policy.{ResponseMode}
use topgent.Enforce.{uid, unknown, ProcInfo, force, is_same_account_as, Outcome, killed, Refusal}
use topgent.Enforce.Ladder.{
  EnforcementCapability, DecisionOutcome, approved, denied, expired, blocked, decide_response,
  decide_response_exact,
}
use topgent.Enforce.Guard.{
  Guard, base_name, contains, is_critical, protected_system_process, is_parent, is_unknown,
  refuse_protected, check, Permitted, check-Permitted,
}
use topgent.Enforce.Execute.{
  sent, Log, System, with_resolved_owner, find_process, is_same, await_grace, await_force,
  after_force, send_force, after_grace, send_terminate, attempt_found, attempt_kill,
}
use topgent.Enforce.Tree.{
  Walk, is_member, is_child, meet, visit, walk_tree, tree_targets, comes_first, insert_target,
  sort_targets,
}
use topgent.Enforce.Attempt.{
  changed, refused, resolve_targets, preflight_one, preflight, signal_all, all_gone,
  await_grace_all, await_force_all, after_force_all, force_tree, after_grace_all, terminate_tree,
  attempt_members, members, attempt_root, attempt_tree,
}
use topgent.Enforce.Authorised.{Signals, Granted, attempt_kill-Signals}
use topgent.Enforce.Preflight.{Silent, TreeGranted, attempt_tree-TreeGranted}
use topgent.Enforce.Descent.{tree_targets-total}
use topgent.Enforce.Descendants.{Descends, Found, tree_targets_exact}
use topgent.Enforce.Patience.{Advances, attempt_kill_ends}

abbrev process_of : ℕ → Option ℕ → ProcInfo
process_of pid parent = record {
  pid = pid;
  started_at = 7;
  exe = ascii "/bin/agent";
  exe_path_known = true;
  name = ascii "agent";
  uid = 1000;
  user = ascii "ana";
  parent = parent;
  family = none;
  owner = unknown;
}

-- An agent, its child and its grandchild, and a process of somebody else's tree.
abbrev table : List ProcInfo
table =
    process_of 100 (some 40)
    ∷ process_of 101 (some 100)
    ∷ process_of 50 (some 40)
    ∷ process_of 102 (some 101)
    ∷ []

abbrev guard : Guard
guard = record { own_pid = 10; parent_pid = some 9; own_owner = uid 1000 }

-- Every process ignores `SIGTERM` and ends with `SIGKILL`.
was_forced : ℕ → Log → Bool
was_forced pid [] = false
was_forced pid (sent p force none ∷ log) = if p == pid then true else was_forced pid log
was_forced pid (_ ∷ log) = was_forced pid log

abbrev system : System
system = record {
  snapshot = table;
  owner_of = λ pid. uid 1000;
  identity = λ log pid. if was_forced pid log then none else some 7;
  send = λ log pid signal. none;
  now = λ log. 100 * length log;
}

system-Advances : Advances system
system-Advances = record { waits = λ log. omega arith; keeps = λ log pid. omega arith }

abbrev capable : EnforcementCapability
capable = record { can_intercept = true; can_terminate = true }

abbrev walk : Walk
walk = record {
  targets = (process_of 101 (some 100), 1) ∷ (process_of 102 (some 101), 2) ∷ [];
  frontier = [];
  seen = 102 ∷ 101 ∷ 100 ∷ [];
}

record Runs : Type 0 where
  tree : tree_targets 100 table ≡ some walk
  killed_at_last : (attempt_kill system 51 guard 101 7).0 ≡ some (ok killed)
  reused : (attempt_kill system 51 guard 101 8).1 ≡ []
  tree_killed_at_last : (attempt_tree system 51 guard 100 7).0 ≡ some (ok Outcome.tree_killed)
  order :
      members system (process_of 100 (some 40)) walk.targets
      ≡ resolve_targets system (
          (process_of 102 (some 101), 2)
          ∷ (process_of 101 (some 100), 1)
          ∷ (process_of 100 (some 40), 0)
          ∷ [])
  permitted : check guard (with_resolved_owner system (process_of 101 (some 100))) ≡ ok tt
  init :
      check guard (record (process_of 1 none) { owner = uid 1000 })
      ≡ err (Refusal.protected (ascii "pid 1 runs the machine"))

runs : Runs
unfolding was_forced with_resolved_owner find_process is_same await_grace await_force after_force
    send_force after_grace send_terminate attempt_found attempt_kill is_member is_child meet visit
    walk_tree tree_targets comes_first insert_target sort_targets changed refused resolve_targets
    preflight_one preflight signal_all all_gone await_grace_all await_force_all after_force_all
    force_tree after_grace_all terminate_tree attempt_members members attempt_root attempt_tree
    base_name contains is_critical protected_system_process is_parent is_unknown refuse_protected
    check is_same_account_as eq_ignore_ascii_case Bytes-discrete saturating_add
runs = record {
  tree = refl;
  killed_at_last = refl;
  reused = refl;
  tree_killed_at_last = refl;
  order = refl;
  permitted = refl;
  init = refl;
}

decide_response_exact_example :
    ((decide_response true ResponseMode.kill capable (some approved) ≡ DecisionOutcome.terminate)
      ↔ ((true ≡ true)
          × (ResponseMode.kill ≡ ResponseMode.kill)
          × (true ≡ true)
          × (some approved ≡ some approved)))
    × ((decide_response true ResponseMode.kill capable (some approved) ≡ DecisionOutcome.alert)
        ↔ ((true ≡ true) × (ResponseMode.kill ≡ ResponseMode.alert)))
    × ((decide_response true ResponseMode.kill capable (some approved) ≡ blocked) ↔ (
        (true ≡ true)
        × (true ≡ true)
        × ((ResponseMode.kill ≡ ResponseMode.block)
            ⊎ ((ResponseMode.kill ≡ ResponseMode.approval)
                × ((some approved ≡ some denied) ⊎ (some approved ≡ some expired))))))
decide_response_exact_example = decide_response_exact true ResponseMode.kill capable (some approved)

check-Permitted_example :
    (check guard (with_resolved_owner system (process_of 101 (some 100))) ≡ ok tt)
    ↔ Permitted guard (with_resolved_owner system (process_of 101 (some 100)))
check-Permitted_example =
    check-Permitted guard (with_resolved_owner system (process_of 101 (some 100)))

attempt_kill-Signals_example :
    ((attempt_kill system 51 guard 101 7).1 ≡ [])
    ⊎ (Granted system guard 101 7 × Signals 101 7 (attempt_kill system 51 guard 101 7).1)
attempt_kill-Signals_example = attempt_kill-Signals system 51 guard 101 7

attempt_tree-TreeGranted_example :
    Silent (attempt_tree system 51 guard 100 7).1
    ⊎ TreeGranted system guard 100 7 (attempt_tree system 51 guard 100 7).1
attempt_tree-TreeGranted_example = attempt_tree-TreeGranted system 51 guard 100 7

tree_targets-total_example : tree_targets 100 table ≢ none
tree_targets-total_example = tree_targets-total 100 table

tree_targets_exact_example :
    All (Found table 100) walk.targets
    × ((n : ℕ) → Descends table 100 n → (n ≡ 100) ⊎ Any (λ t. t.0.pid ≡ n) walk.targets)
tree_targets_exact_example = tree_targets_exact table 100 walk runs.tree

attempt_kill_ends_example : (attempt_kill system 51 guard 101 7).0 ≢ none
attempt_kill_ends_example = attempt_kill_ends system system-Advances 50 guard 101 7 (omega arith)
