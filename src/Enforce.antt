-- ===== src/Enforce.antt =====
-- crates/topgent-enforce/src: the response ladder (ladder.rs), the guard (guard.rs), and the actions
-- with their refusals and outcomes (action.rs, and `Signal` of signal.rs).
-- Owners and the process table are those of crates/topgent-collect/src/process.
pub mod Ladder
pub mod Guard
pub mod Execute
pub mod Tree
pub mod Attempt
pub mod Authorised
pub mod MemberSignals
pub mod Preflight
pub mod Descent
pub mod Descendants
pub mod Patience
mod Tests
use topgent.Base.{ℕ, Bool, Option, Result, ◌==◌, not, ◌&&◌, false, is_empty}
use topgent.Text.{Bytes, ascii, eq_ignore_ascii_case}
use topgent.Facts.{Fact}

-- process/owner.rs
pub data Owner : Type 0 where
  uid : ℕ → Owner
  sid : Bytes → Owner
  unknown : Owner

unfoldable pub is_same_account_as : Owner → Owner → Bool
is_same_account_as (uid left) (uid right) = left == right
is_same_account_as (sid left) (sid right) = not (is_empty left) && eq_ignore_ascii_case left right
is_same_account_as _ _ = false

-- process/table.rs
pub record ProcInfo : Type 0 where
  -- u32
  pub pid : ℕ
  -- u64
  pub started_at : ℕ
  pub exe : Bytes
  pub exe_path_known : Bool
  pub name : Bytes
  pub uid : ℕ
  pub user : Bytes
  pub parent : Option ℕ
  pub family : Option Bytes
  pub owner : Owner

-- signal.rs
pub data Signal : Type 0 where
  terminate force : Signal

-- action.rs. Each holds the pid (u32) and the start time that it was authorised against (u64).
pub data Action : Type 0 where
  kill : ℕ → ℕ → Action
  kill_tree : ℕ → ℕ → Action

unfoldable pub action_name : Action → Bytes
action_name (kill _ _) = ascii "kill"
action_name (kill_tree _ _) = ascii "kill_tree"

unfoldable pub action_pid : Action → ℕ
action_pid (kill pid _) = pid
action_pid (kill_tree pid _) = pid

unfoldable pub action_started_at : Action → ℕ
action_started_at (kill _ started_at) = started_at
action_started_at (kill_tree _ started_at) = started_at

pub data Refusal : Type 0 where
  not_running : Refusal
  -- expected, found
  identity_changed : ℕ → ℕ → Refusal
  -- why
  protected : Bytes → Refusal
  -- detail
  denied : Bytes → Refusal
  -- signalled, detail
  partial : ℕ → Bytes → Refusal
  survived : Refusal

pub data Outcome : Type 0 where
  stopped_gracefully killed tree_stopped_gracefully tree_killed container_stopped : Outcome

pub record Executed : Type 0 where
  pub result : Result Refusal Outcome
  pub fact : Option Fact
