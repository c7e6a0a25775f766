-- ===== src/Enforce/Guard.antt =====
-- crates/topgent-enforce/src/guard.rs: what may never be signalled, on a host that is not Windows.
use topgent.Base.{
  ℕ, Bool, true, false, ◌||◌, ◌==◌, leb, List, [], ◌∷◌, Option, none, some, Result, ok, err,
  if◌then◌else◌, ite, ◌≡◌, ◌≢◌, ◌↔◌, ◌<◌, arith,
}
use topgent.Text.{Bytes, ascii, to_ascii_lowercase, Bytes-discrete}
use topgent.Outcome.{◌>>◌, refuse_if}
use topgent.Enforce.{Owner, unknown, is_same_account_as, ProcInfo, Refusal, protected}

pub record Guard : Type 0 where
  -- u32
  pub own_pid : ℕ
  pub parent_pid : Option ℕ
  pub own_owner : Owner

-- `name.rsplit(['/', '\\']).next()`: what follows the last separator.
unfoldable pub base_name : Bytes → Bytes → Bytes
base_name [] name = name
base_name (b ∷ bs) name = base_name bs (if b == 47 || b == 92 then bs else name)

unfoldable pub contains : List Bytes → Bytes → Bool
contains [] name = false
contains (critical ∷ rest) name = ite (Bytes-discrete critical name) true (contains rest name)

abbrev pub unix_critical : List Bytes
unix_critical =
    ascii "systemd" ∷ ascii "init" ∷ ascii "launchd" ∷ ascii "kthreadd" ∷ ascii "kernel_task" ∷ []

unfoldable pub is_critical : ProcInfo → Bool
unfolding base_name contains
is_critical target = contains unix_critical (to_ascii_lowercase (base_name target.name target.name))

unfoldable pub protected_system_process : ProcInfo → Option Bytes
protected_system_process target =
    if target.pid == 1
    then some (ascii "that is the init process, and stopping it stops the machine")
    else if is_critical target
    then some (ascii "the operating system depends on it")
    else none

unfoldable pub is_parent : Option ℕ → ℕ → Bool
is_parent none pid = false
is_parent (some parent) pid = pid == parent

unfoldable pub is_unknown : Owner → Bool
is_unknown unknown = true
is_unknown _ = false

unfoldable pub refuse_protected : Option Bytes → Result Refusal (Unit {0})
refuse_protected none = ok tt
refuse_protected (some why) = err (protected why)

-- `Guard::check`
unfoldable pub check : Guard → ProcInfo → Result Refusal (Unit {0})
check guard target =
    refuse_if (target.pid == guard.own_pid) (protected (ascii "that is Topgent itself"))
    >> (refuse_if (is_parent guard.parent_pid target.pid)
          (protected (ascii "that is the session Topgent is running inside"))
        >> (refuse_if (leb target.pid 1) (protected (ascii "pid 1 runs the machine"))
            >> (refuse_protected (protected_system_process target)
                >> (refuse_if (is_unknown guard.own_owner || is_unknown target.owner) (
                      protected (
                        ascii
                          "the operating system did not say who owns this process, and an owner Topgent cannot establish is never assumed to be its own"))
                    >> (if is_same_account_as target.owner guard.own_owner
                        then ok tt
                        else err (
                            protected (
                              ascii
                                "it belongs to another user, and Topgent takes no privilege it was not given")))))))

-- Everything that a signal may reach: another process than this one and its parent, not the init
-- process, of no critical name, and of the same account, which is known.
pub record Permitted (guard : Guard) (target : ProcInfo) : Type 0 where
  pub other : target.pid ≢ guard.own_pid
  pub not_parent : guard.parent_pid ≢ some target.pid
  pub not_init : 1 < target.pid
  pub not_critical : is_critical target ≡ false
  pub known : target.owner ≢ unknown
  pub same_account : is_same_account_as target.owner guard.own_owner ≡ true

known_account :
    (left right : Owner) → is_same_account_as left right ≡ true → is_unknown right ≡ false
unfolding is_same_account_as is_unknown
known_account left right h = ground arith

-- The guard lets a process pass exactly where it is permitted.
pub check-Permitted :
    (guard : Guard) (target : ProcInfo) → (check guard target ≡ ok tt) ↔ Permitted guard target
unfolding check is_parent is_unknown refuse_protected protected_system_process
check-Permitted guard target = (
  λ h. record {
    other = λ e. ground arith;
    not_parent = λ e. ground arith;
    not_init = ground arith;
    not_critical = ground arith;
    known = λ e. ground arith;
    same_account = ground arith;
  },
  λ p. ground (arith, known_account target.owner guard.own_owner),
)
