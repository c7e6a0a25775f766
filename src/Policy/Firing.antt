-- ===== src/Policy/Firing.antt =====
-- crates/topgent-policy/src/firing.rs: when a factor fires.
use topgent.Base.{ℕ, Bool, true, false, not, ◌&&◌, ◌||◌, leb, ltb, if◌then◌else◌}
use topgent.Machine.{u32_max}

pub data Signal : Type 0 where
  can_execute can_write_broadly is_sandboxed exe_path_known family_known outbound_count
        distinct_hosts max_ports_to_one_host latent_secret_count drift_count invokes_count
        children_count connector_count endpoint_count resource_count unevaluated_count fact_count :
      Signal

unfoldable pub is_flag : Signal → Bool
is_flag can_execute = true
is_flag can_write_broadly = true
is_flag is_sandboxed = true
is_flag exe_path_known = true
is_flag family_known = true
is_flag _ = false

pub record Signals : Type 0 where
  pub can_execute : Bool
  pub can_write_broadly : Bool
  pub is_sandboxed : Bool
  pub exe_path_known : Bool
  pub family_known : Bool
  -- u32, as all counts
  pub outbound_count : ℕ
  pub distinct_hosts : ℕ
  pub max_ports_to_one_host : ℕ
  pub latent_secret_count : ℕ
  pub drift_count : ℕ
  pub invokes_count : ℕ
  pub children_count : ℕ
  pub connector_count : ℕ
  pub endpoint_count : ℕ
  pub resource_count : ℕ
  pub unevaluated_count : ℕ
  pub fact_count : ℕ

-- `flag as u32`
abbrev as_u32 : Bool → ℕ
as_u32 true = 1
as_u32 false = 0

-- `Signals::count`
unfoldable pub count : Signals → Signal → ℕ
count s can_execute = as_u32 s.can_execute
count s can_write_broadly = as_u32 s.can_write_broadly
count s is_sandboxed = as_u32 s.is_sandboxed
count s exe_path_known = as_u32 s.exe_path_known
count s family_known = as_u32 s.family_known
count s outbound_count = s.outbound_count
count s distinct_hosts = s.distinct_hosts
count s max_ports_to_one_host = s.max_ports_to_one_host
count s latent_secret_count = s.latent_secret_count
count s drift_count = s.drift_count
count s invokes_count = s.invokes_count
count s children_count = s.children_count
count s connector_count = s.connector_count
count s endpoint_count = s.endpoint_count
count s resource_count = s.resource_count
count s unevaluated_count = s.unevaluated_count
count s fact_count = s.fact_count

pub data ThresholdName : Type 0 where
  network_spread recon_hosts recon_ports process_children : ThresholdName

-- The thresholds of the policy in force (usize).
pub record Thresholds : Type 0 where
  pub network_spread : ℕ
  pub recon_hosts : ℕ
  pub recon_ports : ℕ
  pub process_children : ℕ

-- `u32::try_from(value).unwrap_or(u32::MAX)`
abbrev to_u32 : ℕ → ℕ
to_u32 n = if leb n u32_max then n else u32_max

unfoldable pub threshold : ThresholdName → Thresholds → ℕ
threshold network_spread t = to_u32 t.network_spread
threshold recon_hosts t = to_u32 t.recon_hosts
threshold recon_ports t = to_u32 t.recon_ports
threshold process_children t = to_u32 t.process_children

pub data Amount : Type 0 where
  literal : ℕ → Amount
  named : ThresholdName → Amount

unfoldable pub resolve : Amount → Thresholds → ℕ
resolve (literal value) t = value
resolve (named name) t = threshold name t

mutual
  pub data Firing : Type 0 where
    all : Branches → Firing
    any : Branches → Firing
    negation : Firing → Firing
    is : Signal → Firing
    at_least : Signal → Amount → Firing
    below : Signal → Amount → Firing

  -- `Vec<Firing>`
  pub data Branches : Type 0 where
    no_branch : Branches
    branch : Firing → Branches → Branches

unfoldable mutual
  pub holds : Firing → Signals → Thresholds → Bool
  holds (all branches) s t = all_hold branches s t
  holds (any branches) s t = some_holds branches s t
  holds (negation inner) s t = not (holds inner s t)
  holds (is signal) s t = ltb 0 (count s signal)
  holds (at_least signal amount) s t = leb (resolve amount t) (count s signal)
  holds (below signal amount) s t = ltb (count s signal) (resolve amount t)

  pub all_hold : Branches → Signals → Thresholds → Bool
  all_hold no_branch s t = true
  all_hold (branch f fs) s t = holds f s t && all_hold fs s t

  pub some_holds : Branches → Signals → Thresholds → Bool
  some_holds no_branch s t = false
  some_holds (branch f fs) s t = holds f s t || some_holds fs s t

unfoldable mutual
  pub is_satisfiable : Firing → Thresholds → Bool
  is_satisfiable (any branches) t = not (no_branches branches) && some_satisfiable branches t
  is_satisfiable (all branches) t = all_satisfiable branches t
  is_satisfiable (negation inner) t = true
  is_satisfiable (is signal) t = true
  is_satisfiable (at_least signal amount) t = not (is_flag signal) || leb (resolve amount t) 1
  is_satisfiable (below signal amount) t =
      ltb 0 (resolve amount t) && (not (is_flag signal) || leb (resolve amount t) 2)

  pub no_branches : Branches → Bool
  no_branches no_branch = true
  no_branches (branch f fs) = false

  pub all_satisfiable : Branches → Thresholds → Bool
  all_satisfiable no_branch t = true
  all_satisfiable (branch f fs) t = is_satisfiable f t && all_satisfiable fs t

  pub some_satisfiable : Branches → Thresholds → Bool
  some_satisfiable no_branch t = false
  some_satisfiable (branch f fs) t = is_satisfiable f t || some_satisfiable fs t
