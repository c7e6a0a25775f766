-- ===== src/Policy/Tests.antt =====
-- Conditions and exceptions at concrete values.
use topgent.Base.{◌≡◌, refl, true, false, none, some, ok, err, arith}
use topgent.Text.{ascii, Bytes-discrete, is_blank}
use topgent.Policy.Firing.{
  Signal, can_execute, outbound_count, Signals, Thresholds, network_spread, literal, named,
  threshold, resolve, Firing, all, any, negation, is, at_least, below, no_branch, branch, is_flag,
  count, holds, is_satisfiable,
}
use topgent.Policy.Satisfiable.{is_sharp, holds-is_satisfiable, below_flag-is_satisfiable}
use topgent.Policy.Exceptions.{
  Exception, blank, unknown_factor, is_known, validate, active_at, starts_with, contains_text,
  same_bytes, family_fits, target_fits, covers,
}

abbrev busy : Signals
busy = record {
  can_execute = true;
  can_write_broadly = false;
  is_sandboxed = false;
  exe_path_known = true;
  family_known = true;
  outbound_count = 6;
  distinct_hosts = 4;
  max_ports_to_one_host = 1;
  latent_secret_count = 0;
  drift_count = 0;
  invokes_count = 0;
  children_count = 2;
  connector_count = 0;
  endpoint_count = 6;
  resource_count = 1;
  unevaluated_count = 0;
  fact_count = 20;
}

abbrev thresholds : Thresholds
thresholds = record {
  network_spread = 5;
  recon_hosts = 10;
  recon_ports = 10;
  process_children = 20;
}

-- It executes, and talks to many or is not short of facts.
abbrev condition : Firing
condition = all (
    branch (is can_execute) (
      branch
        (any (
          branch (at_least outbound_count (named network_spread))
            (branch (negation (below Signal.fact_count (literal 3))) no_branch)))
        no_branch))

abbrev exception : Exception
exception = record {
  name = ascii "lab key";
  factor = ascii "SECRET_REACHABLE";
  family = none;
  target = some (ascii "/lab/");
  reason = ascii "a test key";
  created_by = ascii "ana";
  created_at = 1;
  expires_at = 10;
}

record Runs : Type 0 where
  sharp : is_sharp condition thresholds ≡ true
  fires : holds condition busy thresholds ≡ true
  flag : is_flag can_execute ≡ true
  valid : validate exception ≡ ok tt
  nameless : validate (record exception { name = ascii " " }) ≡ err (blank (ascii "name"))
  misspelt :
      validate (record exception { factor = ascii "SECRET" })
      ≡ err (unknown_factor (ascii "SECRET"))
  covered :
      covers (ascii "SECRET_REACHABLE") (some (ascii "codex")) (ascii "/home/lab/key") exception
      ≡ true
  over : active_at 10 exception ≡ false

runs : Runs
unfolding is_sharp holds is_satisfiable is_flag count resolve threshold Bytes-discrete is_blank
    is_known validate active_at starts_with contains_text same_bytes family_fits target_fits covers
runs = record {
  sharp = refl;
  fires = refl;
  flag = refl;
  valid = refl;
  nameless = refl;
  misspelt = refl;
  covered = refl;
  over = refl;
}

holds-is_satisfiable_example : is_satisfiable condition thresholds ≡ true
holds-is_satisfiable_example = holds-is_satisfiable condition busy thresholds runs.sharp runs.fires

below_flag-is_satisfiable_example :
    (holds (below can_execute (literal 3)) busy thresholds ≡ true)
    × (is_satisfiable (below can_execute (literal 3)) thresholds ≡ false)
below_flag-is_satisfiable_example =
    below_flag-is_satisfiable can_execute 3 busy thresholds runs.flag (omega arith)
