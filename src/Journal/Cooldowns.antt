-- ===== src/Journal/Cooldowns.antt =====
-- crates/topgent-journal/src/cooldown.rs, and `Journal::acquire_response_cooldown` of journal.rs.
use topgent.Base.{
  ℕ, Bool, ◌&&◌, leb, ltb, ◌==◌, List, [], ◌∷◌, ◌++◌, Option, none, some, if◌then◌else◌,
}
use topgent.Machine.{u64_max, saturating_add}
use topgent.Journal.{Chars, bounded_metadata, is_kept, same_text}
use topgent.Journal.Table.{find, store, read_back}
use topgent.Journal.Approvals.{at_least_one}

abbrev pub max_response_cooldowns : ℕ
max_response_cooldowns = 256

pub record ResponseCooldown : Type 0 where
  -- u32
  pub pid : ℕ
  -- u64
  pub started_at : ℕ
  pub scope : Chars
  -- u64
  pub acquired_at : ℕ
  -- u64
  pub retry_after : ℕ

unfoldable pub is_held : ℕ → ℕ → Chars → ℕ → ResponseCooldown → Bool
is_held pid started_at scope now r =
    r.pid == pid && r.started_at == started_at && same_text r.scope scope && ltb now r.retry_after

-- `records.retain(|record| now < record.retry_after)`
unfoldable pub retain : ℕ → List ResponseCooldown → List ResponseCooldown
retain now [] = []
retain now (r ∷ rs) = let rest = retain now rs in if ltb now r.retry_after then r ∷ rest else rest

unfoldable pub acquired_before : ResponseCooldown → ResponseCooldown → Bool
acquired_before r s = leb r.acquired_at s.acquired_at

unfoldable pub new_cooldown : ℕ → ℕ → Chars → ℕ → ℕ → ResponseCooldown
new_cooldown pid started_at scope now cooldown_ms = record {
  pid = pid;
  started_at = started_at;
  scope = scope;
  acquired_at = now;
  retry_after = saturating_add u64_max now (at_least_one cooldown_ms);
}

-- `response_cooldown_from_json`
unfoldable pub is_cooldown : ResponseCooldown → Bool
is_cooldown r = is_kept r.scope 64 && ltb r.acquired_at r.retry_after

-- The time from which a held cooldown may be tried again, or none where it was acquired.
unfoldable pub acquire_response_cooldown :
    ℕ → ℕ → Chars → ℕ → ℕ → List ResponseCooldown → Option ℕ × List ResponseCooldown
acquire_response_cooldown pid started_at input now cooldown_ms file =
    let scope = bounded_metadata input 64 in
    let records = read_back is_cooldown file in
    elim (find (is_held pid started_at scope now) records) [
      | some existing ↦ (some existing.retry_after, file)
      | none ↦ (
        none,
        store acquired_before max_response_cooldowns
            (retain now records ++ new_cooldown pid started_at scope now cooldown_ms ∷ []),
      )
    ]

module _ (pid started_at : ℕ) (input : Chars) where
  abbrev is_busy : ℕ → ResponseCooldown → Bool
  is_busy now = is_held pid started_at (bounded_metadata input 64) now

  abbrev fresh : ℕ → ℕ → ResponseCooldown
  fresh now cooldown_ms = new_cooldown pid started_at (bounded_metadata input 64) now cooldown_ms

  abbrev stored : ℕ → ℕ → List ResponseCooldown → List ResponseCooldown
  stored now cooldown_ms file =
      store acquired_before max_response_cooldowns
        (retain now (read_back is_cooldown file) ++ fresh now cooldown_ms ∷ [])
