-- ===== src/Journal/Edges.antt =====
-- crates/topgent-journal/src/journal.rs, `record_response_transition`: the records of all keys
-- against a meter for each key on its own.
use topgent.Base.{
  ℕ, ◌≤◌, ◌≡◌, refl, ap, subst, sym, ◌∙◌, inl, inr, Bool, true, not, ◌&&◌, List, [], ◌∷◌, length,
  Option, none, some, arith, All, Bool-cases, Option-cases, if◌then◌else◌,
}
use topgent.Machine.{u64_max, saturating_add}
use topgent.Journal.{Chars, bounded_metadata, is_kept, same_text, same_text-eq, same_text_self}
use topgent.Journal.Table.{find, store, read_back, read_back_all, All-store}
use topgent.Journal.Transitions.{
  ResponseTransition, transit, first_transition, has_key, seen_before, upsert,
  record_response_transition, is_transition, max_response_transitions,
}
use topgent.Journal.Lookup.{
  Distinct, find-snoc, find-update_self, store_all, find-sort_records, sort_records-Distinct,
}
use topgent.Journal.Upserts.{
  Readable, upsert-Distinct, upsert_ne, upsert-Readable, record_transition-store,
}

-- What one sweep says of one rule.
pub record Scan : Type 0 where
  pub input : Chars
  pub active : Bool
  pub now : ℕ

-- The meter of one key: whether its rule is active, and how often it became so.
abbrev pub Meter : Type 0
Meter = Option (Bool × ℕ)

unfoldable pub advance : Meter → Bool → Meter
advance none active = some (active, if active then 1 else 0)
advance (some (was, count)) active =
    some (active, if not was && active then saturating_add u64_max count 1 else count)

unfoldable pub read_meter : Option ResponseTransition → Meter
read_meter none = none
read_meter (some r) = some (r.active, r.trigger_count)

-- The meter of a key behind some sweeps, of which those of other keys leave it alone.
unfoldable pub tally : Chars → Meter → List Scan → Meter
tally key meter [] = meter
tally key meter (s ∷ ss) =
    tally key
      (if same_text key (bounded_metadata s.input 512) then advance meter s.active else meter) ss

unfoldable pub scan : Scan → List ResponseTransition → List ResponseTransition
scan s rs = (record_response_transition s.input s.active s.now rs).records

unfoldable pub scan_all : List Scan → List ResponseTransition → List ResponseTransition
scan_all [] rs = rs
scan_all (s ∷ ss) rs = scan_all ss (scan s rs)

-- What a run of sweeps needs of the program's surroundings: each key is one that a reader keeps, the
-- clock does not go back behind what was last seen, and there are never more keys than the journal
-- keeps.
unfoldable pub Fits : List Scan → List ResponseTransition → Type 0
Fits [] rs = Unit
Fits (s ∷ ss) rs =
    (is_kept (bounded_metadata s.input 512) 512 ≡ true)
    × All (λ r. r.last_seen_at ≤ s.now) rs
    × (length (upsert (bounded_metadata s.input 512) s.active s.now rs) ≤ max_response_transitions)
    × Fits ss (scan s rs)

-- The meter of the key that is changed.
upsert_meter :
    (key : Chars) (active : Bool) (now : ℕ) (rs : List ResponseTransition)
    → read_meter (find (has_key key) (upsert key active now rs))
      ≡ advance (read_meter (find (has_key key) rs)) active
unfolding upsert read_meter advance transit first_transition has_key
upsert_meter key active now rs = elim (Option-cases (find (has_key key) rs)) [
  | inr (r, e) ↦ rw (e, upsert, find-update_self key active now rs, e) refl
  | inl e ↦
      rw (e, upsert, find-snoc key rs (first_transition key active now), e, same_text_self key) refl
]

scan-store :
    (s : Scan) (rs : List ResponseTransition)
    → Readable rs
    → scan s rs
      ≡ store seen_before max_response_transitions
          (upsert (bounded_metadata s.input 512) s.active s.now rs)
unfolding scan record_response_transition
scan-store s rs d =
    let key : Chars = bounded_metadata s.input 512 in
    record_transition-store key s.active s.now (read_back is_transition rs)
    ∙ ap (λ rs. store seen_before max_response_transitions (upsert key s.active s.now rs))
        (read_back_all is_transition rs d)

scan-Readable :
    (s : Scan) (rs : List ResponseTransition)
    → is_kept (bounded_metadata s.input 512) 512 ≡ true
    → All (λ r. r.last_seen_at ≤ s.now) rs
    → Readable rs
    → Readable (scan s rs)
scan-Readable s rs k h d = subst Readable (sym (scan-store s rs d)) (
    All-store (λ r. is_transition r ≡ true) seen_before max_response_transitions
      (upsert (bounded_metadata s.input 512) s.active s.now rs)
      (upsert-Readable (bounded_metadata s.input 512) s.active s.now rs k h d))

-- One sweep, where the journal keeps every key.
find-scan :
    (s : Scan) (rs : List ResponseTransition) (key : Chars)
    → Readable rs
    → Distinct rs
    → length (upsert (bounded_metadata s.input 512) s.active s.now rs) ≤ max_response_transitions
    → find (has_key key) (scan s rs)
      ≡ find (has_key key) (upsert (bounded_metadata s.input 512) s.active s.now rs)
find-scan s rs key w d h =
    let named : Chars = bounded_metadata s.input 512 in
    ap (find (has_key key)) (
      scan-store s rs w
      ∙ store_all seen_before max_response_transitions (upsert named s.active s.now rs) h)
    ∙ find-sort_records seen_before key (upsert named s.active s.now rs)
        (upsert-Distinct named s.active s.now rs d)

scan-Distinct :
    (s : Scan) (rs : List ResponseTransition)
    → Readable rs
    → Distinct rs
    → length (upsert (bounded_metadata s.input 512) s.active s.now rs) ≤ max_response_transitions
    → Distinct (scan s rs)
scan-Distinct s rs w d h =
    let named : Chars = bounded_metadata s.input 512 in
    subst Distinct
      (sym (
        scan-store s rs w
        ∙ store_all seen_before max_response_transitions (upsert named s.active s.now rs) h))
      (sort_records-Distinct seen_before (upsert named s.active s.now rs)
        (upsert-Distinct named s.active s.now rs d))

scan_meter :
    (s : Scan) (rs : List ResponseTransition) (key : Chars)
    → Readable rs
    → Distinct rs
    → length (upsert (bounded_metadata s.input 512) s.active s.now rs) ≤ max_response_transitions
    → read_meter (find (has_key key) (scan s rs)) ≡ (
        if same_text key (bounded_metadata s.input 512)
        then advance (read_meter (find (has_key key) rs)) s.active
        else read_meter (find (has_key key) rs))
scan_meter s rs key w d h = elim (Bool-cases (same_text key (bounded_metadata s.input 512))) [
  | inl y ↦
      let same : key ≡ bounded_metadata s.input 512 =
        same_text-eq key (bounded_metadata s.input 512) y in
      rw (y, find-scan s rs key w d h)
        (subst
          (λ k.
            read_meter (find (has_key k) (upsert (bounded_metadata s.input 512) s.active s.now rs))
            ≡ advance (read_meter (find (has_key k) rs)) s.active)
          (sym same) (upsert_meter (bounded_metadata s.input 512) s.active s.now rs))
  | inr n ↦
      rw (n, find-scan s rs key w d h)
        (ap read_meter (
          upsert_ne (bounded_metadata s.input 512) key s.active s.now rs
            (λ e. ground (arith, subst (λ k. same_text k key ≡ true) e (same_text_self key)))))
]

-- From members that read back, no key twice among them, and while every sweep names a key that the
-- reader keeps, at a time not before what was last seen, with no more keys than the journal keeps:
-- the record of a key behind any sweeps of any keys shows what a meter of its own shows, that is
-- whether the rule was active at its last sweep, and how often it became active, sweeps of other keys
-- leaving it alone. Each sweep reads the file that the one before it wrote.
pub scan_all-tally :
    (ss : List Scan) (rs : List ResponseTransition) (key : Chars)
    → Readable rs
    → Distinct rs
    → Fits ss rs
    → read_meter (find (has_key key) (scan_all ss rs))
      ≡ tally key (read_meter (find (has_key key) rs)) ss
unfolding scan_all tally Fits
scan_all-tally [] rs key w d f = refl
scan_all-tally (s ∷ ss) rs key w d (k, b, h, f) =
    scan_all-tally ss (scan s rs) key (scan-Readable s rs k b w) (scan-Distinct s rs w d h) f
    ∙ ap (λ m. tally key m ss) (scan_meter s rs key w d h)
