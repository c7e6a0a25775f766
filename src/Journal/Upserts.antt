-- ===== src/Journal/Upserts.antt =====
-- crates/topgent-journal/src/journal.rs, `record_response_transition`: what it leaves of the records
-- that were read, their keys and whether they read again.
use topgent.Base.{
  ℕ, ◌≤◌, ◌≡◌, ◌≢◌, refl, inl, inr, Bool, true, List, [], ◌∷◌, ◌++◌, arith, All, Option-cases,
}
use topgent.Journal.{Chars, is_kept, same_text-eq}
use topgent.Journal.Table.{find, store, All-snoc, All-update, All-both}
use topgent.Journal.Transitions.{
  ResponseTransition, transit, first_transition, has_key, seen_before, upsert, record_transition,
  is_transition, max_response_transitions,
}
use topgent.Journal.Lookup.{Other, Distinct, find-Other, find-snoc, find-update_ne, update-Distinct}

-- Every member of the file reads back.
abbrev pub Readable : List ResponseTransition → Type 0
Readable rs = All (λ r. is_transition r ≡ true) rs

Distinct-snoc :
    (rs : List ResponseTransition) (r : ResponseTransition)
    → Distinct rs
    → All (λ s. r.key ≢ s.key) rs
    → Distinct (rs ++ r ∷ [])
Distinct-snoc [] r d o = (tt, tt)
Distinct-snoc (s ∷ ss) r (a, d) o = (All-snoc (Other s.key) ss r a o.0, Distinct-snoc ss r d o.1)

pub upsert-Distinct :
    (key : Chars) (active : Bool) (now : ℕ) (rs : List ResponseTransition)
    → Distinct rs
    → Distinct (upsert key active now rs)
unfolding upsert first_transition
upsert-Distinct key active now rs d = elim (Option-cases (find (has_key key) rs)) [
  | inr (r, e) ↦ rw (e, upsert) (update-Distinct key active now rs d)
  | inl e ↦
      rw (e, upsert) (Distinct-snoc rs (first_transition key active now) d (find-Other key rs e))
]

pub upsert_ne :
    (key j : Chars) (active : Bool) (now : ℕ) (rs : List ResponseTransition)
    → j ≢ key
    → find (has_key j) (upsert key active now rs) ≡ find (has_key j) rs
unfolding upsert first_transition has_key
upsert_ne key j active now rs h = elim (Option-cases (find (has_key key) rs)) [
  | inr (r, e) ↦ rw (e, upsert) (find-update_ne key j active now rs h)
  | inl e ↦
      rw (e, upsert)
        (ground (arith, find-snoc j rs (first_transition key active now), same_text-eq key j, h))
]

transit-is_transition :
    (active : Bool) (now : ℕ) (r : ResponseTransition)
    → is_transition r ≡ true
    → r.last_seen_at ≤ now
    → is_transition (transit active now r) ≡ true
unfolding transit is_transition
transit-is_transition active now r d h = ground arith

pub upsert-Readable :
    (key : Chars) (active : Bool) (now : ℕ) (rs : List ResponseTransition)
    → is_kept key 512 ≡ true
    → All (λ r. r.last_seen_at ≤ now) rs
    → Readable rs
    → Readable (upsert key active now rs)
unfolding upsert first_transition is_transition
upsert-Readable key active now rs k h d = elim (Option-cases (find (has_key key) rs)) [
  | inr (r, e) ↦
      rw (e, upsert)
        (All-update (λ r. (is_transition r ≡ true) × (r.last_seen_at ≤ now))
          (λ r. is_transition r ≡ true) (has_key key) (transit active now) rs (λ r p. p.0)
          (λ r t p. transit-is_transition active now r p.0 p.1)
          (All-both (λ r. is_transition r ≡ true) (λ r. r.last_seen_at ≤ now) rs d h))
  | inl e ↦
      rw (e, upsert)
        (All-snoc (λ r. is_transition r ≡ true) rs (first_transition key active now) d
          (ground arith))
]

pub record_transition-store :
    (key : Chars) (active : Bool) (now : ℕ) (rs : List ResponseTransition)
    → (record_transition key active now rs).records
      ≡ store seen_before max_response_transitions (upsert key active now rs)
unfolding record_transition
record_transition-store key active now rs = elim (Option-cases (find (has_key key) rs)) [
  | inr (r, e) ↦ rw (e, record_transition) refl
  | inl e ↦ rw (e, record_transition) refl
]
