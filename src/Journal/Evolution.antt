-- ===== src/Journal/Evolution.antt =====
-- crates/topgent-journal/src/journal.rs: what becomes of one approval record.
use topgent.Base.{
  ℕ, ◌≤◌, ◌<◌, ◌≡◌, refl, ap, subst, sym, inl, inr, true, ◌&&◌, Bool, List, [], ◌∷◌, map, some,
  arith, leb, ◌∙◌, All, Any, Bool-cases,
}
use topgent.Journal.{Chars}
use topgent.Journal.Table.{read_back, All-map}
use topgent.Journal.Approvals.{
  ApprovalRecordState, pending, expired, ApprovalRecord, is_pending, is_decision, expire,
  has_lapsed, is_open, decide,
}

-- What an operation at the time `now` may make of a record: nothing, the expiry of one whose time
-- was over, or a decision on one that was still open.
pub data Evolves (now : ℕ) (r s : ApprovalRecord) : Type 0 where
  kept : s ≡ r → Evolves now r s
  lapsed :
      r.state ≡ pending
      → r.expires_at ≤ now
      → s ≡ record r { state = expired; resolved_at = some r.expires_at }
      → Evolves now r s
  settled :
      (decision : ApprovalRecordState)
      → is_decision decision ≡ true
      → r.state ≡ pending
      → now < r.expires_at
      → s ≡ decide decision now r
      → Evolves now r s

pending_state : (state : ApprovalRecordState) → is_pending state ≡ true → state ≡ pending
unfolding is_pending
pending_state state h = ground arith

expire-Evolves : (now : ℕ) (r : ApprovalRecord) → Evolves now r (expire now r)
unfolding expire has_lapsed
expire-Evolves now r = elim (Bool-cases (is_pending r.state && leb r.expires_at now)) [
  | inl y ↦ rw y (lapsed (pending_state r.state (ground arith)) (ground arith) refl)
  | inr n ↦ rw n (kept refl)
]

not_expired : pending ≡ expired → ⊥
not_expired e = ground arith

not_decision : (d : ApprovalRecordState) → is_decision d ≡ true → d ≡ pending → ⊥
unfolding is_decision
not_decision d h e = ground arith

-- A decision on a record that is open after the expiry is one on the record before it.
pub settle :
    (now : ℕ) (decision : ApprovalRecordState) (r s : ApprovalRecord)
    → is_decision decision ≡ true
    → s.state ≡ pending
    → now < s.expires_at
    → Evolves now r s
    → Evolves now r (decide decision now s)
unfolding decide
settle now decision r s d p o (kept e) =
    settled decision d (sym (ap (λ a. a.state) e) ∙ p) (subst (λ a. now < a.expires_at) e o)
      (ap (decide decision now) e)
settle now decision r s d p o (lapsed q l e) = absurd (not_expired (sym p ∙ ap (λ a. a.state) e))
settle now decision r s d p o (settled f g q l e) =
    absurd (not_decision f g (sym (ap (λ a. a.state) e) ∙ p))

pub open_state :
    (id : Chars) (pid started_at now : ℕ) (s : ApprovalRecord)
    → is_open id pid started_at now s ≡ true
    → (s.state ≡ pending) × (now < s.expires_at)
unfolding is_open
open_state id pid started_at now s h = (pending_state s.state (ground arith), ground arith)

-- Every record of a table evolved from one of another.
abbrev pub Grown : ℕ → List ApprovalRecord → List ApprovalRecord → Type 0
Grown now rs ss = All (λ s. Any (λ r. Evolves now r s) rs) ss

Grown-weaken :
    (now : ℕ) (r : ApprovalRecord) (rs ss : List ApprovalRecord)
    → Grown now rs ss
    → Grown now (r ∷ rs) ss
Grown-weaken now r rs ss h =
    All-map (λ s. Any (λ r. Evolves now r s) rs) (λ s. Any (λ r. Evolves now r s) (r ∷ rs)) ss
      (λ s a. inr a) h

pub expire-Grown : (now : ℕ) (rs : List ApprovalRecord) → Grown now rs (map (expire now) rs)
expire-Grown now [] = tt
expire-Grown now (r ∷ rs) =
    (inl (expire-Evolves now r), Grown-weaken now r rs (map (expire now) rs) (expire-Grown now rs))

Any-read_back :
    (now : ℕ) (s : ApprovalRecord) (test : ApprovalRecord → Bool) (rs : List ApprovalRecord)
    → Any (λ r. Evolves now r s) (read_back test rs)
    → Any (λ r. Evolves now r s) rs
unfolding read_back
Any-read_back now s test [] h = h
Any-read_back now s test (r ∷ rs) h = elim (Bool-cases (test r)) [
  | inl y ↦
      let split : Any (λ r. Evolves now r s) (r ∷ read_back test rs) = rw y at h in
      elim split [ inl e ↦ inl e | inr b ↦ inr (Any-read_back now s test rs b) ]
  | inr n ↦ inr (Any-read_back now s test rs (rw n at h))
]

-- What comes of the members that read comes of those of the file.
pub read_back-Grown :
    (now : ℕ) (test : ApprovalRecord → Bool) (rs ss : List ApprovalRecord)
    → Grown now (read_back test rs) ss
    → Grown now rs ss
read_back-Grown now test rs ss h = All-map _ _ ss (λ s a. Any-read_back now s test rs a) h

pub Grown-self : (now : ℕ) (rs : List ApprovalRecord) → Grown now rs rs
Grown-self now [] = tt
Grown-self now (r ∷ rs) = (inl (kept refl), Grown-weaken now r rs rs (Grown-self now rs))
