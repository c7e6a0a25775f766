-- ===== src/Journal/Deadlines.antt =====
-- crates/topgent-journal/src/journal.rs: what a state of an approval record says of its deadline.
use topgent.Base.{
  ℕ, ◌<◌, ◌≡◌, refl, subst, sym, inl, inr, true, List, [], none, some, arith, All, Any-All,
}
use topgent.Text.{Bytes}
use topgent.Journal.{Chars}
use topgent.Journal.Table.{All-map}
use topgent.Journal.Approvals.{ApprovalRecord, pending, expired, is_decision, decide}
use topgent.Journal.Evolution.{Evolves, kept, lapsed, settled}
use topgent.Journal.Decisions.{IsRequest, Follows, Change, Change-Follows}

-- A pending record is unresolved, a decided one was resolved before its deadline, and an expired one
-- is dated by its deadline.
pub record IsTimely (r : ApprovalRecord) : Type 0 where
  pub waiting : r.state ≡ pending → r.resolved_at ≡ none
  pub in_time : is_decision r.state ≡ true → (t : ℕ) × (r.resolved_at ≡ some t) × (t < r.expires_at)
  pub too_late : r.state ≡ expired → r.resolved_at ≡ some r.expires_at

Evolves-IsTimely : (now : ℕ) (r s : ApprovalRecord) → IsTimely r → Evolves now r s → IsTimely s
unfolding decide is_decision
Evolves-IsTimely now r s h (kept e) = subst IsTimely (sym e) h
Evolves-IsTimely now r s h (lapsed p l e) =
    subst IsTimely (sym e)
      (record { waiting = λ x. ground arith; in_time = λ x. ground arith; too_late = λ x. refl })
Evolves-IsTimely now r s h (settled d y p l e) = subst IsTimely (sym e) (record {
  waiting = λ x. ground arith;
  in_time = λ x. (now, refl, l);
  too_late = λ x. ground arith;
})

IsRequest-IsTimely :
    (held : List ApprovalRecord) (s : ApprovalRecord) → IsRequest held s → IsTimely s
unfolding is_decision
IsRequest-IsTimely held s h = record {
  waiting = λ x. h.unresolved;
  in_time = λ x. ground (arith, h.waiting);
  too_late = λ x. ground (arith, h.waiting);
}

-- The files that any sequence of operations, at any times, leads to from an empty one, each
-- operation on what its reader keeps of the file before.
module _ (digits : ℕ → Chars) (as_bytes : Chars → Bytes) where
  pub data Reachable : List ApprovalRecord → Type 0 where
    empty : Reachable []
    next :
        {rs ss : List ApprovalRecord} (now : ℕ)
        → Reachable rs
        → Change digits as_bytes now rs ss
        → Reachable ss

  Follows-IsTimely :
      (now : ℕ) (rs ss : List ApprovalRecord)
      → All IsTimely rs
      → Follows digits as_bytes now rs ss
      → All IsTimely ss
  Follows-IsTimely now rs ss h f =
      All-map _ IsTimely ss
        (λ s o. elim o [
          | inl a ↦ let found = Any-All rs a h in Evolves-IsTimely now found.0 s found.2 found.1
          | inr n ↦ IsRequest-IsTimely _ s n
        ])
        f

  -- In every file of approvals that the operations lead to, whatever their arguments and times, a
  -- pending record is unresolved, an approved or denied one was resolved before its deadline, and an
  -- expired one is dated by its deadline.
  pub Reachable-IsTimely : {rs : List ApprovalRecord} → Reachable rs → All IsTimely rs
  Reachable-IsTimely empty = tt
  Reachable-IsTimely (next now r c) =
      Follows-IsTimely now _ _ (Reachable-IsTimely r) (Change-Follows digits as_bytes now _ _ c)
