-- ===== src/Verify/Covered.antt =====
-- verify.rs: the checkpoints that `check_checkpoints` counts.
use topgent.Base.{
  ℕ, suc, ◌+◌, ◌≡◌, ◌<◌, refl, sym, ap, ◌∙◌, ◌⊎◌, inl, inr, List, [], ◌∷◌, Option, none, some, true,
  arith, All, append-eq-nil, Option-cases, Bool-cases, if_pos, if_neg, ◌≢◌, leb, ◌==◌, last?, take,
  length,
}
use topgent.Text.{Bytes-discrete}
use topgent.Crypto.{Crypto}
use topgent.Order.{bytes_order}
use topgent.Order.Map
use topgent.Chain.{Chain, ChainEntry, Checkpoint, checkpoint_signed_by, count_u64, Origin-discrete}
use topgent.Bundle.{Breach}
use topgent.Verify.Authority.{Authority, Authorities}
use topgent.Verify.Checkpoints.{
  Outcome, Reach, count_outcome, find_entry, check_count, check_head, check_position,
  check_signature, check_retired, check_holder, check_checkpoint, checkpoint_loop,
  check_checkpoints,
}

-- The key was still authoritative at the sequence.
abbrev pub Current : Option ℕ → ℕ → Type 0
Current none sequence = Unit
Current (some retired) sequence = sequence < retired

==→eq : (a b : ℕ) → (a == b) ≡ true → a ≡ b
==→eq a b h = ground arith

-- What a checkpoint that counts has to be.
pub record Covers (c : Crypto) (chain : Chain) (m : Authorities) (p : Checkpoint) : Type 0 where
  pub origin : p.body.origin ≡ chain.origin
  pub holder : Authority
  pub known : Map.get bytes_order p.body.key_id m ≡ some holder
  pub current : Current holder.retired_from p.body.through_sequence
  pub signed : checkpoint_signed_by c p holder.key ≡ true
  pub position : ℕ
  pub entry : ChainEntry
  pub found : find_entry p.body.through_sequence 0 chain.entries ≡ some (position, entry)
  pub head : entry.hash ≡ p.body.head
  pub count : count_u64 (position + 1) ≡ p.body.entry_count

refused_ne_covers : {b : Breach} → Outcome.refused b ≡ Outcome.covers → ⊥
refused_ne_covers h = cc

-- What is left of the guards once the holder is known.
record Agrees (p : Checkpoint) (found : Option (ℕ × ChainEntry)) : Type 0 where
  at : ℕ
  entry : ChainEntry
  here : found ≡ some (at, entry)
  head : entry.hash ≡ p.body.head
  count : count_u64 (at + 1) ≡ p.body.entry_count

check_head-covers :
    (c : Crypto) (p : Checkpoint) (at : ℕ) (e : ChainEntry)
    → check_head c p at e ≡ Outcome.covers
    → (e.hash ≡ p.body.head) × (count_u64 (at + 1) ≡ p.body.entry_count)
unfolding check_head check_count
check_head-covers c p at e h = elim (Bytes-discrete e.hash p.body.head) [
  | no ne ↦ absurd (refused_ne_covers (sym (if_neg (Bytes-discrete e.hash p.body.head) ne _ _) ∙ h))
  | yes same ↦
      let counted = sym (if_pos (Bytes-discrete e.hash p.body.head) same _ _) ∙ h in
      elim (Bool-cases (count_u64 (at + 1) == p.body.entry_count)) [
        | inl agree ↦ (same, ==→eq _ _ agree)
        | inr differ ↦ absurd (refused_ne_covers (rw differ at counted))
      ]
]

check_position-covers :
    (c : Crypto) (p : Checkpoint) (es : List ChainEntry) (found : Option (ℕ × ChainEntry))
    → check_position c p es found ≡ Outcome.covers
    → Agrees p found
unfolding check_position
check_position-covers c p es none h = absurd (refused_ne_covers h)
check_position-covers c p es (some (at, e)) h =
    let (head, count) = check_head-covers c p at e h in
    record { at = at; entry = e; here = refl; head = head; count = count }

check_signature-covers :
    (c : Crypto) (p : Checkpoint) (es : List ChainEntry) (holder : Authority)
    → check_signature c p es holder ≡ Outcome.covers
    → (checkpoint_signed_by c p holder.key ≡ true)
      × Agrees p (find_entry p.body.through_sequence 0 es)
unfolding check_signature
check_signature-covers c p es holder h = elim (Bool-cases (checkpoint_signed_by c p holder.key)) [
  | inl signed ↦ (signed, check_position-covers c p es _ (rw signed at h))
  | inr forged ↦ absurd (refused_ne_covers (rw forged at h))
]

check_retired-covers :
    (c : Crypto) (p : Checkpoint) (es : List ChainEntry) (holder : Authority) (retired : Option ℕ)
    → check_retired c p es holder retired ≡ Outcome.covers
    → Current retired p.body.through_sequence × (check_signature c p es holder ≡ Outcome.covers)
unfolding check_retired
check_retired-covers c p es holder none h = (tt, h)
check_retired-covers c p es holder (some r) h = elim (Bool-cases (leb r p.body.through_sequence)) [
  | inl past ↦ absurd (refused_ne_covers (rw past at h))
  | inr current ↦ (ground arith, rw current at h)
]

-- A checkpoint counts only where every guard holds.
check_checkpoint-Covers :
    (c : Crypto) (chain : Chain) (m : Authorities) (p : Checkpoint)
    → check_checkpoint c chain m p ≡ Outcome.covers
    → Covers c chain m p
unfolding check_checkpoint check_holder
check_checkpoint-Covers c chain m p h = elim (Origin-discrete p.body.origin chain.origin) [
  | no ne ↦
      absurd
        (refused_ne_covers (sym (if_neg (Origin-discrete p.body.origin chain.origin) ne _ _) ∙ h))
  | yes same ↦
      let known = sym (if_pos (Origin-discrete p.body.origin chain.origin) same _ _) ∙ h in
      elim (Option-cases (Map.get bytes_order p.body.key_id m)) [
        | inl unknown ↦ absurd (refused_ne_covers (rw unknown at known))
        | inr (holder, held) ↦
            let (current, rest) =
              check_retired-covers c p chain.entries holder holder.retired_from
                (rw held at known) in
            let (signed, agrees) = check_signature-covers c p chain.entries holder rest in
            record {
              origin = same;
              holder = holder;
              known = held;
              current = current;
              signed = signed;
              position = agrees.at;
              entry = agrees.entry;
              found = agrees.here;
              head = agrees.head;
              count = agrees.count;
            }
      ]
]

Outcome-cases : (o : Outcome) → (o ≡ Outcome.covers) ⊎ ((b : Breach) × (o ≡ Outcome.refused b))
Outcome-cases Outcome.covers = inl refl
Outcome-cases (Outcome.refused b) = inr (b, refl)

count_outcome-nil :
    (c : Crypto) (reach : Reach) (p : Checkpoint) (o : Outcome)
    → (count_outcome c reach p o).0 ≡ []
    → o ≡ Outcome.covers
count_outcome-nil c reach p Outcome.covers h = refl
count_outcome-nil c reach p (Outcome.refused b) h = cc

checkpoint_loop-nil :
    (c : Crypto) (chain : Chain) (m : Authorities) (ps : List Checkpoint) (reach : Reach)
    → (checkpoint_loop c chain m reach ps).0 ≡ []
    → All (Covers c chain m) ps
unfolding checkpoint_loop
checkpoint_loop-nil c chain m [] reach h = tt
checkpoint_loop-nil c chain m (p ∷ ps) reach h =
    let (here, there) =
      append-eq-nil (count_outcome c reach p (check_checkpoint c chain m p)).0 _ h in
    (
      check_checkpoint-Covers c chain m p (count_outcome-nil c reach p _ here),
      checkpoint_loop-nil c chain m ps _ there,
    )

pub check_checkpoints-nil :
    (c : Crypto) (chain : Chain) (m : Authorities) (ps : List Checkpoint)
    → (check_checkpoints c chain m ps).0 ≡ []
    → All (Covers c chain m) ps × (ps ≢ [])
unfolding check_checkpoints
check_checkpoints-nil c chain m [] h = absurd (some_breach h)
  where
    some_breach : {b : Breach} → b ∷ [] ≡ [] → ⊥
    some_breach h = cc
check_checkpoints-nil c chain m (p ∷ ps) h = (checkpoint_loop-nil c chain m (p ∷ ps) none h, cc)

last?-cons : {A : Type 0} (x e : A) (xs : List A) → last? xs ≡ some e → last? (x ∷ xs) ≡ some e
last?-cons x e [] h = absurd (cc)
last?-cons x e (y ∷ ys) h = h

found_at :
    (k : ℕ) (x : ChainEntry) (at : ℕ) (e : ChainEntry) (o : Option (ℕ × ChainEntry))
    → o ≡ some (k, x)
    → o ≡ some (at, e)
    → (k ≡ at) × (x ≡ e)
found_at k x at e o p q = (cc, cc)

-- Where an entry is found: it ends the prefix of the entries up to its position.
pub find_entry-found :
    (s k : ℕ) (es : List ChainEntry) (at : ℕ) (e : ChainEntry)
    → find_entry s k es ≡ some (at, e)
    → (n : ℕ) × (at ≡ k + n)
      × (n < length es)
      × (e.sequence ≡ s)
      × (last? (take (suc n) es) ≡ some e)
unfolding find_entry
find_entry-found s k [] at e h = absurd (cc)
find_entry-found s k (x ∷ es) at e h = elim (Bool-cases (x.sequence == s)) [
  | inl here ↦
      let (at_k, same) = found_at k x at e (some (k, x)) refl (rw here at h) in
      (
        0,
        omega arith,
        omega arith,
        sym (ap (λ (y : ChainEntry). y.sequence) same) ∙ ==→eq x.sequence s here,
        ap some same,
      )
  | inr later ↦
      let (n, p, q, r, t) = find_entry-found s (suc k) es at e (rw later at h) in
      (suc n, omega arith, omega arith, r, last?-cons x e (take (suc n) es) t)
]
