-- ===== src/Policy/Satisfiable.antt =====
-- crates/topgent-policy/src/firing.rs: `is_satisfiable` against `holds`.
use topgent.Base.{ℕ, ◌≤◌, ◌≡◌, refl, ◌⊎◌, inl, inr, Bool, true, false, not, ◌&&◌, ◌||◌, leb, arith}
use topgent.Policy.Firing.{
  Signal, Signals, Thresholds, Firing, Branches, all, any, negation, is, at_least, below, no_branch,
  branch, is_flag, count, resolve, holds, all_hold, some_holds, is_satisfiable, no_branches,
  all_satisfiable, some_satisfiable, literal,
}

flag_le : (s : Signals) (signal : Signal) → is_flag signal ≡ true → count s signal ≤ 1
unfolding is_flag count
flag_le s signal h = ground arith

and_true : {a b : Bool} → (a && b) ≡ true → (a ≡ true) × (b ≡ true)
and_true h = ground arith

both : {a b : Bool} → a ≡ true → b ≡ true → (a && b) ≡ true
both h k = ground arith

or_true : {a b : Bool} → (a || b) ≡ true → (a ≡ true) ⊎ (b ≡ true)
or_true h = ground arith

left_true : (a b : Bool) → a ≡ true → (a || b) ≡ true
left_true a b h = ground arith

right_true : (a b c : Bool) → (c && b) ≡ true → (a || b) ≡ true
right_true a b c h = ground arith

-- No flag is compared, outside a negation, by `below` with more than two.
unfoldable mutual
  pub is_sharp : Firing → Thresholds → Bool
  is_sharp (all branches) t = are_sharp branches t
  is_sharp (any branches) t = are_sharp branches t
  is_sharp (below signal amount) t = not (is_flag signal) || leb (resolve amount t) 2
  is_sharp _ t = true

  pub are_sharp : Branches → Thresholds → Bool
  are_sharp no_branch t = true
  are_sharp (branch f fs) t = is_sharp f t && are_sharp fs t

mutual
  unfolding is_sharp holds is_satisfiable

  holding :
      (f : Firing) (s : Signals) (t : Thresholds)
      → is_sharp f t ≡ true
      → holds f s t ≡ true
      → is_satisfiable f t ≡ true
  holding (all fs) s t k h = all_holding fs s t k h
  holding (any fs) s t k h = some_holding fs s t k h
  holding (negation f) s t k h = refl
  holding (is signal) s t k h = refl
  holding (at_least signal amount) s t k h = ground (arith, flag_le s signal)
  holding (below signal amount) s t k h = ground (arith, flag_le s signal)

  all_holding :
      (fs : Branches) (s : Signals) (t : Thresholds)
      → are_sharp fs t ≡ true
      → all_hold fs s t ≡ true
      → all_satisfiable fs t ≡ true
  all_holding no_branch s t k h = refl
  all_holding (branch f fs) s t k h =
      both (holding f s t (and_true k).0 (and_true h).0)
        (all_holding fs s t (and_true k).1 (and_true h).1)

  some_holding :
      (fs : Branches) (s : Signals) (t : Thresholds)
      → are_sharp fs t ≡ true
      → some_holds fs s t ≡ true
      → (not (no_branches fs) && some_satisfiable fs t) ≡ true
  some_holding no_branch s t k h = ground arith
  some_holding (branch f fs) s t k h = elim (or_true h) [
    | inl p ↦
        left_true (is_satisfiable f t) (some_satisfiable fs t) (holding f s t (and_true k).0 p)
    | inr p ↦
        right_true (is_satisfiable f t) (some_satisfiable fs t) (not (no_branches fs))
          (some_holding fs s t (and_true k).1 p)
  ]

-- A condition that holds for some agent is never reported as one that cannot hold, where it compares
-- no flag, outside a negation, by `below` with more than two.
pub holds-is_satisfiable :
    (f : Firing) (s : Signals) (t : Thresholds)
    → is_sharp f t ≡ true
    → holds f s t ≡ true
    → is_satisfiable f t ≡ true
holds-is_satisfiable f s t k h = holding f s t k h

-- A flag is always below three or more, and that condition is reported as one that cannot hold.
pub below_flag-is_satisfiable :
    (signal : Signal) (n : ℕ) (s : Signals) (t : Thresholds)
    → is_flag signal ≡ true
    → 3 ≤ n
    → (holds (below signal (literal n)) s t ≡ true)
      × (is_satisfiable (below signal (literal n)) t ≡ false)
unfolding holds is_satisfiable resolve
below_flag-is_satisfiable signal n s t f h = (ground (arith, flag_le s signal f), ground arith)
