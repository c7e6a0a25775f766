-- ===== src/Risk/Ceilings.antt =====
-- crates/topgent-core/src/risk/assess.rs, `apply_ceilings`: what a ceiling bounds.
use topgent.Base.{
  ℕ, ◌+◌, ◌-◌, ◌≤◌, ◌≡◌, ◌≢◌, refl, ap, sym, subst, ◌∙◌, inl, inr, true, false, List, [], ◌∷◌,
  Option, some, arith, if◌then◌else◌, Option-cases, Bool-cases,
}
use topgent.Text.{Bytes}
use topgent.Machine.{u32_max, saturating_add}
use topgent.Order.{bytes_order}
use topgent.Order.Map.{get, insert, get-insert_self, get-insert_ne}
use topgent.Journal.{same_text, same_text-eq, same_text_self}
use topgent.Risk.{Factor, code_name}
use topgent.Risk.Assess.{min, Spent, or_zero, used, allowed, spend, trim, apply_ceilings}

-- The points that the factors of one code add.
unfoldable pub points_of : Bytes → List Factor → ℕ
points_of code [] = 0
points_of code (f ∷ fs) =
    (if same_text (code_name f.code) code then f.points else 0) + points_of code fs

-- Each factor is still there, with no more points than it had.
abbrev pub Trimmed : List Factor → List Factor → Type 0
Trimmed [] [] = Unit
Trimmed (f ∷ fs) (g ∷ gs) =
    ((g ≡ record f { points = g.points }) × (g.points ≤ f.points)) × Trimmed fs gs
Trimmed _ _ = ⊥

min_le : (a b : ℕ) → (min a b ≤ a) × (min a b ≤ b)
unfolding min
min_le a b = (ground arith, ground arith)

used-insert_self :
    (code : Bytes) (n : ℕ) (spent : Spent) → used code (insert bytes_order code n spent) ≡ n
unfolding used or_zero
used-insert_self code n spent = ap or_zero (get-insert_self bytes_order code n spent)

used-insert_ne :
    (code other : Bytes) (n : ℕ) (spent : Spent)
    → other ≢ code
    → used other (insert bytes_order code n spent) ≡ used other spent
unfolding used
used-insert_ne code other n spent h = ap or_zero (get-insert_ne bytes_order code other n spent h)

other_code :
    (f : Factor) (code : Bytes)
    → same_text (code_name f.code) code ≡ false
    → code ≢ code_name f.code
other_code f code n e = ground (arith, subst (λ k. same_text k code ≡ true) e (same_text_self code))

used_nil : (code : Bytes) (most : ℕ) → used code [] ≤ most
unfolding used get or_zero
used_nil code most = omega arith

module _ (ceiling : Bytes → Option ℕ) where
  allowed-some :
      (f : Factor) (spent : Spent) (most : ℕ)
      → ceiling (code_name f.code) ≡ some most
      → allowed ceiling f spent ≡ min f.points (most - used (code_name f.code) spent)
  unfolding allowed
  allowed-some f spent most e = rw (e, allowed) refl

  allowed_le : (f : Factor) (spent : Spent) → allowed ceiling f spent ≤ f.points
  unfolding allowed
  allowed_le f spent = elim (Option-cases (ceiling (code_name f.code))) [
    | inl e ↦ rw (e, allowed) (omega arith)
    | inr (most, e) ↦
        rw (allowed-some f spent most e) (min_le f.points (most - used (code_name f.code) spent)).0
  ]

  trim-Trimmed : (spent : Spent) (fs : List Factor) → Trimmed fs (trim ceiling spent fs)
  unfolding trim
  trim-Trimmed spent [] = tt
  trim-Trimmed spent (f ∷ fs) =
      ((refl, allowed_le f spent), trim-Trimmed (spend ceiling f spent) fs)

  -- A factor of the code, and one of another.
  spend_self :
      (f : Factor) (spent : Spent) (most : ℕ)
      → ceiling (code_name f.code) ≡ some most
      → most ≤ u32_max
      → used (code_name f.code) spent ≤ most
      → (allowed ceiling f spent + used (code_name f.code) spent
          ≡ used (code_name f.code) (spend ceiling f spent))
        × (used (code_name f.code) (spend ceiling f spent) ≤ most)
  unfolding spend saturating_add
  spend_self f spent most e h u =
      let room = min_le f.points (most - used (code_name f.code) spent) in
      rw (e, spend, used-insert_self (code_name f.code), allowed-some f spent most e)
        (ground (arith, room.1), ground (arith, room.1))

  spend_ne :
      (f : Factor) (spent : Spent) (code : Bytes)
      → code ≢ code_name f.code
      → used code (spend ceiling f spent) ≡ used code spent
  unfolding spend
  spend_ne f spent code h = elim (Option-cases (ceiling (code_name f.code))) [
    | inl e ↦ rw (e, spend) refl
    | inr (most, e) ↦ rw (e, spend) (used-insert_ne (code_name f.code) code _ spent h)
  ]

  trim_le :
      (code : Bytes) (most : ℕ) (spent : Spent) (fs : List Factor)
      → ceiling code ≡ some most
      → most ≤ u32_max
      → used code spent ≤ most
      → points_of code (trim ceiling spent fs) + used code spent ≤ most
  unfolding trim points_of
  trim_le code most spent [] e h u = omega arith
  trim_le code most spent (f ∷ fs) e h u = elim (Bool-cases (same_text (code_name f.code) code)) [
    | inl y ↦
        let same : code_name f.code ≡ code = same_text-eq (code_name f.code) code y in
        let spends =
          spend_self f spent most (ap ceiling same ∙ e) h
            (subst (λ k. used k spent ≤ most) (sym same) u) in
        rw y (
          omega (
            arith,
            subst (λ k. allowed ceiling f spent + used k spent ≡ used k (spend ceiling f spent))
                same spends.0,
            trim_le code most (spend ceiling f spent) fs e h
                (subst (λ k. used k (spend ceiling f spent) ≤ most) same spends.1),
          ))
    | inr n ↦
        let kept : used code (spend ceiling f spent) ≡ used code spent =
          spend_ne f spent code (other_code f code n) in
        rw n (
          omega
            (arith, kept, trim_le code most (spend ceiling f spent) fs e h (omega (arith, kept))))
  ]

  -- After the ceilings every factor is still there, with no more points than it had, and the factors
  -- of a code that has a ceiling add no more than it, whatever they were; the ceiling fits 32 bits.
  pub apply_ceilings_le :
      (fs : List Factor) (code : Bytes) (most : ℕ)
      → ceiling code ≡ some most
      → most ≤ u32_max
      → Trimmed fs (apply_ceilings ceiling fs) × (points_of code (apply_ceilings ceiling fs) ≤ most)
  unfolding apply_ceilings
  apply_ceilings_le fs code most e h =
      (trim-Trimmed [] fs, omega (arith, trim_le code most [] fs e h (used_nil code most)))
