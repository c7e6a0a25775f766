-- ===== src/Risk/Covered.antt =====
-- crates/topgent-policy/src/exception.rs, `Exception::covers` and `active_at`, as assess.rs puts them
-- to a factor: what it is for an exception to cover a finding, without the tests of the code.
use topgent.Base.{
  ℕ, ◌≤◌, ◌<◌, ◌≡◌, refl, sym, ap, ◌∙◌, inl, inr, true, [], ◌∷◌, ◌++◌, Option, none, some, arith,
  Bool-cases,
}
use topgent.Text.{Bytes, ascii}
use topgent.Policy.Exceptions.{
  Exception, active_at, starts_with, contains_text, same_bytes, family_fits, target_fits, covers,
}
use topgent.Risk.{Factor, code_name}
use topgent.Risk.Assess.{accepts}

-- A text stands in another.
pub record Contains (text wanted : Bytes) : Type 0 where
  pub before : Bytes
  pub after : Bytes
  pub split : text ≡ before ++ (wanted ++ after)

-- A wish, where there is one, is met.
abbrev pub IsMet : Option Bytes → (Bytes → Type 0) → Type 0
IsMet none P = Unit
IsMet (some wanted) P = P wanted

-- The exception is of the finding's code, in force at the time, of the agent's family if it names one,
-- and its target, if it names one, stands in the finding's title and source.
pub record IsCovered (family : Option Bytes) (as_of : ℕ) (f : Factor) (e : Exception) : Type 0 where
  pub of_code : e.factor ≡ code_name f.code
  pub begun : e.created_at ≤ as_of
  pub lasting : as_of < e.expires_at
  pub of_family : IsMet e.family (λ wanted. family ≡ some wanted)
  pub of_target : IsMet e.target (Contains (f.title ++ (ascii " " ++ f.source)))

starts_with-rest :
    (text wanted : Bytes)
    → starts_with text wanted ≡ true
    → (after : Bytes) × (text ≡ wanted ++ after)
unfolding starts_with
starts_with-rest text [] h = (text, refl)
starts_with-rest [] (w ∷ ws) h = ground arith
starts_with-rest (c ∷ cs) (w ∷ ws) h =
    let rest = starts_with-rest cs ws (ground arith) in
    let same : c ≡ w = ground arith in (rest.0, ground (arith, rest.1, same))

starts_with_self : (wanted after : Bytes) → starts_with (wanted ++ after) wanted ≡ true
unfolding starts_with
starts_with_self [] after = ground arith
starts_with_self (w ∷ ws) after = ground (arith, starts_with_self ws after)

contains_text-Contains :
    (text wanted : Bytes) → contains_text text wanted ≡ true → Contains text wanted
unfolding contains_text
contains_text-Contains [] wanted h =
    let rest = starts_with-rest [] wanted h in
    record { before = []; after = rest.0; split = rest.1 }
contains_text-Contains (c ∷ cs) wanted h = elim (Bool-cases (starts_with (c ∷ cs) wanted)) [
  | inl y ↦
      let rest = starts_with-rest (c ∷ cs) wanted y in
      record { before = []; after = rest.0; split = rest.1 }
  | inr n ↦
      let rest = contains_text-Contains cs wanted (rw n at h) in
      record { before = c ∷ rest.before; after = rest.after; split = ap (λ t. c ∷ t) rest.split }
]

starts_contains :
    (text wanted : Bytes) → starts_with text wanted ≡ true → contains_text text wanted ≡ true
unfolding contains_text
starts_contains [] wanted h = h
starts_contains (c ∷ cs) wanted h = rw h refl

contains_text_split :
    (before wanted after : Bytes) → contains_text (before ++ (wanted ++ after)) wanted ≡ true
unfolding contains_text
contains_text_split [] wanted after =
    starts_contains (wanted ++ after) wanted (starts_with_self wanted after)
contains_text_split (c ∷ cs) wanted after = ground (arith, contains_text_split cs wanted after)

same_bytes-eq : (a b : Bytes) → same_bytes a b ≡ true → a ≡ b
unfolding same_bytes
same_bytes-eq a b h = ground arith

same_bytes_self : (a b : Bytes) → a ≡ b → same_bytes a b ≡ true
unfolding same_bytes
same_bytes_self a b h = ground arith

family_fits-IsMet :
    (wish family : Option Bytes)
    → family_fits wish family ≡ true
    → IsMet wish (λ wanted. family ≡ some wanted)
unfolding family_fits
family_fits-IsMet none family h = tt
family_fits-IsMet (some wanted) none h = ground arith
family_fits-IsMet (some wanted) (some family) h = ap some (sym (same_bytes-eq wanted family h))

IsMet-family_fits :
    (wish family : Option Bytes)
    → IsMet wish (λ wanted. family ≡ some wanted)
    → family_fits wish family ≡ true
unfolding family_fits
IsMet-family_fits none family h = refl
IsMet-family_fits (some wanted) none h = ground arith
IsMet-family_fits (some wanted) (some family) h = same_bytes_self wanted family (ground arith)

target_fits-IsMet :
    (wish : Option Bytes) (subject : Bytes)
    → target_fits wish subject ≡ true
    → IsMet wish (Contains subject)
unfolding target_fits
target_fits-IsMet none subject h = tt
target_fits-IsMet (some wanted) subject h = contains_text-Contains subject wanted h

IsMet-target_fits :
    (wish : Option Bytes) (subject : Bytes)
    → IsMet wish (Contains subject)
    → target_fits wish subject ≡ true
unfolding target_fits
IsMet-target_fits none subject h = refl
IsMet-target_fits (some wanted) subject h =
    ap (λ text. contains_text text wanted) h.split ∙ contains_text_split h.before wanted h.after

module _ (family : Option Bytes) (as_of : ℕ) (f : Factor) (e : Exception) where
  abbrev subject : Bytes
  subject = f.title ++ (ascii " " ++ f.source)

  pub accepts-IsCovered : accepts family as_of f e ≡ true → IsCovered family as_of f e
  unfolding accepts active_at covers
  accepts-IsCovered h = record {
    of_code = same_bytes-eq e.factor (code_name f.code) (ground arith);
    begun = ground arith;
    lasting = ground arith;
    of_family = family_fits-IsMet e.family family (ground arith);
    of_target = target_fits-IsMet e.target subject (ground arith);
  }

  pub IsCovered-accepts : IsCovered family as_of f e → accepts family as_of f e ≡ true
  unfolding accepts active_at covers
  IsCovered-accepts c = ground (
    arith,
    same_bytes_self e.factor (code_name f.code) c.of_code,
    IsMet-family_fits e.family family c.of_family,
    IsMet-target_fits e.target subject c.of_target,
    c.begun,
    c.lasting,
  )
