-- ===== src/Verify/Authority.antt =====
-- crates/topgent-evidence/src/verify.rs, `resolve_authority`: which keys may sign, and up to where.
-- Each function returns the breaches that the source pushes.
use topgent.Base.{ℕ, List, [], ◌∷◌, ◌++◌, Option, none, some, leb, if◌then◌else◌}
use topgent.Crypto.{Crypto}
use topgent.Order.{bytes_order}
use topgent.Order.Map
use topgent.Keys.{KeyId, PublicKey}
use topgent.Chain.{Rotation, rotation_signed_by}
use topgent.Bundle.{Bundle, Breach}

-- A key, and from where it stopped being authoritative.
pub record Authority : Type 0 where
  pub key : PublicKey
  pub retired_from : Option ℕ

abbrev pub Authorities : Type 0
Authorities = List (KeyId × Authority)

abbrev pub active : PublicKey → Authority
active k = record { key = k; retired_from = none }

-- The trusted keys, collected into a map: of two with one id the later stays.
unfoldable pub trust : Authorities → List PublicKey → Authorities
trust m [] = m
trust m (k ∷ ks) = trust (Map.insert bytes_order k.id (active k) m) ks

-- `sort_by_key(|rotation| rotation.body().from_sequence)`, which is stable.
unfoldable pub insert_rotation : Rotation → List Rotation → List Rotation
insert_rotation r [] = r ∷ []
insert_rotation r (q ∷ qs) =
    if leb r.body.from_sequence q.body.from_sequence then r ∷ q ∷ qs else q ∷ insert_rotation r qs

unfoldable pub sort_rotations : List Rotation → List Rotation
unfolding insert_rotation
sort_rotations [] = []
sort_rotations (r ∷ rs) = insert_rotation r (sort_rotations rs)

module _ (c : Crypto) where
  -- A handover that is in order: the retiring key stops there, and the next one starts.
  abbrev pub hand_over : Authorities → Rotation → Authority → Authorities
  hand_over m r retiring = Map.insert bytes_order r.body.replacing.id (active r.body.replacing) (
      Map.insert bytes_order r.body.retiring
        (record retiring { retired_from = some r.body.from_sequence }) m)

  -- One round of the loop over the rotations.
  abbrev pub rotate_from : Authorities → Rotation → Option Authority → List Breach × Authorities
  rotate_from m r none = (Breach.unknown_key r.body.retiring ∷ [], m)
  rotate_from m r (some retiring) =
      if rotation_signed_by c r retiring.key
      then ([], hand_over m r retiring)
      else (Breach.bad_rotation r.body.retiring ∷ [], m)

  unfoldable pub apply_rotations : Authorities → List Rotation → List Breach × Authorities
  apply_rotations m [] = ([], m)
  apply_rotations m (r ∷ rs) =
      let (first, m') = rotate_from m r (Map.get bytes_order r.body.retiring m) in
      let (rest, m'') = apply_rotations m' rs in (first ++ rest, m'')

  -- `resolve_authority`
  unfoldable pub resolve_authority : Bundle → List PublicKey → List Breach × Authorities
  resolve_authority b trusted = apply_rotations (trust [] trusted) (sort_rotations b.rotations)
