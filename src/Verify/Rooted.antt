-- ===== src/Verify/Rooted.antt =====
-- verify.rs: the keys that `resolve_authority` lets sign.
use topgent.Base.{
  ◌≡◌, ◌≢◌, refl, sym, ap, ◌∙◌, subst, inl, inr, List, [], ◌∷◌, none, some, true, All, Any,
  Option-cases, Bool-cases, leb,
}
use topgent.Text.{Bytes-discrete}
use topgent.Crypto.{Crypto}
use topgent.Order.{bytes_order}
use topgent.Order.Map
use topgent.Order.Map.{get-insert_self, get-insert_ne}
use topgent.Keys.{KeyId, PublicKey}
use topgent.Chain.{Rotation, rotation_signed_by}
use topgent.Bundle.{Bundle}
use topgent.Verify.Authority.{
  Authority, Authorities, active, trust, insert_rotation, sort_rotations, rotate_from, hand_over,
  apply_rotations, resolve_authority,
}

-- A trusted key, or one that an authorised key handed over to in a rotation that it signed.
pub data Authorised (c : Crypto) (trusted : List PublicKey) (rotations : List Rotation)
    : PublicKey → Type 0 where
  root : (k : PublicKey) → Any (λ j. k ≡ j) trusted → Authorised c trusted rotations k
  handed :
      (r : Rotation) (retiring : PublicKey)
      → Any (λ q. r ≡ q) rotations
      → Authorised c trusted rotations retiring
      → rotation_signed_by c r retiring ≡ true
      → Authorised c trusted rotations r.body.replacing

All-self : {A : Type 0} (xs : List A) → All (λ x. Any (λ y. x ≡ y) xs) xs
All-self xs = All-into xs xs (λ x h. h)
  where
    All-into :
        {A : Type 0} (xs ys : List A)
        → ((x : A) → Any (λ y. x ≡ y) xs → Any (λ y. x ≡ y) ys)
        → All (λ x. Any (λ y. x ≡ y) ys) xs
    All-into [] ys f = tt
    All-into (x ∷ xs) ys f = (f x (inl refl), All-into xs ys (λ y h. f y (inr h)))

insert_rotation-All :
    (P : Rotation → Type 0) (r : Rotation) (rs : List Rotation)
    → P r
    → All P rs
    → All P (insert_rotation r rs)
unfolding insert_rotation
insert_rotation-All P r [] p h = (p, tt)
insert_rotation-All P r (q ∷ qs) p h =
    elim (Bool-cases (leb r.body.from_sequence q.body.from_sequence)) [
      | inl before ↦ rw before (p, h)
      | inr after ↦ rw after (h.0, insert_rotation-All P r qs p h.1)
    ]

sort_rotations-All :
    (P : Rotation → Type 0) (rs : List Rotation) → All P rs → All P (sort_rotations rs)
unfolding sort_rotations
sort_rotations-All P [] h = tt
sort_rotations-All P (r ∷ rs) h =
    insert_rotation-All P r (sort_rotations rs) h.0 (sort_rotations-All P rs h.1)

module _ (c : Crypto) (trusted : List PublicKey) (rotations : List Rotation) where
  -- Every key that the map holds is authorised.
  abbrev AllRooted : Authorities → Type 0
  AllRooted m =
      (id : KeyId) (a : Authority)
      → Map.get bytes_order id m ≡ some a
      → Authorised c trusted rotations a.key

  insert-AllRooted :
      (k : KeyId) (a : Authority) (m : Authorities)
      → Authorised c trusted rotations a.key
      → AllRooted m
      → AllRooted (Map.insert bytes_order k a m)
  insert-AllRooted k a m h rooted id x found = elim (Bytes-discrete id k) [
    | no ne ↦ rooted id x (sym (get-insert_ne bytes_order k id a m ne) ∙ found)
    | yes same ↦
        let at_k : Map.get bytes_order k (Map.insert bytes_order k a m) ≡ some x =
          ap (λ i. Map.get bytes_order i (Map.insert bytes_order k a m)) (sym same) ∙ found in
        let stored = get-insert_self bytes_order k a m in
        let eq : a ≡ x = cc in subst (λ (y : Authority). Authorised c trusted rotations y.key) eq h
  ]

  trust-AllRooted :
      (ks : List PublicKey) (m : Authorities)
      → All (λ k. Any (λ j. k ≡ j) trusted) ks
      → AllRooted m
      → AllRooted (trust m ks)
  unfolding trust
  trust-AllRooted [] m h rooted = rooted
  trust-AllRooted (k ∷ ks) m h rooted =
      trust-AllRooted ks _ h.1 (insert-AllRooted k.id (active k) m (Authorised.root k h.0) rooted)

  rotate_from-AllRooted :
      (m : Authorities) (r : Rotation)
      → Any (λ q. r ≡ q) rotations
      → AllRooted m
      → AllRooted (rotate_from c m r (Map.get bytes_order r.body.retiring m)).1
  rotate_from-AllRooted m r h rooted = elim (Option-cases (Map.get bytes_order r.body.retiring m)) [
    | inl unknown ↦ subst (λ o. AllRooted (rotate_from c m r o).1) (sym unknown) rooted
    | inr (old, known) ↦
        let signer = rooted r.body.retiring old known in
        subst (λ o. AllRooted (rotate_from c m r o).1) (sym known)
          (elim (Bool-cases (rotation_signed_by c r old.key)) [
            | inr forged ↦ rw forged rooted
            | inl signed ↦ rw signed (
                insert-AllRooted r.body.replacing.id (active r.body.replacing) _
                  (Authorised.handed r old.key h signer signed)
                  (insert-AllRooted r.body.retiring
                    (record old { retired_from = some r.body.from_sequence }) m signer rooted))
          ])
  ]

  apply_rotations-AllRooted :
      (rs : List Rotation) (m : Authorities)
      → All (λ r. Any (λ q. r ≡ q) rotations) rs
      → AllRooted m
      → AllRooted (apply_rotations c m rs).1
  unfolding apply_rotations
  apply_rotations-AllRooted [] m h rooted = rooted
  apply_rotations-AllRooted (r ∷ rs) m h rooted =
      apply_rotations-AllRooted rs _ h.1 (rotate_from-AllRooted m r h.0 rooted)

-- Every key that may sign for a bundle is trusted, or reached from a trusted key by rotations that
-- the bundle holds, each signed by the key that hands over.
pub resolve_authority-Authorised :
    (c : Crypto) (b : Bundle) (trusted : List PublicKey) (id : KeyId) (a : Authority)
    → Map.get bytes_order id (resolve_authority c b trusted).1 ≡ some a
    → Authorised c trusted b.rotations a.key
unfolding resolve_authority Map.get
resolve_authority-Authorised c b trusted =
    apply_rotations-AllRooted c trusted b.rotations (sort_rotations b.rotations) (trust [] trusted)
      (sort_rotations-All _ b.rotations (All-self b.rotations))
      (trust-AllRooted c trusted b.rotations trusted [] (All-self trusted)
        (λ id a h. absurd (nothing h)))
  where
    nothing : {A : Type 0} {a : A} → none ≡ some a → ⊥
    nothing h = cc

-- Two rotations hand over from one key, both signed by it, the first to another key. The first retires
-- the key from its sequence; the second is honoured all the same, without a breach, and makes the key
-- that it names authoritative with no end: also where that is the retired key itself.
pub apply_rotations-retired :
    (c : Crypto) (m : Authorities) (first second : Rotation) (old : Authority)
    → Map.get bytes_order first.body.retiring m ≡ some old
    → second.body.retiring ≡ first.body.retiring
    → first.body.retiring ≢ first.body.replacing.id
    → rotation_signed_by c first old.key ≡ true
    → rotation_signed_by c second old.key ≡ true
    → (Map.get bytes_order first.body.retiring (apply_rotations c m (first ∷ [])).1
        ≡ some (record { key = old.key; retired_from = some first.body.from_sequence }))
      × ((apply_rotations c m (first ∷ second ∷ [])).0 ≡ [])
      × (Map.get bytes_order second.body.replacing.id (apply_rotations c m (first ∷ second ∷ [])).1
          ≡ some (active second.body.replacing))
unfolding apply_rotations
apply_rotations-retired c m first second old known same other signed again =
    let retired : Authority = record {
      key = old.key;
      retired_from = some first.body.from_sequence;
    } in
    let still : Map.get bytes_order first.body.retiring (hand_over c m first old) ≡ some retired =
      get-insert_ne bytes_order first.body.replacing.id first.body.retiring
        (active first.body.replacing) (Map.insert bytes_order first.body.retiring retired m) other
      ∙ get-insert_self bytes_order first.body.retiring retired m in
    let there : Map.get bytes_order second.body.retiring (hand_over c m first old) ≡ some retired =
      ap (λ k. Map.get bytes_order k (hand_over c m first old)) same ∙ still in
    rw (known, signed, there, again)
      (
        still,
        refl,
        get-insert_self bytes_order second.body.replacing.id (active second.body.replacing) _,
      )
