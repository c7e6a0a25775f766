-- ===== src/Chain/Append.antt =====
-- chain.rs: `Chain::append`, and the chains that it builds.
use topgent.Base.{
  ℕ, ◌≤◌, ◌<◌, ◌≡◌, ◌≢◌, refl, sym, subst, ◌⊎◌, inl, inr, List, [], ◌∷◌, ◌++◌, Option, none, some,
  ok, err, arith, last?, last?-snoc, leb, if_pos, if_neg, Bool-cases, leb→le,
}
use mathlib.Core.Option
use topgent.Crypto.{Crypto, digest}
use topgent.Record.{EvidenceRecord}
use topgent.Chain.{
  Chain, ChainEntry, ChainError, EntryHash, append, encode_body, body_hash, next_entry,
  check_sequence, recomputed, Origin-discrete,
}

-- The sequence comes after that of the entry before it, if there is one.
abbrev pub After : Option ChainEntry → ℕ → Type 0
After none sequence = Unit
After (some last) sequence = last.sequence < sequence

abbrev pub hash_of : Option ChainEntry → Option EntryHash
hash_of = Option.map λ e. e.hash

-- The last entry of a list that follows `last`.
abbrev pub end : Option ChainEntry → List ChainEntry → Option ChainEntry
end last [] = last
end last (e ∷ es) = end (some e) es

end-last? : (e : ChainEntry) (es : List ChainEntry) → end (some e) es ≡ last? (e ∷ es)
end-last? e [] = refl
end-last? e (f ∷ es) = end-last? f es

pub end-none : (es : List ChainEntry) → end none es ≡ last? es
end-none [] = refl
end-none (e ∷ es) = end-last? e es

module _ (c : Crypto) where
  -- The entry commits to the one before it, comes after it, and carries its own hash.
  pub record Joins (last : Option ChainEntry) (e : ChainEntry) : Type 0 where
    pub link : e.previous ≡ hash_of last
    pub intact : e.hash ≡ recomputed c e
    pub order : After last e.sequence

  abbrev pub Linked : Option ChainEntry → List ChainEntry → Type 0
  Linked last [] = Unit
  Linked last (e ∷ es) = Joins last e × Linked (some e) es

  pub Linked-snoc :
      (last : Option ChainEntry) (es : List ChainEntry) (e : ChainEntry)
      → Linked last es
      → Joins (end last es) e
      → Linked last (es ++ e ∷ [])
  Linked-snoc last [] e h j = (j, tt)
  Linked-snoc last (f ∷ es) e h j = (h.0, Linked-snoc (some f) es e h.1 j)

  abbrev pub grown : Chain → EvidenceRecord → Chain
  grown chain r = record {
    origin = chain.origin;
    entries = chain.entries ++ next_entry c chain r ∷ [];
  }

  check_sequence-cases :
      (last : Option ChainEntry) (offered : ℕ)
      → (After last offered × (check_sequence last offered ≡ ok tt))
        ⊎ ((l : ChainEntry) × (last ≡ some l)
            × (offered ≤ l.sequence)
            × (check_sequence last offered ≡ err (ChainError.out_of_order l.sequence offered)))
  unfolding check_sequence
  check_sequence-cases none offered = inl (tt, refl)
  check_sequence-cases (some l) offered = elim (Bool-cases (leb offered l.sequence)) [
    | inl late ↦ inr (l, refl, leb→le offered l.sequence late, rw late)
    | inr fresh ↦ inl (ground arith, rw fresh)
  ]

  append_branches :
      (chain : Chain) (r : EvidenceRecord)
      → ((r.origin ≢ chain.origin)
          × (append c chain r ≡ err (ChainError.foreign_origin chain.origin r.origin)))
        ⊎ ((l : ChainEntry) × (r.origin ≡ chain.origin)
            × (last? chain.entries ≡ some l)
            × (r.sequence ≤ l.sequence)
            × (append c chain r ≡ err (ChainError.out_of_order l.sequence r.sequence)))
        ⊎ ((r.origin ≡ chain.origin)
            × After (last? chain.entries) r.sequence
            × (append c chain r ≡ ok (grown chain r, next_entry c chain r)))
  unfolding append
  append_branches chain r = elim (Origin-discrete r.origin chain.origin) [
    | no ne ↦ inl (ne, rw (if_neg (Origin-discrete r.origin chain.origin) ne _ _))
    | yes e ↦ elim (check_sequence-cases (last? chain.entries) r.sequence) [
      | inl (after, p) ↦ inr (
          inr (
            e,
            after,
            rw (
              if_pos (Origin-discrete r.origin chain.origin) e _ _,
              p,
              last?-snoc chain.entries (next_entry c chain r),
            ),
          ))
      | inr (l, last, late, p) ↦
          inr (inl (l, e, last, late, rw (if_pos (Origin-discrete r.origin chain.origin) e _ _, p)))
    ]
  ]

  -- The entry that stands for a record behind the last one: it names the last entry's hash, carries
  -- the record's sequence and id, and is hashed over the three.
  pub record Records (last : Option ChainEntry) (r : EvidenceRecord) (e : ChainEntry) : Type 0 where
    pub link : e.previous ≡ hash_of last
    pub sequence : e.sequence ≡ r.sequence
    pub record_id : e.record_id ≡ r.id
    pub hash : e.hash ≡ digest c (encode_body (hash_of last) r.sequence r.id)

  next_entry-Records :
      (chain : Chain) (r : EvidenceRecord) → Records (last? chain.entries) r (next_entry c chain r)
  unfolding next_entry body_hash
  next_entry-Records chain r = record {
    link = refl;
    sequence = refl;
    record_id = refl;
    hash = refl;
  }

  -- `append` refuses a record of another origin, then one whose sequence does not come after the
  -- last entry's, naming both sequences; otherwise it pushes one entry and returns it, which names
  -- the last entry's hash, carries the record's sequence and id, and is hashed over the three.
  pub append_cases :
      (chain : Chain) (r : EvidenceRecord)
      → ((r.origin ≢ chain.origin)
          × (append c chain r ≡ err (ChainError.foreign_origin chain.origin r.origin)))
        ⊎ ((l : ChainEntry) × (r.origin ≡ chain.origin)
            × (last? chain.entries ≡ some l)
            × (r.sequence ≤ l.sequence)
            × (append c chain r ≡ err (ChainError.out_of_order l.sequence r.sequence)))
        ⊎ ((e : ChainEntry) × (r.origin ≡ chain.origin)
            × After (last? chain.entries) r.sequence
            × Records (last? chain.entries) r e
            × (append c chain r
                ≡ ok (record { origin = chain.origin; entries = chain.entries ++ e ∷ [] }, e)))
  append_cases chain r = elim (append_branches chain r) [
    | inl foreign ↦ inl foreign
    | inr (inl late) ↦ inr (inl late)
    | inr (inr (o, after, p)) ↦
        inr (inr (next_entry c chain r, o, after, next_entry-Records chain r, p))
  ]

  next_entry-Joins :
      (chain : Chain) (r : EvidenceRecord)
      → After (last? chain.entries) r.sequence
      → Joins (last? chain.entries) (next_entry c chain r)
  unfolding next_entry recomputed
  next_entry-Joins chain r after = record { link = refl; intact = refl; order = after }

  pub append-ok :
      (chain : Chain) (r : EvidenceRecord) {chain' : Chain} {e : ChainEntry}
      → append c chain r ≡ ok (chain', e)
      → (r.origin ≡ chain.origin)
        × After (last? chain.entries) r.sequence
        × (chain' ≡ grown chain r)
        × (e ≡ next_entry c chain r)
  append-ok chain r h = elim (append_branches chain r) [
    | inl (_, p) ↦ absurd (cc)
    | inr (inl (_, _, _, _, p)) ↦ absurd (cc)
    | inr (inr (o, after, p)) ↦ (o, after, cc, cc)
  ]

  -- An append that succeeds keeps every entry committed to the one before it, carrying its own hash,
  -- and the sequences strictly increasing.
  pub append-Linked :
      (chain : Chain) (r : EvidenceRecord) {chain' : Chain} {e : ChainEntry}
      → append c chain r ≡ ok (chain', e)
      → Linked none chain.entries
      → Linked none chain'.entries
  append-Linked chain r h linked =
      let (_, after, p, _) = append-ok chain r h in
      subst (λ (k : Chain). Linked none k.entries) (sym p)
        (Linked-snoc none chain.entries (next_entry c chain r) linked (
          subst (λ l. Joins l (next_entry c chain r)) (sym (end-none chain.entries))
            (next_entry-Joins chain r after)))
