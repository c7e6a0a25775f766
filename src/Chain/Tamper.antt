-- ===== src/Chain/Tamper.antt =====
-- chain.rs: `ChainEntry::recomputed`, and what the hash of an entry is taken over.
use topgent.Base.{
  ℕ, ◌≡◌, ◌≤◌, ◌<◌, ◌^◌, ◌+◌, refl, sym, ap, ◌∙◌, ◌⊎◌, inl, inr, List, [], ◌∷◌, ◌++◌, Option, none,
  some, arith, length, length-append, ok, All, last?,
}
use topgent.Text.{Bytes, ascii, Bytes-discrete, is_utf8}
use topgent.Canonical
use topgent.Canonical.{text, u32_max}
use topgent.Crypto.{Crypto, Collision}
use topgent.Reader
use topgent.Reader.{Decoder, ◌>>=◌, pure, usize_max, read}
use topgent.Reader.Reads.{Reads, Reads-bind, Reads-map, read-Reads}
use topgent.Reader.Primitives.{IsText, text-Reads, u64-Reads, option-Reads}
use topgent.Chain.{ChainEntry, EntryHash, encode_body, recomputed, body_hash}
use topgent.Chain.Append.{Linked, hash_of, end, end-none}

-- A reader of what an entry hash is taken over; the source never needs one.
read_body : Decoder (Option EntryHash × ℕ × Bytes)
read_body = do
  _ ← Reader.text
  previous ← Reader.option Reader.text
  sequence ← Reader.u64
  record_id ← Reader.text
  pure (previous, sequence, record_id)

abbrev pub IsHash : Option EntryHash → Type 0
IsHash none = Unit
IsHash (some h) = IsText h

-- An entry with fields in the range of their types.
pub record IsEntry (e : ChainEntry) : Type 0 where
  pub previous : IsHash e.previous
  pub sequence : e.sequence < 2 ^ 64
  pub record_id : IsText e.record_id

pub hash-Reads :
    (h : Option EntryHash)
    → IsHash h
    → Reads (Reader.option Reader.text) (Canonical.option text h) h
hash-Reads none h = option-Reads text Reader.text none tt
hash-Reads (some x) h = option-Reads text Reader.text (some x) (text-Reads h)

body-Reads :
    (p : Option EntryHash) (q : ℕ) (i : Bytes)
    → IsHash p
    → q < 2 ^ 64
    → IsText i
    → Reads read_body (encode_body p q i) (p, q, i)
unfolding read_body encode_body is_utf8
body-Reads p q i hp hq hi =
    Reads-bind _ _ (text-Reads (record { utf8 = refl; fits = omega arith })) (
      Reads-bind _ _ (hash-Reads p hp)
        (Reads-bind _ _ (u64-Reads q hq) (Reads-map _ _ (text-Reads hi) refl)))

length-text : (s : Bytes) → length (text s) ≡ 4 + length s
unfolding text Canonical.bytes Canonical.u32
length-text s = omega arith

length-u64 : (q : ℕ) → length (Canonical.u64 q) ≡ 8
unfolding Canonical.u64
length-u64 q = refl

length-option : (p : Option EntryHash) → IsHash p → length (Canonical.option text p) ≤ 2 ^ 33
unfolding Canonical.option Canonical.tag
length-option none h = omega arith
length-option (some x) h = omega (arith, length-text x, h.fits)

body-fits :
    (p : Option EntryHash) (q : ℕ) (i : Bytes)
    → IsHash p
    → IsText i
    → length (encode_body p q i) ≤ usize_max
unfolding encode_body
body-fits p q i hp hi =
    let tail : Bytes = Canonical.u64 q ++ text i in
    let rest : Bytes = Canonical.option text p ++ tail in
    omega (
      arith,
      length-append (text (ascii "topgent-chain-entry-v1")) rest,
      length-text (ascii "topgent-chain-entry-v1"),
      length-append (Canonical.option text p) tail,
      length-option p hp,
      length-append (Canonical.u64 q) (text i),
      length-u64 q,
      length-text i,
      hi.fits,
    )

-- What an entry hash is taken over determines the entry.
encode_body-injective :
    (e f : ChainEntry)
    → IsEntry e
    → IsEntry f
    → encode_body e.previous e.sequence e.record_id ≡ encode_body f.previous f.sequence f.record_id
    → (e.previous ≡ f.previous) × (e.sequence ≡ f.sequence) × (e.record_id ≡ f.record_id)
encode_body-injective e f he hf same =
    let a : read read_body (encode_body e.previous e.sequence e.record_id)
        ≡ ok (e.previous, e.sequence, e.record_id) =
      read-Reads read_body (body-Reads _ e.sequence _ he.previous he.sequence he.record_id)
        (body-fits _ e.sequence _ he.previous he.record_id) in
    let b : read read_body (encode_body f.previous f.sequence f.record_id)
        ≡ ok (f.previous, f.sequence, f.record_id) =
      read-Reads read_body (body-Reads _ f.sequence _ hf.previous hf.sequence hf.record_id)
        (body-fits _ f.sequence _ hf.previous hf.record_id) in
    let same_read = ap (read read_body) same in (cc, cc, cc)

module _ (c : Crypto) where
  -- Entries with one hash are one entry, or their contents collide.
  entry_pinned :
      (e f : ChainEntry)
      → IsEntry e
      → IsEntry f
      → e.hash ≡ recomputed c e
      → f.hash ≡ recomputed c f
      → e.hash ≡ f.hash
      → (e ≡ f) ⊎ Collision c
  unfolding recomputed body_hash
  entry_pinned e f he hf pe pf same =
      elim (Bytes-discrete (encode_body e.previous e.sequence e.record_id)
        (encode_body f.previous f.sequence f.record_id)) [
          | yes eq ↦ let (a, b, d) = encode_body-injective e f he hf eq in inl (cc)
          | no ne ↦ inr (record {
            one = encode_body e.previous e.sequence e.record_id;
            other = encode_body f.previous f.sequence f.record_id;
            differ = ne;
            agree = sym pe ∙ same ∙ pf;
          })
        ]

  entries_pinned :
      (p q : Option ChainEntry) (es fs : List ChainEntry)
      → Linked c p es
      → Linked c q fs
      → All IsEntry es
      → All IsEntry fs
      → length es ≡ length fs
      → hash_of (end p es) ≡ hash_of (end q fs)
      → ((es ≡ fs) × (hash_of p ≡ hash_of q)) ⊎ Collision c
  entries_pinned p q [] [] he hf we wf size same = inl (refl, same)
  entries_pinned p q [] (f ∷ fs) he hf we wf size same = absurd (omega arith)
  entries_pinned p q (e ∷ es) [] he hf we wf size same = absurd (omega arith)
  entries_pinned p q (e ∷ es) (f ∷ fs) he hf we wf size same =
      elim (entries_pinned (some e) (some f) es fs he.1 hf.1 we.1 wf.1 (omega arith) same) [
        | inr x ↦ inr x
        | inl (tails, heads) ↦ elim (entry_pinned e f we.0 wf.0 he.0.intact hf.0.intact (cc)) [
          | inr x ↦ inr x
          | inl eq ↦ inl (cc, sym he.0.link ∙ ap (λ (x : ChainEntry). x.previous) eq ∙ hf.0.link)
        ]
      ]

  -- Two linked chains of one length with the same last hash, and with fields in the ranges of their
  -- types, have the same entries, or two byte strings with one digest are at hand.
  pub chain_pinned :
      (es fs : List ChainEntry)
      → Linked c none es
      → Linked c none fs
      → All IsEntry es
      → All IsEntry fs
      → length es ≡ length fs
      → hash_of (last? es) ≡ hash_of (last? fs)
      → (es ≡ fs) ⊎ Collision c
  chain_pinned es fs he hf we wf size same =
      elim (entries_pinned none none es fs he hf we wf size
        (ap hash_of (end-none es) ∙ same ∙ sym (ap hash_of (end-none fs)))) [
          | inl (eq, _) ↦ inl eq
          | inr x ↦ inr x
        ]
