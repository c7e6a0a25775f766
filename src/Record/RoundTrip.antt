-- ===== src/Record/RoundTrip.antt =====
-- record.rs: `EvidenceRecord::new` and its checks, and `Decode for EvidenceRecord` against `Encode`.
use topgent.Base.{
  ℕ, ◌≡◌, ◌≢◌, ◌≤◌, ◌<◌, ◌^◌, refl, sym, ap, ◌∙◌, List, [], length, ok, arith, subst,
}
use topgent.Text.{ascii}
use topgent.Canonical.{u32_max}
use topgent.Crypto.{Crypto}
use topgent.Reader.{usize_max, read}
use topgent.Reader.Reads.{Reads, Reads-bind, Reads-map, read-Reads}
use topgent.Reader.Primitives.{IsText, text-Reads, u16-Reads, u32-Reads, u64-Reads, list-Reads}
use topgent.Order.Sorting.{sort_dedup, sort_dedup-IsAscending, sort_dedup_fixed, length-sort_dedup}
use topgent.Facts.{Fact, kind}
use topgent.Vocabulary.{CollectionCoverage, Limitation}
use topgent.Quality.{encode_limitation, decode_limitation}
use topgent.Wire.RoundTrip.{IsFact, fact-Reads}
use topgent.Quality.Laws.{coverage-Reads, limitation_order, limitations-All}
use topgent.Record.{
  Origin, EvidenceRecord, encode_origin, encode_record, check_parts, new_record, address,
  decode_origin, decode_record, admit_record, max_limitations, evidence_schema,
}

pub record IsOrigin (o : Origin) : Type 0 where
  pub host_id : IsText o.host_id
  pub boot_id : IsText o.boot_id
  pub sensor_instance : IsText o.sensor_instance

pub origin-Reads : (o : Origin) → IsOrigin o → Reads decode_origin (encode_origin o) o
unfolding decode_origin encode_origin
origin-Reads o h =
    Reads-bind _ _ (text-Reads h.host_id)
      (Reads-bind _ _ (text-Reads h.boot_id) (Reads-map _ _ (text-Reads h.sensor_instance) refl))

-- What the checks establish.
check_parts-ok :
    (schema : ℕ) (o : Origin) (observed : ℕ) (ls : List Limitation)
    → check_parts schema o observed ls ≡ ok tt
    → (schema ≡ evidence_schema) × (length ls ≤ max_limitations)
unfolding check_parts
check_parts-ok schema o observed ls h = ground arith

check_parts-fewer :
    (schema : ℕ) (o : Origin) (observed : ℕ) (ls ms : List Limitation)
    → length ms ≤ length ls
    → check_parts schema o observed ls ≡ ok tt
    → check_parts schema o observed ms ≡ ok tt
unfolding check_parts
check_parts-fewer schema o observed ls ms h p = ground arith

module _ (c : Crypto) where
  abbrev pub unchecked :
      ℕ → Origin → ℕ → ℕ → CollectionCoverage → List Limitation → Fact → EvidenceRecord
  unchecked schema origin sequence version coverage ls fact = record {
    schema = schema;
    id = [];
    origin = origin;
    sequence = sequence;
    collector_version = version;
    coverage = coverage;
    limitations = sort_dedup limitation_order ls;
    fact = fact;
  }

  -- A record is made exactly when the checks pass, and then from its parts.
  new_record-ok :
      (schema : ℕ) (o : Origin) (q v : ℕ) (g : CollectionCoverage) (ls : List Limitation) (f : Fact)
      {r : EvidenceRecord}
      → new_record c schema o q v g ls f ≡ ok r
      → (check_parts schema o f.provenance.observed_at ls ≡ ok tt)
        × (r ≡ address c (unchecked schema o q v g ls f))
  unfolding new_record
  new_record-ok schema o q v g ls f h = ground arith

  new_record-checked :
      (schema : ℕ) (o : Origin) (q v : ℕ) (g : CollectionCoverage) (ls : List Limitation) (f : Fact)
      → check_parts schema o f.provenance.observed_at ls ≡ ok tt
      → new_record c schema o q v g ls f ≡ ok (address c (unchecked schema o q v g ls f))
  unfolding new_record
  new_record-checked schema o q v g ls f h = rw h

  idem_at :
      (schema : ℕ) (o : Origin) (q v : ℕ) (g : CollectionCoverage) (ls : List Limitation) (f : Fact)
      → check_parts schema o f.provenance.observed_at ls ≡ ok tt
      → new_record c schema o q v g (sort_dedup limitation_order ls) f
        ≡ ok (address c (unchecked schema o q v g ls f))
  idem_at schema o q v g ls f h =
      new_record-checked schema o q v g (sort_dedup limitation_order ls) f (
        check_parts-fewer schema o f.provenance.observed_at ls (sort_dedup limitation_order ls)
          (length-sort_dedup limitation_order ls) h)
      ∙ ap (λ ms. ok (address c (record (unchecked schema o q v g ls f) { limitations = ms })))
          (sort_dedup_fixed limitation_order (sort_dedup limitation_order ls)
            (sort_dedup-IsAscending limitation_order ls))

  -- `new` is idempotent: a record that it made is what it makes of the record's own parts.
  pub new_record_idem :
      (schema : ℕ) (o : Origin) (q v : ℕ) (g : CollectionCoverage) (ls : List Limitation) (f : Fact)
      {r : EvidenceRecord}
      → new_record c schema o q v g ls f ≡ ok r
      → new_record c r.schema r.origin r.sequence r.collector_version r.coverage r.limitations
          r.fact
        ≡ ok r
  unfolding address
  new_record_idem schema o q v g ls f h =
      let (checked, e) = new_record-ok schema o q v g ls f h in
      subst
        (λ (r : EvidenceRecord).
          new_record c r.schema r.origin r.sequence r.collector_version r.coverage r.limitations
            r.fact
          ≡ ok r)
        (sym e) (idem_at schema o q v g ls f checked)

  -- A record of `new`'s making whose fields are in the range of their types.
  pub record IsRecord (r : EvidenceRecord) : Type 0 where
    pub built :
        new_record c r.schema r.origin r.sequence r.collector_version r.coverage r.limitations
          r.fact
        ≡ ok r
    pub origin : IsOrigin r.origin
    pub sequence : r.sequence < 2 ^ 64
    pub version : r.collector_version ≤ u32_max
    pub fact : IsFact r.fact

  pub record-Reads :
      (r : EvidenceRecord)
      → IsRecord r
      → kind r.fact.claim ≢ ascii "traffic_observed"
      → Reads (decode_record c) (encode_record r) r
  unfolding decode_record encode_record
  record-Reads r h known =
      let (checked, _) =
        new_record-ok r.schema r.origin r.sequence r.collector_version r.coverage r.limitations
          r.fact h.built in
      let (schema, few) = check_parts-ok _ r.origin _ r.limitations checked in
      Reads-bind _ _ (u16-Reads r.schema (rw schema (omega arith))) (
        Reads-bind _ _ (origin-Reads r.origin h.origin) (
          Reads-bind _ _ (u64-Reads r.sequence h.sequence) (
            Reads-bind _ _ (u32-Reads r.collector_version h.version) (
              Reads-bind _ _ (coverage-Reads r.coverage) (
                Reads-bind _ _
                  (list-Reads encode_limitation decode_limitation r.limitations (omega arith)
                    (limitations-All r.limitations))
                  (Reads-map _ _ (fact-Reads r.fact h.fact known) (rw (h.built, admit_record))))))))

  -- Reading the canonical bytes of a record that `new` made gives that record, id and all, where its
  -- fields are in the ranges of their types and its claim is no `traffic_observed`.
  pub record_round_trip :
      (schema : ℕ) (o : Origin) (q v : ℕ) (g : CollectionCoverage) (ls : List Limitation) (f : Fact)
      (r : EvidenceRecord)
      → new_record c schema o q v g ls f ≡ ok r
      → IsOrigin r.origin
      → r.sequence < 2 ^ 64
      → r.collector_version ≤ u32_max
      → IsFact r.fact
      → kind r.fact.claim ≢ ascii "traffic_observed"
      → length (encode_record r) ≤ usize_max
      → read (decode_record c) (encode_record r) ≡ ok r
  record_round_trip schema o q v g ls f r h origin sequence version fact known fits =
      read-Reads (decode_record c)
        (record-Reads r
          (record {
            built = new_record_idem schema o q v g ls f h;
            origin = origin;
            sequence = sequence;
            version = version;
            fact = fact;
          })
          known)
        fits
