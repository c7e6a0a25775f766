-- ===== src/Journal/Decisions.antt =====
-- crates/topgent-journal/src/journal.rs: how approval records change, one operation after another.
use topgent.Base.{
  ℕ, ◌≡◌, refl, ◌⊎◌, inl, inr, false, List, [], ◌∷◌, ◌++◌, map, none, arith, All, Any, Any-mono,
  Bool-cases, Option-cases,
}
use topgent.Text.{Bytes}
use topgent.Journal.{Chars, bounded_metadata}
use topgent.Journal.Table.{find, read_back, All-store, All-snoc, All-update, All-map}
use topgent.Journal.Approvals.{
  ApprovalRecordState, pending, ApprovalRecord, is_decision, expire, any_lapsed, is_approval,
  approval_records, is_open, has_id, decide, resolve_approval, new_request, request_approval,
  created_before, max_approval_records, approval_id,
}
use topgent.Journal.Evolution.{
  Evolves, Grown, settle, open_state, expire-Grown, read_back-Grown, Grown-self,
}

-- A request as it is made: pending, and of an id that no record has that the file reads as.
pub record IsRequest (held : List ApprovalRecord) (s : ApprovalRecord) : Type 0 where
  pub waiting : s.state ≡ pending
  pub unresolved : s.resolved_at ≡ none
  pub fresh : All (λ r. has_id s.id r ≡ false) held

expire-fresh :
    (id : Chars) (now : ℕ) (rs : List ApprovalRecord)
    → find (has_id id) (map (expire now) rs) ≡ none
    → All (λ r. has_id id r ≡ false) rs
unfolding find has_id expire
expire-fresh id now [] h = tt
expire-fresh id now (r ∷ rs) h = elim (Bool-cases (has_id id r)) [
  | inl y ↦ ground arith
  | inr n ↦ (n, expire-fresh id now rs (ground arith))
]

module _ (digits : ℕ → Chars) (as_bytes : Chars → Bytes) where
  abbrev pub Follows : ℕ → List ApprovalRecord → List ApprovalRecord → Type 0
  Follows now file ss =
      All
        (λ s.
          Any (λ r. Evolves now r s) file
          ⊎ IsRequest (read_back (is_approval digits as_bytes) file) s)
        ss

  Grown-Follows : (now : ℕ) (rs ss : List ApprovalRecord) → Grown now rs ss → Follows now rs ss
  Grown-Follows now rs ss h = All-map (λ s. Any (λ r. Evolves now r s) rs) _ ss (λ s a. inl a) h

  -- The records that were read, and the file behind the read.
  records-Grown :
      (now : ℕ) (file : List ApprovalRecord)
      → Grown now file (approval_records digits as_bytes now file).0
  unfolding approval_records
  records-Grown now file =
      let records : List ApprovalRecord = read_back (is_approval digits as_bytes) file in
      read_back-Grown now (is_approval digits as_bytes) file (map (expire now) records)
        (expire-Grown now records)

  approval_records-Grown :
      (now : ℕ) (file : List ApprovalRecord)
      → Grown now file (approval_records digits as_bytes now file).1
  unfolding approval_records
  approval_records-Grown now file =
      elim (Bool-cases (any_lapsed now (read_back (is_approval digits as_bytes) file))) [
        | inl y ↦ rw y (records-Grown now file)
        | inr n ↦ rw n (Grown-self now file)
      ]

  resolve_approval-Grown :
      (id : Chars) (pid started_at : ℕ) (decision : ApprovalRecordState) (now : ℕ)
      (file : List ApprovalRecord)
      → Grown now file (resolve_approval digits as_bytes id pid started_at decision now file).1
  unfolding resolve_approval
  resolve_approval-Grown id pid started_at decision now file =
      let records : List ApprovalRecord = (approval_records digits as_bytes now file).0 in
      elim (Bool-cases (is_decision decision)) [
        | inr n ↦ rw (n, resolve_approval) (Grown-self now file)
        | inl y ↦ elim (Option-cases (find (is_open id pid started_at now) records)) [
          | inl e ↦ rw (y, e, resolve_approval) (approval_records-Grown now file)
          | inr (s, e) ↦
              rw (y, e, resolve_approval)
                (All-update (λ s. Any (λ r. Evolves now r s) file)
                  (λ s. Any (λ r. Evolves now r s) file) (is_open id pid started_at now)
                  (decide decision now) records (λ s a. a)
                  (λ s t a.
                    let o = open_state id pid started_at now s t in
                    Any-mono file (λ r v. settle now decision r s y o.0 o.1 v) a)
                  (records-Grown now file))
        ]
      ]

  -- The operations on the approvals at one time, whatever their arguments, from file to file.
  pub data Change (now : ℕ) (file ss : List ApprovalRecord) : Type 0 where
    read : ss ≡ (approval_records digits as_bytes now file).1 → Change now file ss
    request :
        (pid started_at : ℕ) (scope : Chars) (ttl_ms : ℕ)
        → ss ≡ (request_approval digits as_bytes pid started_at scope now ttl_ms file).1
        → Change now file ss
    resolve :
        (id : Chars) (pid started_at : ℕ) (decision : ApprovalRecordState)
        → ss ≡ (resolve_approval digits as_bytes id pid started_at decision now file).1
        → Change now file ss

  new_request-IsRequest :
      (pid started_at : ℕ) (scope : Chars) (now ttl_ms : ℕ) (file : List ApprovalRecord)
      → find
          (has_id (approval_id digits as_bytes pid started_at scope))
          (approval_records digits as_bytes now file).0
        ≡ none
      → IsRequest
          (read_back (is_approval digits as_bytes) file)
          (new_request digits as_bytes pid started_at scope now ttl_ms)
  unfolding new_request approval_records
  new_request-IsRequest pid started_at scope now ttl_ms file e = record {
    waiting = refl;
    unresolved = refl;
    fresh =
        expire-fresh (approval_id digits as_bytes pid started_at scope) now
          (read_back (is_approval digits as_bytes) file) e;
  }

  request_approval-Follows :
      (pid started_at : ℕ) (scope : Chars) (now ttl_ms : ℕ) (file : List ApprovalRecord)
      → Follows now file (request_approval digits as_bytes pid started_at scope now ttl_ms file).1
  unfolding request_approval
  request_approval-Follows pid started_at input now ttl_ms file =
      let scope : Chars = bounded_metadata input 256 in
      let records : List ApprovalRecord = (approval_records digits as_bytes now file).0 in
      elim (Option-cases
        (find (has_id (approval_id digits as_bytes pid started_at scope)) records)) [
          | inr (r, e) ↦
              rw (e, request_approval) (Grown-Follows now file _ (approval_records-Grown now file))
          | inl e ↦
              rw (e, request_approval)
                (All-store _ created_before max_approval_records
                  (records ++ new_request digits as_bytes pid started_at scope now ttl_ms ∷ [])
                  (All-snoc _ records (new_request digits as_bytes pid started_at scope now ttl_ms)
                    (Grown-Follows now file records (records-Grown now file))
                    (inr (new_request-IsRequest pid started_at scope now ttl_ms file e))))
        ]

  -- Whatever an operation on the approvals does to the file, each record that it then holds comes
  -- from one that it held: unchanged, expired once its deadline was reached, or decided while it was
  -- pending and before its deadline; or it is a new pending request, of an id that no record had that
  -- the file read as. So no request takes the place of a record that reads, and one that is decided or
  -- expired is kept as it is or dropped.
  pub Change-Follows :
      (now : ℕ) (file ss : List ApprovalRecord) → Change now file ss → Follows now file ss
  Change-Follows now file ss (read e) =
      rw e (Grown-Follows now file _ (approval_records-Grown now file))
  Change-Follows now file ss (request pid started_at scope ttl_ms e) =
      rw e (request_approval-Follows pid started_at scope now ttl_ms file)
  Change-Follows now file ss (resolve id pid started_at decision e) =
      rw e (Grown-Follows now file _ (resolve_approval-Grown id pid started_at decision now file))
