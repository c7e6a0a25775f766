-- ===== src/Wire/RoundTrip.antt =====
-- wire.rs: the decoders of facts against the encoders.
use topgent.Base.{ℕ, ◌≡◌, ◌≢◌, refl, ◌^◌, ◌<◌, ◌≤◌, Option, none, some, false, arith, ok}
use topgent.Text.{ascii, is_utf8, is_blank}
use topgent.Canonical
use topgent.Canonical.{u32_max}
use topgent.Reader
use topgent.Reader.{Decoder, ◌>>=◌, pure}
use topgent.Reader.Reads.{Reads, Reads-bind, Reads-map}
use topgent.Reader.Primitives.{
  IsText, text-Reads, boolean-Reads, u16-Reads, u32-Reads, u64-Reads, option-Reads,
}
use topgent.Facts.{Subject, Claim, Provenance, Fact, ByteCounters, kind, schema_version, new_fact}
use topgent.Wire.{
  encode_counters, encode_subject, encode_provenance, encode_fields, encode_claim, encode_fact,
}
use topgent.Wire.Decode.{decode_counters, decode_subject, decode_provenance, subject_of}
use topgent.Wire.DecodeFact.{claim_of, decode_claim, decode_fact, admit_fact}
use topgent.Wire.Names.{
  access-Reads, direction-Reads, protocol-Reads, basis-Reads, reachability-Reads, confidence-Reads,
  outcome-Reads, dns-Reads,
}

-- The ranges that the fields' Rust types give, and texts below 4 GiB.
abbrev pub IsCounters : ByteCounters → Type 0
IsCounters b = (b.sent < 2 ^ 64) × (b.received < 2 ^ 64)

abbrev pub IsOption : {A : Type 0} → (A → Type 0) → Option A → Type 0
IsOption P none = Unit
IsOption P (some a) = P a

abbrev pub IsSubject : Subject → Type 0
IsSubject (Subject.process pid started_at) = (pid ≤ u32_max) × (started_at < 2 ^ 64)
IsSubject (Subject.resource path) = IsText path
IsSubject (Subject.endpoint host port) = IsText host × (port < 2 ^ 16)

abbrev pub IsClaim : Claim → Type 0
IsClaim (Claim.process_seen exe _ uid user) = IsText exe × (uid ≤ u32_max) × IsText user
IsClaim (Claim.process_parent p) = (p ≤ u32_max)
IsClaim (Claim.child_process_seen pid name depth) = (pid ≤ u32_max) × IsText name × (depth < 2 ^ 16)
IsClaim (Claim.socket_open _ host port _ opened_at bytes _) =
    IsText host
    × (port < 2 ^ 16)
    × IsOption (λ at. at < 2 ^ 64) opened_at
    × IsOption IsCounters bytes
IsClaim (Claim.socket_closed host port _ ms) = IsText host × (port < 2 ^ 16) × (ms < 2 ^ 64)
IsClaim (Claim.connection_attempt host port _ _) = IsText host × (port < 2 ^ 16)
IsClaim (Claim.traffic_observed _ host port _ packets first_seen last_seen) =
    IsText host
    × (port < 2 ^ 16)
    × (packets < 2 ^ 64)
    × (first_seen < 2 ^ 64)
    × (last_seen < 2 ^ 64)
IsClaim (Claim.dns_query_observed name query_type _) = IsText name × (query_type < 2 ^ 16)
IsClaim (Claim.file_touched path _) = IsText path
IsClaim (Claim.permission_declared path _ _) = IsText path
IsClaim (Claim.resource_reachable path _ _ _) = IsText path
IsClaim (Claim.agent_family family) = IsText family
IsClaim (Claim.editor_extension_active family extension_id) = IsText family × IsText extension_id
IsClaim (Claim.model_in_use provider model) = IsText provider × IsText model
IsClaim (Claim.connector_declared name _) = IsText name
IsClaim (Claim.invokes_agent target_pid via) = (target_pid ≤ u32_max) × IsText via
IsClaim (Claim.subject_not_evaluated reason) = IsText reason
IsClaim (Claim.action_taken action _) = IsText action

abbrev pub IsProvenance : Provenance → Type 0
IsProvenance p = IsText p.collector × IsText p.probe × (p.observed_at < 2 ^ 64)

-- A fact that `Fact::new` makes, with fields in range.
pub record IsFact (f : Fact) : Type 0 where
  pub schema : f.schema ≡ schema_version
  pub subject : IsSubject f.subject
  pub claim : IsClaim f.claim
  pub provenance : IsProvenance f.provenance
  pub collector : is_blank f.provenance.collector ≡ false
  pub probe : is_blank f.provenance.probe ≡ false

counters-Reads : (b : ByteCounters) → IsCounters b → Reads decode_counters (encode_counters b) b
unfolding decode_counters encode_counters
counters-Reads b h =
    Reads-bind Reader.u64 _ (u64-Reads b.sent h.0)
      (Reads-map Reader.u64 _ (u64-Reads b.received h.1) refl)

opened_at-Reads :
    (o : Option ℕ)
    → IsOption (λ at. at < 2 ^ 64) o
    → Reads (Reader.option Reader.u64) (Canonical.option Canonical.u64 o) o
opened_at-Reads none h = option-Reads Canonical.u64 Reader.u64 none tt
opened_at-Reads (some at) h = option-Reads Canonical.u64 Reader.u64 (some at) (u64-Reads at h)

bytes-Reads :
    (o : Option ByteCounters)
    → IsOption IsCounters o
    → Reads (Reader.option decode_counters) (Canonical.option encode_counters o) o
bytes-Reads none h = option-Reads encode_counters decode_counters none tt
bytes-Reads (some b) h = option-Reads encode_counters decode_counters (some b) (counters-Reads b h)

pub subject-Reads : (s : Subject) → IsSubject s → Reads decode_subject (encode_subject s) s
unfolding decode_subject encode_subject subject_of is_utf8
subject-Reads (Subject.process pid started_at) h =
    Reads-bind Reader.text subject_of (text-Reads (record { utf8 = refl; fits = omega arith })) (
      Reads-bind Reader.u32 _ (u32-Reads pid h.0)
        (Reads-map Reader.u64 _ (u64-Reads started_at h.1) refl))
subject-Reads (Subject.resource path) h =
    Reads-bind Reader.text subject_of (text-Reads (record { utf8 = refl; fits = omega arith }))
      (Reads-map Reader.text _ (text-Reads h) refl)
subject-Reads (Subject.endpoint host port) h =
    Reads-bind Reader.text subject_of (text-Reads (record { utf8 = refl; fits = omega arith }))
      (Reads-bind Reader.text _ (text-Reads h.0) (Reads-map Reader.u16 _ (u16-Reads port h.1) refl))

provenance-Reads :
    (p : Provenance) → IsProvenance p → Reads decode_provenance (encode_provenance p) p
unfolding decode_provenance encode_provenance
provenance-Reads p h = Reads-bind _ _ (text-Reads h.0) (
    Reads-bind _ _ (text-Reads h.1) (
      Reads-bind _ _ (confidence-Reads p.confidence)
        (Reads-map _ _ (u64-Reads p.observed_at h.2) refl)))

pub kind-IsText : (c : Claim) → IsText (kind c)
unfolding kind is_utf8
kind-IsText (Claim.agent_family _) = record { utf8 = refl; fits = omega arith }
kind-IsText _ = record { utf8 = refl; fits = omega arith }

-- The fields of a claim, by the arm that the reader takes for its kind.
fields-Reads :
    (c : Claim)
    → IsClaim c
    → kind c ≢ ascii "traffic_observed"
    → Reads (claim_of (kind c)) (encode_fields c) c
unfolding kind claim_of encode_fields
fields-Reads (Claim.process_seen exe path_known uid user) h known =
    Reads-bind _ _ (text-Reads h.0) (
      Reads-bind _ _ (boolean-Reads path_known)
        (Reads-bind _ _ (u32-Reads uid h.1) (Reads-map _ _ (text-Reads h.2) refl)))
fields-Reads (Claim.process_parent p) h known = Reads-map _ _ (u32-Reads p h) refl
fields-Reads (Claim.child_process_seen pid name depth) h known =
    Reads-bind _ _ (u32-Reads pid h.0)
      (Reads-bind _ _ (text-Reads h.1) (Reads-map _ _ (u16-Reads depth h.2) refl))
fields-Reads (Claim.socket_open protocol host port direction opened_at bytes basis) h known =
    Reads-bind _ _ (protocol-Reads protocol) (
      Reads-bind _ _ (text-Reads h.0) (
        Reads-bind _ _ (u16-Reads port h.1) (
          Reads-bind _ _ (direction-Reads direction) (
            Reads-bind _ _ (opened_at-Reads opened_at h.2)
              (Reads-bind _ _ (bytes-Reads bytes h.3) (Reads-map _ _ (basis-Reads basis) refl))))))
fields-Reads (Claim.socket_closed host port direction ms) h known =
    Reads-bind _ _ (text-Reads h.0) (
      Reads-bind _ _ (u16-Reads port h.1)
        (Reads-bind _ _ (direction-Reads direction) (Reads-map _ _ (u64-Reads ms h.2) refl)))
fields-Reads (Claim.connection_attempt host port direction outcome) h known =
    Reads-bind _ _ (text-Reads h.0) (
      Reads-bind _ _ (u16-Reads port h.1)
        (Reads-bind _ _ (direction-Reads direction) (Reads-map _ _ (outcome-Reads outcome) refl)))
fields-Reads (Claim.dns_query_observed name query_type outcome) h known =
    Reads-bind _ _ (text-Reads h.0)
      (Reads-bind _ _ (u16-Reads query_type h.1) (Reads-map _ _ (dns-Reads outcome) refl))
fields-Reads (Claim.file_touched path access) h known =
    Reads-bind _ _ (text-Reads h) (Reads-map _ _ (access-Reads access) refl)
fields-Reads (Claim.permission_declared path access granted) h known =
    Reads-bind _ _ (text-Reads h)
      (Reads-bind _ _ (access-Reads access) (Reads-map _ _ (boolean-Reads granted) refl))
fields-Reads (Claim.resource_reachable path access sensitive evidence) h known =
    Reads-bind _ _ (text-Reads h) (
      Reads-bind _ _ (access-Reads access) (
        Reads-bind _ _ (boolean-Reads sensitive)
          (Reads-map _ _ (reachability-Reads evidence) refl)))
fields-Reads (Claim.agent_family family) h known = Reads-map _ _ (text-Reads h) refl
fields-Reads (Claim.editor_extension_active family extension_id) h known =
    Reads-bind _ _ (text-Reads h.0) (Reads-map _ _ (text-Reads h.1) refl)
fields-Reads (Claim.model_in_use provider model) h known =
    Reads-bind _ _ (text-Reads h.0) (Reads-map _ _ (text-Reads h.1) refl)
fields-Reads (Claim.connector_declared name access) h known =
    Reads-bind _ _ (text-Reads h) (Reads-map _ _ (access-Reads access) refl)
fields-Reads (Claim.invokes_agent target_pid via) h known =
    Reads-bind _ _ (u32-Reads target_pid h.0) (Reads-map _ _ (text-Reads h.1) refl)
fields-Reads (Claim.subject_not_evaluated reason) h known = Reads-map _ _ (text-Reads h) refl
fields-Reads (Claim.action_taken action succeeded) h known =
    Reads-bind _ _ (text-Reads h) (Reads-map _ _ (boolean-Reads succeeded) refl)
fields-Reads (Claim.traffic_observed protocol host port direction packets first_seen last_seen) h
      known =
    absurd (known refl)

pub claim-Reads :
    (c : Claim)
    → IsClaim c
    → kind c ≢ ascii "traffic_observed"
    → Reads decode_claim (encode_claim c) c
unfolding decode_claim encode_claim
claim-Reads c h known =
    Reads-bind Reader.text claim_of (text-Reads (kind-IsText c)) (fields-Reads c h known)

new_fact_lem : (f : Fact) → IsFact f → new_fact f.schema f.subject f.claim f.provenance ≡ ok f
unfolding new_fact
new_fact_lem f h = rw (h.schema, h.collector, h.probe)

-- The bytes of a fact of the current schema, with a named collector and probe and fields in the
-- ranges of their types, read back as that fact, unless its claim is a `traffic_observed`.
pub fact-Reads :
    (f : Fact)
    → IsFact f
    → kind f.claim ≢ ascii "traffic_observed"
    → Reads decode_fact (encode_fact f) f
unfolding decode_fact encode_fact
fact-Reads f h known = Reads-bind _ _ (u16-Reads f.schema (rw h.schema (omega arith))) (
    Reads-bind _ _ (subject-Reads f.subject h.subject) (
      Reads-bind _ _ (claim-Reads f.claim h.claim known) (
        Reads-map _ _ (provenance-Reads f.provenance h.provenance)
          (rw (new_fact_lem f h, admit_fact)))))
