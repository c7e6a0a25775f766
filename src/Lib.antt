-- ===== src/Lib.antt =====
-- Topgent watches the AI agents on a machine. This library models the part of it that others have to
-- be able to trust afterwards: the facts that a collector emits (crates/topgent-facts) and the
-- evidence made of them (crates/topgent-evidence), from the canonical bytes up to the verdict on a
-- bundle that has left the machine; and the part that acts on the machine: the response ladder, the
-- guard and the termination of processes (crates/topgent-enforce), with the journal that remembers
-- transitions, approvals and cooldowns between sweeps (crates/topgent-journal); and of the scoring
-- of an agent the conditions, ceilings and accepted findings (crates/topgent-policy, crates/topgent-core).
--
-- How the parts interact. A fact becomes an evidence record, whose id is the digest of its canonical
-- bytes. Records and the claims over them are filed in a ledger. Each record is appended to a hash
-- chain; a checkpoint signs the chain's last hash, and a rotation hands signing over to another key.
-- A bundle holds ledger, chain, keys, rotations and checkpoints; it is written with the canonical
-- encoding, and `Bundle::verify` judges it against keys that the verifier already holds.
--
-- Which file models which part (sources under crates/topgent-evidence/src unless named):
--   Text          what is used of `str`: bytes, UTF-8, `trim().is_empty()`
--   Facts         crates/topgent-facts/src: the vocabulary, `Claim::kind`, `Fact::new`
--   Vocabulary    the enums and errors of quality.rs, claim.rs, record.rs, ledger.rs, chain.rs
--   Order         `Ord`, `sort_unstable` with `dedup` (Sorting), and `BTreeMap` (Map)
--   Canonical     canonical.rs: the writer, by the bytes that it appends
--   Reader        reader.rs: `Reader` and its methods; Reads and Primitives hold the rules for round
--                 trips and for refusals
--   Crypto        SHA-256 and Ed25519, as a parameter; `digest_of`; Toy is a scheme to run tests with
--   Wire          wire.rs: the encoders; Decode and DecodeFact the decoders
--   Quality       quality.rs: tags, tables, `weakest`, `Assessment`, `from_match_basis`
--   Record        record.rs: `EvidenceRecord::new`, its encoding and reading
--   Derived       claim.rs: `DerivedClaim::new`, its encoding and reading
--   Ledger        ledger.rs: `add_record`, `add_claim`, `explain`; Decode is its reader
--   Keys          chain.rs: public keys, hexadecimal, `SensorKey`
--   Chain         chain.rs: `Chain::append`, `Chain::checkpoint`, `Rotation::sign` and their encodings
--   Bundle        bundle.rs: `append`, `add_claim`, `seal`, `rotate`, the verdict's types;
--                 Reachable has the operations as steps
--   Verify        verify.rs: `Bundle::verify`; Authority is `resolve_authority`, Records is
--                 `check_records`, Walk is `check_chain`, Checkpoints is `check_checkpoints`
--   Machine       the largest values of unsigned integers, and `saturating_add`
--   Policy        crates/topgent-policy/src: `ResponseMode` of lib.rs; Firing is firing.rs, Exceptions is
--                 exception.rs; Satisfiable is about firing.rs
--   Risk          crates/topgent-core/src/risk: factor.rs and grade.rs; Assess is the end of
--                 `assess_with`, `apply_ceilings` and `apply_exceptions` of assess.rs; Ceilings and
--                 Accepted are about them, and Covered says what an exception covers
--   Enforce       crates/topgent-enforce/src: action.rs, `Signal` of signal.rs, and of
--                 crates/topgent-collect/src/process the owners and the process table; Ladder is
--                 ladder.rs, Guard is guard.rs, Execute is `attempt` of execute.rs for one process, Tree
--                 is `tree_targets`, Attempt is `attempt_tree` and `execute`. Authorised, MemberSignals
--                 and Preflight are about the signals sent, Descent and Descendants about the walk over
--                 the table, Patience about the waits
--   Journal       crates/topgent-journal/src: text.rs; Table is what every operation of journal.rs does
--                 to a list of records; Transitions, Approvals, Cooldowns and Sensors have the
--                 operations, behind the tests of their readers. Lookup, Upserts and Edges are about
--                 the transitions, Evolution, Decisions and Deadlines about the approvals, Limits and
--                 Bounds about all of them
--   Base, Outcome shared names and lemmas, `Result` and its chaining by `?`
--   Sample        a small bundle for the tests, which stand in the modules called Tests
--
-- Correspondence. A text is the list of its UTF-8 bytes, a byte string a list of numbers. Integers are
-- natural numbers; the encoders cut them to their width, and theorems that need a field in range say
-- so. A method that changes its object returns the object that it leaves. A reader is a function from
-- a position in a buffer to a value and the next position, or an error. The verifier pushes breaches
-- onto one vector; here each part returns its own, and they are joined in the source's order.
--
-- The operating system is a parameter of enforcement: a function from what was asked and done so far
-- to the next answer, for the identity behind a pid, the refusal of a signal, and the clock; the log
-- of what was asked and done is a result. The journal's files are the lists of their members, which
-- each operation reads through the tests of the reader before it writes; its texts are lists of Unicode
-- code points, since they are cut to a number of characters.
--
-- Bounds. `usize` is that of a 64-bit machine. Loops are structural recursion on a list, or on the
-- count that was read before it, except two. The walk over a process tree has one round more than the
-- table has processes, as each process enters the frontier once. The wait of the grace period takes its
-- rounds as an argument; 51 are enough, for 5000 ms in steps of at least 100 ms.
--
-- Not modelled. SHA-256 and Ed25519 are the fields of the record Crypto; theorems that need their
-- documented behaviour take CryptoLaws, and theorems that rest on the digest give a collision in its
-- place. Errors keep their data but not the text that is printed of them. The readers of chain,
-- checkpoint, rotation and bundle, the graph of agents, the gathering of factors, the rest of policy,
-- collectors, exports and front ends are left out; so are the parts of enforcement that are Windows'
-- or a container's, and the journal's lock, JSON text, log, histories and sweep.
pub mod Base
pub mod Text
pub mod Facts
pub mod Vocabulary
pub mod Order
pub mod Canonical
pub mod Reader
pub mod Wire
pub mod Crypto
pub mod Quality
pub mod Outcome
pub mod Record
pub mod Derived
pub mod Ledger
pub mod Keys
pub mod Chain
pub mod Bundle
pub mod Verify
pub mod Sample
pub mod Machine
pub mod Policy
pub mod Enforce
pub mod Journal
pub mod Risk
