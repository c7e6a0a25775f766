-- ===== src/Verify/Walk.antt =====
-- crates/topgent-evidence/src/verify.rs, `check_chain`: the loop over the entries, and the records
-- that no entry named.
use topgent.Base.{
  ℕ, ◌+◌, List, [], ◌∷◌, ◌++◌, Option, none, some, Bool, true, false, ◌||◌, ltb, leb, ◌==◌,
  if◌then◌else◌, ite, ◌^◌, ◌-◌,
}
use topgent.Text.{Bytes-discrete}
use topgent.Crypto.{Crypto}
use topgent.Record.{EvidenceId, EvidenceRecord}
use topgent.Ledger.{Ledger, find_record}
use topgent.Chain.{Chain, ChainEntry, EntryHash, recomputed}
use topgent.Bundle.{Breach, Gap}

-- The sets of the loop over the entries, as lists.
unfoldable pub seen_before : ℕ → List ℕ → Bool
seen_before n [] = false
seen_before n (m ∷ ms) = n == m || seen_before n ms

unfoldable pub is_chained : EvidenceId → List EvidenceId → Bool
is_chained id [] = false
is_chained id (j ∷ js) = ite (Bytes-discrete id j) true (is_chained id js)

-- What the loop over the entries carries.
pub record Walk : Type 0 where
  pub seen : List ℕ
  pub chained : List EvidenceId
  pub previous : Option EntryHash
  pub last : Option ℕ

abbrev pub start : Walk
start = record { seen = []; chained = []; previous = none; last = none }

abbrev u64_max : ℕ
u64_max = 2 ^ 64 - 1

-- `before.saturating_add(1)`
abbrev pub next_sequence : ℕ → ℕ
next_sequence n = if leb (n + 1) u64_max then n + 1 else u64_max

unfoldable pub order_breaches : Option ℕ → ℕ → List Breach
order_breaches none sequence = []
order_breaches (some before) sequence =
    if leb sequence before then Breach.out_of_order sequence before ∷ [] else []

unfoldable pub gap_at : Option ℕ → ℕ → List Gap
gap_at none sequence = []
gap_at (some before) sequence =
    if leb sequence before
    then []
    else if ltb (next_sequence before) sequence
    then record { after = before; before = sequence } ∷ []
    else []

unfoldable pub option_bytes-discrete : Discrete (Option EntryHash)
unfolding Bytes-discrete
option_bytes-discrete = hlevel Bytes-discrete

module _ (c : Crypto) where
  unfoldable pub entry_breaches : Ledger → Walk → ChainEntry → List Breach
  entry_breaches l w e =
      ite (Bytes-discrete (recomputed c e) e.hash) []
        (Breach.entry_altered e.sequence e.hash (recomputed c e) ∷ [])
      ++ (ite (option_bytes-discrete e.previous w.previous) []
            (Breach.chain_broken e.sequence w.previous e.previous ∷ [])
          ++ ((if seen_before e.sequence w.seen
                then Breach.duplicate_sequence e.sequence ∷ []
                else [])
              ++ (order_breaches w.last e.sequence ++ elim (find_record l e.record_id) [
                | none ↦ Breach.unchained_reference e.sequence e.record_id ∷ []
                | some _ ↦ []
              ])))

-- The walk behind one entry.
unfoldable pub advance : Ledger → Walk → ChainEntry → Walk
advance l w e = record {
  seen = e.sequence ∷ w.seen;
  chained = elim (find_record l e.record_id) [ none ↦ w.chained | some r ↦ r.id ∷ w.chained ];
  previous = some e.hash;
  last = some e.sequence;
}

module _ (c : Crypto) where
  unfoldable pub walk_breaches : Ledger → Walk → List ChainEntry → List Breach
  walk_breaches l w [] = []
  walk_breaches l w (e ∷ es) = entry_breaches c l w e ++ walk_breaches l (advance l w e) es

unfoldable pub walk_end : Ledger → Walk → List ChainEntry → Walk
walk_end l w [] = w
walk_end l w (e ∷ es) = walk_end l (advance l w e) es

unfoldable pub walk_gaps : Option ℕ → List ChainEntry → List Gap
walk_gaps last [] = []
walk_gaps last (e ∷ es) = gap_at last e.sequence ++ walk_gaps (some e.sequence) es

-- The loop over the records that no entry named.
unfoldable pub orphan_breaches : List EvidenceId → List (EvidenceId × EvidenceRecord) → List Breach
orphan_breaches chained [] = []
orphan_breaches chained ((_, r) ∷ rs) =
    (if is_chained r.id chained then [] else Breach.record_not_in_chain r.id ∷ [])
    ++ orphan_breaches chained rs

module _ (c : Crypto) where
  -- `check_chain`
  unfoldable pub chain_breaches : Ledger → Chain → List Breach
  chain_breaches l chain =
      walk_breaches c l start chain.entries
      ++ orphan_breaches (walk_end l start chain.entries).chained l.records
