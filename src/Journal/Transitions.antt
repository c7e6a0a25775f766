-- ===== src/Journal/Transitions.antt =====
-- crates/topgent-journal/src/transition.rs, and `Journal::record_response_transition` of journal.rs.
use topgent.Base.{
  ℕ, Bool, true, false, not, ◌&&◌, leb, List, [], ◌∷◌, ◌++◌, none, some, if◌then◌else◌,
}
use topgent.Machine.{u64_max, saturating_add}
use topgent.Journal.{Chars, bounded_metadata, is_kept, same_text}
use topgent.Journal.Table.{find, update, store, read_back}

abbrev pub max_response_transitions : ℕ
max_response_transitions = 512

pub record ResponseTransition : Type 0 where
  pub key : Chars
  pub active : Bool
  -- u64
  pub last_seen_at : ℕ
  -- u64
  pub last_changed_at : ℕ
  -- u64
  pub trigger_count : ℕ

-- `response_transition_from_json`, which drops a member whose key is not as `bounded_metadata`
-- leaves it, is empty or too long, or which changed after it was last seen.
unfoldable pub is_transition : ResponseTransition → Bool
is_transition r = is_kept r.key 512 && leb r.last_changed_at r.last_seen_at

pub data Label : Type 0 where
  triggered suppressed recovered inactive : Label

unfoldable pub label_of : Bool → Bool → Label
label_of false true = triggered
label_of true true = suppressed
label_of true false = recovered
label_of false false = inactive

unfoldable pub differs : Bool → Bool → Bool
differs a b = if a then not b else b

-- The change of a record that is there, and the first one of a key.
unfoldable pub transit : Bool → ℕ → ResponseTransition → ResponseTransition
transit active now r = record r {
  active = active;
  last_seen_at = now;
  last_changed_at = if differs r.active active then now else r.last_changed_at;
  trigger_count =
      if not r.active && active then saturating_add u64_max r.trigger_count 1 else r.trigger_count;
}

unfoldable pub first_transition : Chars → Bool → ℕ → ResponseTransition
first_transition key active now = record {
  key = key;
  active = active;
  last_seen_at = now;
  last_changed_at = now;
  trigger_count = if active then 1 else 0;
}

unfoldable pub has_key : Chars → ResponseTransition → Bool
has_key key r = same_text r.key key

unfoldable pub seen_before : ResponseTransition → ResponseTransition → Bool
seen_before r s = leb r.last_seen_at s.last_seen_at

pub record Recorded : Type 0 where
  pub label : Label
  pub saved : ResponseTransition
  pub records : List ResponseTransition

-- The records with the one of the key changed in place, or pushed.
unfoldable pub upsert : Chars → Bool → ℕ → List ResponseTransition → List ResponseTransition
upsert key active now records = elim (find (has_key key) records) [
  | some r ↦ update (has_key key) (transit active now) records
  | none ↦ records ++ first_transition key active now ∷ []
]

-- What is done with the records that were read.
unfoldable pub record_transition : Chars → Bool → ℕ → List ResponseTransition → Recorded
record_transition key active now records =
    let stored = store seen_before max_response_transitions (upsert key active now records) in
    elim (find (has_key key) records) [
      | some r ↦ record {
        label = label_of r.active active;
        saved = transit active now r;
        records = stored;
      }
      | none ↦ record {
        label = if active then triggered else inactive;
        saved = first_transition key active now;
        records = stored;
      }
    ]

unfoldable pub record_response_transition : Chars → Bool → ℕ → List ResponseTransition → Recorded
unfolding record_transition
record_response_transition input active now file =
    record_transition (bounded_metadata input 512) active now (read_back is_transition file)
