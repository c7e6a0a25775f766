-- ===== src/Verify/Checkpoints.antt =====
-- crates/topgent-evidence/src/verify.rs, `check_checkpoints`: the signatures over the chain.
use topgent.Base.{
  ℕ, suc, ◌+◌, List, [], ◌∷◌, ◌++◌, Option, none, some, ltb, leb, ◌==◌, if◌then◌else◌, ite, last?,
}
use topgent.Text.{Bytes-discrete}
use topgent.Crypto.{Crypto}
use topgent.Order.{bytes_order}
use topgent.Order.Map
use topgent.Keys.{KeyId}
use topgent.Chain.{Chain, ChainEntry, Checkpoint, checkpoint_signed_by, count_u64, Origin-discrete}
use topgent.Bundle.{Breach}
use topgent.Verify.Authority.{Authority, Authorities}

-- The first entry at a sequence, with its position: `position` and `get`.
unfoldable pub find_entry : ℕ → ℕ → List ChainEntry → Option (ℕ × ChainEntry)
find_entry sequence at [] = none
find_entry sequence at (e ∷ es) =
    if e.sequence == sequence then some (at, e) else find_entry sequence (suc at) es

-- The sequence of the last entry, 0 for an empty chain.
unfoldable pub highest : List ChainEntry → ℕ
highest es = elim (last? es) [ none ↦ 0 | some e ↦ e.sequence ]

-- What one round of the loop over the checkpoints comes to: a breach, or the checkpoint counts.
pub data Outcome : Type 0 where
  refused : Breach → Outcome
  covers : Outcome

module _ (c : Crypto) where
  unfoldable pub check_count : Checkpoint → ℕ → Outcome
  check_count p at =
      if count_u64 (at + 1) == p.body.entry_count
      then covers
      else refused (Breach.count_mismatch p.body.entry_count (count_u64 (at + 1)))

  unfoldable pub check_head : Checkpoint → ℕ → ChainEntry → Outcome
  unfolding check_count
  check_head p at e =
      ite (Bytes-discrete e.hash p.body.head) (check_count p at)
        (refused (Breach.head_mismatch p.body.through_sequence p.body.head e.hash))

  unfoldable pub check_position : Checkpoint → List ChainEntry → Option (ℕ × ChainEntry) → Outcome
  unfolding check_head
  check_position p es none =
      refused (Breach.checkpoint_beyond_chain p.body.through_sequence (highest es))
  check_position p es (some (at, e)) = check_head p at e

  unfoldable pub check_signature : Checkpoint → List ChainEntry → Authority → Outcome
  unfolding check_position
  check_signature p es holder =
      if checkpoint_signed_by c p holder.key
      then check_position p es (find_entry p.body.through_sequence 0 es)
      else refused (Breach.bad_signature p.body.key_id p.body.through_sequence)

  unfoldable pub check_retired : Checkpoint → List ChainEntry → Authority → Option ℕ → Outcome
  unfolding check_signature
  check_retired p es holder none = check_signature p es holder
  check_retired p es holder (some retired) =
      if leb retired p.body.through_sequence
      then refused (Breach.retired_key p.body.key_id retired)
      else check_signature p es holder

  unfoldable pub check_holder : Checkpoint → List ChainEntry → Option Authority → Outcome
  unfolding check_retired
  check_holder p es none = refused (Breach.unknown_key p.body.key_id)
  check_holder p es (some holder) = check_retired p es holder holder.retired_from

  -- The guards of one round, in the order in which each continues the loop.
  unfoldable pub check_checkpoint : Chain → Authorities → Checkpoint → Outcome
  unfolding check_holder
  check_checkpoint chain m p =
      ite (Origin-discrete p.body.origin chain.origin)
        (check_holder p chain.entries (Map.get bytes_order p.body.key_id m))
        (refused (Breach.checkpoint_origin chain.origin p.body.origin))

abbrev pub Reach : Type 0
Reach = Option (KeyId × ℕ)

-- `furthest`: a checkpoint that reaches further replaces the one before.
unfoldable pub further : Reach → Checkpoint → Reach
further none p = some (p.body.key_id, p.body.through_sequence)
further (some (key, reach)) p =
    if ltb reach p.body.through_sequence
    then some (p.body.key_id, p.body.through_sequence)
    else some (key, reach)

module _ (c : Crypto) where
  abbrev pub count_outcome : Reach → Checkpoint → Outcome → List Breach × Reach
  count_outcome reach p (refused b) = (b ∷ [], reach)
  count_outcome reach p covers = ([], further reach p)

  unfoldable pub checkpoint_loop :
      Chain → Authorities → Reach → List Checkpoint → List Breach × Reach
  checkpoint_loop chain m reach [] = ([], reach)
  checkpoint_loop chain m reach (p ∷ ps) =
      let (first, reach') = count_outcome reach p (check_checkpoint c chain m p) in
      let (rest, reach'') = checkpoint_loop chain m reach' ps in (first ++ rest, reach'')

  -- `check_checkpoints`
  unfoldable pub check_checkpoints : Chain → Authorities → List Checkpoint → List Breach × Reach
  check_checkpoints chain m [] = (Breach.no_checkpoint ∷ [], none)
  check_checkpoints chain m (p ∷ ps) = checkpoint_loop chain m none (p ∷ ps)
