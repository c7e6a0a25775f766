-- ===== src/Enforce/Descent.antt =====
-- crates/topgent-enforce/src/execute.rs, `tree_targets`: that the walk ends, and what it finds.
use topgent.Base.{
  ℕ, suc, zero, ◌+◌, ◌≤◌, ◌≡◌, ◌≢◌, refl, inl, inr, false, List, [], ◌∷◌, length, none, arith, All,
  Any, if◌then◌else◌,
}
use topgent.Enforce.{ProcInfo}
use topgent.Enforce.Tree.{Target, Walk, is_member, meet, visit, walk_tree, tree_targets}

abbrev pub Listed : List ProcInfo → ProcInfo → Type 0
Listed ps p = Any (λ q. q ≡ p) ps

-- The processes of a list are in the table.
abbrev pub Within : List ProcInfo → List ProcInfo → Type 0
Within ps = All (Listed ps)

Within-cons : (p : ProcInfo) (ps qs : List ProcInfo) → Within ps qs → Within (p ∷ ps) qs
Within-cons p ps [] h = tt
Within-cons p ps (q ∷ qs) h = (inr h.0, Within-cons p ps qs h.1)

pub Within-self : (ps : List ProcInfo) → Within ps ps
Within-self [] = tt
Within-self (p ∷ ps) = (inl refl, Within-cons p ps ps (Within-self ps))

-- How many processes of the table are not seen yet.
unfoldable unseen : List ℕ → List ProcInfo → ℕ
unseen seen [] = 0
unseen seen (p ∷ ps) = (if is_member p.pid seen then 0 else 1) + unseen seen ps

unseen_le_length : (seen : List ℕ) (ps : List ProcInfo) → unseen seen ps ≤ length ps
unfolding unseen
unseen_le_length seen [] = omega arith
unseen_le_length seen (p ∷ ps) = ground (arith, unseen_le_length seen ps)

unseen_cons_le :
    (n : ℕ) (seen : List ℕ) (ps : List ProcInfo) → unseen (n ∷ seen) ps ≤ unseen seen ps
unfolding unseen is_member
unseen_cons_le n seen [] = omega arith
unseen_cons_le n seen (p ∷ ps) = ground (arith, unseen_cons_le n seen ps)

unseen_cons_lt :
    (p : ProcInfo) (seen : List ℕ) (ps : List ProcInfo)
    → Listed ps p
    → is_member p.pid seen ≡ false
    → suc (unseen (p.pid ∷ seen) ps) ≤ unseen seen ps
unfolding unseen is_member
unseen_cons_lt p seen [] h m = absurd h
unseen_cons_lt p seen (q ∷ ps) (inl e) m = ground (arith, unseen_cons_le p.pid seen ps)
unseen_cons_lt p seen (q ∷ ps) (inr a) m = ground (arith, unseen_cons_lt p seen ps a m)

-- What is left to do: the frontier, and what may still enter it.
abbrev left : List ProcInfo → Walk → ℕ
left ps w = length w.frontier + unseen w.seen ps

meet-left :
    (ps : List ProcInfo) (parent depth : ℕ) (p : ProcInfo) (w : Walk)
    → Listed ps p
    → left ps (meet parent depth p w) ≤ left ps w
unfolding meet
meet-left ps parent depth p w h = ground (arith, unseen_cons_lt p w.seen ps h)

visit-left :
    (ps : List ProcInfo) (parent depth : ℕ) (qs : List ProcInfo) (w : Walk)
    → Within ps qs
    → left ps (visit parent depth qs w) ≤ left ps w
unfolding visit
visit-left ps parent depth [] w h = omega arith
visit-left ps parent depth (q ∷ qs) w h = omega (
  arith,
  meet-left ps parent depth q w h.0,
  visit-left ps parent depth qs (meet parent depth q w) h.1,
)

walk_tree-total :
    (rounds : ℕ) (ps : List ProcInfo) (targets : List Target) (frontier : List (ℕ × ℕ))
    (seen : List ℕ)
    → length frontier + unseen seen ps ≤ rounds
    → walk_tree rounds ps targets frontier seen ≢ none
unfolding walk_tree
walk_tree-total rounds ps targets [] seen h = λ e. ground arith
walk_tree-total zero ps targets (f ∷ frontier) seen h = absurd (omega arith)
walk_tree-total (suc rounds) ps targets ((parent, depth) ∷ frontier) seen h =
    let w : Walk =
      visit parent depth ps (record { targets = targets; frontier = frontier; seen = seen }) in
    walk_tree-total rounds ps w.targets w.frontier w.seen (
      omega (
        arith,
        visit-left ps parent depth ps
            (record { targets = targets; frontier = frontier; seen = seen }) (Within-self ps),
      ))

-- The rounds of `tree_targets` are enough: on any table, also one whose parents form a cycle, the
-- walk empties its frontier.
pub tree_targets-total : (root : ℕ) (ps : List ProcInfo) → tree_targets root ps ≢ none
unfolding tree_targets
tree_targets-total root ps =
    walk_tree-total (suc (length ps)) ps [] ((root, 0) ∷ []) (root ∷ [])
      (omega (arith, unseen_le_length (root ∷ []) ps))
