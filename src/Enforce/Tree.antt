-- ===== src/Enforce/Tree.antt =====
-- crates/topgent-enforce/src/execute.rs, `tree_targets`: the descendants of a process in the table,
-- and their order, the deepest first.
use topgent.Base.{
  ℕ, suc, zero, ltb, leb, Bool, false, ◌&&◌, ◌||◌, not, ◌==◌, List, [], ◌∷◌, ◌++◌, length, Option,
  none, some, if◌then◌else◌,
}
use topgent.Machine.{usize_max, saturating_add}
use topgent.Enforce.{ProcInfo}

abbrev pub Target : Type 0
Target = ProcInfo × ℕ

unfoldable pub is_member : ℕ → List ℕ → Bool
is_member n [] = false
is_member n (m ∷ ms) = n == m || is_member n ms

unfoldable pub is_child : Option ℕ → ℕ → Bool
is_child none parent = false
is_child (some p) parent = p == parent

-- What the walk over the table carries. The frontier is a stack, its top first.
pub record Walk : Type 0 where
  pub targets : List Target
  pub frontier : List (ℕ × ℕ)
  pub seen : List ℕ

-- The body of the `for`, for one process of the table.
unfoldable pub meet : ℕ → ℕ → ProcInfo → Walk → Walk
meet parent depth child w =
    if is_child child.parent parent && not (is_member child.pid w.seen)
    then record {
      targets = w.targets ++ (child, saturating_add usize_max depth 1) ∷ [];
      frontier = (child.pid, saturating_add usize_max depth 1) ∷ w.frontier;
      seen = child.pid ∷ w.seen;
    }
    else w

unfoldable pub visit : ℕ → ℕ → List ProcInfo → Walk → Walk
visit parent depth [] w = w
visit parent depth (p ∷ ps) w = visit parent depth ps (meet parent depth p w)

-- `while let Some((parent, depth)) = frontier.pop()`, on the rounds that come first.
unfoldable pub walk_tree : ℕ → List ProcInfo → List Target → List (ℕ × ℕ) → List ℕ → Option Walk
walk_tree rounds processes targets [] seen =
    some (record { targets = targets; frontier = []; seen = seen })
walk_tree zero processes targets (_ ∷ _) seen = none
walk_tree (suc rounds) processes targets ((parent, depth) ∷ frontier) seen =
    let w =
      visit parent depth processes
        (record { targets = targets; frontier = frontier; seen = seen }) in
    walk_tree rounds processes w.targets w.frontier w.seen

unfoldable pub tree_targets : ℕ → List ProcInfo → Option Walk
tree_targets root processes =
    walk_tree (suc (length processes)) processes [] ((root, 0) ∷ []) (root ∷ [])

-- `sort_by_key(|(target, depth)| (Reverse(*depth), target.pid))`
unfoldable pub comes_first : Target → Target → Bool
comes_first (p, d) (q, e) = ltb e d || (d == e && leb p.pid q.pid)

unfoldable pub insert_target : Target → List Target → List Target
insert_target t [] = t ∷ []
insert_target t (u ∷ us) =
    let rest = insert_target t us in if comes_first t u then t ∷ u ∷ us else u ∷ rest

unfoldable pub sort_targets : List Target → List Target
sort_targets [] = []
sort_targets (t ∷ ts) = insert_target t (sort_targets ts)
