-- ===== src/Enforce/Descendants.antt =====
-- crates/topgent-enforce/src/execute.rs, `tree_targets`: the targets against the descendants of the
-- root in the table.
use topgent.Base.{
  ℕ, suc, zero, ◌≡◌, ◌⊎◌, inl, inr, true, not, ◌&&◌, List, [], ◌∷◌, ◌++◌, length, Option, none,
  some, arith, ap, sym, subst, ◌∙◌, All, Any, Bool-cases,
}
use mathlib.Core.Option.{some-injective}
use topgent.Machine.{usize_max, saturating_add}
use topgent.Enforce.{ProcInfo}
use topgent.Enforce.Tree.{Target, Walk, is_member, is_child, meet, visit, walk_tree, tree_targets}
use topgent.Enforce.Descent.{Listed, Within, Within-self}

-- The process `pid` is the root, or its parent, as the table states it, descends from the root.
pub data Descends (ps : List ProcInfo) (root : ℕ) : ℕ → Type 0 where
  here : Descends ps root root
  down :
      (parent : ℕ) (p : ProcInfo)
      → Descends ps root parent
      → Listed ps p
      → p.parent ≡ some parent
      → Descends ps root p.pid

module _ (ps : List ProcInfo) (root : ℕ) where
  abbrev pub Found : Target → Type 0
  Found t = Listed ps t.0 × Descends ps root t.0.pid

  abbrev Open : ℕ × ℕ → Type 0
  Open f = Descends ps root f.0

  -- Nothing else is found.
  abbrev Sound : Walk → Type 0
  Sound w = All Found w.targets × All Open w.frontier

  All-snoc : (ts : List Target) (t : Target) → All Found ts → Found t → All Found (ts ++ t ∷ [])
  All-snoc [] t h k = (k, tt)
  All-snoc (u ∷ us) t h k = (h.0, All-snoc us t h.1 k)

  child_parent : (o : Option ℕ) (parent : ℕ) → is_child o parent ≡ true → o ≡ some parent
  unfolding is_child
  child_parent none parent h = ground arith
  child_parent (some p) parent h = ground arith

  meet-Sound :
      (parent depth : ℕ) (p : ProcInfo) (w : Walk)
      → Descends ps root parent
      → Listed ps p
      → Sound w
      → Sound (meet parent depth p w)
  unfolding meet
  meet-Sound parent depth p w d l h =
      elim (Bool-cases (is_child p.parent parent && not (is_member p.pid w.seen))) [
        | inr n ↦ rw n h
        | inl y ↦
            let r : Descends ps root p.pid =
              down parent p d l (child_parent p.parent parent (ground arith)) in
            rw y (All-snoc w.targets (p, saturating_add usize_max depth 1) h.0 (l, r), (r, h.1))
      ]

  visit-Sound :
      (parent depth : ℕ) (qs : List ProcInfo) (w : Walk)
      → Descends ps root parent
      → Within ps qs
      → Sound w
      → Sound (visit parent depth qs w)
  unfolding visit
  visit-Sound parent depth [] w d l h = h
  visit-Sound parent depth (q ∷ qs) w d l h =
      visit-Sound parent depth qs (meet parent depth q w) d l.1
        (meet-Sound parent depth q w d l.0 h)

  -- Nothing is missed: what is seen is the root or a target, and a child of what is seen is seen,
  -- unless its parent is still on the frontier.
  abbrev Kept : Walk → Type 0
  Kept w = (n : ℕ) → is_member n w.seen ≡ true → (n ≡ root) ⊎ Any (λ t. t.0.pid ≡ n) w.targets

  abbrev Waits : (ℕ → Type 0) → Walk → Type 0
  Waits P w =
      (p : ProcInfo) (x : ℕ)
      → Listed ps p
      → p.parent ≡ some x
      → is_member x w.seen ≡ true
      → (is_member p.pid w.seen ≡ true) ⊎ (Any (λ f. f.0 ≡ x) w.frontier ⊎ P x)

  meet_mono :
      (n parent depth : ℕ) (p : ProcInfo) (w : Walk)
      → is_member n w.seen ≡ true
      → is_member n (meet parent depth p w).seen ≡ true
  unfolding meet is_member
  meet_mono n parent depth p w h = ground arith

  visit_mono :
      (n parent depth : ℕ) (qs : List ProcInfo) (w : Walk)
      → is_member n w.seen ≡ true
      → is_member n (visit parent depth qs w).seen ≡ true
  unfolding visit
  visit_mono n parent depth [] w h = h
  visit_mono n parent depth (q ∷ qs) w h =
      visit_mono n parent depth qs (meet parent depth q w) (meet_mono n parent depth q w h)

  Any-snoc :
      (ts : List Target) (t : Target) (n : ℕ)
      → (Any (λ u. u.0.pid ≡ n) ts ⊎ (t.0.pid ≡ n))
      → Any (λ u. u.0.pid ≡ n) (ts ++ t ∷ [])
  Any-snoc [] t n (inl a) = absurd a
  Any-snoc [] t n (inr e) = inl e
  Any-snoc (u ∷ us) t n (inl (inl e)) = inl e
  Any-snoc (u ∷ us) t n (inl (inr a)) = inr (Any-snoc us t n (inl a))
  Any-snoc (u ∷ us) t n (inr e) = inr (Any-snoc us t n (inr e))

  meet-Kept : (parent depth : ℕ) (p : ProcInfo) (w : Walk) → Kept w → Kept (meet parent depth p w)
  unfolding meet is_member
  meet-Kept parent depth p w h n m =
      ground (arith, h n, Any-snoc w.targets (p, saturating_add usize_max depth 1) n)

  meet-Waits :
      (P : ℕ → Type 0) (parent depth : ℕ) (p : ProcInfo) (w : Walk)
      → Waits P w
      → Waits P (meet parent depth p w)
  unfolding meet is_member
  meet-Waits P parent depth p w h q x l e m = ground (arith, h q x l e)

  meet_child :
      (parent depth : ℕ) (p : ProcInfo) (w : Walk)
      → p.parent ≡ some parent
      → is_member p.pid (meet parent depth p w).seen ≡ true
  unfolding meet is_member is_child
  meet_child parent depth p w e = ground arith

  visit-Kept :
      (parent depth : ℕ) (qs : List ProcInfo) (w : Walk) → Kept w → Kept (visit parent depth qs w)
  unfolding visit
  visit-Kept parent depth [] w h = h
  visit-Kept parent depth (q ∷ qs) w h =
      visit-Kept parent depth qs (meet parent depth q w) (meet-Kept parent depth q w h)

  visit-Waits :
      (P : ℕ → Type 0) (parent depth : ℕ) (qs : List ProcInfo) (w : Walk)
      → Waits P w
      → Waits P (visit parent depth qs w)
  unfolding visit
  visit-Waits P parent depth [] w h = h
  visit-Waits P parent depth (q ∷ qs) w h =
      visit-Waits P parent depth qs (meet parent depth q w) (meet-Waits P parent depth q w h)

  visit_child :
      (parent depth : ℕ) (qs : List ProcInfo) (w : Walk) (p : ProcInfo)
      → Listed qs p
      → p.parent ≡ some parent
      → is_member p.pid (visit parent depth qs w).seen ≡ true
  unfolding visit
  visit_child parent depth [] w p l e = absurd l
  visit_child parent depth (q ∷ qs) w p (inl same) e =
      visit_mono p.pid parent depth qs (meet parent depth q w)
        (rw (sym same) (meet_child parent depth q w (ap (λ a. a.parent) same ∙ e)))
  visit_child parent depth (q ∷ qs) w p (inr l) e =
      visit_child parent depth qs (meet parent depth q w) p l e

  -- What holds each time that the frontier is looked at.
  abbrev Good : Walk → Type 0
  Good w = Sound w × Kept w × Waits (λ x. ⊥) w × (is_member root w.seen ≡ true)

  abbrev popped : List Target → List (ℕ × ℕ) → List ℕ → Walk
  popped targets frontier seen = record { targets = targets; frontier = frontier; seen = seen }

  visit-Good :
      (parent depth : ℕ) (targets : List Target) (frontier : List (ℕ × ℕ)) (seen : List ℕ)
      → Good (popped targets ((parent, depth) ∷ frontier) seen)
      → Good (visit parent depth ps (popped targets frontier seen))
  visit-Good parent depth targets frontier seen (sound, kept, waits, r) = (
    visit-Sound parent depth ps (popped targets frontier seen) sound.1.0 (Within-self ps)
        (sound.0, sound.1.1),
    visit-Kept parent depth ps (popped targets frontier seen) kept,
    λ q x l e m.
        elim (visit-Waits (λ x. parent ≡ x) parent depth ps (popped targets frontier seen)
          (λ q x l e m. ground (arith, waits q x l e m)) q x l e m) [
            | inl k ↦ inl k
            | inr (inl k) ↦ inr (inl k)
            | inr (inr k) ↦ inl (
                visit_child parent depth ps (popped targets frontier seen) q l
                  (e ∙ ap some (sym k)))
          ],
    visit_mono root parent depth ps (popped targets frontier seen) r,
  )

  walk_tree-Good :
      (rounds : ℕ) (targets : List Target) (frontier : List (ℕ × ℕ)) (seen : List ℕ) (end : Walk)
      → Good (popped targets frontier seen)
      → walk_tree rounds ps targets frontier seen ≡ some end
      → Good end × (end.frontier ≡ [])
  unfolding walk_tree
  walk_tree-Good rounds targets [] seen end h e =
      let same : popped targets [] seen ≡ end = some-injective (popped targets [] seen) end e in
      (subst Good same h, ap (λ w. w.frontier) (sym same))
  walk_tree-Good zero targets (f ∷ frontier) seen end h e = ground arith
  walk_tree-Good (suc rounds) targets ((parent, depth) ∷ frontier) seen end h e =
      let w : Walk = visit parent depth ps (popped targets frontier seen) in
      walk_tree-Good rounds w.targets w.frontier w.seen end
        (visit-Good parent depth targets frontier seen h) e

  start-Good : Good (popped [] ((root, 0) ∷ []) (root ∷ []))
  unfolding is_member
  start-Good = (
    (tt, (here, tt)),
    λ n m. inl (ground arith),
    λ p x l e m. inr (inl (inl (ground arith))),
    ground arith,
  )

  descendants_seen_lem :
      (w : Walk) (n : ℕ) → Good w → w.frontier ≡ [] → Descends ps root n → is_member n w.seen ≡ true
  descendants_seen_lem w _ (sound, kept, waits, r) e here = r
  descendants_seen_lem w _ (sound, kept, waits, r) e (down parent p d l k) =
      elim (waits p parent l k (descendants_seen_lem w parent (sound, kept, waits, r) e d)) [
        | inl m ↦ m
        | inr (inl a) ↦ absurd (rw e at a)
        | inr (inr a) ↦ absurd a
      ]

  -- Every target is a process of the table that descends from the root, and every descendant of the
  -- root is the root or the pid of a target.
  pub tree_targets_exact :
      (w : Walk)
      → tree_targets root ps ≡ some w
      → All Found w.targets
        × ((n : ℕ) → Descends ps root n → (n ≡ root) ⊎ Any (λ t. t.0.pid ≡ n) w.targets)
  unfolding tree_targets
  tree_targets_exact w e =
      let h : Good w × (w.frontier ≡ []) =
        walk_tree-Good (suc (length ps)) [] ((root, 0) ∷ []) (root ∷ []) w start-Good e in
      (h.0.0.0, λ n d. h.0.1 n (descendants_seen_lem w n h.0 h.1 d))
