-- ===== src/Dag/Unseen.antt =====
-- The child links of the graph and the measure of the search of `get_descendants` in dag/mod.rs.
use klomang_network.Prelude.{
  ℕ, suc, ◌+◌, ◌≤◌, ◌≡◌, inl, inr, true, false, ◌||◌, List, [], ◌∷◌, length, nat_eq, eqb, eqb_iff,
  arith, Bool-cases, if◌then◌else◌,
}
use klomang_network.Prelude.Map.{Map, lookup}
use klomang_network.Prelude.Set
use klomang_network.Dag.{BlockNode, children_of}
use klomang_network.Dag.Cones.{Walk, with_child_visited, visit_children, child_count}

-- Reached from the block by one child link or more.
pub data Descendant (m : Map ℕ BlockNode) (a : ℕ) : ℕ → Type 0 where
  child : {b : ℕ} → Set.contains (children_of m b) a ≡ true → Descendant m a b
  below :
      {b : ℕ} (p : ℕ)
      → Set.contains (children_of m b) p ≡ true
      → Descendant m a p
      → Descendant m a b

pub Descendant-child :
    (m : Map ℕ BlockNode) (a p : ℕ) {b : ℕ}
    → Set.contains (children_of m p) a ≡ true
    → Descendant m p b
    → Descendant m a b
Descendant-child m a p h (child e) = below p e (child h)
Descendant-child m a p h (below q e r) = below q e (Descendant-child m a p h r)

-- The child links that lead to hashes not yet visited, counted.
unseen_in : List ℕ → List ℕ → ℕ
unseen_in visited [] = 0
unseen_in visited (c ∷ cs) = (if Set.contains visited c then 0 else 1) + unseen_in visited cs

pub unseen : List ℕ → Map ℕ BlockNode → ℕ
unseen visited [] = 0
unseen visited ((_, b) ∷ m) = unseen_in visited b.children + unseen visited m

unseen_in_mono :
    (c : ℕ) (visited cs : List ℕ) → unseen_in (Set.insert c visited) cs ≤ unseen_in visited cs
unfolding unseen_in
unseen_in_mono c visited [] = omega arith
unseen_in_mono c visited (k ∷ cs) =
    ground (arith, unseen_in_mono c visited cs, Set.contains-insert c k visited)

unseen_mono :
    (c : ℕ) (visited : List ℕ) (m : Map ℕ BlockNode)
    → unseen (Set.insert c visited) m ≤ unseen visited m
unfolding unseen
unseen_mono c visited [] = omega arith
unseen_mono c visited ((_, b) ∷ m) =
    omega (arith, unseen_in_mono c visited b.children, unseen_mono c visited m)

unseen_in-visit :
    (c : ℕ) (visited cs : List ℕ)
    → Set.contains visited c ≡ false
    → Set.contains cs c ≡ true
    → suc (unseen_in (Set.insert c visited) cs) ≤ unseen_in visited cs
unfolding unseen_in Set.contains
unseen_in-visit c visited [] h e = ground arith
unseen_in-visit c visited (k ∷ cs) h e = ground (
  arith,
  unseen_in-visit c visited cs h,
  unseen_in_mono c visited cs,
  Set.contains-insert c k visited,
  eqb_iff k c,
  eqb_iff c k,
)

unseen-visit :
    (c k : ℕ) (visited : List ℕ) (m : Map ℕ BlockNode)
    → Set.contains visited c ≡ false
    → Set.contains (children_of m k) c ≡ true
    → suc (unseen (Set.insert c visited) m) ≤ unseen visited m
unfolding unseen lookup Set.contains
unseen-visit c k visited [] h e = ground arith
unseen-visit c k visited ((i, b) ∷ m) h e = ground (
  arith,
  unseen-visit c k visited m h,
  unseen_in-visit c visited b.children h,
  unseen_mono c visited m,
  unseen_in_mono c visited b.children,
)

unseen_in-length : (visited cs : List ℕ) → unseen_in visited cs ≤ length cs
unfolding unseen_in
unseen_in-length visited [] = omega arith
unseen_in-length visited (c ∷ cs) = ground (arith, unseen_in-length visited cs)

pub unseen-child_count : (visited : List ℕ) (m : Map ℕ BlockNode) → unseen visited m ≤ child_count m
unfolding unseen child_count
unseen-child_count visited [] = omega arith
unseen-child_count visited ((_, b) ∷ m) =
    omega (arith, unseen_in-length visited b.children, unseen-child_count visited m)

abbrev pub cost : Map ℕ BlockNode → Walk → ℕ
cost m w = length w.stack + unseen w.visited m

-- What the children push is paid by what they mark.
pub cost-visit_children :
    (m : Map ℕ BlockNode) (k : ℕ) (cs : List ℕ) (w : Walk)
    → ((c : ℕ) → Set.contains cs c ≡ true → Set.contains (children_of m k) c ≡ true)
    → cost m (visit_children cs w) ≤ cost m w
unfolding visit_children Set.contains
cost-visit_children m k [] w h = omega arith
cost-visit_children m k (c ∷ cs) w h = elim (Bool-cases (Set.contains w.visited c)) [
  | inl old ↦ rw (old, visit_children) (cost-visit_children m k cs w (λ d e. h d (later d e)))
  | inr new ↦
      rw (new, visit_children)
        (omega (
          arith,
          cost-visit_children m k cs (with_child_visited c w) (λ d e. h d (later d e)),
          unseen-visit c k w.visited m new (h c (head c)),
        ))
]
  where
    later : (d : ℕ) → Set.contains cs d ≡ true → (eqb c d || Set.contains cs d) ≡ true
    later d e = ground arith

    head : (c : ℕ) → (eqb c c || Set.contains cs c) ≡ true
    head c = ground (arith, eqb_iff c c)
