-- ===== src/Dag/Graph.antt =====
-- Ancestry in the graph, and the facts that the searches of dag/mod.rs share.
use klomang_network.Prelude.{
  ℕ, ◌+◌, ◌≤◌, ◌≡◌, true, false, ◌||◌, List, [], ◌∷◌, length, nat_eq, eqb_iff, if◌then◌else◌, arith,
  refl,
}
use klomang_network.Prelude.Map.{Map, lookup}
use klomang_network.Prelude.Set
use klomang_network.Dag.{BlockNode, parents_of, push_all, insert_each, parent_count}

-- Reached from the block by one parent link or more.
pub data Ancestor (m : Map ℕ BlockNode) (a : ℕ) : ℕ → Type 0 where
  parent : {b : ℕ} → Set.contains (parents_of m b) a ≡ true → Ancestor m a b
  above : {b : ℕ} (p : ℕ) → Set.contains (parents_of m b) p ≡ true → Ancestor m a p → Ancestor m a b

pub Ancestor-parent :
    (m : Map ℕ BlockNode) (a p : ℕ) {b : ℕ}
    → Set.contains (parents_of m p) a ≡ true
    → Ancestor m p b
    → Ancestor m a b
Ancestor-parent m a p h (parent e) = above p e (parent h)
Ancestor-parent m a p h (above q e r) = above q e (Ancestor-parent m a p h r)

pub contains-push_all :
    (k : ℕ) (ps stack : List ℕ)
    → Set.contains (push_all ps stack) k ≡ (Set.contains ps k || Set.contains stack k)
unfolding push_all Set.contains
contains-push_all k [] stack = refl
contains-push_all k (p ∷ ps) stack = ground (arith, contains-push_all k ps (p ∷ stack))

pub length-push_all : (ps stack : List ℕ) → length (push_all ps stack) ≡ length ps + length stack
unfolding push_all
length-push_all [] stack = omega arith
length-push_all (p ∷ ps) stack = omega (arith, length-push_all ps (p ∷ stack))

pub contains-insert_each :
    (k : ℕ) (xs s : List ℕ)
    → Set.contains (insert_each xs s) k ≡ (Set.contains xs k || Set.contains s k)
unfolding insert_each Set.contains
contains-insert_each k [] s = refl
contains-insert_each k (x ∷ xs) s =
    ground (arith, contains-insert_each k xs (Set.insert x s), Set.contains-insert x k s)

-- The parents of the blocks that are still to be visited, counted.
pub unvisited : List ℕ → Map ℕ BlockNode → ℕ
unvisited visited [] = 0
unvisited visited ((k, b) ∷ m) =
    (if Set.contains visited k then 0 else length b.header.parents) + unvisited visited m

unvisited_mono :
    (c : ℕ) (visited : List ℕ) (m : Map ℕ BlockNode)
    → unvisited (Set.insert c visited) m ≤ unvisited visited m
unfolding unvisited
unvisited_mono c visited [] = omega arith
unvisited_mono c visited ((k, b) ∷ m) =
    ground (arith, unvisited_mono c visited m, Set.contains-insert c k visited)

-- A visit pays for the parents that it pushes.
pub unvisited-visit :
    (c : ℕ) (visited : List ℕ) (m : Map ℕ BlockNode)
    → Set.contains visited c ≡ false
    → unvisited (Set.insert c visited) m + length (parents_of m c) ≤ unvisited visited m
unfolding unvisited lookup
unvisited-visit c visited [] h = omega arith
unvisited-visit c visited ((k, b) ∷ m) h = ground (
  arith,
  unvisited-visit c visited m h,
  unvisited_mono c visited m,
  Set.contains-insert c k visited,
  eqb_iff k c,
)

pub unvisited-nil : (m : Map ℕ BlockNode) → unvisited [] m ≡ parent_count m
unfolding unvisited parent_count Set.contains
unvisited-nil [] = refl
unvisited-nil ((k, b) ∷ m) = omega (arith, unvisited-nil m)
