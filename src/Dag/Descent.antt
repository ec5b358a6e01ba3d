-- ===== src/Dag/Descent.antt =====
-- The search of `get_descendants` in dag/mod.rs against the child links.
use klomang_network.Prelude.{
  ℕ, ◌≡◌, ◌⊎◌, inl, inr, true, false, not, ◌||◌, ◌&&◌, List, [], ◌∷◌, nat_eq, eqb, eqb_iff, arith,
  refl, Bool-cases,
}
use klomang_network.Prelude.Map.{Map}
use klomang_network.Prelude.Set
use klomang_network.Prelude.Sort.{sort, contains-sort}
use klomang_network.Dag.{BlockNode, children_of}
use klomang_network.Dag.Cones.{Walk, with_child_visited, visit_children}
use klomang_network.Dag.Unseen.{Descendant, child, Descendant-child}

module _ (k : ℕ) where
  contains-visited :
      (cs : List ℕ) (w : Walk)
      → Set.contains (visit_children cs w).visited k
        ≡ (Set.contains cs k || Set.contains w.visited k)
  unfolding visit_children Set.contains
  contains-visited [] w = refl
  contains-visited (c ∷ cs) w = ground (
    arith,
    contains-visited cs w,
    contains-visited cs (with_child_visited c w),
    Set.contains-insert c k w.visited,
    eqb_iff c k,
  )

  contains-stack :
      (cs : List ℕ) (w : Walk)
      → Set.contains (visit_children cs w).stack k
        ≡ (Set.contains w.stack k || (Set.contains cs k && not (Set.contains w.visited k)))
  unfolding visit_children Set.contains
  contains-stack [] w = ground arith
  contains-stack (c ∷ cs) w = ground (
    arith,
    contains-stack cs w,
    contains-stack cs (with_child_visited c w),
    Set.contains-insert c k w.visited,
    eqb_iff c k,
  )

  contains-descendants :
      (cs : List ℕ) (w : Walk)
      → Set.contains (visit_children cs w).descendants k
        ≡ (Set.contains w.descendants k || (Set.contains cs k && not (Set.contains w.visited k)))
  unfolding visit_children Set.contains
  contains-descendants [] w = ground arith
  contains-descendants (c ∷ cs) w = ground (
    arith,
    contains-descendants cs w,
    contains-descendants cs (with_child_visited c w),
    Set.contains-insert c k w.visited,
    eqb_iff c k,
  )

-- What holds between the rounds of the search.
pub record Descends (m : Map ℕ BlockNode) (id : ℕ) (w : Walk) : Type 0 where
  pub apart : Set.contains w.descendants id ≡ false
  pub marked : (k : ℕ) → Set.contains w.visited k ≡ (eqb id k || Set.contains w.descendants k)
  pub reached : (k : ℕ) → Set.contains w.descendants k ≡ true → Descendant m k id
  pub closed :
      (v : ℕ)
      → Set.contains w.visited v ≡ true
      → (Set.contains w.stack v ≡ true)
        ⊎ ((c : ℕ) → Set.contains (children_of m v) c ≡ true → Set.contains w.visited c ≡ true)
  pub inside : (k : ℕ) → Set.contains w.stack k ≡ true → Set.contains w.visited k ≡ true

abbrev pub walk : List ℕ → List ℕ → List ℕ → Walk
walk descendants stack visited = record {
  descendants = descendants;
  stack = stack;
  visited = visited;
}

module _ (m : Map ℕ BlockNode) (id current : ℕ) (descendants stack visited : List ℕ)
    (s : Descends m id (walk descendants (current ∷ stack) visited)) where
  abbrev pub w0 : Walk
  w0 = walk descendants stack visited

  abbrev pub cs : List ℕ
  cs = sort (children_of m current)

  abbrev pub w1 : Walk
  w1 = visit_children cs w0

  current_seen : Set.contains visited current ≡ true
  unfolding Set.contains
  current_seen = s.inside current (ground (arith, eqb_iff current current))

  apart_next : Set.contains w1.descendants id ≡ false
  apart_next = ground (arith, contains-descendants id cs w0, s.apart, s.marked id, eqb_iff id id)

  marked_next : (k : ℕ) → Set.contains w1.visited k ≡ (eqb id k || Set.contains w1.descendants k)
  marked_next k = ground (arith, contains-descendants k cs w0, contains-visited k cs w0, s.marked k)

  below_id : (k : ℕ) → Set.contains (children_of m current) k ≡ true → Descendant m k id
  below_id k e = elim (where_is current_seen) [
    | inl same ↦ rw (same) (child e)
    | inr old ↦ Descendant-child m k current e (s.reached current old)
  ]
    where
      where_is :
          Set.contains visited current ≡ true
          → (id ≡ current) ⊎ (Set.contains descendants current ≡ true)
      where_is h = ground (arith, s.marked current, eqb_iff id current)

  reached_next : (k : ℕ) → Set.contains w1.descendants k ≡ true → Descendant m k id
  reached_next k h = elim (split h) [ inl old ↦ s.reached k old | inr new ↦ below_id k new ]
    where
      split :
          Set.contains w1.descendants k ≡ true
          → (Set.contains descendants k ≡ true) ⊎ (Set.contains (children_of m current) k ≡ true)
      split h =
          ground (arith, contains-descendants k cs w0, contains-sort k (children_of m current))

  inside_next : (k : ℕ) → Set.contains w1.stack k ≡ true → Set.contains w1.visited k ≡ true
  unfolding Set.contains
  inside_next k h = ground (arith, contains-stack k cs w0, contains-visited k cs w0, s.inside k)

  still_visited : (k : ℕ) → Set.contains visited k ≡ true → Set.contains w1.visited k ≡ true
  still_visited k h = ground (arith, contains-visited k cs w0)

  own_child :
      (k : ℕ) → Set.contains (children_of m current) k ≡ true → Set.contains w1.visited k ≡ true
  own_child k h = ground (arith, contains-visited k cs w0, contains-sort k (children_of m current))

  closed_next :
      (v : ℕ)
      → Set.contains w1.visited v ≡ true
      → (Set.contains w1.stack v ≡ true)
        ⊎ ((c : ℕ) → Set.contains (children_of m v) c ≡ true → Set.contains w1.visited c ≡ true)
  unfolding Set.contains
  closed_next v h = elim (Bool-cases (Set.contains visited v)) [
    | inr new ↦ inl (ground (arith, contains-stack v cs w0, contains-visited v cs w0))
    | inl old ↦ elim (s.closed v old) [
      | inr all ↦ inr (λ c e. still_visited c (all c e))
      | inl waiting ↦ elim (Bool-cases (eqb current v)) [
        | inl same ↦ inr (λ c e. own_child c (rw ((eqb_iff current v).0 same) e))
        | inr other ↦ inl (ground (arith, contains-stack v cs w0))
      ]
    ]
  ]

  pub Descends-next : Descends m id w1
  Descends-next = record {
    apart = apart_next;
    marked = marked_next;
    reached = reached_next;
    closed = closed_next;
    inside = inside_next;
  }
