-- ===== src/Dag/Ancestors.antt =====
-- `get_ancestors` and `is_ancestor` against the ancestry of the graph.
use klomang_network.Prelude.{
  ℕ, zero, suc, ◌+◌, ◌<◌, ◌≡◌, ◌≢◌, ◌↔◌, ◌⊎◌, inl, inr, Bool, true, false, List, [], ◌∷◌, length,
  nat_eq, eqb, eqb_iff, arith, refl, Bool-cases, sym, ◌∙◌, Option, some,
}
use klomang_network.Prelude.Map.{Map}
use klomang_network.Prelude.Set
use klomang_network.Prelude.Sort.{sort, contains-sort, length-sort}
use klomang_network.Dag.{
  BlockNode, Dag, parents_of, push_all, insert_each, search_fuel, ancestor_search,
  collect_ancestors, is_ancestor, get_ancestors,
}
use klomang_network.Dag.Search.{
  Seen, Searches, visited_above, start_visited, Searches-skip, below_current, Searches-visit,
  contains-head,
}
use klomang_network.Dag.Graph.{
  Ancestor, length-push_all, contains-insert_each, unvisited, unvisited-visit, unvisited-nil,
}

record Collects (m : Map ℕ BlockNode) (id : ℕ) (visited ancestors : List ℕ) : Type 0 where
  above_id : (k : ℕ) → Set.contains ancestors k ≡ true → Ancestor m k id
  collected :
      (v p : ℕ)
      → Set.contains visited v ≡ true
      → Set.contains (parents_of m v) p ≡ true
      → Set.contains ancestors p ≡ true

abbrev pub IsAncestry : Map ℕ BlockNode → ℕ → List ℕ → Type 0
IsAncestry m id out = (k : ℕ) → (Set.contains out k ≡ true) ↔ Ancestor m k id

Collects-visit :
    (m : Map ℕ BlockNode) (id current : ℕ) (visited ancestors : List ℕ)
    → ((k : ℕ) → Set.contains (parents_of m current) k ≡ true → Ancestor m k id)
    → Collects m id visited ancestors
    → Collects m id
        (Set.insert current visited)
        (insert_each (sort (parents_of m current)) ancestors)
Collects-visit m id current visited ancestors below c = record {
  above_id = λ k h. elim (split k h) [ inl new ↦ below k new | inr old ↦ c.above_id k old ];
  collected = λ v p hv hp. elim (origin v hv) [
    | inl same ↦ joined p (inl (rw (same, hp) refl))
    | inr old ↦ joined p (inr (c.collected v p old hp))
  ];
}
  where
    ps : List ℕ
    ps = sort (parents_of m current)

    split :
        (k : ℕ)
        → Set.contains (insert_each ps ancestors) k ≡ true
        → (Set.contains (parents_of m current) k ≡ true) ⊎ (Set.contains ancestors k ≡ true)
    split k h =
        ground (arith, contains-insert_each k ps ancestors, contains-sort k (parents_of m current))

    joined :
        (k : ℕ)
        → (Set.contains (parents_of m current) k ≡ true) ⊎ (Set.contains ancestors k ≡ true)
        → Set.contains (insert_each ps ancestors) k ≡ true
    joined k h =
        ground (arith, contains-insert_each k ps ancestors, contains-sort k (parents_of m current))

    origin :
        (v : ℕ)
        → Set.contains (Set.insert current visited) v ≡ true
        → (current ≡ v) ⊎ (Set.contains visited v ≡ true)
    origin v h = ground (arith, Set.contains-insert current v visited, eqb_iff current v)

-- A visit pays for what it pushes.
visit_paid :
    (m : Map ℕ BlockNode) (fuel current : ℕ) (stack visited : List ℕ)
    → Set.contains visited current ≡ false
    → length (current ∷ stack) + unvisited visited m < suc fuel
    → length (push_all (sort (parents_of m current)) stack)
        + unvisited (Set.insert current visited) m
      < fuel
visit_paid m fuel current stack visited new h = omega (
  arith,
  length-push_all (sort (parents_of m current)) stack,
  length-sort (parents_of m current),
  unvisited-visit current visited m new,
)

collect_ancestors-IsAncestry :
    (fuel : ℕ) (m : Map ℕ BlockNode) (id : ℕ) (ancestors stack visited : List ℕ)
    → Searches m id stack visited
    → Collects m id visited ancestors
    → length stack + unvisited visited m < fuel
    → (out : List ℕ) × (collect_ancestors fuel m ancestors stack visited ≡ some out)
      × IsAncestry m id out
unfolding collect_ancestors
collect_ancestors-IsAncestry zero m id ancestors stack visited s c h = absurd (omega arith)
collect_ancestors-IsAncestry (suc fuel) m id ancestors [] visited s c h =
    (ancestors, refl, λ k. (c.above_id k, all_above k))
  where
    all_above : (k : ℕ) → Ancestor m k id → Set.contains ancestors k ≡ true
    all_above k r =
        let (v, hv, hp) = visited_above m id visited s k r (start_visited m id visited s) in
        c.collected v k hv hp
collect_ancestors-IsAncestry (suc fuel) m id ancestors (current ∷ stack) visited s c h =
    elim (Bool-cases (Set.contains visited current)) [
      | inl seen ↦ rw (seen) (
          collect_ancestors-IsAncestry fuel m id ancestors stack visited
            (Searches-skip m id current stack visited s seen) c (omega arith))
      | inr new ↦ rw (new) (
          collect_ancestors-IsAncestry fuel m id
            (insert_each (sort (parents_of m current)) ancestors)
            (push_all (sort (parents_of m current)) stack) (Set.insert current visited)
            (Searches-visit m id current stack visited s)
            (Collects-visit m id current visited ancestors
              (below_current m id current stack visited s) c)
            (visit_paid m fuel current stack visited new h))
    ]

start-Searches : (m : Map ℕ BlockNode) (id : ℕ) → Searches m id (id ∷ []) []
unfolding Set.contains
start-Searches m id = record {
  start = inr (contains-head id []);
  closed = λ v p hv hp. absurd (false_true hv);
  reached = λ k h. inl (only k h);
}
  where
    false_true : false ≡ true → ⊥
    false_true h = cc

    only : (k : ℕ) → Seen (id ∷ []) [] k → k ≡ id
    only k h = ground (arith, eqb_iff id k)

start-Collects : (m : Map ℕ BlockNode) (id : ℕ) → Collects m id [] []
unfolding Set.contains
start-Collects m id = record {
  above_id = λ k h. absurd (false_true h);
  collected = λ v p hv hp. absurd (false_true hv);
}
  where
    false_true : false ≡ true → ⊥
    false_true h = cc

enough_fuel : (m : Map ℕ BlockNode) (id : ℕ) → length (id ∷ []) + unvisited [] m < search_fuel m
enough_fuel m id = omega (arith, unvisited-nil m)

-- In every graph and for every block, the search of `get_ancestors` ends, and the hashes it returns
-- are exactly those reached from the block by one parent link or more.
pub get_ancestors-IsAncestry :
    (d : Dag) (id : ℕ)
    → (out : List ℕ) × (get_ancestors d id ≡ some out) × IsAncestry d.blocks id out
unfolding get_ancestors
get_ancestors-IsAncestry d id =
    let (out, e, h) =
      collect_ancestors-IsAncestry (search_fuel d.blocks) d.blocks id [] (id ∷ []) []
        (start-Searches d.blocks id) (start-Collects d.blocks id) (enough_fuel d.blocks id) in
    (sort out, rw (e, get_ancestors) refl, λ k. rw (contains-sort k out) (h k))

-- No block that was visited has `a` among its parents.
abbrev Misses : Map ℕ BlockNode → ℕ → List ℕ → Type 0
Misses m a visited =
    (v : ℕ) → Set.contains visited v ≡ true → Set.contains (parents_of m v) a ≡ false

abbrev pub Decides : Map ℕ BlockNode → ℕ → ℕ → Option Bool → Type 0
Decides m a id r = ((r ≡ some true) × Ancestor m a id) ⊎ ((r ≡ some false) × ¬ Ancestor m a id)

Misses-visit :
    (m : Map ℕ BlockNode) (a current : ℕ) (visited : List ℕ)
    → Set.contains (sort (parents_of m current)) a ≡ false
    → Misses m a visited
    → Misses m a (Set.insert current visited)
Misses-visit m a current visited miss h v hv = elim (origin hv) [
  | inl same ↦ rw (← same) (sym (contains-sort a (parents_of m current)) ∙ miss)
  | inr old ↦ h v old
]
  where
    origin :
        Set.contains (Set.insert current visited) v ≡ true
        → (current ≡ v) ⊎ (Set.contains visited v ≡ true)
    origin hv = ground (arith, Set.contains-insert current v visited, eqb_iff current v)

ancestor_search-Decides :
    (fuel : ℕ) (m : Map ℕ BlockNode) (id a : ℕ) (stack visited : List ℕ)
    → Searches m id stack visited
    → Misses m a visited
    → length stack + unvisited visited m < fuel
    → Decides m a id (ancestor_search fuel m a stack visited)
unfolding ancestor_search
ancestor_search-Decides zero m id a stack visited s c h = absurd (omega arith)
ancestor_search-Decides (suc fuel) m id a [] visited s c h = inr (refl, unreached)
  where
    unreached : ¬ Ancestor m a id
    unreached r =
        let (v, hv, hp) = visited_above m id visited s a r (start_visited m id visited s) in
        both (c v hv) hp
      where
        both : {b : Bool} → b ≡ false → b ≡ true → ⊥
        both e f = cc
ancestor_search-Decides (suc fuel) m id a (current ∷ stack) visited s c h =
    elim (Bool-cases (Set.contains visited current)) [
      | inl seen ↦ rw (seen) (
          ancestor_search-Decides fuel m id a stack visited
            (Searches-skip m id current stack visited s seen) c (omega arith))
      | inr new ↦ elim (Bool-cases (Set.contains (sort (parents_of m current)) a)) [
        | inl hit ↦
            rw (new, hit)
              (inl (
                refl,
                below_current m id current stack visited s a
                    (sym (contains-sort a (parents_of m current)) ∙ hit),
              ))
        | inr miss ↦
            rw (new, miss)
              (ancestor_search-Decides fuel m id a (push_all (sort (parents_of m current)) stack)
                (Set.insert current visited) (Searches-visit m id current stack visited s)
                (Misses-visit m a current visited miss c)
                (visit_paid m fuel current stack visited new h))
      ]
    ]

-- In every graph, for two different blocks, `is_ancestor` ends: it returns true and the first
-- is reached from the second by one parent link or more, or it returns false and it is not.
pub is_ancestor-Decides : (d : Dag) (a b : ℕ) → a ≢ b → Decides d.blocks a b (is_ancestor d a b)
unfolding is_ancestor Set.contains
is_ancestor-Decides d a b ne = rw (differ) (
    ancestor_search-Decides (search_fuel d.blocks) d.blocks b a (b ∷ []) []
      (start-Searches d.blocks b) none_visited (enough_fuel d.blocks b))
  where
    differ : eqb a b ≡ false
    differ = ground (arith, eqb_iff a b)

    none_visited : Misses d.blocks a []
    none_visited v h = absurd (false_true h)
      where
        false_true : false ≡ true → ⊥
        false_true h = cc
