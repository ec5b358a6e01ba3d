-- ===== src/Dag/Cones.antt =====
-- `get_descendants` and `get_anticone`: dag/mod.rs and dag/anticone.rs.
use klomang_network.Prelude.{
  ℕ, zero, suc, ◌+◌, not, ◌&&◌, List, [], ◌∷◌, length, eqb, nat_eq, if◌then◌else◌, Option, none,
  some,
}
use klomang_network.Prelude.Map.{Map}
use klomang_network.Prelude.Set
use klomang_network.Prelude.Sort.{sort}
use klomang_network.Dag.{BlockNode, Dag, children_of, get_all_hashes, get_ancestors}

-- The variables of the loop of `get_descendants`.
pub record Walk : Type 0 where
  pub descendants : List ℕ
  pub stack : List ℕ
  pub visited : List ℕ

abbrev pub with_child_visited : ℕ → Walk → Walk
with_child_visited child w = record {
  descendants = child ∷ w.descendants;
  stack = child ∷ w.stack;
  visited = Set.insert child w.visited;
}

-- The loop over the children; `HashSet::insert` tells whether the child is new.
unfoldable pub visit_children : List ℕ → Walk → Walk
visit_children [] w = w
visit_children (child ∷ children) w =
    visit_children children (if Set.contains w.visited child then w else with_child_visited child w)

-- The loop of `get_descendants`, on fuel.
unfoldable pub collect_descendants :
    ℕ → Map ℕ BlockNode → List ℕ → List ℕ → List ℕ → Option (List ℕ)
collect_descendants zero m descendants stack visited = none
collect_descendants (suc fuel) m descendants [] visited = some descendants
collect_descendants (suc fuel) m descendants (current ∷ stack) visited =
    let w =
      visit_children (sort (children_of m current))
        (record { descendants = descendants; stack = stack; visited = visited }) in
    collect_descendants fuel m w.descendants w.stack w.visited

-- The children of all blocks, counted: with two rounds more the search ends.
unfoldable pub child_count : Map ℕ BlockNode → ℕ
child_count [] = 0
child_count ((_, b) ∷ m) = length b.children + child_count m

unfoldable pub get_descendants : Dag → ℕ → Option (List ℕ)
get_descendants d id =
    elim (collect_descendants (suc (suc (child_count d.blocks))) d.blocks [] (id ∷ []) (id ∷ [])) [
      | none ↦ none
      | some descendants ↦ some (sort descendants)
    ]

-- The hashes that are neither the block's own nor among its ancestors or descendants.
unfoldable pub keep_apart : ℕ → List ℕ → List ℕ → List ℕ → List ℕ
keep_apart id ancestors descendants [] = []
keep_apart id ancestors descendants (hash ∷ hashes) =
    let rest = keep_apart id ancestors descendants hashes in
    if not (eqb hash id)
      && (not (Set.contains ancestors hash) && not (Set.contains descendants hash))
    then hash ∷ rest
    else rest

unfoldable pub get_anticone : Dag → ℕ → Option (List ℕ)
get_anticone d id = elim (get_ancestors d id) [
  | none ↦ none
  | some ancestors ↦ elim (get_descendants d id) [
    | none ↦ none
    | some descendants ↦ some (keep_apart id ancestors descendants (get_all_hashes d))
  ]
]
