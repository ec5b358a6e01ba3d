-- ===== src/Dag/Tests.antt =====
-- A graph of three blocks, and a fourth, through dag/mod.rs.
use klomang_network.Prelude.{nat_eq, ◌↔◌, ◌≢◌, ℕ, ◌≡◌, refl, true, some, List, [], ◌∷◌}
use klomang_network.Prelude.Map.{contains_key}
use klomang_network.Prelude.Set
use klomang_network.Samples.{block_of}
use klomang_network.Dag.{Dag, new, add_block, get_ancestors}
use klomang_network.Dag.Cones.{get_anticone}
use klomang_network.Dag.Graph.{Ancestor}
use klomang_network.Dag.Anticone.{get_anticone-lem}
use klomang_network.Dag.Insert.{IsLinked-new, IsLinked, add_block-IsLinked}
use klomang_network.Dag.Ancestors.{IsAncestry, get_ancestors-IsAncestry}

abbrev with_two : Dag
with_two = (add_block (add_block new (block_of 1 [] [])).1 (block_of 2 (1 ∷ []) [])).1

two-IsLinked : IsLinked with_two
two-IsLinked =
    add_block-IsLinked (add_block new (block_of 1 [] [])).1 (block_of 2 (1 ∷ []) [])
      (add_block-IsLinked new (block_of 1 [] []) IsLinked-new refl) refl

add_block-IsLinked_example : IsLinked (add_block with_two (block_of 3 (1 ∷ 2 ∷ []) [])).1
add_block-IsLinked_example =
    add_block-IsLinked with_two (block_of 3 (1 ∷ 2 ∷ []) []) two-IsLinked refl

get_ancestors-IsAncestry_example :
    (out : List ℕ) × (get_ancestors with_two 2 ≡ some out) × IsAncestry with_two.blocks 2 out
get_ancestors-IsAncestry_example = get_ancestors-IsAncestry with_two 2

get_anticone-lem_example :
    (out : List ℕ) × (get_anticone with_two 2 ≡ some out)
    × ((k : ℕ)
        → (Set.contains out k ≡ true) ↔ (
            (contains_key k with_two.blocks ≡ true)
            × (k ≢ 2)
            × (¬ Ancestor with_two.blocks k 2)
            × (¬ Ancestor with_two.blocks 2 k)))
get_anticone-lem_example = get_anticone-lem with_two 2 two-IsLinked
