-- ===== src/Dag.antt =====
-- Blocks and the block graph: klomang-core/src/core/dag/block.rs, mod.rs and anticone.rs.
-- Hash sets are lists whose members are tested, so no result rests on their order.
pub mod Graph
pub mod Children
pub mod Insert
pub mod Search
pub mod Cones
pub mod Unseen
pub mod Descent
pub mod Anticone
pub mod Ancestors
mod Tests
use klomang_network.Prelude.{
  ℕ, zero, suc, ◌+◌, nat_eq, Bool, true, false, not, ◌&&◌, ◌||◌, Option, none, some, List, [], ◌∷◌,
  ◌++◌, eqb, ltb, length, if◌then◌else◌,
}
use klomang_network.Prelude.Map.{Map, lookup, insert, erase, contains_key}
use klomang_network.Prelude.Set
use klomang_network.Prelude.Sort.{sort}
use klomang_network.Prelude.Result.{Result, ok, err}
use klomang_network.Transaction.{Transaction}

pub record BlockHeader : Type 0 where
  pub id : ℕ
  pub parents : List ℕ
  pub timestamp : ℕ
  pub difficulty : ℕ
  pub nonce : ℕ
  pub verkle_root : ℕ
  pub verkle_proofs : Option (List ℕ)
  pub signature : Option (List ℕ)

pub record BlockNode : Type 0 where
  pub header : BlockHeader
  pub children : List ℕ
  pub selected_parent : Option ℕ
  pub blue_set : List ℕ
  pub red_set : List ℕ
  pub blue_score : ℕ
  pub transactions : List Transaction

pub record Dag : Type 0 where
  pub blocks : Map ℕ BlockNode
  pub tips : List ℕ

pub data DagError : Type 0 where
  duplicate_block invalid_parent self_parent genesis_exists : DagError

pub new : Dag
new = record { blocks = []; tips = [] }

unfoldable pub keys : Map ℕ BlockNode → List ℕ
keys [] = []
keys ((k, _) ∷ m) = k ∷ keys m

unfoldable pub get_all_hashes : Dag → List ℕ
get_all_hashes d = sort (keys d.blocks)

unfoldable pub get_block : Dag → ℕ → Option BlockNode
get_block d id = lookup id d.blocks

unfoldable pub get_tips : Dag → List ℕ
get_tips d = sort d.tips

-- Every parent is stored.
unfoldable pub all_stored : Map ℕ BlockNode → List ℕ → Bool
all_stored m [] = true
all_stored m (p ∷ ps) = contains_key p m && all_stored m ps

abbrev pub with_child : ℕ → BlockNode → BlockNode
with_child id b = record b { children = Set.insert id b.children }

-- `get_mut` and the change of the children, for each parent in turn.
pub add_child : ℕ → Map ℕ BlockNode → List ℕ → Map ℕ BlockNode
add_child id m [] = m
add_child id m (p ∷ ps) =
    add_child id (elim (lookup p m) [ none ↦ m | some b ↦ insert p (with_child id b) m ]) ps

pub remove_all : List ℕ → List ℕ → List ℕ
remove_all [] tips = tips
remove_all (p ∷ ps) tips = remove_all ps (Set.remove p tips)

abbrev pub is_empty {ℓ} : {A : Type ℓ} → List A → Bool
is_empty [] = true
is_empty (x ∷ xs) = false

-- The graph after an insertion that passes the checks.
pub inserted : Dag → BlockNode → Dag
inserted d block =
    let id = block.header.id in
    let parents = block.header.parents in
    record {
      blocks = add_child id (insert id block d.blocks) (sort parents);
      tips = Set.insert id (remove_all parents d.tips);
    }

pub add_block : Dag → BlockNode → Result DagError Unit × Dag
add_block d block =
    let id = block.header.id in
    let parents = block.header.parents in
    if contains_key id d.blocks
    then (err duplicate_block, d)
    else if Set.contains parents id
    then (err self_parent, d)
    else if is_empty parents && not (is_empty d.blocks)
    then (err genesis_exists, d)
    else if not (all_stored d.blocks parents)
    then (err invalid_parent, d)
    else (ok tt, inserted d block)

-- `Vec::push` of each in turn; the head of the list is the top of the stack.
pub push_all : List ℕ → List ℕ → List ℕ
push_all [] stack = stack
push_all (p ∷ ps) stack = push_all ps (p ∷ stack)

abbrev pub parents_of : Map ℕ BlockNode → ℕ → List ℕ
parents_of m id = elim (lookup id m) [ none ↦ [] | some b ↦ b.header.parents ]

abbrev pub children_of : Map ℕ BlockNode → ℕ → List ℕ
children_of m id = elim (lookup id m) [ none ↦ [] | some b ↦ b.children ]

-- The loop of `is_ancestor`, on fuel: the test of each parent stands before it is pushed, and a
-- hit ends the search, so all of a block's parents are tested at once.
pub ancestor_search : ℕ → Map ℕ BlockNode → ℕ → List ℕ → List ℕ → Option Bool
ancestor_search zero m a stack visited = none
ancestor_search (suc fuel) m a [] visited = some false
ancestor_search (suc fuel) m a (current ∷ stack) visited =
    let parents = sort (parents_of m current) in
    let skip = ancestor_search fuel m a stack visited in
    let on = ancestor_search fuel m a (push_all parents stack) (Set.insert current visited) in
    if Set.contains visited current then skip else if Set.contains parents a then some true else on

pub insert_each : List ℕ → List ℕ → List ℕ
insert_each [] s = s
insert_each (x ∷ xs) s = insert_each xs (Set.insert x s)

-- The loop of `get_ancestors`, on fuel.
pub collect_ancestors : ℕ → Map ℕ BlockNode → List ℕ → List ℕ → List ℕ → Option (List ℕ)
collect_ancestors zero m ancestors stack visited = none
collect_ancestors (suc fuel) m ancestors [] visited = some ancestors
collect_ancestors (suc fuel) m ancestors (current ∷ stack) visited =
    let parents = sort (parents_of m current) in
    let skip = collect_ancestors fuel m ancestors stack visited in
    let on =
      collect_ancestors fuel m (insert_each parents ancestors) (push_all parents stack)
        (Set.insert current visited) in
    if Set.contains visited current then skip else on

-- The parents of all blocks, counted: with two rounds more the searches end.
pub parent_count : Map ℕ BlockNode → ℕ
parent_count [] = 0
parent_count ((_, b) ∷ m) = length b.header.parents + parent_count m

abbrev pub search_fuel : Map ℕ BlockNode → ℕ
search_fuel m = suc (suc (parent_count m))

pub is_ancestor : Dag → ℕ → ℕ → Option Bool
is_ancestor d a b =
    if eqb a b then some false else ancestor_search (search_fuel d.blocks) d.blocks a (b ∷ []) []

pub get_ancestors : Dag → ℕ → Option (List ℕ)
get_ancestors d id = elim (collect_ancestors (search_fuel d.blocks) d.blocks [] (id ∷ []) []) [
  | none ↦ none
  | some ancestors ↦ some (sort ancestors)
]

pub block_exists : Dag → ℕ → Bool
block_exists d id = contains_key id d.blocks

pub get_block_count : Dag → ℕ
get_block_count d = length d.blocks

pub drop_child : ℕ → Map ℕ BlockNode → List ℕ → Map ℕ BlockNode
drop_child id m [] = m
drop_child id m (p ∷ ps) =
    drop_child id
      (elim (lookup p m) [
        | none ↦ m
        | some b ↦ insert p (record b { children = Set.remove id b.children }) m
      ])
      ps

abbrev without_parent : ℕ → BlockNode → BlockNode
without_parent id b = record b {
  header = record (b.header) { parents = Set.remove id b.header.parents };
}

pub drop_parent : ℕ → Map ℕ BlockNode → List ℕ → Map ℕ BlockNode
drop_parent id m [] = m
drop_parent id m (k ∷ ks) =
    drop_parent id (elim (lookup k m) [ none ↦ m | some b ↦ insert k (without_parent id b) m ]) ks

pub remove_block : Dag → ℕ → Dag
remove_block d id = elim (lookup id d.blocks) [
  | none ↦ d
  | some block ↦ record {
    blocks = drop_parent id (drop_child id (erase id d.blocks) block.header.parents) block.children;
    tips = Set.remove id d.tips;
  }
]
