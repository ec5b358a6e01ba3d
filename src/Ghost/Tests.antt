-- ===== src/Ghost/Tests.antt =====
-- A graph of two branches, through consensus/ghostdag.rs.
use klomang_network.Prelude.{ℕ, ◌≡◌, ◌⊎◌, refl, true, false, none, some, List, [], ◌∷◌, nat_eq}
use klomang_network.Prelude.Map.{contains_key}
use klomang_network.Prelude.Set
use klomang_network.Samples.{block_of}
use klomang_network.Dag.{Dag, new, add_block}
use klomang_network.Dag.Cones.{get_anticone}
use klomang_network.Ghost.{GhostDag, select_parent, build_blue_set}
use klomang_network.Ghost.Choice.{IsChosen, select_parent-IsChosen}
use klomang_network.Ghost.Colours.{Coloured}
use klomang_network.Ghost.Clusters.{passed_on, IsDecided, build_blue_set-IsDecided}
use klomang_network.Ghost.Rewritten.{Rewritten}
use klomang_network.Prelude.Result.{ok}
use klomang_network.Prelude.Map.{lookup, insert}
use klomang_network.Prelude.Bytes.{be_bytes, le_bytes, from_be_bytes}
use klomang_network.Pow.{calculate_hash, is_valid_pow, from_le_bytes, is_empty}
use klomang_network.Transaction.{calculate_id, id_bytes}
use klomang_network.Dag.{all_stored}
use klomang_network.Verkle.{
  get, get_node_value, invalidate_path_cache, ensure_path, ensure_node, set_node_value, node_exists,
  deserialize_node, serialize_node,
}
use klomang_network.Ghost.Validate.{
  validate_transactions, check_transactions, insert_spends, collect_transaction_signatures,
  batch_verify, validate_verkle_proof, inputs_present, outputs_free, outpoint_key, pow_passes,
  compute_transaction_merkle_root, merkle_rounds, tx_ids,
}
use klomang_network.Samples.{toy, spend, empty_storage}
use klomang_network.Transaction.{Transaction}
use klomang_network.Utxo.{zero_bytes}
use klomang_network.Dag.{BlockNode}
use klomang_network.Verkle
use klomang_network.Verkle.{VerkleTree, insert_key}
use klomang_network.Ghost.Validate.{validate_block}
use klomang_network.Ghost.Valid.{IsValid, validate_block-IsValid}
use klomang_network.Prelude.{leb}
use klomang_network.Prelude.Sort.{sort, insert_in_order}
use klomang_network.Dag.{get_all_hashes, get_tips, keys}
use klomang_network.Ghost.{VirtualBlock, build_virtual_block, finality_depth}
use klomang_network.Ghost.Reorganize.{can_reorganize, depth_to, Leads, can_reorganize-Leads}

abbrev root : Dag
root = (add_block new (block_of 1 [] [])).1

abbrev left : Dag
left = (add_block root (block_of 2 (1 ∷ []) [])).1

abbrev fork : Dag
fork = (add_block left (block_of 3 (1 ∷ []) [])).1

abbrev narrow : GhostDag
narrow = record { k = 1 }

select_parent-IsChosen_example :
    ((h : ℕ) × (select_parent fork (3 ∷ 2 ∷ []) ≡ some h) × IsChosen fork (3 ∷ 2 ∷ []) h)
    ⊎ ((select_parent fork (3 ∷ 2 ∷ []) ≡ none)
        × ((p : ℕ) → Set.contains (3 ∷ 2 ∷ []) p ≡ true → contains_key p fork.blocks ≡ false))
select_parent-IsChosen_example = select_parent-IsChosen fork (3 ∷ 2 ∷ [])

build_blue_set-IsDecided_example :
    (start : List ℕ) × (candidates : List ℕ) × (blue : List ℕ) × (red : List ℕ) × ((x : ℕ)
      → Set.contains start x ≡ passed_on fork 2 x)
    × (get_anticone fork 2 ≡ some candidates)
    × (build_blue_set narrow fork 2 ≡ some (blue, red))
    × Coloured 1 fork start candidates blue red
    × IsDecided 1 fork (passed_on fork 2) candidates blue red
build_blue_set-IsDecided_example = build_blue_set-IsDecided narrow fork 2

-- A transaction that its own digest names, and a tree with the value that it spends.
abbrev payment : Transaction
payment = record spend { id = 0; outputs = [] }

abbrev stocked : VerkleTree
stocked = insert_key (zero_bytes 32) (9 ∷ []) (Verkle.new empty_storage)

abbrev seed : Dag
seed = record { blocks = (1, block_of 1 [] []) ∷ []; tips = 1 ∷ [] }

abbrev fresh_block : BlockNode
fresh_block = record (block_of 2 (1 ∷ []) (payment ∷ [])) {
  header = record (block_of 2 (1 ∷ []) []).header { timestamp = 100; difficulty = 10 };
}

fresh_block-accepted : validate_block toy seed stocked 100 fresh_block ≡ ok tt
unfolding validate_block validate_transactions check_transactions insert_spends Set.contains lookup
    collect_transaction_signatures batch_verify validate_verkle_proof inputs_present outputs_free
    outpoint_key pow_passes compute_transaction_merkle_root merkle_rounds tx_ids calculate_hash
    is_valid_pow from_le_bytes calculate_id id_bytes get get_node_value insert_key all_stored
    invalidate_path_cache ensure_path ensure_node set_node_value Verkle.new insert be_bytes le_bytes
    is_empty node_exists deserialize_node serialize_node from_be_bytes
fresh_block-accepted = refl

validate_block-IsValid_example : IsValid toy seed stocked 100 fresh_block
validate_block-IsValid_example =
    validate_block-IsValid toy seed stocked 100 fresh_block fresh_block-accepted

stays : can_reorganize narrow seed 1 ≡ some (ok true)
unfolding can_reorganize depth_to build_virtual_block get_all_hashes get_tips keys sort
    insert_in_order lookup Set.contains
stays = refl

can_reorganize-Leads_example :
    (v : VirtualBlock) × (n : ℕ) × (build_virtual_block narrow seed ≡ some v)
    × Leads seed v.parents n (some 1)
    × (true ≡ leb n finality_depth)
can_reorganize-Leads_example = can_reorganize-Leads narrow seed 1 true stays
