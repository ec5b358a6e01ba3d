-- ===== src/State/Tests.antt =====
-- Blocks, rollbacks, prunings and witnesses of state_manager.rs on concrete inputs.
use klomang_network.Prelude.{
  ℕ, zero, suc, ◌+◌, ◌≤◌, ◌≡◌, false, none, some, [], ◌∷◌, length, arith, refl, ap, pair_eq, nat_eq,
  All, ◌&&◌,
}
use klomang_network.Prelude.Map.{Map, lookup, contains_key, IsMap}
use klomang_network.Prelude.Set
use klomang_network.Prelude.Result.{Result, ok}
use klomang_network.Emission.{u128_max}
use klomang_network.Transaction.{hash_with_index, is_coinbase, serialize, deserialize}
use klomang_network.Prelude.Bytes.{be_bytes, from_be_bytes}
use klomang_network.Prelude.Map
use klomang_network.Utxo.{OutPoint, UtxoSet, zero_bytes}
use klomang_network.Utxo.Validate.{sum_values}
use klomang_network.Utxo.Value.{total_value}
use klomang_network.Verkle
use klomang_network.State
use klomang_network.Samples.{
  block_of, spend, toy, toy_curve, idle_vm, genesis, genesis-IsManager, spending, one_coin,
  empty_storage,
}
use klomang_network.State.{
  apply_contract_transition, payload_cost, run_contract, charge_gas, execute, run_host, host_key,
  HostRun, finished, state_write, self_destruct, BlockUndo, PruneMarker, StateManager, apply_block,
  apply_taken, apply_transactions, apply_transaction, apply_utxo_transaction, spend_inputs,
  spend_input, create_outputs, create_output, start, commit_block, StateManagerError,
  create_gas_fee_witness,
}
use klomang_network.State.Connect.{
  split_plan, perform_reorganization, validate_block_stateful, root_matches, no_double_spend,
  no_inflation, all_present, total_input, total_output, total_output_with_fee,
}
use klomang_network.State.Covered.{IsCovered, validate_block_stateful-IsCovered}
use klomang_network.State.Reorganize.{perform_reorganization-IsManager}
use klomang_network.State.Supply.{IsBacked, created_value, disconnect_block-supply}
use klomang_network.State.Prune.{
  execute_pruning_cycle, keys_to_prune, prune_outpoints, forget_outpoint,
  rebuild_state_root_and_prune_proofs,
}
use klomang_network.State.Pruned.{is_due, IsSwept, execute_pruning_cycle-IsSwept}
use klomang_network.State.Markers.{rebuild_state_root_and_prune_proofs_lem}
use mathlib.Core.List.{List, Perm}
use klomang_network.Prelude.{◌++◌}
use klomang_network.Verkle.Proofs.{membership}
use klomang_network.State.Witness.{
  ExecutionWitnessEntry, ExecutionWitness, serialize_compact, deserialize_compact,
}
use klomang_network.State.Compact.{IsEntry, reread_entries, deserialize_compact-serialize_compact}
use klomang_network.State.Invariant.{IsManager}
use klomang_network.Dag.{Dag, BlockNode, get_block}
use klomang_network.State.Atomic.{Outcome, apply_block-atomic, apply_block-IsManager}
use klomang_network.State.Undo.{disconnect_block}
use klomang_network.State.Reverse.{IsReversed, disconnect_block-apply_block}

applied_fine : (apply_block toy toy_curve idle_vm spending genesis one_coin).0 ≡ ok tt
unfolding apply_block apply_taken apply_transactions apply_transaction apply_utxo_transaction
    spend_inputs spend_input create_outputs create_output start commit_block
    Verkle.apply_state_transition Verkle.burns Verkle.new Verkle.get_root State.new lookup serialize
    deserialize be_bytes from_be_bytes hash_with_index Map.insert Map.erase
applied_fine = refl

idle : genesis.applying_block ≡ false
unfolding State.new
idle = refl

-- A contract that writes a key and destroys it, and a block that calls it.
abbrev razing_vm : List ℕ → ℕ → HostRun
razing_vm payload gas_limit =
    state_write (1 ∷ []) (9 ∷ []) (λ is_new. self_destruct (1 ∷ []) (finished 21_000))

abbrev calling : BlockNode
calling = block_of 1 [] (record spend { execution_payload = 1 ∷ []; gas_limit = 30_000 } ∷ [])

abbrev called : Result StateManagerError (Unit {0}) × StateManager × UtxoSet
called = apply_block toy toy_curve razing_vm calling genesis one_coin

called_fine : called.0 ≡ ok tt
unfolding apply_block apply_taken apply_transactions apply_transaction apply_utxo_transaction
    spend_inputs spend_input create_outputs create_output start commit_block
    apply_contract_transition payload_cost run_contract charge_gas execute run_host host_key
    Verkle.get Verkle.get_node_value Verkle.insert_key Verkle.invalidate_path_cache Verkle.prune_key
    Verkle.node_exists Verkle.ensure_path Verkle.ensure_node Verkle.set_node_value
    Verkle.apply_state_transition Verkle.burns Verkle.new Verkle.get_root State.new lookup serialize
    deserialize be_bytes from_be_bytes hash_with_index Map.insert Map.erase Set.contains
    Verkle.recompute_root
called_fine = refl

apply_block-atomic_example : Outcome toy toy_curve razing_vm calling genesis one_coin called
apply_block-atomic_example =
    apply_block-atomic toy toy_curve razing_vm calling genesis one_coin genesis-IsManager idle

abbrev after : Result StateManagerError (Unit {0}) × StateManager × UtxoSet
after = apply_block toy toy_curve idle_vm spending genesis one_coin

abbrev undone : Result StateManagerError (Unit {0}) × StateManager × UtxoSet
undone = disconnect_block toy spending after.1 after.2

disconnect_block-apply_block_example :
    (undo : BlockUndo) × (lookup 1 after.1.block_undo_data ≡ some undo)
    × (undone.0 ≡ ok tt)
    × IsReversed undo genesis undone.1 one_coin undone.2
disconnect_block-apply_block_example =
    disconnect_block-apply_block toy toy_curve idle_vm spending genesis one_coin genesis-IsManager
      idle applied_fine

one_coin-IsBacked : IsBacked genesis one_coin.utxos
unfolding total_value State.new lookup
one_coin-IsBacked = record { keyed = (refl, tt); backed = omega arith }

room : genesis.current_total_supply + created_value spending.transactions ≤ u128_max
unfolding created_value sum_values
room = omega arith

disconnect_block-supply_example :
    IsBacked after.1 after.2.utxos × (undone.1.current_total_supply ≡ genesis.current_total_supply)
disconnect_block-supply_example =
    disconnect_block-supply toy toy_curve idle_vm spending genesis one_coin genesis-IsManager idle
      one_coin-IsBacked room applied_fine

-- A graph with the block that was applied and another; the plan takes the first off.
abbrev two_blocks : Dag
two_blocks = record { blocks = (1, spending) ∷ (2, block_of 2 [] []) ∷ []; tips = 2 ∷ [] }

taken_off : (split_plan two_blocks after.1.block_undo_data false (1 ∷ 2 ∷ [])).0 ≡ spending ∷ []
unfolding split_plan get_block lookup apply_block apply_taken apply_transactions apply_transaction
    apply_utxo_transaction spend_inputs spend_input create_outputs create_output start commit_block
    Verkle.apply_state_transition Verkle.burns Verkle.new Verkle.get_root State.new serialize
    deserialize be_bytes from_be_bytes hash_with_index Map.insert Map.erase
taken_off = refl

one_off :
    length (split_plan two_blocks after.1.block_undo_data false (1 ∷ 2 ∷ [])).0
    ≤ after.1.current_height
unfolding apply_block apply_taken apply_transactions apply_transaction apply_utxo_transaction
    spend_inputs spend_input create_outputs create_output start commit_block
    Verkle.apply_state_transition Verkle.burns Verkle.new Verkle.get_root State.new lookup serialize
    deserialize be_bytes from_be_bytes hash_with_index Map.insert Map.erase
one_off = rw taken_off (omega arith)

perform_reorganization-IsManager_example :
    IsManager toy_curve
      (perform_reorganization toy toy_curve idle_vm two_blocks (1 ∷ 2 ∷ []) after.1 after.2).1
perform_reorganization-IsManager_example =
    perform_reorganization-IsManager toy toy_curve idle_vm two_blocks (1 ∷ 2 ∷ []) after.1 after.2
      (apply_block-IsManager toy toy_curve idle_vm spending genesis one_coin genesis-IsManager)
      one_off

passed : (validate_block_stateful toy_curve spending genesis one_coin).0 ≡ ok tt
unfolding validate_block_stateful root_matches no_double_spend no_inflation all_present total_input
    total_output total_output_with_fee is_coinbase lookup
passed = refl

validate_block_stateful-IsCovered_example : All (IsCovered one_coin.utxos) spending.transactions
validate_block_stateful-IsCovered_example =
    validate_block_stateful-IsCovered toy_curve spending genesis one_coin passed

-- A manager whose tree has one short key, for the coin.
abbrev marked : StateManager
marked = record genesis {
  tree = Verkle.insert_key (1 ∷ []) (9 ∷ []) (Verkle.new empty_storage);
  outpoint_to_key = ((7, 0), 1 ∷ []) ∷ [];
  prune_markers = ((7, 0), record { epoch = 3; timestamp = 5 }) ∷ [];
}

swept : (execute_pruning_cycle 4 marked one_coin).0 ≡ ok ((7, 0) ∷ [])
unfolding execute_pruning_cycle keys_to_prune prune_outpoints forget_outpoint Verkle.prune_key
    Verkle.node_exists Verkle.insert_key Verkle.new Verkle.invalidate_path_cache
    Verkle.set_node_value Verkle.ensure_path Verkle.ensure_node lookup Map.insert
swept = refl

marked-IsMap : IsMap marked.prune_markers
unfolding lookup
marked-IsMap = (refl, tt)

execute_pruning_cycle-IsSwept_example :
    (Set.contains {A = OutPoint} ((7, 0) ∷ []) (7, 0)
      ≡ is_due 4 (7, 0) marked.prune_markers && contains_key (7, 0) marked.outpoint_to_key)
    × IsSwept
        (7, 0)
        (is_due 4 (7, 0) marked.prune_markers && contains_key (7, 0) marked.outpoint_to_key)
        marked
        (execute_pruning_cycle 4 marked one_coin).1
        one_coin.utxos
        (execute_pruning_cycle 4 marked one_coin).2.utxos
execute_pruning_cycle-IsSwept_example =
    execute_pruning_cycle-IsSwept 4 marked one_coin ((7, 0) ∷ []) (7, 0) marked-IsMap swept

markers : ℕ → Map OutPoint PruneMarker
markers zero = []
markers (suc n) = ((n, 0), record { epoch = n; timestamp = n }) ∷ markers n

length-markers : (n : ℕ) → length (markers n) ≡ n
unfolding markers
length-markers zero = refl
length-markers (suc n) = ap suc (length-markers n)

abbrev crowded : StateManager
crowded = record genesis { prune_markers = markers 1001 }

rebuild_state_root_and_prune_proofs_lem_example :
    let (count, after) = rebuild_state_root_and_prune_proofs crowded in
    (dropped : List (OutPoint × PruneMarker)) × (length after.prune_markers ≡ 1000)
    × (length dropped ≡ count)
    × Perm (after.prune_markers ++ dropped) crowded.prune_markers
    × All (λ e. All (λ e'. e.1.timestamp ≤ e'.1.timestamp) dropped) after.prune_markers
rebuild_state_root_and_prune_proofs_lem_example =
    rebuild_state_root_and_prune_proofs_lem crowded (omega (arith, length-markers 1001))

abbrev entry : ExecutionWitnessEntry ℕ
entry = record {
  key = zero_bytes 32;
  value = some (1 ∷ 2 ∷ []);
  proof = record {
    proof_type = membership;
    path = zero_bytes 32;
    siblings = zero_bytes 32 ∷ [];
    leaf_value = none;
    root = zero_bytes 32;
    opening_proofs = 5 ∷ [];
    gas_fee_distribution =
        some (record { total_gas_fee = 100; miner_share = 80; fullnode_share = 20 });
  };
}

abbrev witness : ExecutionWitness ℕ
witness = record { root = zero_bytes 32; entries = entry ∷ [] }

entry-IsEntry : IsEntry entry
entry-IsEntry = record {
  key = refl;
  value = omega arith;
  path = omega arith;
  count = omega arith;
  siblings = (refl, tt);
  root = refl;
  leaf = tt;
  fee = (omega arith, omega arith, omega arith);
}

deserialize_compact-serialize_compact_example :
    deserialize_compact (serialize_compact witness)
    ≡ ok (record witness { entries = reread_entries (entry ∷ []) })
deserialize_compact-serialize_compact_example =
    deserialize_compact-serialize_compact witness refl (omega arith) (entry-IsEntry, tt)
