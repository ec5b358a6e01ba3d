-- ===== src/State.antt =====
-- The state manager: klomang-core/src/core/state_manager.rs, with the marks of state/mod.rs and the
-- host functions of vm/executor.rs.
pub mod Frames
pub mod Atomic
pub mod Snapshots
pub mod Invariant
pub mod Restore
pub mod Rollback
pub mod Undo
pub mod Connect
pub mod Reorganize
pub mod Covered
pub mod Reverse
pub mod Supply
pub mod Prune
pub mod Pruned
pub mod Markers
pub mod Fees
pub mod Witness
pub mod Compact
mod Tests
use klomang_network.Prelude.{
  ℕ, zero, suc, ◌+◌, ◌-◌, ◌*◌, ◌/◌, ◌%◌, ◌^◌, min, Bool, true, false, not, ◌&&◌, Option, none, some,
  List, [], ◌∷◌, ◌++◌, eqb, ltb, leb, length, get_elem?, if◌then◌else◌, nat_eq, pair_eq, is_some,
}
use klomang_network.Prelude.Map.{Map, lookup, insert, erase, contains_key}
use klomang_network.Prelude.Int.{ℤ, pos, ◌+ℤ◌, ◌-ℤ◌}
use klomang_network.Prelude.Result.{Result, ok, err}
use klomang_network.Crypto.{Crypto}
use klomang_network.Transaction.{
  Transaction, TxInput, TxOutput, hash_with_index, as_bytes, serialize,
}
use klomang_network.Utxo.{OutPoint, UtxoSet, outpoint, u64_max}
use klomang_network.Emission.{u128_max}
use klomang_network.Reward.{miner_reward_percent, saturating}
use klomang_network.Dag.{BlockNode}
pub use klomang_network.Verkle.{GasFeeWitness}
use klomang_network.Verkle.{
  Curve, MemoryStorage, VerkleTree, TreeError, get, get_root, clone, insert_key, storage_clone,
  apply_state_transition, key_size, prune_key,
}

pub record StateSnapshot : Type 0 where
  pub height : ℕ
  pub root : ℕ
  pub total_supply : ℕ
  pub gas_fees : List GasFeeWitness
  pub last_block_hash : Option ℕ

pub record PruneMarker : Type 0 where
  pub epoch : ℕ
  pub timestamp : ℕ

pub record BlockUndo : Type 0 where
  pub spent_utxos : List (OutPoint × TxOutput)
  pub created_utxos : List OutPoint
  pub verkle_updates : List (List ℕ × Option (List ℕ))
  pub total_supply_delta : ℤ
  pub gas_fees_added : List GasFeeWitness

-- The texts of `ApplyBlockFailed`.
pub data ApplyFault : Type 0 where
  concurrent_application missing_utxo insufficient_gas vm_failed transition_failed : ApplyFault
  validation_failed no_undo_data height_mismatch length_mismatch supply_mismatch root_differs :
      ApplyFault

-- The texts of `RestoreFailed`.
pub data RestoreFault : Type 0 where
  storage_missing root_mismatch corruption : RestoreFault

-- The errors; `panicked` stands for an index out of range, where the program stops.
pub data StateManagerError : Type 0 where
  invalid_rollback : StateManagerError
  snapshot_not_found : ℕ → StateManagerError
  apply_block_failed : ApplyFault → StateManagerError
  restore_failed : RestoreFault → StateManagerError
  cryptographic_error : TreeError → StateManagerError
  supply_cap_exceeded : StateManagerError
  panicked : StateManagerError

pub record StateManager : Type 0 where
  pub tree : VerkleTree
  pub current_height : ℕ
  pub snapshots : List StateSnapshot
  pub snapshot_storages : List MemoryStorage
  pub prune_markers : Map OutPoint PruneMarker
  pub outpoint_to_key : Map OutPoint (List ℕ)
  pub current_total_supply : ℕ
  pub block_gas_fees : List GasFeeWitness
  pub pending_updates : List (List ℕ × List ℕ)
  pub applying_block : Bool
  pub block_undo_data : Map ℕ BlockUndo
  pub current_block_hash : Option ℕ

-- What a contract's run asks of the manager by the three host functions, and the gas it used or its
-- failure: the engine that runs the code is a crate, and gives such a run for a payload and a gas
-- limit. A write tells whether the key is new, as the charge for it depends on that.
pub data HostRun : Type 0 where
  finished : ℕ → HostRun
  failed : HostRun
  state_read : List ℕ → (Option (List ℕ) → HostRun) → HostRun
  state_write : List ℕ → List ℕ → (Bool → HostRun) → HostRun
  self_destruct : List ℕ → HostRun → HostRun

-- The manager, the unspent outputs and the undo data while a block is applied.
pub record Work : Type 0 where
  pub manager : StateManager
  pub utxo : Map OutPoint TxOutput
  pub undo : BlockUndo

-- The product wraps at 128 bits.
unfoldable pub create_gas_fee_witness : ℕ → GasFeeWitness
create_gas_fee_witness total_gas_fee =
    let miner_share = total_gas_fee * miner_reward_percent % 2 ^ 128 / 100 in
    record {
      total_gas_fee = total_gas_fee;
      miner_share = miner_share;
      fullnode_share = total_gas_fee - miner_share;
    }

-- The key of the tree for the bytes that a contract names: itself, or the digest of another length.
unfoldable pub host_key : Crypto → List ℕ → List ℕ
host_key c key = if eqb (length key) key_size then key else as_bytes (c.blake3 key)

-- The host functions in turn, with the gas used where none of them stops the run: a key that the
-- tree refuses to read does, and an error of a pruning is dropped.
unfoldable pub run_host : Crypto → HostRun → VerkleTree → Option ℕ × VerkleTree
run_host c (finished gas) t = (some gas, t)
run_host c failed t = (none, t)
run_host c (state_read key next) t = elim (get (host_key c key) t) [
  | err e ↦ (none, t)
  | ok value ↦ run_host c (next value) t
]
run_host c (state_write key value next) t = elim (get (host_key c key) t) [
  | err e ↦ (none, t)
  | ok existing ↦ run_host c (next (not (is_some existing))) (insert_key (host_key c key) value t)
]
run_host c (self_destruct key next) t = run_host c next (prune_key (host_key c key) t).1

-- The tree at the end of a contract's run, which is the one before where the run fails.
unfoldable pub execute : Crypto → HostRun → VerkleTree → Option ℕ × VerkleTree
execute c run t =
    let (gas, tree) = run_host c run t in
    elim gas [ none ↦ (none, clone t) | some used ↦ (some used, tree) ]

-- `self.tree.get(key).ok().flatten()`
unfoldable pub old_value : List ℕ → VerkleTree → Option (List ℕ)
old_value key t = elim (get key t) [ ok value ↦ value | err e ↦ none ]

-- One input that is in the set.
unfoldable pub spend_input : OutPoint → TxOutput → Work → Work
spend_input k o w = record {
  manager = record w.manager {
    current_total_supply = w.manager.current_total_supply - o.value;
    outpoint_to_key = erase k w.manager.outpoint_to_key;
    prune_markers = erase k w.manager.prune_markers;
  };
  utxo = erase k w.utxo;
  undo = record w.undo {
    spent_utxos = w.undo.spent_utxos ++ (k, o) ∷ [];
    total_supply_delta = w.undo.total_supply_delta -ℤ pos o.value;
  };
}

unfoldable pub spend_inputs : List TxInput → Work → Result StateManagerError (Unit {0}) × Work
spend_inputs [] w = (ok tt, w)
spend_inputs (i ∷ is) w = elim (lookup (outpoint i) w.utxo) [
  | none ↦ (err (apply_block_failed missing_utxo), w)
  | some o ↦ spend_inputs is (spend_input (outpoint i) o w)
]

-- `calldata`: four for a zero byte and sixteen for another, in u64.
unfoldable pub payload_cost : ℕ → List ℕ → ℕ
payload_cost acc [] = acc
payload_cost acc (byte ∷ bytes) =
    payload_cost ((acc + (if eqb byte 0 then 4 else 16)) % 2 ^ 64) bytes

module _ (c : Crypto) where
  -- One output, at the index given.
  unfoldable pub create_output : Transaction → ℕ → TxOutput → Work → Work
  create_output tx index o w =
      let key = as_bytes (hash_with_index c tx (index % 2 ^ 32)) in
      let k : OutPoint = (tx.id, index % 2 ^ 32) in
      record {
        manager = record w.manager {
          pending_updates = w.manager.pending_updates ++ (key, serialize o) ∷ [];
          outpoint_to_key = insert k key w.manager.outpoint_to_key;
          current_total_supply = saturating (w.manager.current_total_supply + o.value);
        };
        utxo = insert k o w.utxo;
        undo = record w.undo {
          verkle_updates = w.undo.verkle_updates ++ (key, old_value key w.manager.tree) ∷ [];
          created_utxos = w.undo.created_utxos ++ k ∷ [];
          total_supply_delta = w.undo.total_supply_delta +ℤ pos o.value;
        };
      }

  unfoldable pub create_outputs : Transaction → ℕ → List TxOutput → Work → Work
  create_outputs tx index [] w = w
  create_outputs tx index (o ∷ os) w = create_outputs tx (index + 1) os (create_output tx index o w)

  unfoldable pub apply_utxo_transaction :
      Transaction → Work → Result StateManagerError (Unit {0}) × Work
  apply_utxo_transaction tx w =
      let (r, w') = spend_inputs tx.inputs w in
      elim r [ err e ↦ (err e, w') | ok _ ↦ (ok tt, create_outputs tx 0 tx.outputs w') ]

  -- The fee of the gas used, in the manager and in the undo data.
  unfoldable pub charge_gas : ℕ → Transaction → VerkleTree → Work → Work
  charge_gas used tx tree w =
      let fee = create_gas_fee_witness (saturating (used * tx.max_fee_per_gas)) in
      record {
        manager = record w.manager {
          tree = tree;
          block_gas_fees = w.manager.block_gas_fees ++ fee ∷ [];
        };
        utxo = w.utxo;
        undo = record w.undo { gas_fees_added = w.undo.gas_fees_added ++ fee ∷ [] };
      }

  unfoldable pub restore_tree : VerkleTree → Work → Work
  restore_tree tree w = record w { manager = record w.manager { tree = clone tree } }

  -- The part of `apply_contract_transition` after the gas check; what the contract wrote and
  -- pruned stays where it does not fail.
  unfoldable pub run_contract :
      (List ℕ → ℕ → HostRun) → Transaction → Work → Result StateManagerError (Unit {0}) × Work
  run_contract vm tx w =
      let (gas, tree) = execute c (vm tx.execution_payload tx.gas_limit) w.manager.tree in
      elim gas [
        | none ↦ (err (apply_block_failed vm_failed), restore_tree w.manager.tree w)
        | some used ↦ apply_utxo_transaction tx (charge_gas used tx tree w)
      ]

  unfoldable pub apply_contract_transition :
      (List ℕ → ℕ → HostRun) → Transaction → Work → Result StateManagerError (Unit {0}) × Work
  apply_contract_transition vm tx w =
      let required_gas = min (21_000 + payload_cost 0 tx.execution_payload) u64_max in
      let run = run_contract vm tx w in
      if ltb tx.gas_limit required_gas then (err (apply_block_failed insufficient_gas), w) else run

  unfoldable pub apply_transaction :
      (List ℕ → ℕ → HostRun) → Transaction → Work → Result StateManagerError (Unit {0}) × Work
  apply_transaction vm tx w =
      if eqb (length tx.execution_payload) 0 && not (is_some tx.contract_address)
      then apply_utxo_transaction tx w
      else apply_contract_transition vm tx w

  -- The loop over the transactions, up to the first that fails.
  unfoldable pub apply_transactions :
      (List ℕ → ℕ → HostRun) → List Transaction → Work → Result StateManagerError (Unit {0}) × Work
  apply_transactions vm [] w = (ok tt, w)
  apply_transactions vm (tx ∷ txs) w =
      let (r, w') = apply_transaction vm tx w in
      elim r [ err e ↦ (err e, w') | ok _ ↦ apply_transactions vm txs w' ]

unfoldable pub empty_undo : BlockUndo
empty_undo = record {
  spent_utxos = [];
  created_utxos = [];
  verkle_updates = [];
  total_supply_delta = pos 0;
  gas_fees_added = [];
}

-- The work that a block starts with.
unfoldable pub start : StateManager → Map OutPoint TxOutput → Work
start m utxo = record {
  manager = record m { applying_block = true; pending_updates = []; block_gas_fees = [] };
  utxo = utxo;
  undo = empty_undo;
}

-- The fields that the error branches of `apply_block` set back, and the flag's guard.
unfoldable pub roll_back : StateManager → StateManager → StateManager
roll_back before m = record m {
  tree = clone before.tree;
  current_height = before.current_height;
  current_total_supply = before.current_total_supply;
  block_gas_fees = before.block_gas_fees;
  pending_updates = before.pending_updates;
  prune_markers = before.prune_markers;
  outpoint_to_key = before.outpoint_to_key;
  current_block_hash = before.current_block_hash;
  applying_block = false;
}

-- The end of `apply_block`, on the tree after the transition.
unfoldable pub commit_block :
    Curve → BlockNode → VerkleTree → Work → Result StateManagerError (Unit {0}) × StateManager
commit_block k block tree w =
    let m = w.manager in
    let (root, tree') = get_root k tree in
    let height = m.current_height + 1 in
    let snapshot : StateSnapshot = record {
      height = height;
      root = root;
      total_supply = m.current_total_supply;
      gas_fees = m.block_gas_fees;
      last_block_hash = some block.header.id;
    } in
    let stepped : StateManager = record m {
      tree = tree';
      current_height = height;
      current_block_hash = some block.header.id;
      applying_block = false;
    } in
    elim (get_elem? m.snapshots m.current_height) [
      | none ↦ (err panicked, stepped)
      | some old ↦ (
        ok tt,
        record stepped {
          snapshots = m.snapshots ++ snapshot ∷ [];
          snapshot_storages = m.snapshot_storages ++ storage_clone tree' ∷ [];
          block_undo_data = insert block.header.id w.undo m.block_undo_data;
        },
      )
    ]

-- `apply_block` from where the flag was taken.
unfoldable pub apply_taken :
    Crypto
    → Curve
    → (List ℕ → ℕ → HostRun)
    → BlockNode
    → StateManager
    → UtxoSet
    → Result StateManagerError (Unit {0}) × StateManager × UtxoSet
apply_taken c k vm block m u =
    let (r, w) = apply_transactions c vm block.transactions (start m u.utxos) in
    let (r', tree) =
      apply_state_transition w.manager.pending_updates w.manager.current_total_supply
        w.manager.tree in
    let (r'', m'') = commit_block k block tree w in
    elim r [
      | err e ↦ (err e, roll_back m w.manager, u)
      | ok _ ↦ elim r' [
        | err e ↦ (err (apply_block_failed transition_failed), roll_back m w.manager, u)
        | ok _ ↦ (r'', m'', record { utxos = w.utxo })
      ]
    ]

unfoldable pub apply_block :
    Crypto
    → Curve
    → (List ℕ → ℕ → HostRun)
    → BlockNode
    → StateManager
    → UtxoSet
    → Result StateManagerError (Unit {0}) × StateManager × UtxoSet
apply_block c k vm block m u =
    let taken = apply_taken c k vm block m u in
    if m.applying_block then (err (apply_block_failed concurrent_application), m, u) else taken

-- `StateManager::new`
unfoldable pub new : Curve → VerkleTree → StateManager
new k t =
    let (root, tree) = get_root k t in
    record {
      tree = tree;
      current_height = 0;
      snapshots =
          record {
            height = 0;
            root = root;
            total_supply = 0;
            gas_fees = [];
            last_block_hash = none;
          }
          ∷ [];
      snapshot_storages = storage_clone tree ∷ [];
      prune_markers = [];
      outpoint_to_key = [];
      current_total_supply = 0;
      block_gas_fees = [];
      pending_updates = [];
      applying_block = false;
      block_undo_data = [];
      current_block_hash = none;
    }
