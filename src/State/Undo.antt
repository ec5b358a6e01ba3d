-- ===== src/State/Undo.antt =====
-- A block taken off the chain: `disconnect_block` of state_manager.rs.
use klomang_network.Prelude.{
  ℕ, ◌+◌, ◌-◌, Option, none, some, List, [], ◌∷◌, ◌++◌, ltb, if◌then◌else◌, nat_eq, pair_eq,
}
use klomang_network.Prelude.Map.{Map, lookup, insert, erase}
use klomang_network.Prelude.Bytes.{le_bytes}
use klomang_network.Prelude.Int.{ℤ, pos_part, neg_part}
use klomang_network.Prelude.Result.{Result, ok, err}
use klomang_network.Crypto.{Crypto}
use klomang_network.Transaction.{TxOutput, as_bytes}
use klomang_network.Utxo.{OutPoint, UtxoSet}
use klomang_network.Reward.{saturating}
use klomang_network.Dag.{BlockNode}
use klomang_network.Verkle.{VerkleTree, insert_key}
use klomang_network.State.{
  StateManager, StateManagerError, BlockUndo, GasFeeWitness, apply_block_failed, no_undo_data,
}

unfoldable pub erase_created : List OutPoint → Map OutPoint TxOutput → Map OutPoint TxOutput
erase_created [] m = m
erase_created (k ∷ ks) m = erase_created ks (erase k m)

unfoldable pub erase_keys : List OutPoint → Map OutPoint (List ℕ) → Map OutPoint (List ℕ)
erase_keys [] m = m
erase_keys (k ∷ ks) m = erase_keys ks (erase k m)

unfoldable pub insert_spent :
    List (OutPoint × TxOutput) → Map OutPoint TxOutput → Map OutPoint TxOutput
insert_spent [] m = m
insert_spent ((k, o) ∷ r) m = insert_spent r (insert k o m)

-- The key that `disconnect_block` makes for a spent output, with the index in little-endian order.
unfoldable pub recreated_key : Crypto → OutPoint → List ℕ
recreated_key c (id, index) = as_bytes (c.blake3 (as_bytes id ++ le_bytes 4 index))

unfoldable pub insert_keys :
    Crypto → List (OutPoint × TxOutput) → Map OutPoint (List ℕ) → Map OutPoint (List ℕ)
insert_keys c [] m = m
insert_keys c ((k, _) ∷ r) m = insert_keys c r (insert k (recreated_key c k) m)

-- The loop over the updates in reverse; a key that was new is given the empty value.
unfoldable pub reverse_updates : List (List ℕ × Option (List ℕ)) → VerkleTree → VerkleTree
reverse_updates [] t = t
reverse_updates ((key, old) ∷ r) t =
    let t' = reverse_updates r t in
    elim old [ some v ↦ insert_key key v t' | none ↦ insert_key key [] t' ]

unfoldable pub pop {ℓ} : {A : Type ℓ} → List A → List A
pop [] = []
pop (x ∷ xs) = let rest = pop xs in elim xs [ [] ↦ [] | _ ↦ x ∷ rest ]

unfoldable pub pop_each : List GasFeeWitness → List GasFeeWitness → List GasFeeWitness
pop_each [] fees = fees
pop_each (f ∷ fs) fees = pop_each fs (pop fees)

unfoldable pub reverse_supply : ℤ → ℕ → ℕ
reverse_supply delta supply =
    if ltb 0 (pos_part delta) then supply - pos_part delta else saturating (supply + neg_part delta)

-- The steps on the manager, with the undo data of the block.
unfoldable pub reversed : Crypto → ℕ → BlockUndo → StateManager → StateManager
reversed c id undo m = record m {
  tree = reverse_updates undo.verkle_updates m.tree;
  outpoint_to_key =
      insert_keys c undo.spent_utxos (erase_keys undo.created_utxos m.outpoint_to_key);
  current_total_supply = reverse_supply undo.total_supply_delta m.current_total_supply;
  block_gas_fees = pop_each undo.gas_fees_added m.block_gas_fees;
  current_height = m.current_height - 1;
  snapshots = pop m.snapshots;
  snapshot_storages = pop m.snapshot_storages;
  block_undo_data = erase id m.block_undo_data;
}

unfoldable pub disconnect_block :
    Crypto
    → BlockNode
    → StateManager
    → UtxoSet
    → Result StateManagerError (Unit {0}) × StateManager × UtxoSet
disconnect_block c block m u = elim (lookup block.header.id m.block_undo_data) [
  | none ↦ (err (apply_block_failed no_undo_data), m, u)
  | some undo ↦ (
    ok tt,
    reversed c block.header.id undo m,
    record { utxos = insert_spent undo.spent_utxos (erase_created undo.created_utxos u.utxos) },
  )
]
